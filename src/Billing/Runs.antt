-- ===== src/Billing/Runs.antt =====
-- The operations of the ledger as commands, and the ledgers that sequences of them reach.
use otto_control.Prelude.{none, List, ◌∷◌, [], ◌≡◌, refl, arith}
use otto_control.Errors.{Result, ok, err}
use otto_control.Billing.Tables.{Ledger, refunded_total}
use otto_control.Billing.TopUps.{TopUp, top_up_credits}
use otto_control.Billing.Charges.{Consumption, consume_credits, Refund, refund_credits}
use otto_control.Billing.Holds.{HoldRequest, create_credit_hold}
use otto_control.Billing.Captures.{Capture, capture_credit_hold, Release, release_credit_hold}
use otto_control.Billing.Sums.{held, posted, charged, copies}
use otto_control.Billing.Sound.{IsSound}
use otto_control.Billing.Each.{
  top_up_credits-IsSound, create_credit_hold-IsSound, capture_credit_hold-IsSound,
  release_credit_hold-IsSound, consume_credits-IsSound, refund_credits-IsSound,
}

pub data Command : Type 0 where
  topping_up : TopUp → Command
  holding : HoldRequest → Command
  capturing : Capture → Command
  releasing : Release → Command
  consuming : Consumption → Command
  refunding : Refund → Command

-- The state that a call leaves behind: a failure rolls back.
abbrev pub after {ℓ} : {A : Type ℓ} → Ledger → Result (A × Ledger) → Ledger
after l (ok (r, l')) = l'
after l (err e) = l

unfoldable pub perform : Ledger → Command → Ledger
perform l (topping_up i) = after l (top_up_credits l i)
perform l (holding i) = after l (create_credit_hold l i)
perform l (capturing i) = after l (capture_credit_hold l i)
perform l (releasing i) = after l (release_credit_hold l i)
perform l (consuming i) = after l (consume_credits l i)
perform l (refunding i) = after l (refund_credits l i)

unfoldable pub perform_all : Ledger → List Command → Ledger
perform_all l [] = l
perform_all l (x ∷ xs) = perform_all (perform l x) xs

-- A ledger with customers and rates and nothing else.
abbrev pub opening : Ledger → Ledger
opening l = record l { accounts = λ c o. none; holds = []; transactions = [] }

pub opening-IsSound : (l : Ledger) → IsSound (opening l)
unfolding held posted charged copies refunded_total
opening-IsSound l = record {
  agrees = λ c o. record {
    balanced = refl;
    frozen_held = refl;
    available_posted = refl;
    frozen_posted = refl;
    consumed_posted = refl;
    refunded_posted = refl;
  };
  distinct = λ id. omega arith;
  refundable = λ id. omega arith;
}

-- What one call leaves behind is sound, whether it posts, replays, returns null or fails.
after-IsSound :
    {A : Type 0} (l : Ledger) (m : Result (A × Ledger))
    → IsSound l
    → ((r : A) (l' : Ledger) → m ≡ ok (r, l') → IsSound l')
    → IsSound (after l m)
after-IsSound l (ok (r, l')) s h = h r l' refl
after-IsSound l (err e) s h = s

perform-IsSound : (l : Ledger) (x : Command) → IsSound l → IsSound (perform l x)
unfolding perform
perform-IsSound l (topping_up i) s =
    after-IsSound l (top_up_credits l i) s (λ r l' e. top_up_credits-IsSound l i r l' s e)
perform-IsSound l (holding i) s =
    after-IsSound l (create_credit_hold l i) s (λ r l' e. create_credit_hold-IsSound l i r l' s e)
perform-IsSound l (capturing i) s =
    after-IsSound l (capture_credit_hold l i) s (λ r l' e. capture_credit_hold-IsSound l i r l' s e)
perform-IsSound l (releasing i) s =
    after-IsSound l (release_credit_hold l i) s (λ r l' e. release_credit_hold-IsSound l i r l' s e)
perform-IsSound l (consuming i) s =
    after-IsSound l (consume_credits l i) s (λ r l' e. consume_credits-IsSound l i r l' s e)
perform-IsSound l (refunding i) s =
    after-IsSound l (refund_credits l i) s (λ r l' e. refund_credits-IsSound l i r l' s e)

-- From an empty ledger, any sequence of top-ups, holds, captures, releases, charges and refunds,
-- those that fail included, leaves every account in agreement with its rows: available, frozen and
-- consumed credits add up to those topped up and refunded, the frozen ones are those of the active
-- holds, each balance is the sum of the postings, and the refunds of a charge stay within it.
pub perform_all-IsSound : (l : Ledger) (xs : List Command) → IsSound (perform_all (opening l) xs)
unfolding perform_all
perform_all-IsSound l xs = from (opening l) xs (opening-IsSound l)
  where
    from : (l1 : Ledger) (ys : List Command) → IsSound l1 → IsSound (perform_all l1 ys)
    from l1 [] s = s
    from l1 (y ∷ ys) s = from (perform l1 y) ys (perform-IsSound l1 y s)
