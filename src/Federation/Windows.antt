-- ===== src/Federation/Windows.antt =====
-- The rate limit over one window of a minute.
use otto_control.Prelude.{
  ℕ, ◌+◌, ◌-◌, String, ===_refl, true, false, some, List, [], ◌∷◌, get, length, leb, ltb, ◌==◌,
  ==_iff, one_if, Bool-cases, inl, inr, ◌≡◌, refl, arith, if◌then◌else◌, All,
}
use otto_control.Federation.Records.{Store, Deployment, RateWindow}
use otto_control.Federation.Limits.{
  consume_rate_limit, live_windows, requests_in, set_requests, is_window, window_start, window_ms,
}

-- How many of the calls at these times are accepted.
unfoldable pub accepted : Store → String → List ℕ → ℕ
accepted s d [] = 0
accepted s d (t ∷ ts) =
    one_if (consume_rate_limit s d t).0 + accepted (consume_rate_limit s d t).1 d ts

requests_in-live :
    (d : String) (start : ℕ) (ws : List RateWindow)
    → requests_in d start (live_windows start ws) ≡ requests_in d start ws
unfolding requests_in
requests_in-live d start [] = refl
requests_in-live d start (w ∷ ws) = elim (Bool-cases (is_window d start w)) [
  | inl h ↦
      let now : ltb (w.started_at + window_ms) start ≡ false = ground (arith, h) in rw (now, h) refl
  | inr h ↦ elim (Bool-cases (ltb (w.started_at + window_ms) start)) [
    | inl old ↦ rw (old, h) (requests_in-live d start ws)
    | inr recent ↦ rw (recent, h) (requests_in-live d start ws)
  ]
]

requests_in-set :
    (d : String) (start n : ℕ) (ws : List RateWindow)
    → requests_in d start (set_requests d start n ws) ≡ n
unfolding requests_in set_requests
requests_in-set d start n [] =
    let same : (start == start) ≡ true = (==_iff start start).1 refl in rw (===_refl d, same) refl
requests_in-set d start n (w ∷ ws) = elim (Bool-cases (is_window d start w)) [
  | inl h ↦ rw (h, h) refl
  | inr h ↦ rw (h, h) (requests_in-set d start n ws)
]

-- One call: whether it is accepted, and what is counted then.
consume_rate_limit_step :
    (s : Store) (d : String) (now : ℕ) (x : Deployment)
    → get d s.deployments ≡ some x
    → ((consume_rate_limit s d now).0
        ≡ ltb (requests_in d (window_start now) s.rate_windows) x.max_requests_per_minute)
      × (requests_in d (window_start now) (consume_rate_limit s d now).1.rate_windows
          ≡ requests_in d (window_start now) s.rate_windows
            + one_if
                (ltb (requests_in d (window_start now) s.rate_windows) x.max_requests_per_minute))
      × (get d (consume_rate_limit s d now).1.deployments ≡ some x)
unfolding consume_rate_limit
consume_rate_limit_step s d now x there =
    let start = window_start now in
    let live = live_windows start s.rate_windows in
    let same = requests_in-live d start s.rate_windows in
    elim (Bool-cases (leb x.max_requests_per_minute (requests_in d start s.rate_windows))) [
      | inl full ↦
          let shut : ltb (requests_in d start s.rate_windows) x.max_requests_per_minute ≡ false =
            ground (arith, full) in
          rw (there, consume_rate_limit, same, full, shut) (refl, omega (arith, same), there)
      | inr room ↦
          let spare : ltb (requests_in d start s.rate_windows) x.max_requests_per_minute ≡ true =
            ground (arith, room) in
          rw (there, consume_rate_limit, same, room, spare)
            (refl, requests_in-set d start (requests_in d start s.rate_windows + 1) live, there)
    ]

-- Of the calls that a known deployment makes within one window, exactly as many are accepted as its
-- limit has left, or all of them if they are fewer.
pub accepted_limit :
    (s : Store) (d : String) (x : Deployment) (start : ℕ) (ts : List ℕ)
    → get d s.deployments ≡ some x
    → All (λ t. window_start t ≡ start) ts
    → accepted s d ts ≡ (
        let left = x.max_requests_per_minute - requests_in d start s.rate_windows in
        if leb (length ts) left then length ts else left)
unfolding accepted
accepted_limit s d x start [] there all = ground arith
accepted_limit s d x start (t ∷ ts) there all =
    let (taken, counted, kept) = consume_rate_limit_step s d t x there in
    let rest = accepted_limit (consume_rate_limit s d t).1 d x start ts kept all.1 in
    let taken1 = rw all.0 at taken in
    let counted1 = rw all.0 at counted in ground (arith, rest, taken1, counted1)
