-- ===== src/Federation/Nonces.antt =====
-- How long a nonce is remembered: what the calls of src/modules/federation/memory-store.ts leave of
-- the map of nonces.
use otto_control.Prelude.{
  ℕ, String, ◌===◌, ◌<◌, ◌≤◌, true, false, Option, some, [], ◌∷◌, Map, get, has, set, leb,
  Option-cases, Bool-cases, inl, inr, ◌≡◌, refl, ◌∙◌, arith, ===_eq, get-set_other,
}
use otto_control.Errors.{Result-cases}
use otto_control.Federation.Records.{Store, Grant}
use otto_control.Federation.Directory.{pair_key}
use otto_control.Federation.Limits.{live_nonces, consume_nonce}
use otto_control.Federation.Enqueue.{
  EnqueueInput, enqueue_message, accept, authorize, is_duplicate_of, nonce_key,
}

-- The nonce is in the map, until the instant at least.
abbrev pub IsTaken : String → ℕ → Map ℕ → Type 0
IsTaken k until m = (e : ℕ) × (until ≤ e) × (get k m ≡ some e)

-- The purge at an earlier instant keeps it.
get-live_nonces :
    (k : String) (e now : ℕ) (m : Map ℕ)
    → now < e
    → get k m ≡ some e
    → get k (live_nonces now m) ≡ some e
get-live_nonces k e now [] early there = cc
get-live_nonces k e now (x ∷ m) early there = elim (Bool-cases (x.0 === k)) [
  | inl h ↦
      let same = rw h at there in
      let kept : leb x.1 now ≡ false = ground (arith, same, early) in rw (kept, h) same
  | inr h ↦
      let rest = get-live_nonces k e now m early (rw h at there) in
      elim (Bool-cases (leb x.1 now)) [ inl q ↦ rw q rest | inr q ↦ rw (q, h) rest ]
]

pub live-IsTaken :
    (k : String) (until now : ℕ) (m : Map ℕ)
    → now < until
    → IsTaken k until m
    → IsTaken k until (live_nonces now m)
live-IsTaken k until now m early (e, late, there) =
    (e, late, get-live_nonces k e now m (omega (arith, early, late)) there)

pub has-IsTaken : (k : String) (until : ℕ) (m : Map ℕ) → IsTaken k until m → has k m ≡ true
has-IsTaken k until m (e, late, there) = rw there refl

-- A key that is free is another one.
set-IsTaken :
    (k j : String) (until v : ℕ) (m : Map ℕ)
    → has j m ≡ false
    → IsTaken k until m
    → IsTaken k until (set j v m)
set-IsTaken k j until v m free (e, late, there) = (
  e,
  late,
  elim (Bool-cases (j === k)) [
    | inl h ↦ let impossible = rw (===_eq j k h, there) at free in cc
    | inr h ↦ get-set_other k j v m h ∙ there
  ],
)

pub consume_nonce-IsTaken :
    (k : String) (until : ℕ) (s : Store) (d n : String) (expires_at now : ℕ)
    → now < until
    → IsTaken k until s.nonces
    → IsTaken k until (consume_nonce s d n expires_at now).1.nonces
unfolding consume_nonce
consume_nonce-IsTaken k until s d n expires_at now early t =
    let live = live-IsTaken k until now s.nonces early t in
    elim (Bool-cases (has (pair_key d n) (live_nonces now s.nonces))) [
      | inl h ↦ rw (h, consume_nonce) live
      | inr h ↦
          rw (h, consume_nonce)
            (set-IsTaken k (pair_key d n) until expires_at (live_nonces now s.nonces) h live)
    ]

accept-IsTaken :
    (k : String) (until : ℕ) (s : Store) (i : EnqueueInput) (g : Option Grant)
    → i.now < until
    → IsTaken k until s.nonces
    → IsTaken k until (accept s i g).1.nonces
unfolding accept
accept-IsTaken k until s i g early t =
    let live = live-IsTaken k until i.now s.nonces early t in
    let own = nonce_key i.signed.envelope in
    elim (Bool-cases (has own (live_nonces i.now s.nonces))) [
      | inl h ↦ rw (h, accept) live
      | inr h ↦
          rw (h, accept)
            (set-IsTaken k own until i.signed.envelope.expires_at (live_nonces i.now s.nonces) h
              live)
    ]

pub enqueue_message-IsTaken :
    (k : String) (until : ℕ) (s : Store) (i : EnqueueInput)
    → i.now < until
    → IsTaken k until s.nonces
    → IsTaken k until (enqueue_message s i).1.nonces
unfolding enqueue_message
enqueue_message-IsTaken k until s i early t =
    elim (Option-cases (get i.signed.envelope.message_id s.messages)) [
      | inr (m, h) ↦ elim (Bool-cases (is_duplicate_of i m)) [
        | inl q ↦ rw (h, enqueue_message, q) t
        | inr q ↦ rw (h, enqueue_message, q) t
      ]
      | inl h ↦ elim (Result-cases (authorize s i)) [
        | inl (g, q) ↦ rw (h, enqueue_message, q) (accept-IsTaken k until s i g early t)
        | inr (e, q) ↦ rw (h, enqueue_message, q) t
      ]
    ]
