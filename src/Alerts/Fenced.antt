-- ===== src/Alerts/Fenced.antt =====
-- A lease that another claim took over cannot finish a delivery.
use otto_control.Prelude.{
  ℕ, false, Bool-cases, Option-cases, inl, inr, none, some, List, [], ◌∷◌, map, find, ◌≡◌, ◌≢◌,
  refl, sym, ap, ◌∙◌, ◌===◌, arith,
}
use otto_control.Errors.{ok, ok_inj}
use otto_control.Audit.Canonical.{Runtime}
use otto_control.Alerts.Deliveries.{Delivery, AlertStore, has_id, is_delivering, row_checks}
use otto_control.Alerts.Claims.{
  Claim, Finish, claimed, claim_row, is_held, lease_is, finish_row, candidate, claim_alert_delivery,
  finish_alert_delivery,
}

not_held :
    (i : Claim) (c : Delivery) (f : Finish)
    → f.id ≡ c.id
    → f.expected_lease_until ≢ i.lease_until
    → (d : Delivery) → is_held f (claim_row i c d) ≡ false
unfolding is_held claim_row claimed has_id lease_is is_delivering
not_held i c f same other d = elim (Bool-cases (d.id === c.id)) [
  | inl h ↦ rw (same, h) (ground arith)
  | inr h ↦ rw (same, h, is_held, h) refl
]

module _ (f : Finish) where
  AllAside : List Delivery → Type 0
  AllAside [] = Unit
  AllAside (d ∷ ds) = (is_held f d ≡ false) × AllAside ds

  AllAside-map :
      (g : Delivery → Delivery)
      → ((d : Delivery) → is_held f (g d) ≡ false)
      → (ds : List Delivery) → AllAside (map g ds)
  unfolding AllAside
  AllAside-map g h [] = tt
  AllAside-map g h (d ∷ ds) = (h d, AllAside-map g h ds)

  find-aside : (ds : List Delivery) → AllAside ds → find (is_held f) ds ≡ none
  unfolding AllAside
  find-aside [] a = refl
  find-aside (d ∷ ds) a = rw a.0 (find-aside ds a.1)

  map-aside : (ds : List Delivery) → AllAside ds → map (finish_row f) ds ≡ ds
  unfolding AllAside finish_row
  map-aside [] a = refl
  map-aside (d ∷ ds) a = rw (a.0, map-aside ds a.1) refl

  finish-aside :
      (rt : Runtime) (at : ℕ) (s : AlertStore)
      → AllAside s.deliveries
      → finish_alert_delivery rt at f s ≡ ok (none, s)
  unfolding finish_alert_delivery
  finish-aside rt at s a =
      rw
        (
          finish_alert_delivery,
          find-aside s.deliveries a,
          finish_alert_delivery,
          map-aside s.deliveries a,
        )
        refl

-- What a claim hands out, and the table it leaves.
claim-some :
    (i : Claim) (s : AlertStore) {r : Delivery} {s1 : AlertStore}
    → claim_alert_delivery i s ≡ ok (some r, s1)
    → (c : Delivery) × (r.id ≡ c.id) × (s1.deliveries ≡ map (claim_row i c) s.deliveries)
unfolding claim_alert_delivery claimed
claim-some i s went = elim (Option-cases (candidate i s)) [
  | inl h ↦ let impossible = ok_inj (rw (h, claim_alert_delivery) at went) in cc
  | inr (c, h) ↦ elim (Bool-cases (row_checks (claimed i c))) [
    | inl k ↦
        let e = ok_inj (rw (h, claim_alert_delivery, k) at went) in
        (c, cc, sym (ap (λ p. p.1.deliveries) e))
    | inr k ↦ let impossible = rw (h, claim_alert_delivery, k) at went in cc
  ]
]

-- After a claim, a worker that still holds the delivery under another lease finishes nothing:
-- it gets no row and the store stays as it is.
pub finish_fenced :
    (rt : Runtime) (at : ℕ) (i : Claim) (f : Finish) (s : AlertStore) {r : Delivery}
    {s1 : AlertStore}
    → claim_alert_delivery i s ≡ ok (some r, s1)
    → f.id ≡ r.id
    → f.expected_lease_until ≢ i.lease_until
    → finish_alert_delivery rt at f s1 ≡ ok (none, s1)
finish_fenced rt at i f s {r} {s1} went same other =
    let (c, e, rows) = claim-some i s went in
    finish-aside f rt at s1
      (rw rows (AllAside-map f (claim_row i c) (not_held i c f (same ∙ e) other) s.deliveries))
