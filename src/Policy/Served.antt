-- ===== src/Policy/Served.antt =====
-- Whom `resolve` serves, and with what.
use otto_control.Prelude.{
  ℕ, ◌<◌, String, ◌===◌, ===_eq, Bool, true, false, none, some, is_some, List, find, find_sound,
  All, All-find, All-Mem, All-select_from, All-sort_by, Mem, values, select, get, ltb, ltb→lt, not,
  ◌&&◌, ◌≡◌, refl, sym, ap, ◌∙◌,
}
use mathlib.Core.Path.{subst}
use mathlib.Core.Bool.{and-eq-true_iff}
use otto_control.Errors.{Failure, Result, ok, err, ok_inj, >>=-eq-ok, ensure, ensure-eq-ok}
use otto_control.Requests.{present}
use otto_control.Audit.Canonical.{Json}
use otto_control.Updates.Releases.{
  Release, Releases, is_active as is_active_state, get_active_update_releases, channel_rank,
}
use otto_control.Commerce.Records.{License}
use otto_control.Commerce.Store.{get_deployment}
use otto_control.Policy.Store.{PolicyStore, has_deployment_update_assignment}
use otto_control.Policy.Request.{
  PolicyService, PolicyRequest, Authentication, Payload, check_policy, check_policy_license,
  check_assignment, check_signature, is_active_deployment, policy_request,
}
use otto_control.Policy.Resolve.{
  choose_release, check_selected, make_policy, resolve_fresh, resolve_nonce, resolve_checked,
  resolve,
}
use otto_control.Commerce.LeaseWindow.{present-eq-ok, not-is_some}
use otto_control.Policy.Offers.{is_candidate, choose_release-eq-ok}

ensured : (b : Bool) (failure : Failure) {u : Unit {0}} → ensure b failure ≡ ok u → b ≡ true
ensured false failure e = cc
ensured true failure e = refl

-- To whom a policy is given.
pub record IsServed (s : PolicyStore) (now : ℕ) (r : PolicyRequest) (l : License) : Type 0 where
  pub there : get r.license_id s.commerce.licenses ≡ some l
  pub bound : l.deployment_id ≡ r.deployment_id
  pub unrevoked : l.revoked_at_ms ≡ none
  pub valid : now < l.expires_at_ms
  pub assigned : has_deployment_update_assignment r.deployment_id r.distribution_id s ≡ true

check_policy_license-eq-ok :
    (l : License) (r : PolicyRequest) (now : ℕ) {u : Unit {0}}
    → check_policy_license l r now ≡ ok u
    → (l.deployment_id ≡ r.deployment_id) × (l.revoked_at_ms ≡ none) × (now < l.expires_at_ms)
unfolding check_policy_license
check_policy_license-eq-ok l r now e =
    let (_, e1) = ensure-eq-ok (not l.offline) _ _ e in
    let (bound, e2) =
      ensure-eq-ok
        (l.deployment_id === r.deployment_id && l.machine_fingerprint === r.machine_fingerprint) _ _
        e1 in
    let (unrevoked, e3) = ensure-eq-ok (not (is_some l.revoked_at_ms)) _ _ e2 in
    let valid = ensured (ltb now l.expires_at_ms) _ e3 in
    (
      ===_eq l.deployment_id r.deployment_id
          ((and-eq-true_iff (l.deployment_id === r.deployment_id) _).0 bound).0,
      not-is_some l.revoked_at_ms unrevoked,
      ltb→lt now l.expires_at_ms valid,
    )

check_assignment-eq-ok :
    (r : PolicyRequest) (s : PolicyStore) {u : Unit {0}}
    → check_assignment r s ≡ ok u
    → has_deployment_update_assignment r.deployment_id r.distribution_id s ≡ true
unfolding check_assignment
check_assignment-eq-ok r s e =
    let (_, e1) =
      ensure-eq-ok (is_active_deployment (get_deployment r.deployment_id s.commerce)) _ _ e in
    (ensure-eq-ok (has_deployment_update_assignment r.deployment_id r.distribution_id s) _ _ e1).0

check_policy-IsServed :
    (sv : PolicyService) (raw : Json) (a : Authentication) (now : ℕ) (s : PolicyStore)
    {b : PolicyRequest × License}
    → check_policy sv raw a now s ≡ ok b
    → IsServed s now b.0 b.1
unfolding check_policy
check_policy-IsServed sv raw a now s {b} e =
    let (r, _, e1) = >>=-eq-ok (policy_request sv raw) _ e in
    let (l, found, e2) = >>=-eq-ok (present (get r.license_id s.commerce.licenses) _) _ e1 in
    let (_, licensed, e3) = >>=-eq-ok (check_policy_license l r now) _ e2 in
    let (_, assigned, e4) = >>=-eq-ok (check_assignment r s) _ e3 in
    let (_, _, done) = >>=-eq-ok (check_signature sv l raw a now) _ e4 in
    let (bound, unrevoked, valid) = check_policy_license-eq-ok l r now licensed in
    let served : IsServed s now r l = record {
      there = present-eq-ok (get r.license_id s.commerce.licenses) _ found;
      bound = bound;
      unrevoked = unrevoked;
      valid = valid;
      assigned = check_assignment-eq-ok r s assigned;
    } in
    subst (λ p. IsServed s now p.0 p.1) (ok_inj done) served

-- What is offered: an active release of the distribution among the stored ones.
pub record IsOffer (sv : PolicyService) (s : PolicyStore) (r : PolicyRequest) (p : Payload)
    (x : Release) : Type 0 where
  pub to_deployment : p.deployment_id ≡ r.deployment_id
  pub from_version : p.current_version ≡ r.current_version
  pub in_distribution : p.distribution_id ≡ r.distribution_id
  pub stored : Mem x (values s.releases)
  pub of_distribution : x.distribution_id ≡ r.distribution_id
  pub active : is_active_state x.state ≡ true
  pub candidate : is_candidate sv r x ≡ true
  pub published : is_some x.published_at ≡ true

active_stored :
    (rs : Releases) (d : String)
    → All
        (λ x. Mem x (values rs) × (x.distribution_id ≡ d) × (is_active_state x.state ≡ true))
        (get_active_update_releases rs d)
unfolding get_active_update_releases
active_stored rs d =
    let P = λ (x : Release).
      Mem x (values rs) × (x.distribution_id ≡ d) × (is_active_state x.state ≡ true) in
    let test = λ (x : Release). x.distribution_id === d && is_active_state x.state in
    All-sort_by P (λ x y. ltb (channel_rank x.channel) (channel_rank y.channel))
      (select test (values rs))
      (All-select_from P (λ x. Mem x (values rs)) test (values rs) (All-Mem (values rs))
        (λ x m h.
          let both = (and-eq-true_iff (x.distribution_id === d) (is_active_state x.state)).0 h in
          (m, ===_eq x.distribution_id d both.0, both.1)))

check_selected-eq-ok :
    (sv : PolicyService) (x : Release) {artifacts : List Json}
    → check_selected sv (some x) ≡ ok artifacts
    → is_some x.published_at ≡ true
unfolding check_selected
check_selected-eq-ok sv x e = (ensure-eq-ok (is_some x.published_at) _ _ e).0

resolve_fresh-IsOffer :
    (sv : PolicyService) (r : PolicyRequest) (now : ℕ) (s : PolicyStore)
    {a : Payload × String × String} {x : Release}
    → resolve_fresh sv r now s ≡ ok a
    → a.0.release ≡ some x
    → IsOffer sv s r a.0 x
unfolding resolve_fresh make_policy
resolve_fresh-IsOffer sv r now s {a} {x} e offered =
    let releases = get_active_update_releases s.releases r.distribution_id in
    let (choice, chosen, e1) = >>=-eq-ok (choose_release sv r releases false) _ e in
    let (artifacts, selected, e2) = >>=-eq-ok (check_selected sv choice.0) _ e1 in
    let (signed, _, done) =
      >>=-eq-ok (sv.sign_policy (make_policy sv r releases now choice artifacts)) _ e2 in
    let released : choice.0 ≡ some x = ap (λ p. p.0.release) (ok_inj done) ∙ offered in
    let first : find (is_candidate sv r) releases ≡ some x =
      sym (choose_release-eq-ok sv r releases false chosen) ∙ released in
    let (stored, of_distribution, active) =
      All-find
        (λ y.
          Mem y (values s.releases)
          × (y.distribution_id ≡ r.distribution_id)
          × (is_active_state y.state ≡ true))
        (is_candidate sv r) releases (active_stored s.releases r.distribution_id) first in
    let checked : check_selected sv (some x) ≡ ok artifacts =
      subst (λ o. check_selected sv o ≡ ok artifacts) released selected in
    record {
      to_deployment = sym (ap (λ p. p.0.deployment_id) (ok_inj done));
      from_version = sym (ap (λ p. p.0.current_version) (ok_inj done));
      in_distribution = sym (ap (λ p. p.0.distribution_id) (ok_inj done));
      stored = stored;
      of_distribution = of_distribution;
      active = active;
      candidate = find_sound (is_candidate sv r) releases first;
      published = check_selected-eq-ok sv x checked;
    }

resolve_nonce-IsOffer :
    (sv : PolicyService) (r : PolicyRequest) (now : ℕ) (s : PolicyStore)
    (m : Result (Bool × PolicyStore)) {a : Payload × String × String} {x : Release}
    → (resolve_nonce sv r now s m).0 ≡ ok a
    → a.0.release ≡ some x
    → IsOffer sv (resolve_nonce sv r now s m).1 r a.0 x
unfolding resolve_nonce
resolve_nonce-IsOffer sv r now s (err failure) e offered = cc
resolve_nonce-IsOffer sv r now s (ok (false, s1)) e offered = cc
resolve_nonce-IsOffer sv r now s (ok (true, s1)) e offered =
    resolve_fresh-IsOffer sv r now s1 e offered

resolve_checked-IsOffer :
    (sv : PolicyService) (a : Authentication) (now : ℕ) (s : PolicyStore)
    (m : Result (PolicyRequest × License)) {b : Payload × String × String} {x : Release}
    → ((c : PolicyRequest × License) → m ≡ ok c → IsServed s now c.0 c.1)
    → (resolve_checked sv a now s m).0 ≡ ok b
    → b.0.release ≡ some x
    → (r : PolicyRequest) × (l : License) × IsServed s now r l
      × IsOffer sv (resolve_checked sv a now s m).1 r b.0 x
unfolding resolve_checked
resolve_checked-IsOffer sv a now s (err failure) served e offered = cc
resolve_checked-IsOffer sv a now s (ok (r, l)) served e offered =
    (r, l, served (r, l) refl, resolve_nonce-IsOffer sv r now s _ e offered)

-- A release that a policy offers is a stored and active one of the distribution, is newer than the
-- version of the deployment, covers it in its rollout and is published; and the deployment is
-- assigned to the distribution that the policy names and holds a license that is neither revoked nor expired.
pub resolve-IsOffer :
    (sv : PolicyService) (raw : Json) (a : Authentication) (now : ℕ) (s : PolicyStore)
    {b : Payload × String × String} {x : Release}
    → (resolve sv raw a now s).0 ≡ ok b
    → b.0.release ≡ some x
    → (r : PolicyRequest) × (l : License) × IsServed s now r l
      × IsOffer sv (resolve sv raw a now s).1 r b.0 x
unfolding resolve
resolve-IsOffer sv raw a now s e offered =
    resolve_checked-IsOffer sv a now s (check_policy sv raw a now s)
      (λ c. check_policy-IsServed sv raw a now s) e offered
