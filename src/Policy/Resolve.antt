-- ===== src/Policy/Resolve.antt =====
-- `resolve` of src/modules/update-policy/service.ts. Tokens, signatures, digests and the check of a
-- release's artifacts are parameters. The nonce stays consumed when a later step fails, so that the
-- handler gives the store in any case.
use otto_control.Prelude.{
  ℕ, ◌+◌, ◌*◌, ◌%◌, String, Bool, true, false, Option, none, some, List, [], ◌∷◌, ltb, is_some, not,
  ◌&&◌, if◌then◌else◌,
}
use otto_control.Errors.{Result, ok, err, conflict, ensure, ◌>>=◌, ◌>>◌}
use otto_control.Audit.Canonical.{Json}
use otto_control.Updates.Releases.{Release, Channel, canary, get_active_update_releases}
use otto_control.Commerce.Records.{License, Nonce}
use otto_control.Policy.Versions.{compare_versions, is_less}
use otto_control.Policy.Store.{PolicyStore, consume_update_policy_nonce}
use otto_control.Policy.Request.{
  Reason, update_available, up_to_date, outside_rollout, no_active_release, Payload, Authentication,
  PolicyService, PolicyRequest, max_clock_skew_ms, check_policy,
}

-- A stable cohort between 1 and 100.
unfoldable pub update_cohort_percent : PolicyService → String → String → String → ℕ
update_cohort_percent sv distribution release deployment =
    sv.digest_word distribution release deployment % 100 + 1

abbrev pub is_canary : Channel → Bool
is_canary canary = true
is_canary _ = false

unfoldable pub is_outside : PolicyService → PolicyRequest → Release → Bool
is_outside sv r x =
    is_canary x.channel
    && ltb x.rollout_percent (update_cohort_percent sv r.distribution_id x.id r.deployment_id)

-- The loop over the active releases: the first newer one of whose rollout the deployment is part,
-- and whether one was passed over for its rollout.
unfoldable pub choose_release :
    PolicyService → PolicyRequest → List Release → Bool → Result (Option Release × Bool)
choose_release sv r [] outside = ok (none, outside)
choose_release sv r (x ∷ xs) outside =
    let passed = choose_release sv r xs outside in
    let passed_outside = choose_release sv r xs true in
    elim (compare_versions sv.grammar sv.texts.trim r.current_version x.version) [
      | none ↦ err (conflict "stored update release version is invalid")
      | some c ↦
          if not (is_less c)
          then passed
          else if is_outside sv r x
          then passed_outside
          else ok (some x, outside)
    ]

unfoldable pub reason_of : Option Release → List Release → Bool → Reason
reason_of (some x) releases outside = update_available
reason_of none [] outside = no_active_release
reason_of none (x ∷ xs) true = outside_rollout
reason_of none (x ∷ xs) false = up_to_date

unfoldable pub check_selected : PolicyService → Option Release → Result (List Json)
check_selected sv none = ok []
check_selected sv (some x) =
    ensure (is_some x.published_at) (conflict "stored active update release is missing publishedAt")
    >> (sv.assert_release_ready x >> sv.active_envelopes x.id)

unfoldable pub make_policy :
    PolicyService → PolicyRequest → List Release → ℕ → Option Release × Bool → List Json → Payload
make_policy sv r releases now (selected, outside) artifacts = record {
  deployment_id = r.deployment_id;
  distribution_id = r.distribution_id;
  current_version = r.current_version;
  reason = reason_of selected releases outside;
  release = selected;
  artifacts = artifacts;
  issued_at_ms = now;
  expires_at_ms = now + sv.policy_duration_ms;
}

-- What follows the nonce.
unfoldable pub resolve_fresh :
    PolicyService → PolicyRequest → ℕ → PolicyStore → Result (Payload × String × String)
resolve_fresh sv r now s =
    let releases = get_active_update_releases s.releases r.distribution_id in
    choose_release sv r releases false >>= λ choice. check_selected sv choice.0 >>= λ artifacts.
    (let p = make_policy sv r releases now choice artifacts in
      sv.sign_policy p >>= λ signed. ok (p, signed.0, signed.1))

unfoldable pub resolve_nonce :
    PolicyService
    → PolicyRequest
    → ℕ
    → PolicyStore
    → Result (Bool × PolicyStore)
    → Result (Payload × String × String) × PolicyStore
resolve_nonce sv r now s (err failure) = (err failure, s)
resolve_nonce sv r now s (ok (false, s1)) =
    (err (conflict "update policy request replay detected"), s1)
resolve_nonce sv r now s (ok (true, s1)) = (resolve_fresh sv r now s1, s1)

unfoldable pub policy_nonce : PolicyRequest → Authentication → ℕ → Nonce
policy_nonce r a now = record {
  deployment_id = r.deployment_id;
  nonce = a.nonce;
  expires_at_ms = now + max_clock_skew_ms * 2;
}

unfoldable pub resolve_checked :
    PolicyService
    → Authentication
    → ℕ
    → PolicyStore
    → Result (PolicyRequest × License)
    → Result (Payload × String × String) × PolicyStore
resolve_checked sv a now s (err failure) = (err failure, s)
resolve_checked sv a now s (ok (r, l)) =
    resolve_nonce sv r now s (consume_update_policy_nonce (policy_nonce r a now) now s)

unfoldable pub resolve :
    PolicyService
    → Json
    → Authentication
    → ℕ
    → PolicyStore
    → Result (Payload × String × String) × PolicyStore
resolve sv raw a now s = resolve_checked sv a now s (check_policy sv raw a now s)
