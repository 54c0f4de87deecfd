-- ===== src/Federation/Limits.antt =====
-- The nonces and the rate limit: `consumeNonce` and `consumeRateLimit` of
-- src/modules/federation/memory-store.ts.
use otto_control.Prelude.{
  ℕ, ◌+◌, ◌*◌, ◌/◌, String, ◌===◌, Bool, true, false, not, ◌&&◌, none, some, List, ◌∷◌, [], Map,
  get, has, set, leb, ltb, ◌==◌, if◌then◌else◌, select,
}
use otto_control.Federation.Records.{Store, RateWindow}
use otto_control.Federation.Directory.{pair_key}

-- `for (const [key, expiry] of this.nonces) if (expiry <= now) this.nonces.delete(key)`.
abbrev pub live_nonces : ℕ → Map ℕ → Map ℕ
live_nonces now m = select (λ e. not (leb e.1 now)) m

unfoldable pub consume_nonce : Store → String → String → ℕ → ℕ → Bool × Store
consume_nonce s d nonce expires_at now =
    let live = live_nonces now s.nonces in
    if has (pair_key d nonce) live
    then (false, record s { nonces = live })
    else (true, record s { nonces = set (pair_key d nonce) expires_at live })

abbrev pub window_ms : ℕ
window_ms = 60_000

abbrev pub window_start : ℕ → ℕ
window_start now = now / window_ms * window_ms

-- `timestamp < windowStartedAt - 60_000` is deleted; the window before the current one stays.
abbrev pub live_windows : ℕ → List RateWindow → List RateWindow
live_windows start ws = select (λ w. not (ltb (w.started_at + window_ms) start)) ws

abbrev pub is_window : String → ℕ → RateWindow → Bool
is_window d start w = w.deployment_id === d && w.started_at == start

-- `rateWindows.get(key) ?? 0`.
unfoldable pub requests_in : String → ℕ → List RateWindow → ℕ
requests_in d start [] = 0
requests_in d start (w ∷ ws) =
    let rest = requests_in d start ws in if is_window d start w then w.requests else rest

unfoldable pub set_requests : String → ℕ → ℕ → List RateWindow → List RateWindow
set_requests d start n [] = record { deployment_id = d; started_at = start; requests = n } ∷ []
set_requests d start n (w ∷ ws) =
    let rest = set_requests d start n ws in
    if is_window d start w then record w { requests = n } ∷ ws else w ∷ rest

unfoldable pub consume_rate_limit : Store → String → ℕ → Bool × Store
consume_rate_limit s d now = elim (get d s.deployments) [
  | none ↦ (false, s)
  | some deployment ↦
      let start = window_start now in
      let live = live_windows start s.rate_windows in
      let requests = requests_in d start live in
      if leb deployment.max_requests_per_minute requests
      then (false, record s { rate_windows = live })
      else (true, record s { rate_windows = set_requests d start (requests + 1) live })
]
