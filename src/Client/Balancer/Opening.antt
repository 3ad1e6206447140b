-- ===== src/Client/Balancer/Opening.antt =====
-- When the circuit breaker of a host opens and closes, in
-- plugins/clients/apps-client/src/hopeit/apps_client/__init__.py.
use hopeit_engine.Common.{
  ℕ, suc, ◌+◌, ◌≤◌, ◌<◌, ◌≡◌, ◌≢◌, ap, sym, List, [], ◌∷◌, true, arith, length, get_or,
  get_or-set_self, get_or-set_ne, ltb, leb,
}
use hopeit_engine.Client.Balancer.{Balancer, Limits, failure, success, is_closed, counted_failures}
use hopeit_engine.Client.Balancer.Invariant.{IsValid, failure-IsValid, failure-hosts}

-- Failures of host `i` at the given times, one after the other.
pub failures_at : Limits → ℕ → List ℕ → Balancer → Balancer
failures_at l i [] b = b
failures_at l i (t ∷ ts) b = failures_at l i ts (failure l b i t)

-- Each time comes before the end of the reset window of the one before it.
abbrev pub Follows : ℕ → ℕ → List ℕ → Type 0
Follows reset t [] = Unit
Follows reset t (u ∷ us) = (u < t + reset) × Follows reset u us

abbrev pub last_time : ℕ → List ℕ → ℕ
last_time t [] = t
last_time t (u ∷ us) = last_time u us

-- What a failure at time `t` leaves for its host, if breakers are enabled.
failure_counts :
    (l : Limits) (b : Balancer) (i t : ℕ)
    → IsValid b
    → i < length b.hosts
    → 0 < l.circuit_breaker_open_failures
    → let b' = failure l b i t in
      (get_or b'.cb_failures i 0 ≡ counted_failures l b i t)
      × (get_or b'.cb_reset_ttl i 0 ≡ t + l.circuit_breaker_failure_reset_seconds)
      × (leb l.circuit_breaker_open_failures (counted_failures l b i t) ≡ true
          → get_or b'.cb_open_ttl i 0 ≡ t + l.circuit_breaker_open_seconds)
unfolding failure
failure_counts l b i t v h p = ground (
  arith,
  get_or-set_self b.cb_failures i (counted_failures l b i t) 0,
  get_or-set_self b.cb_reset_ttl i (t + l.circuit_breaker_failure_reset_seconds) 0,
  get_or-set_self b.cb_open_ttl i (t + l.circuit_breaker_open_seconds) 0,
)

-- After failures at `ts` that follow one at time `t`, the breaker is open from the last of them.
opens_from :
    (l : Limits) (i t : ℕ) (ts : List ℕ) (b : Balancer)
    → IsValid b
    → i < length b.hosts
    → 0 < l.circuit_breaker_open_failures
    → get_or b.cb_reset_ttl i 0 ≡ t + l.circuit_breaker_failure_reset_seconds
    → (leb l.circuit_breaker_open_failures (get_or b.cb_failures i 0) ≡ true
        → get_or b.cb_open_ttl i 0 ≡ t + l.circuit_breaker_open_seconds)
    → Follows l.circuit_breaker_failure_reset_seconds t ts
    → l.circuit_breaker_open_failures ≤ get_or b.cb_failures i 0 + length ts
    → get_or (failures_at l i ts b).cb_open_ttl i 0
      ≡ last_time t ts + l.circuit_breaker_open_seconds
unfolding failures_at
opens_from l i t [] b v h p reset opened f enough = ground arith
opens_from l i t (u ∷ us) b v h p reset opened (soon, f) enough =
    let (counted, reset', opened') = failure_counts l b i u v h p in
    opens_from l i u us (failure l b i u) (failure-IsValid l b i u v) (rw (failure-hosts l b i u) h)
      p reset' (rw counted opened') f (rw counted (ground arith))

-- A host that fails as often as configured, each time within the reset window of the failure
-- before, is refused until the open seconds after the last failure are over, and not longer; this
-- holds whatever it has done before, if the breaker is enabled.
pub failures_open :
    (l : Limits) (b : Balancer) (i t : ℕ) (ts : List ℕ) (now : ℕ)
    → IsValid b
    → i < length b.hosts
    → 0 < l.circuit_breaker_open_failures
    → Follows l.circuit_breaker_failure_reset_seconds t ts
    → l.circuit_breaker_open_failures ≤ suc (length ts)
    → is_closed (failures_at l i (t ∷ ts) b) now i
      ≡ ltb (last_time t ts + l.circuit_breaker_open_seconds) now
unfolding failures_at
failures_open l b i t ts now v h p f enough =
    let (counted, reset, opened) = failure_counts l b i t v h p in
    ap (λ k. ltb k now)
      (opens_from l i t ts (failure l b i t) (failure-IsValid l b i t v)
        (rw (failure-hosts l b i t) h) p reset (rw counted opened) f (rw counted (ground arith)))

-- A success lets the host be called again at every time after 0, and starts its count of failures
-- anew; a success or a failure of one host says nothing of another.
pub success_resets :
    (l : Limits) (b : Balancer) (i j now t : ℕ)
    → IsValid b
    → i < length b.hosts
    → j ≢ i
    → (is_closed (success b i) now i ≡ ltb 0 now)
      × (get_or (success b i).cb_failures i 0 ≡ 0)
      × (is_closed (success b i) now j ≡ is_closed b now j)
      × (is_closed (failure l b i t) now j ≡ is_closed b now j)
unfolding success failure
success_resets l b i j now t v h ne = ground (
  arith,
  get_or-set_self b.cb_open_ttl i 0 0,
  get_or-set_self b.cb_failures i 0 0,
  get_or-set_ne b.cb_open_ttl i j 0 0 (λ e. ne (sym e)),
  get_or-set_ne b.cb_open_ttl i j (t + l.circuit_breaker_open_seconds) 0 (λ e. ne (sym e)),
)
