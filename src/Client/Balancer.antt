-- ===== src/Client/Balancer.antt =====
-- class CircuitBreakLoadBalancer of plugins/clients/apps-client/src/hopeit/apps_client/__init__.py,
-- and the search for a host of `AppsClient._next_available_host`. Times are whole seconds. An index
-- out of the lists, which would raise, does not occur in a valid balancer (Balancer/Invariant).
pub mod Invariant
pub mod Search
pub mod Opening
use hopeit_engine.Common.{
  ℕ, zero, suc, ◌+◌, ◌%◌, min, Bool, List, Option, none, some, String, ltb, leb, ◌==◌,
  if◌then◌else◌, length, get_elem?, get_or, set, replicate,
}

pub record Balancer : Type 0 where
  pub hosts : List String
  pub host_index : ℕ
  pub cb_failures : List ℕ
  pub cb_reset_ttl : List ℕ
  pub cb_open_ttl : List ℕ

-- The breaker's part of AppsClientSettings.
pub record Limits : Type 0 where
  pub circuit_breaker_open_failures : ℕ
  pub circuit_breaker_failure_reset_seconds : ℕ
  pub circuit_breaker_open_seconds : ℕ

-- `CircuitBreakLoadBalancer(hosts=hosts)` with `__post_init__`.
pub new : List String → Balancer
new hosts = record {
  hosts = hosts;
  host_index = 0;
  cb_failures = replicate (length hosts) 0;
  cb_reset_ttl = replicate (length hosts) 0;
  cb_open_ttl = replicate (length hosts) 0;
}

pub host : Balancer → ℕ → Option String
host b i = get_elem? b.hosts i

-- The circuit breaker of host `i` lets calls through at `now_ts`.
abbrev pub is_closed : Balancer → ℕ → ℕ → Bool
is_closed b now_ts i = ltb (get_or b.cb_open_ttl i 0) now_ts

pub next_host : Balancer → ℕ → (ℕ × Bool) × Balancer
next_host b now_ts = (
  (b.host_index, is_closed b now_ts b.host_index),
  record b { host_index = (b.host_index + 1) % length b.hosts },
)

-- `drawn` is what `random.randint(0, len(self.hosts) - 1)` gave.
pub randomize_next_host : Balancer → ℕ → Balancer
randomize_next_host b drawn = record b { host_index = drawn }

pub success : Balancer → ℕ → Balancer
success b i = record b { cb_open_ttl = set b.cb_open_ttl i 0; cb_failures = set b.cb_failures i 0 }

-- The failures that count, with the one that is notified now.
abbrev pub counted_failures : Limits → Balancer → ℕ → ℕ → ℕ
counted_failures l b i now_ts =
    let failures : ℕ =
      if ltb now_ts (get_or b.cb_reset_ttl i 0) then get_or b.cb_failures i 0 else 0 in
    min l.circuit_breaker_open_failures (failures + 1)

pub failure : Limits → Balancer → ℕ → ℕ → Balancer
failure l b i now_ts = if l.circuit_breaker_open_failures == 0 then b else record b {
  cb_failures = set b.cb_failures i (counted_failures l b i now_ts);
  cb_reset_ttl = set b.cb_reset_ttl i (now_ts + l.circuit_breaker_failure_reset_seconds);
  cb_open_ttl =
      if leb l.circuit_breaker_open_failures (counted_failures l b i now_ts)
      then set b.cb_open_ttl i (now_ts + l.circuit_breaker_open_seconds)
      else b.cb_open_ttl;
}

-- The loop of `_next_available_host` with `rounds` left; `none` is the
-- `ClientLoadBalancerException` that is raised after the last.
pub search_host : ℕ → ℕ → ℕ → Balancer → Option ℕ × Balancer
search_host zero now_ts drawn b = (none, randomize_next_host b drawn)
search_host (suc rounds) now_ts drawn b =
    let ((i, closed), b') = next_host b now_ts in
    let later = search_host rounds now_ts drawn b' in if closed then (some i, b') else later

pub next_available_host : Balancer → ℕ → ℕ → Option ℕ × Balancer
next_available_host b now_ts drawn = search_host (length b.hosts) now_ts drawn b
