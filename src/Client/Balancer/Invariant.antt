-- ===== src/Client/Balancer/Invariant.antt =====
-- The shape of every balancer of plugins/clients/apps-client/src/hopeit/apps_client/__init__.py.
use hopeit_engine.Common.{
  ℕ, zero, suc, ◌+◌, ◌<◌, ◌≡◌, refl, List, String, arith, length, get_or, get_or-set_self,
  length-set, length-replicate,
}
use hopeit_engine.Client.Balancer.{
  Balancer, Limits, new, next_host, randomize_next_host, success, failure, search_host,
  counted_failures,
}

-- One entry for each host in every list, and a next host that is one of them.
pub record IsValid (b : Balancer) : Type 0 where
  pub next_listed : b.host_index < length b.hosts
  pub failures_kept : length b.cb_failures ≡ length b.hosts
  pub resets_kept : length b.cb_reset_ttl ≡ length b.hosts
  pub opens_kept : length b.cb_open_ttl ≡ length b.hosts

pub new-IsValid : (hosts : List String) → 0 < length hosts → IsValid (new hosts)
unfolding new
new-IsValid hosts h = record {
  next_listed = h;
  failures_kept = length-replicate (length hosts) 0;
  resets_kept = length-replicate (length hosts) 0;
  opens_kept = length-replicate (length hosts) 0;
}

pub next_host-IsValid : (b : Balancer) (now : ℕ) → IsValid b → IsValid (next_host b now).1
unfolding next_host
next_host-IsValid b now v = omega arith

pub success-IsValid : (b : Balancer) (i : ℕ) → IsValid b → IsValid (success b i)
unfolding success
success-IsValid b i v = omega (arith, length-set b.cb_open_ttl i 0, length-set b.cb_failures i 0)

pub failure-IsValid :
    (l : Limits) (b : Balancer) (i now : ℕ) → IsValid b → IsValid (failure l b i now)
unfolding failure
failure-IsValid l b i now v = ground (
  arith,
  length-set b.cb_failures i (counted_failures l b i now),
  length-set b.cb_reset_ttl i (now + l.circuit_breaker_failure_reset_seconds),
  length-set b.cb_open_ttl i (now + l.circuit_breaker_open_seconds),
)

pub search_host-IsValid :
    (rounds now drawn : ℕ) (b : Balancer)
    → IsValid b
    → drawn < length b.hosts
    → IsValid (search_host rounds now drawn b).1
unfolding search_host next_host randomize_next_host
search_host-IsValid zero now drawn b v h = ground arith
search_host-IsValid (suc rounds) now drawn b v h = ground (
  arith,
  search_host-IsValid rounds now drawn (next_host b now).1 (next_host-IsValid b now v) h,
  next_host-IsValid b now v,
)

pub failure-hosts : (l : Limits) (b : Balancer) (i now : ℕ) → (failure l b i now).hosts ≡ b.hosts
unfolding failure
failure-hosts l b i now = ground arith

pub search_host-hosts :
    (rounds now drawn : ℕ) (b : Balancer) → (search_host rounds now drawn b).1.hosts ≡ b.hosts
unfolding search_host next_host randomize_next_host
search_host-hosts zero now drawn b = refl
search_host-hosts (suc rounds) now drawn b =
    ground (arith, search_host-hosts rounds now drawn (next_host b now).1)

pub success-hosts : (b : Balancer) (i : ℕ) → (success b i).hosts ≡ b.hosts
unfolding success
success-hosts b i = refl

pub success_clears :
    (b : Balancer) (i : ℕ)
    → IsValid b
    → i < length b.hosts
    → get_or (success b i).cb_failures i 0 ≡ 0
unfolding success
success_clears b i v h = get_or-set_self b.cb_failures i 0 0 (omega arith)
