-- ===== src/Client/Tests.antt =====
-- Runs of the client in plugins/clients/apps-client/src/hopeit/apps_client/__init__.py.
use hopeit_engine.Common.{
  ℕ, ◌<◌, ◌≡◌, ◌≢◌, ◌↔◌, refl, [], ◌∷◌, none, some, false, arith, length, get_or, ltb, suc, zero,
  Result, ok, err,
}
use hopeit_engine.Client.Balancer.{
  Balancer, Limits, failure, success, is_closed, next_available_host,
}
use hopeit_engine.Client.Balancer.Invariant.{IsValid}
use hopeit_engine.Client.Balancer.Search.{Finds, next_available_host-Finds, no_host_iff}
use hopeit_engine.Client.Balancer.Opening.{failures_at, failures_open, success_resets}
use hopeit_engine.Client.Responses.{RequestError, os_error}
use hopeit_engine.Client.Tokens.{
  Claims, Tokens, TokenError, IsFresh, Serves, ensure_token, ensure_token-Serves,
}
use hopeit_engine.Client.Call.{tries}
use hopeit_engine.Client.Call.Tries.{Ended, tries_end}

abbrev limits : Limits
limits = record {
  circuit_breaker_open_failures = 2;
  circuit_breaker_failure_reset_seconds = 60;
  circuit_breaker_open_seconds = 30;
}

-- The second of two hosts is refused until 130.
abbrev two_hosts : Balancer
two_hosts = record {
  hosts = "http://a" ∷ "http://b" ∷ [];
  host_index = 1;
  cb_failures = 1 ∷ 2 ∷ [];
  cb_reset_ttl = 160 ∷ 160 ∷ [];
  cb_open_ttl = 0 ∷ 130 ∷ [];
}

two_hosts-IsValid : IsValid two_hosts
two_hosts-IsValid = record {
  next_listed = omega arith;
  failures_kept = refl;
  resets_kept = refl;
  opens_kept = refl;
}

next_available_host-Finds_example : Finds 2 101 0 two_hosts (next_available_host two_hosts 101 0)
next_available_host-Finds_example = next_available_host-Finds 101 0 two_hosts two_hosts-IsValid

no_host_iff_example :
    ((next_available_host two_hosts 101 0).0 ≡ none)
    ↔ ((i : ℕ) → i < 2 → is_closed two_hosts 101 i ≡ false)
no_host_iff_example = no_host_iff 101 0 two_hosts two_hosts-IsValid

failures_open_example :
    is_closed (failures_at limits 0 (200 ∷ 210 ∷ []) two_hosts) 220 0 ≡ ltb 240 220
failures_open_example =
    failures_open limits two_hosts 0 200 (210 ∷ []) 220 two_hosts-IsValid (omega arith)
      (omega arith) (omega arith, tt) (omega arith)

abbrev first_host : ℕ
first_host = 0

zero_not_one : first_host ≢ 1
zero_not_one e = omega arith

success_resets_example :
    (is_closed (success two_hosts 1) 101 1 ≡ ltb 0 101)
    × (get_or (success two_hosts 1).cb_failures 1 0 ≡ 0)
    × (is_closed (success two_hosts 1) 101 0 ≡ is_closed two_hosts 101 0)
    × (is_closed (failure limits two_hosts 1 100) 101 0 ≡ is_closed two_hosts 101 0)
success_resets_example =
    success_resets limits two_hosts 1 0 101 100 two_hosts-IsValid (omega arith) zero_not_one

-- A token that is the claims that were signed.
abbrev sign : Claims → Result TokenError Claims
sign c = ok c

abbrev held : Tokens Claims
held = record {
  token = some (record { iat = 100; exp = 160; app = "app.1x0" });
  token_expire = 150;
}

held-IsFresh : IsFresh sign "app.1x0" held
held-IsFresh = (record { iat = 100; exp = 160; app = "app.1x0" }, refl, refl, refl, refl)

ensure_token-Serves_example : Serves sign "app.1x0" 149 (ensure_token sign "app.1x0" 149 held)
ensure_token-Serves_example = ensure_token-Serves sign "app.1x0" 149 held held-IsFresh

-- The first request times out, and every later one returns the number of its host.
abbrev request : ℕ → ℕ → Result RequestError ℕ
request zero i = err os_error
request (suc r) i = ok i

draw_listed : (r : ℕ) → 0 < length two_hosts.hosts
draw_listed r = omega arith

tries_end_example :
    Ended limits 1 200
      (λ r. 0)
      request
      2
      (record { balancer = two_hosts; sent = [] })
      (tries limits 1 200 (λ r. 0) request 2 0 (record { balancer = two_hosts; sent = [] }))
tries_end_example = tries_end limits 1 200 (λ r. 0) request two_hosts two_hosts-IsValid draw_listed
