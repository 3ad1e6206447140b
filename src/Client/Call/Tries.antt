-- ===== src/Client/Call/Tries.antt =====
-- How the loop of tries ends, in `AppsClient.call` of
-- plugins/clients/apps-client/src/hopeit/apps_client/__init__.py.
use hopeit_engine.Common.{
  ℕ, zero, suc, ◌+◌, ◌≤◌, ◌<◌, ◌≡◌, ◌∙◌, refl, ap, false, Bool-cases, inl, inr, Option, none, some,
  List, [], ◌∷◌, ◌++◌, Result, ok, err, ◌==◌, ==_iff, All, All-append, length, length-append,
  get_or, arith,
}
use native.Mathlib.Nat.{mod-lt}
use hopeit_engine.Client.Balancer.{
  Balancer, Limits, next_available_host, success, failure, is_closed,
}
use hopeit_engine.Client.Balancer.Invariant.{
  IsValid, success-IsValid, failure-IsValid, failure-hosts, success-hosts, success_clears,
}
use hopeit_engine.Client.Balancer.Search.{
  next_available_host-Finds, next_available_host-IsValid, next_available_host-hosts, Finds,
  no_host_iff,
}
use hopeit_engine.Client.Responses.{RequestError}
use hopeit_engine.Client.Call.{
  CallError, not_started, app_connection_not_found, no_token, no_hosts_available,
  apps_client_exception, request_failed, unexpected_missing_result, is_retried, Progress, tries,
  try_host, handle_error,
}

-- Every request went to a listed host, and the balancer is still a valid one of the same hosts.
pub record Kept (p p' : Progress) (most : ℕ) : Type 0 where
  pub valid : IsValid p'.balancer
  pub same : length p'.balancer.hosts ≡ length p.balancer.hosts
  pub listed : All (λ i. i < length p'.balancer.hosts) p'.sent
  pub within : length p'.sent ≤ length p.sent + most

module _ {A : Type 0} (l : Limits) (retries now : ℕ) (draw : ℕ → ℕ)
    (request : ℕ → ℕ → Result RequestError A) where
  -- What is known of the end of the loop, by its result.
  abbrev pub Ended : ℕ → Progress → Result CallError A × Progress → Type 0
  Ended left p (ok a, p') =
      Kept p p' left
      × ((r : ℕ) × (i : ℕ) × (earlier : List ℕ) × (p'.sent ≡ earlier ++ i ∷ [])
          × (request r i ≡ ok a)
          × (get_or p'.balancer.cb_failures i 0 ≡ 0))
  Ended left p (err no_hosts_available, p') =
      Kept p p' left
      × ((i : ℕ) → i < length p'.balancer.hosts → is_closed p'.balancer now i ≡ false)
  Ended left p (err (apps_client_exception r), p') =
      Kept p p' left × ((r ≡ retries) × (length p'.sent ≡ length p.sent + left))
  Ended left p (err (request_failed e), p') =
      Kept p p' left × ((r : ℕ) × (i : ℕ) × (request r i ≡ err e) × (is_retried e ≡ false))
  Ended left p (err _, p') = ⊥

  Kept-later :
      (p q p' : Progress) (left : ℕ)
      → length q.balancer.hosts ≡ length p.balancer.hosts
      → length q.sent ≡ suc (length p.sent)
      → Kept q p' left
      → Kept p p' (suc left)
  Kept-later p q p' left same one k = record {
    valid = k.valid;
    same = k.same ∙ same;
    listed = k.listed;
    within = omega (arith, k.within);
  }

  Ended-later :
      (left : ℕ) (p q : Progress) (r : Result CallError A × Progress)
      → length q.balancer.hosts ≡ length p.balancer.hosts
      → length q.sent ≡ suc (length p.sent)
      → Ended left q r
      → Ended (suc left) p r
  Ended-later left p q (ok a, p') same one (k, found) = (Kept-later p q p' left same one k, found)
  Ended-later left p q (err no_hosts_available, p') same one (k, all) =
      (Kept-later p q p' left same one k, all)
  Ended-later left p q (err (apps_client_exception r), p') same one (k, (last, count)) =
      (Kept-later p q p' left same one k, (last, omega arith))
  Ended-later left p q (err (request_failed e), p') same one (k, raised) =
      (Kept-later p q p' left same one k, raised)
  Ended-later left p q (err not_started, p') same one h = absurd h
  Ended-later left p q (err (app_connection_not_found a b), p') same one h = absurd h
  Ended-later left p q (err (no_token e), p') same one h = absurd h
  Ended-later left p q (err unexpected_missing_result, p') same one h = absurd h

  module _ (left retry i : ℕ) (p q : Progress) (v : IsValid q.balancer)
      (same : length q.balancer.hosts ≡ length p.balancer.hosts) (at : q.sent ≡ p.sent ++ i ∷ [])
      (listed : i < length q.balancer.hosts) (sent : All (λ j. j < length q.balancer.hosts) q.sent)
      (round : retry + left ≡ retries) (rest : Progress → Result CallError A × Progress)
      (later : (p1 : Progress)
        → IsValid p1.balancer
        → length p1.balancer.hosts ≡ length p.balancer.hosts
        → length p1.sent ≡ suc (length p.sent)
        → All (λ j. j < length p1.balancer.hosts) p1.sent
        → 0 < left
        → Ended left p1 (rest p1)) where
    one_more : length q.sent ≡ suc (length p.sent)
    one_more = rw at (omega (arith, length-append p.sent (i ∷ [])))

    Kept-here :
        (b : Balancer)
        → IsValid b
        → b.hosts ≡ q.balancer.hosts
        → Kept p (record q { balancer = b }) (suc left)
    Kept-here b w e = record {
      valid = w;
      same = ap length e ∙ same;
      listed = rw e sent;
      within = omega (arith, one_more);
    }

    failed : Progress
    failed = record q { balancer = failure l q.balancer i now }

    failed-IsValid : IsValid failed.balancer
    unfolding failed
    failed-IsValid = failure-IsValid l q.balancer i now v

    failed-hosts : failed.balancer.hosts ≡ q.balancer.hosts
    unfolding failed
    failed-hosts = failure-hosts l q.balancer i now

    handle_error-Ended :
        (e : RequestError)
        → request retry i ≡ err e
        → Ended (suc left) p (handle_error l retries now e retry i q rest)
    unfolding handle_error failed
    handle_error-Ended e raised = elim (Bool-cases (is_retried e)) [
      | inr fatal ↦ rw fatal (Kept-here q.balancer v refl, (retry, i, raised, fatal))
      | inl again ↦ elim (Bool-cases (retry == retries)) [
        | inl last ↦
            rw (again, last)
              (
                Kept-here failed.balancer failed-IsValid failed-hosts,
                (ground arith, omega (arith, one_more, (==_iff retry retries).0 last)),
              )
        | inr more ↦
            rw (again, more)
              (Ended-later left p failed (rest failed) (ap length failed-hosts ∙ same) one_more (
                later failed failed-IsValid (ap length failed-hosts ∙ same) one_more
                  (rw failed-hosts sent) (ground arith)))
      ]
    ]

    try_host-Ended :
        (r : Result RequestError A)
        → request retry i ≡ r
        → Ended (suc left) p (try_host l retries now r retry i q rest)
    unfolding try_host
    try_host-Ended (ok a) returned = (
      Kept-here (success q.balancer i) (success-IsValid q.balancer i v)
          (success-hosts q.balancer i),
      (retry, i, p.sent, at, returned, success_clears q.balancer i v listed),
    )
    try_host-Ended (err e) raised = handle_error-Ended e raised

  found-Ended :
      (left retry : ℕ) (p : Progress) (r : Option ℕ × Balancer)
      → IsValid r.1
      → r.1.hosts ≡ p.balancer.hosts
      → All (λ j. j < length p.balancer.hosts) p.sent
      → Finds (length p.balancer.hosts) now (draw retry) p.balancer r
      → (r.0 ≡ none → (i : ℕ) → i < length p.balancer.hosts → is_closed p.balancer now i ≡ false)
      → retry + left ≡ retries
      → ((q : Progress)
          → IsValid q.balancer
          → length q.balancer.hosts ≡ length p.balancer.hosts
          → length q.sent ≡ suc (length p.sent)
          → All (λ j. j < length q.balancer.hosts) q.sent
          → 0 < left
          → Ended left q (tries l retries now draw request left (retry + 1) q))
      → Ended (suc left) p (elim r.0 [
        | none ↦ (err no_hosts_available, record p { balancer = r.1 })
        | some i ↦
            try_host l retries now
              (request retry i)
              retry
              i
              (record { balancer = r.1; sent = p.sent ++ i ∷ [] })
              (tries l retries now draw request left (retry + 1))
      ])
  found-Ended left retry p (none, b) v same listed (refused, e) all round later = (
    record { valid = v; same = ap length same; listed = rw same listed; within = omega arith },
    λ i h. rw e (all refl i (rw same at h)),
  )
  found-Ended left retry p (some i, b) v same listed (k, below, turn, closed, others, e) all round
        later =
      let here : i < length b.hosts =
        rw (turn, ap length same) (mod-lt (p.balancer.host_index + k) (omega arith)) in
      try_host-Ended left retry i p (record { balancer = b; sent = p.sent ++ i ∷ [] }) v
        (ap length same) refl here
        (All-append (λ j. j < length b.hosts) p.sent (i ∷ []) (rw same listed) (here, tt)) round
        (tries l retries now draw request left (retry + 1)) later (request retry i) refl

  tries-Ended :
      (left retry : ℕ) (p : Progress)
      → IsValid p.balancer
      → ((r : ℕ) → draw r < length p.balancer.hosts)
      → All (λ j. j < length p.balancer.hosts) p.sent
      → 0 < left
      → retry + left ≡ suc retries
      → Ended left p (tries l retries now draw request left retry p)
  unfolding tries
  tries-Ended zero retry p v d listed pos round = elim pos [ ]
  tries-Ended (suc left) retry p v d listed pos round =
      found-Ended left retry p (next_available_host p.balancer now (draw retry))
        (next_available_host-IsValid p.balancer now (draw retry) v (d retry))
        (next_available_host-hosts p.balancer now (draw retry)) listed
        (next_available_host-Finds now (draw retry) p.balancer v)
        (no_host_iff now (draw retry) p.balancer v).0 (omega arith)
        (λ q w same one to_listed more.
          tries-Ended left (retry + 1) q w (λ r. rw same (d r)) to_listed more (omega arith))

  -- A loop of `retries + 1` tries always ends with a value or a raised error, never behind the last
  -- round. It sends at most `retries + 1` requests, to listed hosts of a balancer that stays valid.
  -- With a value, the last request returned it and its host has no failures counted; with the error
  -- that all tries failed, exactly `retries + 1` requests were sent; with the error that no host is
  -- available, every host is refused at that time; any other error is one that a request raised and
  -- that is not retried. The draws are numbers of hosts.
  pub tries_end :
      (b : Balancer)
      → IsValid b
      → ((r : ℕ) → draw r < length b.hosts)
      → let p : Progress = record { balancer = b; sent = [] } in
        Ended (suc retries) p (tries l retries now draw request (suc retries) 0 p)
  tries_end b v d =
      tries-Ended (suc retries) 0 (record { balancer = b; sent = [] }) v d tt (omega arith)
        (omega arith)
