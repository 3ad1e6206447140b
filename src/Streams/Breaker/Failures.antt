-- ===== src/Streams/Breaker/Failures.antt =====
-- Runs of failures and of successes of the breaker in engine/src/hopeit/streams/__init__.py.
use native.Mathlib.Nat.{pow-suc}
use hopeit_engine.Common.{
  ℕ, zero, suc, ◌-◌, ◌*◌, ◌^◌, ◌≤◌, ◌≡◌, ◌⊎◌, inl, inr, ap, true, Bool-cases, min, max, leb,
  if◌then◌else◌, arith,
}
use hopeit_engine.Streams.Breaker.{Settings, Breaker, closed, handle_failure, recover}
use hopeit_engine.Streams.Breaker.Invariant.{IsValid}

-- `n` failed operations in a row.
unfoldable pub failures : Settings → ℕ → Breaker → Breaker
failures s zero b = b
failures s (suc n) b = handle_failure s (failures s n b)

-- The failures in a row that open a closed breaker.
abbrev pub opens_at : Settings → ℕ
opens_at s = max 2 s.num_failures_open_circuit_breaker

-- The breaker `n` failures after it was closed, for `n` above 0.
abbrev pub after_failures : Settings → ℕ → Breaker
after_failures s n =
    if leb (opens_at s) n
    then record {
      state = 2;
      num_failures = opens_at s;
      backoff = min s.max_backoff_seconds (s.initial_backoff_seconds * 2 ^ (n - opens_at s));
    }
    else record { state = 1; num_failures = n; backoff = s.initial_backoff_seconds }

pow_step : (o n : ℕ) → o ≤ n → 2 ^ (suc n - o) ≡ 2 ^ (n - o) * 2
pow_step o n h = let e : suc n - o ≡ suc (n - o) = omega arith in rw e (pow-suc 2 (n - o))

pow_none : (o n : ℕ) → n ≤ o → 2 ^ (n - o) ≡ 1
pow_none o n h = let e : n - o ≡ 0 = omega arith in rw e

doubled : (m i p : ℕ) → min m (2 * min m (i * p)) ≡ min m (i * (p * 2))
doubled m i p = omega arith

next_failure :
    (s : Settings) (n : ℕ)
    → s.initial_backoff_seconds ≤ s.max_backoff_seconds
    → handle_failure s (after_failures s (suc n)) ≡ after_failures s (suc (suc n))
unfolding handle_failure
next_failure s n h = elim (Bool-cases (leb (opens_at s) (suc n))) [
  | inl open_now ↦
      let still : leb (opens_at s) (suc (suc n)) ≡ true = ground arith in
      let p : 2 ^ (suc (suc n) - opens_at s) ≡ 2 ^ (suc n - opens_at s) * 2 =
        pow_step (opens_at s) (suc n) (ground arith) in
      rw (open_now, still, p)
        (ap
          (λ k. let b : Breaker = record { state = 2; num_failures = opens_at s; backoff = k } in b)
          (doubled s.max_backoff_seconds s.initial_backoff_seconds _))
  | inr not_open ↦ elim (Bool-cases (leb (opens_at s) (suc (suc n)))) [
    | inl opening ↦ rw (not_open, opening) (ground (arith, pow_none (opens_at s) (suc (suc n))))
    | inr later ↦ rw (not_open, later) (ground arith)
  ]
]

-- A closed breaker that meets failures only goes to semi-open with the initial backoff at the first
-- failure, opens at the configured number of failures (at the second, if fewer are configured), and
-- then doubles its backoff at each further failure, up to the configured maximum; this holds if the
-- initial backoff is at most the maximum.
pub failures-closed :
    (s : Settings) (n : ℕ)
    → s.initial_backoff_seconds ≤ s.max_backoff_seconds
    → failures s (suc n) closed ≡ after_failures s (suc n)
unfolding failures
failures-closed s zero h = unfold handle_failure in ground (arith, pow_none (opens_at s) 1)
failures-closed s (suc n) h = rw (failures-closed s n h) (next_failure s n h)

-- Two successful operations close the breaker from every state that it can be in, and one leaves
-- it at most semi-open, at the initial backoff unless it is closed.
pub recover_closes :
    (s : Settings) (b : Breaker)
    → IsValid s b
    → (recover s (recover s b) ≡ closed)
      × ((recover s b ≡ closed)
          ⊎ (((recover s b).state ≡ 1)
              × ((recover s b).backoff ≡ s.initial_backoff_seconds)
              × (suc (recover s b).num_failures ≡ b.num_failures)))
unfolding recover
recover_closes s b v = ground arith
