-- ===== src/Steps/Execute/Refines.antt =====
-- `execute_steps` of engine/src/hopeit/server/steps.py does what Execute/Semantics says.
use hopeit_engine.Common.{
  ℕ, zero, suc, ◌+◌, ◌*◌, ◌≤◌, ◌<◌, ◌≡◌, ◌⊎◌, refl, sym, subst, Bool, true, false, Bool-cases, inl,
  inr, Option, List, Result, ok, err, leb, length, drop, arith,
}
use hopeit_engine.Steps.Defs.{Trace, done, raised, yields, StepInfo, Step}
use hopeit_engine.Steps.Effective.{IsNumbered}
use hopeit_engine.Steps.Next.{
  Search, missing, hit, isinstance_error, find_next_step, select, NextAgree,
  find_next_step-NextAgree,
}
use hopeit_engine.Steps.Execute.{
  Failure, step_error, isinstance_failed, for_each, max_steps, recursion, loop, execute_steps,
}
use hopeit_engine.Steps.Execute.Semantics.{
  Runs, cannot_tell, finishes, goes_on, RunsStep, fails, returns, spawns, RunsEach, ends, breaks,
  more,
}

module _ {V Ty Args E : Type 0} (is_instance : Option V → Ty → Option Bool) (no_args : Args) where
  for_each-Runs :
      (rest : List (Step V Ty Args E)) (g : Trace E (Option V))
      (body : Option V → Trace (Failure E) (Option V))
      → ((r : Option V) → Runs is_instance no_args rest r (body r))
      → RunsEach is_instance no_args rest g (for_each g body)
  for_each-Runs rest done body h = ends
  for_each-Runs rest (raised e) body h = breaks
  for_each-Runs rest (yields r g) body h = more (h r) (for_each-Runs rest g body h)

  -- The step that a result goes to, or the result itself.
  next-Runs :
      (i : ℕ) (steps rest : List (Step V Ty Args E)) (r : Option V)
      (run : ℕ → StepInfo V Ty Args E → Trace (Failure E) (Option V))
      (a : Search (ℕ × StepInfo V Ty Args E))
      (b : Search (StepInfo V Ty Args E × List (Step V Ty Args E)))
      → select is_instance r rest ≡ b
      → NextAgree is_instance (suc i) steps a b
      → ((j : ℕ) (next : StepInfo V Ty Args E)
          → suc i ≤ j
          → j < length steps
          → RunsStep is_instance no_args (drop (suc j) steps) next r no_args (run j next))
      → Runs is_instance no_args rest r (elim a [
        | missing ↦ yields r done
        | isinstance_error ↦ raised isinstance_failed
        | hit (j, next) ↦ run j next
      ])
  next-Runs i steps rest r run missing missing e n h = finishes e
  next-Runs i steps rest r run isinstance_error isinstance_error e n h = cannot_tell e
  next-Runs i steps rest r run (hit (j, next)) (hit (info, later)) e (same, lo, hi, at) h =
      goes_on e (rw (← same, at) (h j next lo hi))
  next-Runs i steps rest r run missing isinstance_error e n h = absurd n
  next-Runs i steps rest r run missing (hit y) e n h = absurd n
  next-Runs i steps rest r run isinstance_error missing e n h = absurd n
  next-Runs i steps rest r run isinstance_error (hit y) e n h = absurd n
  next-Runs i steps rest r run (hit x) missing e n h = absurd n
  next-Runs i steps rest r run (hit x) isinstance_error e n h = absurd n

  -- What comes out of a list of steps for a payload and query arguments: nothing, if no step takes
  -- the payload, the TypeError of the search, or else the run of the first step that does, with the arguments.
  abbrev pub Starts :
      List (Step V Ty Args E) → Option V → Args → Trace (Failure E) (Option V) → Type 0
  Starts steps p args t =
      ((select is_instance p steps ≡ missing) × (t ≡ done))
      ⊎ ((select is_instance p steps ≡ isinstance_error) × (t ≡ raised isinstance_failed))
      ⊎ ((info : StepInfo V Ty Args E) × (later : List (Step V Ty Args E)) × (select is_instance p
              steps
            ≡ hit (info, later))
          × RunsStep is_instance no_args later info p args t)

  module _ (steps : List (Step V Ty Args E)) (numbered : IsNumbered 0 steps)
      (few : length steps ≤ max_steps) where
    after-Runs :
        (i : ℕ) (r : Option V) (run : ℕ → StepInfo V Ty Args E → Trace (Failure E) (Option V))
        → ((j : ℕ) (next : StepInfo V Ty Args E)
            → suc i ≤ j
            → j < length steps
            → RunsStep is_instance no_args (drop (suc j) steps) next r no_args (run j next))
        → Runs is_instance no_args
            (drop (suc i) steps)
            r
            (elim (find_next_step is_instance r steps (suc i)) [
              | missing ↦ yields r done
              | isinstance_error ↦ raised isinstance_failed
              | hit (j, next) ↦ run j next
            ])
    after-Runs i r run h =
        next-Runs i steps (drop (suc i) steps) r run _ _ refl
          (find_next_step-NextAgree is_instance r (suc i) steps numbered) h

    invoked :
        (i : ℕ) (info : StepInfo V Ty Args E) (p : Option V) (args : Args)
        (run : Option V → Trace (Failure E) (Option V)) (x : Result E (Option V))
        → info.is_iterable ≡ false
        → info.invoke p args ≡ x
        → ((r : Option V) → Runs is_instance no_args (drop (suc i) steps) r (run r))
        → RunsStep is_instance no_args
            (drop (suc i) steps)
            info
            p
            args
            (elim x [ err e ↦ raised (step_error e) | ok r ↦ run r ])
    invoked i info p args run (err e) single called h = fails single called
    invoked i info p args run (ok r) single called h = returns single called (h r)

    mutual
      unfolding recursion loop

      -- A run by recursion has fuel for two calls a step, and one call less where the step spawns.
      recursion-Runs :
          (n : ℕ) (p : Option V) (i : ℕ) (info : StepInfo V Ty Args E) (args : Args)
          → i < length steps
          → (info.is_iterable ≡ true → 2 * length steps ≤ n + 2 * i + 1)
          → (info.is_iterable ≡ false → 2 * length steps ≤ n + 2 * i)
          → RunsStep is_instance no_args
              (drop (suc i) steps)
              info
              p
              args
              (recursion is_instance no_args n steps p i info args)
      recursion-Runs zero p i info args h many one = absurd (elim (Bool-cases info.is_iterable) [
        | inl spawn ↦ omega (arith, many spawn)
        | inr single ↦ omega (arith, one single)
      ])
      recursion-Runs (suc n) p i info args h many one = elim (Bool-cases info.is_iterable) [
        | inl spawn ↦ simp spawn (
            spawns spawn (
              for_each-Runs (drop (suc i) steps) (info.spawn p args) _ (λ r.
                after-Runs i r (λ j next. recursion is_instance no_args n steps r j next no_args)
                  (λ j next lo hi.
                    recursion-Runs n r j next no_args hi (λ _. omega (arith, many spawn))
                      (λ _. omega (arith, many spawn))))))
        | inr single ↦
            simp single
              (loop-Runs n p i info args h (λ e. absurd (cc)) (λ _. omega (arith, one single)))
      ]

      -- A run by the loop has fuel for two calls a step, and one call less where the step returns.
      loop-Runs :
          (n : ℕ) (p : Option V) (i : ℕ) (info : StepInfo V Ty Args E) (args : Args)
          → i < length steps
          → (info.is_iterable ≡ true → (args ≡ no_args) × (2 * length steps ≤ n + 2 * i))
          → (info.is_iterable ≡ false → 2 * length steps ≤ n + 2 * i + 1)
          → RunsStep is_instance no_args
              (drop (suc i) steps)
              info
              p
              args
              (loop is_instance no_args n steps p i info args)
      loop-Runs zero p i info args h many one = absurd (elim (Bool-cases info.is_iterable) [
        | inl spawn ↦ omega (arith, (many spawn).1)
        | inr single ↦ omega (arith, one single)
      ])
      loop-Runs (suc n) p i info args h many one =
          let room : leb max_steps i ≡ false = ground arith in
          elim (Bool-cases info.is_iterable) [
            | inl spawn ↦
                rw (room, loop)
                  (simp spawn (
                    subst
                      (λ x.
                        RunsStep is_instance no_args (drop (suc i) steps) info p x
                          (recursion is_instance no_args n steps p i info no_args))
                      (sym (many spawn).0)
                      (recursion-Runs n p i info no_args h (λ _. omega (arith, (many spawn).1))
                        (λ e. absurd (cc)))))
            | inr single ↦
                rw (room, loop)
                  (simp single (
                    invoked i info p args _ (info.invoke p args) single refl (λ r.
                      after-Runs i r (λ j next. loop is_instance no_args n steps r j next no_args)
                        (λ j next lo hi.
                          loop-Runs n r j next no_args hi (λ _. (refl, omega (arith, one single)))
                            (λ _. omega (arith, one single))))))
          ]

    first-Runs :
        (p : Option V) (args : Args) (a : Search (ℕ × StepInfo V Ty Args E))
        (b : Search (StepInfo V Ty Args E × List (Step V Ty Args E)))
        → select is_instance p steps ≡ b
        → NextAgree is_instance 0 steps a b
        → Starts steps p args (elim a [
          | missing ↦ done
          | isinstance_error ↦ raised isinstance_failed
          | hit (i, info) ↦ recursion is_instance no_args (2 * length steps) steps p i info args
        ])
    first-Runs p args missing missing e n = inl (e, refl)
    first-Runs p args isinstance_error isinstance_error e n = inr (inl (e, refl))
    first-Runs p args (hit (i, info)) (hit (info', later)) e (same, lo, hi, at) = inr (
        inr (
          info',
          later,
          e,
          rw (← same, at)
              (recursion-Runs (2 * length steps) p i info args hi (λ _. omega arith)
                (λ _. omega arith)),
        ))
    first-Runs p args missing isinstance_error e n = absurd n
    first-Runs p args missing (hit y) e n = absurd n
    first-Runs p args isinstance_error missing e n = absurd n
    first-Runs p args isinstance_error (hit y) e n = absurd n
    first-Runs p args (hit x) missing e n = absurd n
    first-Runs p args (hit x) isinstance_error e n = absurd n

    -- For steps numbered from 0, at most MAX_STEPS of them, `execute_steps` gives what the semantics
    -- says: each result goes to the first step behind that takes it (by its type, or else as a
    -- DataObject), each payload of a spawning step on its own and in order, and results that no
    -- step takes come out; a search that comes to a type which `isinstance` does not take ends the run
    -- with its TypeError. So neither the limit on steps nor the fuel ends a run.
    pub execute_steps-Starts :
        (p : Option V) (args : Args)
        → Starts steps p args (execute_steps is_instance no_args steps p args)
    unfolding execute_steps
    execute_steps-Starts p args =
        first-Runs p args _ _ refl (find_next_step-NextAgree is_instance p 0 steps numbered)
