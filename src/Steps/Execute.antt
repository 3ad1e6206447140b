-- ===== src/Steps/Execute.antt =====
-- `execute_steps` and `_execute_steps_recursion` of engine/src/hopeit/server/steps.py: the steps run
-- on a payload, and the results come out as an asynchronous generator. Payloads are values here, so
-- that `copy_payload` has nothing to do; the sleeps between steps and at the results have no effect
-- on what is computed, and are left out. Each call takes fuel; Execute/Total shows that
-- `execute_steps` gives enough.
pub mod Semantics
pub mod Refines
pub mod Total
use hopeit_engine.Common.{
  ℕ, zero, suc, ◌+◌, ◌*◌, Bool, true, false, Option, none, some, List, Result, ok, err, leb,
  if◌then◌else◌, length,
}
use hopeit_engine.Steps.Defs.{Trace, done, raised, yields, StepInfo, Step}
use hopeit_engine.Steps.Next.{Search, missing, hit, isinstance_error, find_next_step}

abbrev pub max_steps : ℕ
max_steps = 1000

-- The exceptions of a run: one that a step raised, the TypeError of `isinstance` in the search for a
-- step, the RuntimeError on too many steps, and the end of the fuel, which has no counterpart in the code.
pub data Failure (E : Type 0) : Type 0 where
  step_error : E → Failure E
  isinstance_failed max_steps_exceeded out_of_fuel : Failure E

module _ {ℓ κ} {E : Type ℓ} {A : Type κ} where
  -- The results of one generator, and then those of another, unless the first one raised.
  abbrev pub append : Trace E A → Trace E A → Trace E A
  append done u = u
  append (raised e) u = raised e
  append (yields a t) u = yields a (append t u)

module _ {E A B : Type 0} where
  -- `async for a in t: (yield all that body(a) yields)`
  abbrev pub for_each : Trace E A → (A → Trace (Failure E) B) → Trace (Failure E) B
  for_each done body = done
  for_each (raised e) body = raised (step_error e)
  for_each (yields a t) body = append (body a) (for_each t body)

module _ {V Ty Args E : Type 0} (is_instance : Option V → Ty → Option Bool) (no_args : Args) where
  unfoldable mutual
    unfolding find_next_step

    -- `_execute_steps_recursion`, with the index of the step and the step. Its loop and it call one
    -- another.
    pub recursion :
        ℕ
        → List (Step V Ty Args E)
        → Option V
        → ℕ
        → StepInfo V Ty Args E
        → Args
        → Trace (Failure E) (Option V)
    recursion zero steps payload i info args = raised out_of_fuel
    recursion (suc n) steps payload i info args = elim info.is_iterable [
      | true ↦ for_each (info.spawn payload args) (λ r.
          elim (find_next_step is_instance r steps (suc i)) [
            | missing ↦ yields r done
            | isinstance_error ↦ raised isinstance_failed
            | hit (j, next) ↦ recursion n steps r j next no_args
          ])
      | false ↦ loop n steps payload i info args
    ]

    -- `while 0 <= i < MAX_STEPS`, with what follows it.
    pub loop :
        ℕ
        → List (Step V Ty Args E)
        → Option V
        → ℕ
        → StepInfo V Ty Args E
        → Args
        → Trace (Failure E) (Option V)
    loop zero steps payload i info args = raised out_of_fuel
    loop (suc n) steps payload i info args = elim (leb max_steps i) [
      | true ↦ raised max_steps_exceeded
      | false ↦ elim info.is_iterable [
        | true ↦ recursion n steps payload i info no_args
        | false ↦ elim (info.invoke payload args) [
          | err e ↦ raised (step_error e)
          | ok r ↦ elim (find_next_step is_instance r steps (suc i)) [
            | missing ↦ yields r done
            | isinstance_error ↦ raised isinstance_failed
            | hit (j, next) ↦ loop n steps r j next no_args
          ]
        ]
      ]
    ]

  unfoldable pub execute_steps :
      List (Step V Ty Args E) → Option V → Args → Trace (Failure E) (Option V)
  execute_steps steps payload args = elim (find_next_step is_instance payload steps 0) [
    | missing ↦ done
    | isinstance_error ↦ raised isinstance_failed
    | hit (i, info) ↦ recursion (2 * length steps) steps payload i info args
  ]
