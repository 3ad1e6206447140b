-- ===== src/Steps/Execute/Total.antt =====
-- How a run of `execute_steps` of engine/src/hopeit/server/steps.py ends, on the effective steps of
-- an event.
use hopeit_engine.Common.{Bool, Option, List}
use hopeit_engine.Steps.Defs.{Trace, done, raised, yields, StepInfo, Step}
use hopeit_engine.Steps.Execute.{
  Failure, step_error, isinstance_failed, max_steps_exceeded, out_of_fuel, append,
}
use hopeit_engine.Steps.Execute.Semantics.{
  Runs, cannot_tell, finishes, goes_on, RunsStep, fails, returns, spawns, RunsEach, ends, breaks,
  more,
}

-- The generator ends, or with an exception that a step raised, or with the TypeError of a search.
abbrev pub EndsWell : {E A : Type 0} → Trace (Failure E) A → Type 0
EndsWell done = Unit
EndsWell (raised (step_error e)) = Unit
EndsWell (raised isinstance_failed) = Unit
EndsWell (raised max_steps_exceeded) = ⊥
EndsWell (raised out_of_fuel) = ⊥
EndsWell (yields a t) = EndsWell t

EndsWell-append :
    {E A : Type 0} (t u : Trace (Failure E) A) → EndsWell t → EndsWell u → EndsWell (append t u)
EndsWell-append done u h k = k
EndsWell-append (raised (step_error e)) u h k = tt
EndsWell-append (raised isinstance_failed) u h k = tt
EndsWell-append (raised max_steps_exceeded) u h k = h
EndsWell-append (raised out_of_fuel) u h k = h
EndsWell-append (yields a t) u h k = EndsWell-append t u h k

module _ {V Ty Args E : Type 0} (is_instance : Option V → Ty → Option Bool) (no_args : Args) where
  mutual
    Runs-EndsWell :
        {rest : List (Step V Ty Args E)} {r : Option V} {t : Trace (Failure E) (Option V)}
        → Runs is_instance no_args rest r t
        → EndsWell t
    Runs-EndsWell (finishes e) = tt
    Runs-EndsWell (cannot_tell e) = tt
    Runs-EndsWell (goes_on e s) = RunsStep-EndsWell s

    RunsStep-EndsWell :
        {rest : List (Step V Ty Args E)} {info : StepInfo V Ty Args E} {p : Option V} {args : Args}
        {t : Trace (Failure E) (Option V)}
        → RunsStep is_instance no_args rest info p args t
        → EndsWell t
    RunsStep-EndsWell (fails a b) = tt
    RunsStep-EndsWell (returns a b r) = Runs-EndsWell r
    RunsStep-EndsWell (spawns a e) = RunsEach-EndsWell e

    RunsEach-EndsWell :
        {rest : List (Step V Ty Args E)} {g : Trace E (Option V)} {t : Trace (Failure E) (Option V)}
        → RunsEach is_instance no_args rest g t
        → EndsWell t
    RunsEach-EndsWell ends = tt
    RunsEach-EndsWell breaks = tt
    RunsEach-EndsWell (more {t = t} {u = u} r e) =
        EndsWell-append t u (Runs-EndsWell r) (RunsEach-EndsWell e)
