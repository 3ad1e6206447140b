-- ===== src/Steps/Execute/Semantics.antt =====
-- What running the steps of an event means, without indices, fuel or a limit: the relation that
-- `execute_steps` of engine/src/hopeit/server/steps.py is held to.
use hopeit_engine.Common.{Bool, true, false, Option, List, ok, err, ◌≡◌}
use hopeit_engine.Steps.Defs.{Trace, done, raised, yields, StepInfo, Step}
use hopeit_engine.Steps.Next.{missing, hit, isinstance_error, select}
use hopeit_engine.Steps.Execute.{Failure, step_error, isinstance_failed, append}

module _ {V Ty Args E : Type 0} (is_instance : Option V → Ty → Option Bool) (no_args : Args) where
  mutual
    -- `Runs rest r t`: the result `r` of a step goes to the first of the steps `rest` behind it that
    -- takes it, and `t` comes out. A result that none of them takes comes out itself;
    -- where the search comes to a type that `isinstance` does not take, its TypeError comes out.
    pub data Runs : List (Step V Ty Args E) → Option V → Trace (Failure E) (Option V) → Type 0 where
      finishes :
          {rest : List (Step V Ty Args E)} {r : Option V}
          → select is_instance r rest ≡ missing
          → Runs rest r (yields r done)
      cannot_tell :
          {rest : List (Step V Ty Args E)} {r : Option V}
          → select is_instance r rest ≡ isinstance_error
          → Runs rest r (raised isinstance_failed)
      goes_on :
          {rest later : List (Step V Ty Args E)} {r : Option V} {info : StepInfo V Ty Args E}
          {t : Trace (Failure E) (Option V)}
          → select is_instance r rest ≡ hit (info, later)
          → RunsStep later info r no_args t
          → Runs rest r t

    -- `RunsStep rest info p args t`: the step is called on `p`, and its results go on to `rest`.
    pub data RunsStep
        : List (Step V Ty Args E)
          → StepInfo V Ty Args E
          → Option V
          → Args
          → Trace (Failure E) (Option V)
          → Type 0 where
      fails :
          {rest : List (Step V Ty Args E)} {info : StepInfo V Ty Args E} {p : Option V}
          {args : Args} {e : E}
          → info.is_iterable ≡ false
          → info.invoke p args ≡ err e
          → RunsStep rest info p args (raised (step_error e))
      returns :
          {rest : List (Step V Ty Args E)} {info : StepInfo V Ty Args E} {p r : Option V}
          {args : Args} {t : Trace (Failure E) (Option V)}
          → info.is_iterable ≡ false
          → info.invoke p args ≡ ok r
          → Runs rest r t
          → RunsStep rest info p args t
      spawns :
          {rest : List (Step V Ty Args E)} {info : StepInfo V Ty Args E} {p : Option V}
          {args : Args} {t : Trace (Failure E) (Option V)}
          → info.is_iterable ≡ true
          → RunsEach rest (info.spawn p args) t
          → RunsStep rest info p args t

    -- `RunsEach rest g t`: every payload that the generator `g` gives goes to `rest`, in order.
    pub data RunsEach
        : List (Step V Ty Args E) → Trace E (Option V) → Trace (Failure E) (Option V) → Type 0 where
      ends : {rest : List (Step V Ty Args E)} → RunsEach rest done done
      breaks :
          {rest : List (Step V Ty Args E)} {e : E}
          → RunsEach rest (raised e) (raised (step_error e))
      more :
          {rest : List (Step V Ty Args E)} {r : Option V} {g : Trace E (Option V)}
          {t u : Trace (Failure E) (Option V)}
          → Runs rest r t
          → RunsEach rest g u
          → RunsEach rest (yields r g) (append t u)
