-- ===== src/Steps/Tests.antt =====
-- Runs of the functions of engine/src/hopeit/server/steps.py, on an event with three steps in one
-- stage, one of which spawns, and a second stage.
use hopeit_engine.Common.{
  ℕ, ◌*◌, ◌≡◌, refl, Bool, true, false, not, ltb, Option, none, some, List, [], ◌∷◌, String, ok,
  err, arith, drop,
}
use hopeit_engine.Steps.Defs.{done, raised, yields, class_of, StepInfo, StepName, named, Step}
use hopeit_engine.Steps.Names.{event_and_step}
use hopeit_engine.Steps.Effective.{effective_steps, effective_steps-Lists, Lists, stage}
use hopeit_engine.Steps.Next.{Search, find_next_step, NextAgree}
use hopeit_engine.Steps.Next.Choice.{Chosen, find_next_step-Chosen}
use hopeit_engine.Steps.Execute.{step_error, execute_steps, recursion, loop}
use hopeit_engine.Steps.Execute.Refines.{Starts, execute_steps-Starts}

-- Payloads are numbers, of two types: below 10 (`true`), and others.
abbrev is_small : Option ℕ → Bool → Option Bool
is_small none t = some false
is_small (some n) true = some (ltb n 10)
is_small (some n) false = some (not (ltb n 10))

abbrev Info : Type 0
Info = StepInfo ℕ Bool ℕ String

-- Gives the argument, and the payload.
abbrev spawn_two : Info
spawn_two = record {
  input_type = class_of true;
  is_iterable = true;
  invoke = λ p args. err "spawns";
  spawn = λ p args. yields (some args) (yields p done);
}

abbrev double : Info
double = record {
  input_type = class_of false;
  is_iterable = false;
  invoke = λ p args. elim p [ none ↦ ok none | some n ↦ ok (some (2 * n)) ];
  spawn = λ p args. done;
}

abbrev refuse : Info
refuse = record {
  input_type = class_of true;
  is_iterable = false;
  invoke = λ p args. err "refused";
  spawn = λ p args. done;
}

abbrev entries : List (StepName × Option Info)
entries =
    (named "spawn_two", some spawn_two)
    ∷ (named "double", some double)
    ∷ (named "refuse", some refuse)
    ∷ (named "__shuffle__", none)
    ∷ (named "store", some double)
    ∷ []

abbrev steps : List (Step ℕ Bool ℕ String)
steps =
    (0, named "spawn_two", spawn_two)
    ∷ (1, named "double", double)
    ∷ (2, named "refuse", refuse)
    ∷ []

event_and_step_test : event_and_step "event$store" ≡ ok ("event", some "store")
unfolding event_and_step
event_and_step_test = refl

effective_steps_test : effective_steps "event$store" entries ≡ ok ((0, named "store", double) ∷ [])
unfolding effective_steps
effective_steps_test = refl

-- The argument 30 is doubled and comes out, and the payload 4 goes to the step that refuses it.
execute_steps_test :
    execute_steps is_small 0 steps (some 4) 30 ≡ yields (some 60) (raised (step_error "refused"))
unfolding execute_steps recursion loop find_next_step
execute_steps_test = refl

effective_steps-Lists_example :
    Lists 0 (stage (some "store") entries) (effective_steps "event$store" entries)
effective_steps-Lists_example =
    effective_steps-Lists "event$store" "event" (some "store") entries event_and_step_test

find_next_step-Chosen_example :
    (r : Search (Info × List (Step ℕ Bool ℕ String))) × NextAgree is_small 1 steps
      (find_next_step is_small (some 4) steps 1)
      r
    × Chosen is_small (some 4) (drop 1 steps) r
find_next_step-Chosen_example =
    find_next_step-Chosen is_small (some 4) 1 steps (refl, (refl, (refl, tt)))

execute_steps-Starts_example :
    Starts is_small 0 steps (some 4) 30 (execute_steps is_small 0 steps (some 4) 30)
execute_steps-Starts_example =
    execute_steps-Starts is_small 0 steps (refl, (refl, (refl, tt))) (omega arith) (some 4) 30
