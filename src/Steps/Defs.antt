-- ===== src/Steps/Defs.antt =====
-- The data that engine/src/hopeit/server/steps.py works on. A handler is a function of its payload
-- and its query arguments; a handler that spawns gives a finite run of payloads.
use hopeit_engine.Common.{ℕ, Bool, Option, String, Result}

-- What an asynchronous generator gives: values in order, and then its end or an exception.
pub data Trace {ℓ κ} (E : Type ℓ) (A : Type κ) : Type (ℓ ⊔ κ) where
  done : Trace E A
  raised : E → Trace E A
  yields : A → Trace E A → Trace E A

-- The annotation of a step's first argument: None, DataObject, or another type. Where there is none, it
-- is Any, which is a type that `isinstance` does not take.
pub data Annotation (Ty : Type 0) : Type 0 where
  no_payload data_object : Annotation Ty
  class_of : Ty → Annotation Ty

-- StepInfo. `invoke` is the step's function where it is called once, `spawn` where it is iterated
-- over; `is_iterable` tells which.
pub record StepInfo (V Ty Args E : Type 0) : Type 0 where
  pub input_type : Annotation Ty
  pub is_iterable : Bool
  pub invoke : Option V → Args → Result E (Option V)
  pub spawn : Option V → Args → Trace E (Option V)

-- An entry of `__steps__`: a name, or a collector, which stands for several steps and has the name
-- `collector@step`.
pub data StepName : Type 0 where
  named collector : String → StepName

-- An entry of a StepExecutionList.
abbrev pub Step : (V Ty Args E : Type 0) → Type 0
Step V Ty Args E = ℕ × StepName × StepInfo V Ty Args E

-- The exceptions raised by the functions on steps.
pub data StepsError : Type 0 where
  assertion_error index_error type_error : StepsError
  not_implemented attribute_error : StepsError
