-- ===== src/Steps/Next.antt =====
-- `_find_next_step` of engine/src/hopeit/server/steps.py: which step takes a payload.
pub mod Choice
use hopeit_engine.Common.{
  ℕ, zero, suc, ◌+◌, ◌≤◌, ◌<◌, ◌≡◌, ◌∙◌, ◌-◌, refl, Bool, true, false, Bool-cases, inl, inr, Option,
  none, some, ◌⊎◌, List, [], ◌∷◌, leb, if◌then◌else◌, length, drop, arith, drop-nil, drop-drop,
  length-drop_le, leb→le,
}
use hopeit_engine.Steps.Defs.{Annotation, no_payload, data_object, class_of, StepInfo, Step}
use hopeit_engine.Steps.Effective.{IsNumbered}

abbrev pub is_none {ℓ} : {A : Type ℓ} → Option A → Bool
is_none none = true
is_none (some a) = false

-- What a search gives: no step, a step, or the TypeError of `isinstance`.
pub data Search {ℓ} (A : Type ℓ) : Type ℓ where
  missing isinstance_error : Search A
  hit : A → Search A

-- What a search gives for a test of the next step, and the search behind that.
abbrev pub tested {ℓ} : {A : Type ℓ} → Option Bool → A → Search A → Search A
tested none a later = isinstance_error
tested (some true) a later = hit a
tested (some false) a later = later

pub tested-cases : (o : Option Bool) → (o ≡ none) ⊎ (o ≡ some true) ⊎ (o ≡ some false)
tested-cases none = inl refl
tested-cases (some true) = inr (inl refl)
tested-cases (some false) = inr (inr refl)

module _ {V Ty : Type 0} (is_instance : Option V → Ty → Option Bool) where
  -- The test of the first loop: a step for None, or for the payload's type. `none` is the TypeError of
  -- `isinstance`, for a type that is no class.
  pub takes : Option V → Annotation Ty → Option Bool
  takes payload no_payload = some (is_none payload)
  takes payload data_object = some false
  takes payload (class_of t) = is_instance payload t

-- The test of the second loop.
pub takes_any : {Ty : Type 0} → Annotation Ty → Bool
takes_any data_object = true
takes_any no_payload = false
takes_any (class_of t) = false

module _ {V Ty Args E : Type 0} (is_instance : Option V → Ty → Option Bool) where
  find_specific : Option V → List (Step V Ty Args E) → Search (ℕ × StepInfo V Ty Args E)
  find_specific payload [] = missing
  find_specific payload ((i, name, info) ∷ steps) =
      tested (takes is_instance payload info.input_type) (i, info) (find_specific payload steps)

  find_generic : List (Step V Ty Args E) → Search (ℕ × StepInfo V Ty Args E)
  find_generic [] = missing
  find_generic ((i, name, info) ∷ steps) =
      let later = find_generic steps in if takes_any info.input_type then hit (i, info) else later

  find_in : Option V → List (Step V Ty Args E) → Search (ℕ × StepInfo V Ty Args E)
  unfolding find_specific find_generic takes takes_any
  find_in payload steps = elim (find_specific payload steps) [
    | hit found ↦ hit found
    | isinstance_error ↦ isinstance_error
    | missing ↦ if is_none payload then missing else find_generic steps
  ]

  -- `missing` is the result -1.
  unfoldable pub find_next_step :
      Option V → List (Step V Ty Args E) → ℕ → Search (ℕ × StepInfo V Ty Args E)
  unfolding find_in
  find_next_step payload steps from_index =
      if leb (length steps) from_index then missing else find_in payload (drop from_index steps)

  -- The same search without indices: the step that takes the payload, with the steps behind it.
  pub specific :
      Option V → List (Step V Ty Args E) → Search (StepInfo V Ty Args E × List (Step V Ty Args E))
  specific payload [] = missing
  specific payload ((i, name, info) ∷ steps) =
      tested (takes is_instance payload info.input_type) (info, steps) (specific payload steps)

  pub generic : List (Step V Ty Args E) → Search (StepInfo V Ty Args E × List (Step V Ty Args E))
  generic [] = missing
  generic ((i, name, info) ∷ steps) =
      if takes_any info.input_type then hit (info, steps) else generic steps

  pub select :
      Option V → List (Step V Ty Args E) → Search (StepInfo V Ty Args E × List (Step V Ty Args E))
  unfolding specific generic
  select payload steps = elim (specific payload steps) [
    | hit found ↦ hit found
    | isinstance_error ↦ isinstance_error
    | missing ↦ if is_none payload then missing else generic steps
  ]

  -- A step found by its index is the one found with the steps behind it.
  abbrev pub Agree :
      ℕ
      → List (Step V Ty Args E)
      → Search (ℕ × StepInfo V Ty Args E)
      → Search (StepInfo V Ty Args E × List (Step V Ty Args E))
      → Type 0
  Agree first steps missing missing = Unit
  Agree first steps isinstance_error isinstance_error = Unit
  Agree first steps (hit (j, info)) (hit (info', rest)) =
      (info ≡ info')
      × (first ≤ j)
      × (j < first + length steps)
      × ((k : ℕ) → j ≡ first + k → rest ≡ drop (suc k) steps)
  Agree first steps missing isinstance_error = ⊥
  Agree first steps missing (hit y) = ⊥
  Agree first steps isinstance_error missing = ⊥
  Agree first steps isinstance_error (hit y) = ⊥
  Agree first steps (hit x) missing = ⊥
  Agree first steps (hit x) isinstance_error = ⊥

  Agree-next :
      (first : ℕ) (step : Step V Ty Args E) (steps : List (Step V Ty Args E))
      (a : Search (ℕ × StepInfo V Ty Args E))
      (b : Search (StepInfo V Ty Args E × List (Step V Ty Args E)))
      → Agree (suc first) steps a b
      → Agree first (step ∷ steps) a b
  Agree-next first step steps missing missing h = tt
  Agree-next first step steps isinstance_error isinstance_error h = tt
  Agree-next first step steps (hit (j, info)) (hit (info', rest)) (e, lo, hi, at) =
      (e, omega arith, omega arith, shifted)
    where
      shifted : (k : ℕ) → j ≡ first + k → rest ≡ drop (suc k) (step ∷ steps)
      shifted zero at_k = absurd (omega arith)
      shifted (suc k) at_k = at k (omega arith)
  Agree-next first step steps missing isinstance_error h = h
  Agree-next first step steps missing (hit y) h = h
  Agree-next first step steps isinstance_error missing h = h
  Agree-next first step steps isinstance_error (hit y) h = h
  Agree-next first step steps (hit x) missing h = h
  Agree-next first step steps (hit x) isinstance_error h = h

  Agree-here :
      (first : ℕ) (step : Step V Ty Args E) (steps : List (Step V Ty Args E))
      → step.0 ≡ first
      → Agree first (step ∷ steps) (hit (step.0, step.2)) (hit (step.2, steps))
  Agree-here first step steps e = (refl, omega arith, omega arith, at)
    where
      at : (k : ℕ) → step.0 ≡ first + k → steps ≡ drop (suc k) (step ∷ steps)
      at zero e' = refl
      at (suc k) e' = absurd (omega arith)

  find_specific-Agree :
      (payload : Option V) (first : ℕ) (steps : List (Step V Ty Args E))
      → IsNumbered first steps
      → Agree first steps (find_specific payload steps) (specific payload steps)
  unfolding find_specific specific
  find_specific-Agree payload first [] n = tt
  find_specific-Agree payload first ((i, name, info) ∷ steps) (e, n) =
      elim (tested-cases (takes is_instance payload info.input_type)) [
        | inl raises ↦ rw raises tt
        | inr (inl here) ↦ rw here (Agree-here first (i, name, info) steps e)
        | inr (inr later) ↦ rw later (
            Agree-next first (i, name, info) steps _ _
              (find_specific-Agree payload (suc first) steps n))
      ]

  find_generic-Agree :
      (first : ℕ) (steps : List (Step V Ty Args E))
      → IsNumbered first steps
      → Agree first steps (find_generic steps) (generic steps)
  unfolding find_generic generic
  find_generic-Agree first [] n = tt
  find_generic-Agree first ((i, name, info) ∷ steps) (e, n) =
      elim (Bool-cases (takes_any info.input_type)) [
        | inl here ↦ rw here (Agree-here first (i, name, info) steps e)
        | inr later ↦
            rw later
              (Agree-next first (i, name, info) steps _ _ (find_generic-Agree (suc first) steps n))
      ]

  find_in-Agree :
      (payload : Option V) (first : ℕ) (steps : List (Step V Ty Args E))
      → IsNumbered first steps
      → Agree first steps (find_in payload steps) (select payload steps)
  unfolding find_in select
  find_in-Agree payload first steps n =
      found (find_specific payload steps) (specific payload steps)
        (find_specific-Agree payload first steps n)
    where
      found :
          (a : Search (ℕ × StepInfo V Ty Args E))
          (b : Search (StepInfo V Ty Args E × List (Step V Ty Args E)))
          → Agree first steps a b
          → Agree first steps
              (elim a [
                | hit x ↦ hit x
                | isinstance_error ↦ isinstance_error
                | missing ↦ if is_none payload then missing else find_generic steps
              ])
              (elim b [
                | hit x ↦ hit x
                | isinstance_error ↦ isinstance_error
                | missing ↦ if is_none payload then missing else generic steps
              ])
      found (hit x) (hit y) h = h
      found isinstance_error isinstance_error h = tt
      found missing isinstance_error h = absurd h
      found missing (hit y) h = absurd h
      found isinstance_error missing h = absurd h
      found isinstance_error (hit y) h = absurd h
      found (hit x) missing h = absurd h
      found (hit x) isinstance_error h = absurd h
      found missing missing h = elim (Bool-cases (is_none payload)) [
        | inl empty ↦ rw empty tt
        | inr full ↦ rw full (find_generic-Agree first steps n)
      ]

  IsNumbered-drop :
      (n first : ℕ) (steps : List (Step V Ty Args E))
      → n ≤ length steps
      → IsNumbered first steps
      → IsNumbered (first + n) (drop n steps)
  IsNumbered-drop zero first steps h n = let e : first + 0 ≡ first = omega arith in rw e n
  IsNumbered-drop (suc m) first [] h n = absurd (omega arith)
  IsNumbered-drop (suc m) first (step ∷ steps) h (e, n) =
      let e' : first + suc m ≡ suc first + m = omega arith in
      rw e' (IsNumbered-drop m (suc first) steps (omega arith) n)

  -- What a search from `from_index` finds, in a list numbered from 0.
  abbrev pub NextAgree :
      ℕ
      → List (Step V Ty Args E)
      → Search (ℕ × StepInfo V Ty Args E)
      → Search (StepInfo V Ty Args E × List (Step V Ty Args E))
      → Type 0
  NextAgree from_index steps missing missing = Unit
  NextAgree from_index steps isinstance_error isinstance_error = Unit
  NextAgree from_index steps (hit (j, info)) (hit (info', rest)) =
      (info ≡ info') × (from_index ≤ j) × (j < length steps) × (rest ≡ drop (suc j) steps)
  NextAgree from_index steps missing isinstance_error = ⊥
  NextAgree from_index steps missing (hit y) = ⊥
  NextAgree from_index steps isinstance_error missing = ⊥
  NextAgree from_index steps isinstance_error (hit y) = ⊥
  NextAgree from_index steps (hit x) missing = ⊥
  NextAgree from_index steps (hit x) isinstance_error = ⊥

  NextAgree-of :
      (from_index : ℕ) (steps : List (Step V Ty Args E)) (a : Search (ℕ × StepInfo V Ty Args E))
      (b : Search (StepInfo V Ty Args E × List (Step V Ty Args E)))
      → from_index ≤ length steps
      → Agree from_index (drop from_index steps) a b
      → NextAgree from_index steps a b
  NextAgree-of from_index steps missing missing h a = tt
  NextAgree-of from_index steps isinstance_error isinstance_error h a = tt
  NextAgree-of from_index steps (hit (j, info)) (hit (info', rest)) h (e, lo, hi, at) = (
    e,
    lo,
    omega (arith, length-drop_le from_index steps h),
    at (j - from_index) (omega arith)
        ∙ drop-drop from_index (suc (j - from_index)) (suc j) steps (omega arith),
  )
  NextAgree-of from_index steps missing isinstance_error h a = a
  NextAgree-of from_index steps missing (hit y) h a = a
  NextAgree-of from_index steps isinstance_error missing h a = a
  NextAgree-of from_index steps isinstance_error (hit y) h a = a
  NextAgree-of from_index steps (hit x) missing h a = a
  NextAgree-of from_index steps (hit x) isinstance_error h a = a

  drop_all : (n : ℕ) (steps : List (Step V Ty Args E)) → length steps ≤ n → drop n steps ≡ []
  drop_all n [] h = drop-nil n
  drop_all zero (s ∷ steps) h = absurd (omega arith)
  drop_all (suc n) (s ∷ steps) h = drop_all n steps (omega arith)

  pub find_next_step-NextAgree :
      (payload : Option V) (from_index : ℕ) (steps : List (Step V Ty Args E))
      → IsNumbered 0 steps
      → NextAgree from_index steps
          (find_next_step payload steps from_index)
          (select payload (drop from_index steps))
  unfolding find_next_step
  find_next_step-NextAgree payload from_index steps n =
      elim (Bool-cases (leb (length steps) from_index)) [
        | inl over ↦ rw (over, drop_all from_index steps (leb→le _ _ over)) (none_left payload)
        | inr within ↦ rw within (
            NextAgree-of from_index steps _ _ (ground arith) (
              find_in-Agree payload from_index (drop from_index steps)
                (numbered (IsNumbered-drop from_index 0 steps (ground arith) n))))
      ]
    where
      none_left : (p : Option V) → NextAgree from_index steps missing (select p [])
      none_left none = unfold select specific in tt
      none_left (some v) = unfold select specific generic in tt

      numbered :
          IsNumbered (0 + from_index) (drop from_index steps)
          → IsNumbered from_index (drop from_index steps)
      numbered h = let e : 0 + from_index ≡ from_index = omega arith in rw e at h
