-- ===== src/Steps/Next/Choice.antt =====
-- Which step `_find_next_step` of engine/src/hopeit/server/steps.py prefers.
use hopeit_engine.Common.{
  ℕ, ◌≡◌, refl, ap, Bool, true, false, Bool-cases, ◌⊎◌, inl, inr, Option, none, some, List, [], ◌∷◌,
  ◌++◌, All, drop, if◌then◌else◌,
}
use hopeit_engine.Steps.Defs.{StepInfo, Step}
use hopeit_engine.Steps.Next.{
  Search, missing, hit, isinstance_error, tested-cases, is_none, takes, takes_any, specific,
  generic, select, find_next_step, NextAgree, find_next_step-NextAgree,
}
use hopeit_engine.Steps.Effective.{IsNumbered}

module _ {V Ty Args E : Type 0} (is_instance : Option V → Ty → Option Bool) where
  -- The first step that passes a test, with the steps before and behind it, or the first one that the
  -- test raises for.
  abbrev pub First :
      (Step V Ty Args E → Option Bool)
      → List (Step V Ty Args E)
      → Search (StepInfo V Ty Args E × List (Step V Ty Args E))
      → Type 0
  First test steps missing = All (λ s. test s ≡ some false) steps
  First test steps (hit (info, rest)) =
      (before : List (Step V Ty Args E)) × (s : Step V Ty Args E) × (steps ≡ before ++ s ∷ rest)
      × (s.2 ≡ info)
      × (test s ≡ some true)
      × All (λ t. test t ≡ some false) before
  First test steps isinstance_error =
      (before : List (Step V Ty Args E)) × (s : Step V Ty Args E) × (rest : List (Step V Ty Args E))
      × (steps ≡ before ++ s ∷ rest)
      × (test s ≡ none)
      × All (λ t. test t ≡ some false) before

  First-next :
      (test : Step V Ty Args E → Option Bool) (s : Step V Ty Args E)
      (steps : List (Step V Ty Args E))
      (r : Search (StepInfo V Ty Args E × List (Step V Ty Args E)))
      → test s ≡ some false
      → First test steps r
      → First test (s ∷ steps) r
  First-next test s steps missing no_s f = (no_s, f)
  First-next test s steps isinstance_error no_s (before, t, rest, e, raises, others) =
      (s ∷ before, t, rest, ap (◌∷◌ s) e, raises, (no_s, others))
  First-next test s steps (hit (info, rest)) no_s (before, t, e, same, passes, others) =
      (s ∷ before, t, ap (◌∷◌ s) e, same, passes, (no_s, others))

  abbrev pub is_specific : Option V → Step V Ty Args E → Option Bool
  is_specific payload s = takes is_instance payload s.2.input_type

  abbrev pub is_generic : Step V Ty Args E → Option Bool
  is_generic s = some (takes_any s.2.input_type)

  specific-First :
      (payload : Option V) (steps : List (Step V Ty Args E))
      → First (is_specific payload) steps (specific is_instance payload steps)
  unfolding specific
  specific-First payload [] = tt
  specific-First payload ((i, name, info) ∷ steps) =
      elim (tested-cases (takes is_instance payload info.input_type)) [
        | inl raises ↦ rw raises ([], (i, name, info), steps, refl, raises, tt)
        | inr (inl here) ↦ rw here ([], (i, name, info), refl, refl, here, tt)
        | inr (inr later) ↦ rw later (
            First-next (is_specific payload) (i, name, info) steps _ later
              (specific-First payload steps))
      ]

  generic-First :
      (steps : List (Step V Ty Args E)) → First is_generic steps (generic is_instance steps)
  unfolding generic
  generic-First [] = tt
  generic-First ((i, name, info) ∷ steps) = elim (Bool-cases (takes_any info.input_type)) [
    | inl here ↦ rw here ([], (i, name, info), refl, refl, ap some here, tt)
    | inr later ↦
        rw later
          (First-next is_generic (i, name, info) steps _ (ap some later) (generic-First steps))
  ]

  -- The first step for the payload's own type; only if there is none, and the payload is not None,
  -- the first step for any DataObject.
  abbrev pub Chosen :
      Option V
      → List (Step V Ty Args E)
      → Search (StepInfo V Ty Args E × List (Step V Ty Args E))
      → Type 0
  Chosen payload steps r =
      (First (is_specific payload) steps r
        × ((r ≡ isinstance_error)
            ⊎ ((info : StepInfo V Ty Args E) × (rest : List (Step V Ty Args E)) × (r
                  ≡ hit (info, rest)))))
      ⊎ (All (λ s. is_specific payload s ≡ some false) steps
          × (((is_none payload ≡ true) × (r ≡ missing))
              ⊎ ((is_none payload ≡ false) × First is_generic steps r)))

  select-Chosen :
      (payload : Option V) (steps : List (Step V Ty Args E))
      → Chosen payload steps (select is_instance payload steps)
  unfolding select
  select-Chosen payload steps =
      chosen (specific is_instance payload steps) (specific-First payload steps)
    where
      chosen :
          (r : Search (StepInfo V Ty Args E × List (Step V Ty Args E)))
          → First (is_specific payload) steps r
          → Chosen payload steps (elim r [
            | hit found ↦ hit found
            | isinstance_error ↦ isinstance_error
            | missing ↦ if is_none payload then missing else generic is_instance steps
          ])
      chosen (hit (info, rest)) f = inl (f, inr (info, rest, refl))
      chosen isinstance_error f = inl (f, inl refl)
      chosen missing f = elim (Bool-cases (is_none payload)) [
        | inl empty ↦ rw empty (inr (f, inl (refl, refl)))
        | inr full ↦ rw full (inr (f, inr (refl, generic-First steps)))
      ]

  -- In steps numbered from 0, a search from an index finds, at its own index, the first step from
  -- there on whose type the payload has (or that is for None, if the payload is None); only if there
  -- is none, and the payload is not None, it finds the first step for any DataObject; and it finds
  -- none only if neither is there. It raises TypeError exactly if it comes, behind steps that do not
  -- take the payload, to a type that `isinstance` does not take.
  pub find_next_step-Chosen :
      (payload : Option V) (from_index : ℕ) (steps : List (Step V Ty Args E))
      → IsNumbered 0 steps
      → (r : Search (StepInfo V Ty Args E × List (Step V Ty Args E))) × NextAgree is_instance
          from_index steps
          (find_next_step is_instance payload steps from_index)
          r
        × Chosen payload (drop from_index steps) r
  find_next_step-Chosen payload from_index steps n = (
    select is_instance payload (drop from_index steps),
    find_next_step-NextAgree is_instance payload from_index steps n,
    select-Chosen payload (drop from_index steps),
  )
