-- ===== src/Steps/Names/Base.antt =====
-- `event_and_step` of engine/src/hopeit/server/steps.py: the base event of a name is a base event.
use Prim.Native.Char.{Char, code}
use hopeit_engine.Steps.Defs.{StepsError}
use hopeit_engine.Common.{
  ℕ, true, false, Option, none, List, [], ◌∷◌, String, Result, ok, err, ◌==◌, split, ◌≡◌, refl,
  Bool-cases, inl, inr, ap, ◌∙◌, sym, subst, push_first,
}
use hopeit_engine.Steps.Names.{stage_part, event_and_step_of, event_and_step}

-- What a text is split into when a character is put in front of it that is no separator.
split-cons :
    (sep : ℕ) (c : Char) (s : String)
    → (code c == sep) ≡ false
    → split sep (String.◌∷◌ c s) ≡ push_first c (split sep s)
unfolding split
split-cons sep c s n = rw n refl

split-empty : (sep : ℕ) (p : String) → p ≡ "" → split sep p ≡ p ∷ []
unfolding split
split-empty sep p e = subst (λ t. split sep t ≡ t ∷ []) (sym e) refl

split-sep :
    (sep : ℕ) (c : Char) (s : String)
    → (code c == sep) ≡ true
    → split sep (String.◌∷◌ c s) ≡ "" ∷ split sep s
unfolding split
split-sep sep c s y = rw y refl

-- The first part of a text has no separator left.
split-first :
    (sep : ℕ) (s p : String) (ps : List String) → split sep s ≡ p ∷ ps → split sep p ≡ p ∷ []
unfolding split
split-first sep String.[] p ps e = split-empty sep p (cc)
split-first sep (String.◌∷◌ c s) p ps e = elim (Bool-cases (code c == sep)) [
  | inl y ↦ split-empty sep p (cc (split-sep sep c s y))
  | inr n ↦ by_rest n (split sep s) refl (λ q qs. split-first sep s q qs)
]
  where
    by_rest :
        (code c == sep) ≡ false
        → (rest : List String) → split sep s ≡ rest
        → ((q : String) (qs : List String) → split sep s ≡ q ∷ qs → split sep q ≡ q ∷ [])
        → split sep p ≡ p ∷ []
    by_rest n [] r ih =
        let w : (String.◌∷◌ c "") ≡ p = cc (sym (split-cons sep c s n ∙ ap (push_first c) r) ∙ e) in
        subst (λ t. split sep t ≡ t ∷ []) w (split-cons sep c "" n)
    by_rest n (q ∷ qs) r ih =
        let w : (String.◌∷◌ c q) ≡ p = cc (sym (split-cons sep c s n ∙ ap (push_first c) r) ∙ e) in
        subst (λ t. split sep t ≡ t ∷ []) w (split-cons sep c q n ∙ ap (push_first c) (ih q qs r))

event_and_step-parts :
    (s : String) (ps : List String) → split b'$' s ≡ ps → event_and_step s ≡ event_and_step_of s ps
unfolding event_and_step
event_and_step-parts s ps e = ap (event_and_step_of s) e

base_of :
    (s : String) (ps : List String) (b : String) (t : Option String)
    → split b'$' s ≡ ps
    → event_and_step_of s ps ≡ ok (b, t)
    → event_and_step b ≡ ok (b, none)
unfolding event_and_step_of
base_of s [] b t q e =
    subst (λ n. event_and_step n ≡ ok (n, none)) {x = s} {y = b} (cc) (event_and_step-parts s [] q)
base_of s (p ∷ []) b t q e =
    subst (λ n. event_and_step n ≡ ok (n, none)) {x = s} {y = b} (cc)
      (event_and_step-parts s (p ∷ []) q)
base_of s (p ∷ r ∷ ps) b t q e = by_stage (stage_part r) e
  where
    by_stage :
        (o : Result StepsError (Option String))
        → ◌≡◌ {A = Result StepsError (String × Option String)}
            (elim o [ ok u ↦ ok (p, u) | err x ↦ err x ])
            (ok (b, t))
        → event_and_step b ≡ ok (b, none)
    by_stage (ok u) h =
        subst (λ n. event_and_step n ≡ ok (n, none)) {x = p} {y = b} (cc)
          (event_and_step-parts p (p ∷ []) (split-first b'$' s p (r ∷ ps) q))
    by_stage (err x) h = cc

-- The base event of an event is an event of its own, without a stage.
pub event_and_step-base :
    (s b : String) (t : Option String)
    → event_and_step s ≡ ok (b, t)
    → event_and_step b ≡ ok (b, none)
event_and_step-base s b t e =
    base_of s (split b'$' s) b t refl (sym (event_and_step-parts s (split b'$' s) refl) ∙ e)
