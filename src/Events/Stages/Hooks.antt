-- ===== src/Events/Stages/Hooks.antt =====
-- engine/src/hopeit/server/events.py: `preprocess` and `postprocess` of an event that is a stage of
-- another one.
use hopeit_engine.Common.{
  ℕ, Bool, Option, none, some, List, String, Result, ok, err, ◌>>=◌, ◌≡◌, ◌≢◌, inl, inr, refl,
  Bool-cases, Option-cases, sym, ap, ◌∙◌, length,
}
use hopeit_engine.Common.Dict.{Dict, lookup}
use hopeit_engine.Config.Defs.{EventDescriptor}
use hopeit_engine.Steps.Defs.{Step}
use hopeit_engine.Steps.Names.{event_and_step}
use hopeit_engine.Steps.Execute.{execute_steps}
use hopeit_engine.Events.Modules.{
  EventsError, key_error, Module, Loaded, EventHandler, load_modules, empty_handler,
}
use hopeit_engine.Events.{
  Outcome, called, init_module, init_if_needed, ensure_initialized, after, handle_async_event,
  preprocess, postprocess,
}
use hopeit_engine.Events.Stages.{IsBase, load_modules-IsLoaded}

base_unique :
    (name b c : String) (t u : Option String)
    → event_and_step name ≡ ok (b, t)
    → event_and_step name ≡ ok (c, u)
    → b ≡ c
base_unique name b c t u e f = cc

module _ {V Ty Args E : Type 0} where
  -- The call has left the steps as they were, and has not raised a KeyError.
  abbrev FindsModule : EventHandler V Ty Args E → Outcome V Ty Args E (Unit {0}) → Type 0
  FindsModule h o = (o.0.steps ≡ h.steps) × ((k : String) → o.1 ≢ err (key_error k))

  called-FindsModule :
      (base : String) (m : Loaded V Ty Args E) (h : EventHandler V Ty Args E)
      (r : Result E (Unit {0}))
      → FindsModule h (called base m h r)
  called-FindsModule base m h (ok u) = (refl, λ k e. cc)
  called-FindsModule base m h (err x) = (refl, λ k e. cc)

  init_module-FindsModule :
      (base : String) (m : Loaded V Ty Args E) (init : Option (ℕ → Result E (Unit {0})))
      (h : EventHandler V Ty Args E)
      → FindsModule h (init_module base m init h)
  init_module-FindsModule base m none h = (refl, λ k e. cc)
  init_module-FindsModule base m (some init) h = called-FindsModule base m h (init (length h.inits))

  init_if_needed-FindsModule :
      (base : String) (o : Option (Loaded V Ty Args E)) (h : EventHandler V Ty Args E)
      → o ≢ none
      → FindsModule h (init_if_needed base o h)
  init_if_needed-FindsModule base none h n = absurd (n refl)
  init_if_needed-FindsModule base (some m) h n = elim (Bool-cases m.initialized) [
    | inl y ↦ simp y ((refl, λ k e. cc))
    | inr u ↦ simp u (init_module-FindsModule base m m.impl.init_event h)
  ]

  ensure_initialized-FindsModule :
      (event_name base : String) (t : Option String) (h : EventHandler V Ty Args E)
      → event_and_step event_name ≡ ok (base, t)
      → lookup base h.modules ≢ none
      → FindsModule h (ensure_initialized event_name h)
  unfolding ensure_initialized
  ensure_initialized-FindsModule event_name base t h e n =
      rw e (init_if_needed-FindsModule base (lookup base h.modules) h n)

  after-NoKeyError :
      {B : Type 0} (o : Outcome V Ty Args E (Unit {0}))
      (f : EventHandler V Ty Args E → Result (EventsError E) B) (k : String)
      → o.1 ≢ err (key_error k)
      → f o.0 ≢ err (key_error k)
      → (after o f).1 ≢ err (key_error k)
  after-NoKeyError (h, ok u) f k n m = m
  after-NoKeyError (h, err x) f k n m = λ e. n (cc)

  -- The steps that are found are executed.
  found_steps-NoKeyError :
      (is_instance : Option V → Ty → Option Bool) (no_args : Args) (name : String)
      (payload : Option V) (args : Args) (k : String) (o : Option (List (Step V Ty Args E)))
      → o ≢ none
      → ((elim o as (λ x. Result (EventsError E) (List (Step V Ty Args E))) [
        | none ↦ err (key_error name)
        | some a ↦ ok a
      ])
          >>= λ s. ok (execute_steps is_instance no_args s payload args))
        ≢ err (key_error k)
  found_steps-NoKeyError is_instance no_args name payload args k none n = absurd (n refl)
  found_steps-NoKeyError is_instance no_args name payload args k (some s) n = λ e. cc

  module _ {S : Type 0} (import_module : String → Option (Module V Ty Args E)) (app_name : String)
      (imps : Option (List String)) (is_settings : S → Bool) (settings : Dict S)
      (is_instance : Option V → Ty → Option Bool) (no_args : Args) where
    -- A stage of an event, with steps of its own, is found by `handle_async_event`; `preprocess` and
    -- `postprocess` raise a KeyError for it, since they look for the hooks under its own name and
    -- not under that of its base event.
    pub preprocess-stage :
        (events : Dict EventDescriptor) (h : EventHandler V Ty Args E) (name base : String)
        (t : Option String) (payload : Option V) (args : Args)
        → load_modules import_module app_name imps is_settings settings events empty_handler ≡ ok h
        → lookup name h.steps ≢ none
        → event_and_step name ≡ ok (base, t)
        → base ≢ name
        → (preprocess name payload args h ≡ (h, err (key_error name)))
          × (postprocess name payload args h ≡ (h, err (key_error name)))
          × ((k : String)
              → (handle_async_event is_instance no_args name payload args h).1 ≢ err (key_error k))
    unfolding preprocess postprocess handle_async_event lookup
    preprocess-stage events h name base t payload args e n q d =
        let (pre, post, found) =
          load_modules-IsLoaded import_module app_name imps is_settings settings events
            empty_handler e
            ((λ k m. absurd (m refl)), (λ k m. absurd (m refl)), (λ k m. absurd (m refl))) in
        let (b, u, q', m) = found name n in
        let not_base : IsBase name → ⊥ = λ w. d (base_unique name base name t none q w) in
        let present : lookup base h.modules ≢ none =
          λ z. m (ap (λ i. lookup i h.modules) (base_unique name b base u t q' q) ∙ z) in
        let (same, no_key) = ensure_initialized-FindsModule name base t h q present in
        (
          elim (Option-cases (lookup name h.preprocess_handlers)) [
            | inl z ↦ rw z refl
            | inr (x, z) ↦ absurd (not_base (pre name (λ w. cc)))
          ],
          elim (Option-cases (lookup name h.postprocess_handlers)) [
            | inl z ↦ rw z refl
            | inr (x, z) ↦ absurd (not_base (post name (λ w. cc)))
          ],
          λ k. after-NoKeyError (ensure_initialized name h) _ k (no_key k) (
              found_steps-NoKeyError is_instance no_args name payload args k
                (lookup name (ensure_initialized name h).0.steps)
                (λ z. n (ap (λ d. lookup name d) (sym same) ∙ z))),
        )
