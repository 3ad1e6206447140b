-- ===== src/Events/Tests.antt =====
-- Runs of engine/src/hopeit/server/events.py on an app with an event of two stages.
use hopeit_engine.Common.{
  ℕ, ◌+◌, ◌==◌, ◌≡◌, ◌≢◌, Bool, true, false, Option, none, some, List, [], ◌∷◌, String, ok, err,
  refl, str_eq, if◌then◌else◌,
}
use hopeit_engine.Common.Dict.{Dict, lookup}
use hopeit_engine.Config.Defs.{EventDescriptor, event_descriptor, post, stream}
use hopeit_engine.Steps.Defs.{named, StepInfo, data_object, done}
use hopeit_engine.Steps.Names.{event_and_step}
use hopeit_engine.Events.Modules.{key_error, Module, EventHandler, load_modules, empty_handler}
use hopeit_engine.Events.{handle_async_event, preprocess, postprocess}
use hopeit_engine.Events.Initialized.{Call, handle, before_steps, calls, calls-Once, IsOnce}
use hopeit_engine.Events.Stages.Hooks.{preprocess-stage}

abbrev Info : Type 0
Info = StepInfo ℕ Bool ℕ String

abbrev plus : ℕ → Info
plus n = record {
  input_type = data_object;
  is_iterable = false;
  invoke = λ payload args. elim payload [ none ↦ err "nothing" | some v ↦ ok (some (v + n)) ];
  spawn = λ payload args. done;
}

-- `__init_event__` fails the first time.
abbrev order_module : Module ℕ Bool ℕ String
order_module = record {
  module_steps = ok (
      (named "check", some (plus 1))
      ∷ (named "__shuffle__", none)
      ∷ (named "ship", some (plus 10))
      ∷ []);
  preprocess_step = some (plus 100);
  postprocess_step = none;
  init_event = some (λ n. if n == 0 then err "not yet" else ok tt);
}

abbrev modules_at : String → Option (Module ℕ Bool ℕ String)
modules_at name = if str_eq name "shop.order" then some order_module else none

abbrev no_settings : Dict ℕ
no_settings = ("order", 0) ∷ []

abbrev events : Dict EventDescriptor
events = ("order", event_descriptor post) ∷ ("order$ship", event_descriptor stream) ∷ []

abbrev loaded : EventHandler ℕ Bool ℕ String
unfolding load_modules
loaded = elim (load_modules modules_at "shop" none (λ s. true) no_settings events empty_handler) [
  | ok h ↦ h
  | err e ↦ empty_handler
]

is_number : Option ℕ → Bool → Option Bool
is_number payload t = some true

-- The first call fails in `__init_event__`, the second one runs, and the third one finds it done.
abbrev three : List (Call ℕ ℕ)
three =
    before_steps "order" (some 1) 0
    ∷ handle "order$ship" (some 1) 0
    ∷ before_steps "order" (some 1) 0
    ∷ []

three_inits : (calls is_number 0 three loaded).inits ≡ ("order", true) ∷ ("order", false) ∷ []
unfolding calls load_modules
three_inits = refl

calls-Once_example : IsOnce (calls is_number 0 three loaded)
unfolding load_modules
calls-Once_example = calls-Once is_number 0 three loaded refl

has_steps : lookup "order$ship" loaded.steps ≢ none
unfolding load_modules lookup
has_steps = λ e. cc

order_ship : event_and_step "order$ship" ≡ ok ("order", some "ship")
unfolding event_and_step
order_ship = refl

order_other : ◌≢◌ {A = String} "order" "order$ship"
order_other = λ e. cc

preprocess-stage_example :
    (preprocess "order$ship" (some 1) 0 loaded ≡ (loaded, err (key_error "order$ship")))
    × (postprocess "order$ship" (some 1) 0 loaded ≡ (loaded, err (key_error "order$ship")))
    × ((k : String)
        → (handle_async_event is_number 0 "order$ship" (some 1) 0 loaded).1 ≢ err (key_error k))
unfolding load_modules
preprocess-stage_example =
    preprocess-stage modules_at "shop" none (λ s. true) no_settings is_number 0 events loaded
      "order$ship" "order" (some "ship") (some 1) 0 refl has_steps order_ship order_other

unknown_event : (preprocess "cancel" (some 1) 0 loaded).1 ≡ err (key_error "cancel")
unfolding preprocess load_modules
unknown_event = refl
