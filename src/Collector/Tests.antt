-- ===== src/Collector/Tests.antt =====
-- Runs of collectors in engine/src/hopeit/server/collector.py.
use hopeit_engine.Common.{
  ℕ, ◌+◌, false, Option, none, some, String, List, [], ◌∷◌, Result, ok, err, ◌≡◌, ◌⊎◌, inl, inr,
  str_eq, refl, if◌then◌else◌, arith,
}
use hopeit_engine.Common.Dict.{lookup, insert, Items, Items-lookup}
use hopeit_engine.Collector.{
  Fault, Step, returns, raises, awaits, returned, failed, CollectorItem, AsyncCollector, got,
  raised, new, new_item, input, add_steps, steps, start, run_collector, run, move, get_,
  not_executed,
}
use hopeit_engine.Collector.Moves.{IsAcyclic, Below}
use hopeit_engine.Collector.Ends.{HasEnded, Finishes}
use hopeit_engine.Collector.Order.Errors.{run-error}
use hopeit_engine.Collector.Progress.Always.{run_collector-Finishes}
use hopeit_engine.Collector.Sequential.{eval, look}
use hopeit_engine.Collector.Order.{EndsAs}
use hopeit_engine.Collector.Order.Final.{run-EndsAs}

-- A step that returns what it awaited, or 0 if that raised, plus one.
abbrev next : Result Fault (Option ℕ) → Step ℕ String
next (ok (some n)) = returns (some (n + 1))
next (ok none) = raises "nothing"
next (err f) = returns (some 1)

-- `("b", await a), ("a", await payload), ("c", raises), ("d", await c)` on 5.
abbrev four : AsyncCollector ℕ String
four = record {
  items =
      ("b", new_item (awaits "a" next))
      ∷ ("a", new_item (awaits "payload" next))
      ∷ ("c", new_item (raises "stop"))
      ∷ ("d", new_item (awaits "c" next))
      ∷ [];
  executed = false;
  payload = some 5;
  error = none;
}

abbrev four_funcs : List (String × Step ℕ String)
four_funcs =
    ("b", awaits "a" next)
    ∷ ("a", awaits "payload" next)
    ∷ ("c", raises "stop")
    ∷ ("d", awaits "c" next)
    ∷ []

steps-four : input (some 5) (steps four_funcs new) ≡ four
unfolding input steps add_steps insert
steps-four = refl

abbrev rank : String → ℕ
rank name = if str_eq name "a" then 0 else if str_eq name "c" then 0 else 1

abbrev started : AsyncCollector ℕ String
unfolding start
started = elim (start four) [ some d ↦ d | none ↦ four ]

next-Below : (r : ℕ) (x : Result Fault (Option ℕ)) → Below rank r (next x)
next-Below r (ok none) = tt
next-Below r (ok (some n)) = tt
next-Below r (err f) = tt

four-IsAcyclic : IsAcyclic rank four.items
four-IsAcyclic = (
  (inr (omega arith), next-Below 1),
  ((inl refl, next-Below 0), (tt, ((inr (omega arith), next-Below 1), tt))),
)

run_collector-Finishes_example :
    (d : AsyncCollector ℕ String) × (run_collector four_funcs (some 5) ≡ some d) × Finishes d
run_collector-Finishes_example = run_collector-Finishes rank four_funcs (some 5) (
  (inr (omega arith), next-Below 1),
  ((inl refl, next-Below 0), (tt, ((inr (omega arith), next-Below 1), tt))),
)

-- "d" goes first and waits for "c", which raises.
abbrev order : List String
order = "d" ∷ "d" ∷ "b" ∷ "b" ∷ "a" ∷ "a" ∷ "a" ∷ "b" ∷ "c" ∷ "c" ∷ "d" ∷ "b" ∷ "d" ∷ "b" ∷ []

run_b :
    lookup "b" (run order started).items
    ≡ some (record { func = awaits "a" next; locked = false; value = some 7; task = returned })
unfolding run start lookup insert
run_b = refl

-- What awaits a step that raised gets `None`.
run_d :
    lookup "d" (run order started).items
    ≡ some (record {
      func = awaits "c" next;
      locked = false;
      value = none;
      task = failed (inl "nothing");
    })
unfolding run start lookup insert
run_d = refl

run_error : (run order started).error ≡ some (inl "stop")
unfolding run start lookup insert
run_error = refl

run-EndsAs_example :
    (i : CollectorItem ℕ String) × (lookup "b" four.items ≡ some i)
    × EndsAs
        (record { func = awaits "a" next; locked = false; value = some 7; task = returned })
        i.value
        (eval (look four 1) i.func)
unfolding start
run-EndsAs_example =
    run-EndsAs rank four order started "b"
      (record { func = awaits "a" next; locked = false; value = some 7; task = returned })
      four-IsAcyclic refl run_b tt

all_ended : Items (λ name item. HasEnded item.task) (run order started).items
unfolding run start lookup insert
all_ended = omega arith

ended_items :
    (name : String) (item : CollectorItem ℕ String)
    → lookup name (run order started).items ≡ some item
    → HasEnded item.task
ended_items name item e =
    Items-lookup (λ n i. HasEnded i.task) name (run order started).items all_ended e

run-error_example :
    (name : String) × (i : CollectorItem ℕ String) × (e : String) × (lookup name four.items
      ≡ some i)
    × (eval (look four (rank name)) i.func ≡ err e)
    × (◌≡◌ {A = String ⊎ Fault} (inl "stop") (inl e))
unfolding start
run-error_example =
    (run-error rank four order started four-IsAcyclic refl ended_items).1 (inl "stop") run_error

-- Before `run`, an await raises but for the payload; two steps that wait for one another never move.
get_before : get_ "a" four ≡ raised not_executed
unfolding get_
get_before = refl

get_payload : get_ "payload" four ≡ got (some 5)
unfolding get_
get_payload = refl

abbrev circle : AsyncCollector ℕ String
circle = record four {
  items = ("a", new_item (awaits "b" next)) ∷ ("b", new_item (awaits "a" next)) ∷ [];
}

abbrev deadlock : AsyncCollector ℕ String
unfolding start run
deadlock = elim (start circle) [ some d ↦ run ("a" ∷ "b" ∷ []) d | none ↦ circle ]

deadlock_stuck : (move "a" deadlock ≡ none) × (move "b" deadlock ≡ none)
unfolding move start run lookup insert
deadlock_stuck = (refl, refl)
