-- ===== src/Collector.antt =====
-- engine/src/hopeit/server/collector.py: the steps of a collector, run concurrently, each of which
-- may wait for the result of another. A step is the tree of what it waits for and of how it goes on;
-- a move runs one task up to its next wait, so that the moves in any order are the runs of the event
-- loop, and finer ones. Payloads and results are values (`copy_payload` has nothing to do) or `None`.
pub mod Ends
pub mod Moves
pub mod Order
pub mod Started
pub mod Progress
pub mod Sequential
mod Tests
use hopeit_engine.Common.{
  Bool, true, false, Option, none, some, String, List, [], ◌∷◌, Result, ok, err, if◌then◌else◌,
  str_eq, ◌⊎◌, inl, inr,
}
use hopeit_engine.Common.Dict.{Dict, lookup, insert}

-- What the collector itself raises: KeyError, and the two assertions.
pub data Fault : Type 0 where
  key_error : String → Fault
  not_executed already_released : Fault

module _ (V E : Type 0) where
  -- A step: it returns, raises, or awaits `collector[name]` and goes on with the result.
  pub data Step : Type 0 where
    returns : Option V → Step
    raises : E → Step
    awaits : String → (Result Fault (Option V) → Step) → Step

  -- Where the coroutine `_run_item` of an item stands.
  pub data Status : Type 0 where
    created : Status
    running : Step → Status
    returned : Status
    failed : E ⊎ Fault → Status

  pub record CollectorItem : Type 0 where
    pub func : Step
    pub locked : Bool
    pub value : Option V
    pub task : Status

  -- `error` is the exception that `gather` has raised in `run`, the first one of a task.
  pub record AsyncCollector : Type 0 where
    pub items : Dict CollectorItem
    pub executed : Bool
    pub payload : Option V
    pub error : Option (E ⊎ Fault)

module _ {V E : Type 0} where
  abbrev pub new : AsyncCollector V E
  new = record { items = []; executed = false; payload = none; error = none }

  unfoldable pub input : Option V → AsyncCollector V E → AsyncCollector V E
  input v c = record c { payload = v }

  abbrev pub new_item : Step V E → CollectorItem V E
  new_item f = record { func = f; locked = false; value = none; task = created }

  unfoldable pub add_steps :
      List (String × Step V E) → Dict (CollectorItem V E) → Dict (CollectorItem V E)
  add_steps [] items = items
  add_steps ((name, f) ∷ funcs) items = add_steps funcs (insert name (new_item f) items)

  unfoldable pub steps : List (String × Step V E) → AsyncCollector V E → AsyncCollector V E
  unfolding add_steps
  steps funcs c = record c { items = add_steps funcs c.items }

-- `gather` raises the first exception.
abbrev pub first : {A : Type 0} → Option A → A → Option A
first none e = some e
first (some d) e = some d

-- The await of `collector[name]`: it ends with a value, raises, or blocks on the lock of the item.
pub data Got (V : Type 0) : Type 0 where
  got : Option V → Got V
  raised : Fault → Got V
  blocked : Got V

module _ {V E : Type 0} where
  -- `await item.lock.acquire()`, the result, and the release.
  abbrev pub locked_get : CollectorItem V E → Got V
  locked_get item = if item.locked then blocked else got item.value

  -- `_get(name)`
  unfoldable pub get_ : String → AsyncCollector V E → Got V
  unfolding lookup
  get_ name c =
      if str_eq name "payload"
      then got c.payload
      else if c.executed
      then elim (lookup name c.items) [
        | none ↦ raised (key_error name)
        | some item ↦ locked_get item
      ]
      else raised not_executed

  -- The end of `_run_item`: the lock is released, and an exception goes to `gather`.
  abbrev pub finish : CollectorItem V E → Option V → Status V E → CollectorItem V E
  finish item v t = record item { locked = false; value = v; task = t }

  abbrev pub write : String → CollectorItem V E → AsyncCollector V E → AsyncCollector V E
  write name item c = record c { items = insert name item c.items }

  abbrev pub fail : E ⊎ Fault → AsyncCollector V E → AsyncCollector V E
  fail e c = record c { error = first c.error e }

  -- A task goes on with what it awaited.
  unfoldable pub resume :
      String
      → CollectorItem V E
      → AsyncCollector V E
      → (Result Fault (Option V) → Step V E)
      → Got V
      → Option (AsyncCollector V E)
  resume name item c k (got v) = some (write name (record item { task = running (k (ok v)) }) c)
  resume name item c k (raised e) = some (write name (record item { task = running (k (err e)) }) c)
  resume name item c k blocked = none

  -- One move of the task of an item.
  unfoldable pub move_step :
      String → CollectorItem V E → AsyncCollector V E → Step V E → Option (AsyncCollector V E)
  unfolding resume get_
  move_step name item c (returns v) = some (write name (finish item v returned) c)
  move_step name item c (raises e) =
      some (fail (inl e) (write name (finish item item.value (failed (inl e))) c))
  move_step name item c (awaits other k) = resume name item c k (get_ other c)

  -- `_run_item`, from where it stands.
  unfoldable pub run_item :
      String → CollectorItem V E → AsyncCollector V E → Status V E → Option (AsyncCollector V E)
  unfolding move_step
  run_item name item c created = some (
      if item.locked
      then write name (record item { task = running item.func }) c
      else fail (inr already_released)
          (write name (record item { task = failed (inr already_released) }) c))
  run_item name item c (running p) = move_step name item c p
  run_item name item c returned = none
  run_item name item c (failed e) = none

  -- The task of this name makes a move, if it can.
  unfoldable pub move : String → AsyncCollector V E → Option (AsyncCollector V E)
  unfolding run_item lookup
  move name c = elim (lookup name c.items) [
    | none ↦ none
    | some item ↦ run_item name item c item.task
  ]

  -- `await item.lock.acquire()` of each item, and a task for it; `none` where a lock is held and
  -- `run` waits.
  unfoldable pub lock_all : Dict (CollectorItem V E) → Option (Dict (CollectorItem V E))
  lock_all [] = some []
  lock_all ((name, item) ∷ items) =
      let rest = lock_all items in
      if item.locked then none else elim rest [
        | none ↦ none
        | some l ↦ some ((name, record item { locked = true; task = created }) ∷ l)
      ]

  -- `run`, up to its `gather`.
  unfoldable pub start : AsyncCollector V E → Option (AsyncCollector V E)
  unfolding lock_all
  start c = elim (lock_all c.items) [
    | none ↦ none
    | some l ↦ some (record { items = l; executed = true; payload = c.payload; error = none })
  ]

  -- The moves of a schedule; a task that cannot move is passed over.
  unfoldable pub run : List String → AsyncCollector V E → AsyncCollector V E
  unfolding move
  run [] c = c
  run (name ∷ names) c = elim (move name c) [ none ↦ run names c | some d ↦ run names d ]

  -- `_run_collector` of engine/src/hopeit/server/steps.py, up to the `gather` of `run`.
  unfoldable pub run_collector : List (String × Step V E) → Option V → Option (AsyncCollector V E)
  unfolding input steps start
  run_collector funcs payload = start (steps funcs (input payload new))
