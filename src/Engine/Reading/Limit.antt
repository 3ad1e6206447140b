-- ===== src/Engine/Reading/Limit.antt =====
-- How many events the loop of `read_stream` in engine/src/hopeit/server/engine.py consumes.
use native.Mathlib.Nat.{suc-mul}
use hopeit_engine.Common.{
  ℕ, zero, suc, ◌+◌, ◌-◌, ◌*◌, ◌≤◌, ◌<◌, ◌≡◌, refl, Bool, true, false, not, ◌&&◌, ◌||◌, Bool-cases,
  inl, inr, Option, none, some, List, [], ◌∷◌, ◌++◌, String, Result, length, length-append, arith,
}
use hopeit_engine.Engine.Reading.{
  StreamStats, no_stats, inc, StreamEvent, Read, read_error, event, read_name, ReadSettings,
  take_events, is_error, read_queues, process_all, is_empty, read_stream_cycle, cycle_size,
  is_exhausted, after_cycle, read_loop,
}

take_events-total :
    {V : Type 0} (stats : StreamStats) (batch : List (String × StreamEvent V)) (name : String)
    (reads : List (Read V))
    → let (stats', batch') = take_events stats batch name reads in
      (stats'.total_event_count + length batch'
        ≡ stats.total_event_count + length batch + length reads)
      × (stats.total_event_count ≤ stats'.total_event_count)
unfolding take_events inc
take_events-total stats batch name [] = omega arith
take_events-total stats batch name (read_error ∷ reads) =
    omega (arith, take_events-total (inc true stats) batch name reads)
take_events-total stats batch name (event e ∷ reads) = omega (
  arith,
  take_events-total stats (batch ++ (name, e) ∷ []) name reads,
  length-append batch ((name, e) ∷ []),
)

module _ {V E S : Type 0} (read : S → String → ℕ → List (Read V) × S)
    (process : S → String → StreamEvent V → Result E (Option V) × S)
    (limited : (s : S) (name : String) (size : ℕ) → length (read s name size).0 ≤ size) where
  -- The most events that a cycle over these queues reads.
  abbrev most : List String → ℕ → ℕ
  most [] size = 0
  most (q ∷ queues) size = size + most queues size

  read_queues-total :
      (s : S) (stats : StreamStats) (batch : List (String × StreamEvent V)) (name : String)
      (queues : List String) (size : ℕ)
      → let (s', stats', batch') = read_queues read process s stats batch name queues size in
        (stats.total_event_count ≤ stats'.total_event_count)
        × (stats'.total_event_count + length batch'
            ≤ stats.total_event_count + length batch + most queues size)
  unfolding read_queues
  read_queues-total s stats batch name [] size = omega arith
  read_queues-total s stats batch name (q ∷ queues) size =
      let r = read s (read_name name q) size in
      let t = take_events stats batch (read_name name q) r.0 in
      omega (
        arith,
        limited s (read_name name q) size,
        take_events-total stats batch (read_name name q) r.0,
        read_queues-total r.1 t.0 t.1 name queues size,
      )

  process_all-total :
      (s : S) (stats : StreamStats) (last_res : Option (Result E (Option V)))
      (batch : List (String × StreamEvent V))
      → (process_all read process s stats last_res batch).1.total_event_count
        ≡ stats.total_event_count + length batch
  unfolding process_all inc
  process_all-total s stats last_res [] = omega arith
  process_all-total s stats last_res ((name, e) ∷ batch) =
      let r = process s name e in
      omega (arith, process_all-total r.1 (inc (is_error r.0) stats) (some r.0) batch)

  most_le :
      (queues : List String) (size batch_size : ℕ)
      → size ≤ batch_size
      → most queues size ≤ length queues * batch_size
  most_le [] size batch_size h = omega arith
  most_le (q ∷ queues) size batch_size h =
      let e : suc (length queues) * batch_size ≡ length queues * batch_size + batch_size =
        suc-mul (length queues) batch_size in
      omega (arith, e, most_le queues size batch_size h)

  -- A cycle counts what it reads, and at least one event unless there was none.
  cycle-total :
      (s : S) (stats : StreamStats) (name : String) (queues : List String) (size : ℕ)
      → let (found, empty) = read_stream_cycle read process s stats name queues size in
        (found.1.total_event_count ≤ stats.total_event_count + most queues size)
        × (empty ≡ false → stats.total_event_count < found.1.total_event_count)
  unfolding read_stream_cycle
  cycle-total s stats name queues size =
      let r = read_queues read process s stats [] name queues size in
      counted r.2 _ _ _ _ (read_queues-total s stats [] name queues size)
        (process_all-total r.0 r.1 none r.2)
    where
      counted :
          (batch : List (String × StreamEvent V))
          → (a b c m : ℕ) → (a ≤ b) × (b + length batch ≤ a + 0 + m)
          → c ≡ b + length batch
          → (c ≤ a + m) × (is_empty batch ≡ false → a < c)
      counted [] a b c m (lo, hi) e = (omega arith, λ full. cc)
      counted (x ∷ batch) a b c m (lo, hi) e = (omega arith, λ full. omega arith)

  module _ (locked : S → Bool) (c : ReadSettings) (name : String) (q : String)
      (queues : List String) (stops : c.stop_when_empty ≡ true) (limits : 0 < c.max_events) where
    -- The loop ends from here, with at most so many events.
    pub Ends : ℕ → S × StreamStats × Option (Result E (Option V)) → Type 0
    Ends n found =
        (end : S × StreamStats × Option (Result E (Option V))) × (read_loop read process locked c
            name (q ∷ queues) n found
          ≡ some end)
        × (end.1.total_event_count ≤ c.max_events + length queues * c.batch_size)

    after_cycle-Ends :
        (n : ℕ) (ends : Bool) (found : S × StreamStats × Option (Result E (Option V)))
        → found.1.total_event_count ≤ c.max_events + length queues * c.batch_size
        → (ends ≡ false → Ends n found)
        → (end : S × StreamStats × Option (Result E (Option V))) × (after_cycle read process locked
              c name
              (q ∷ queues)
              ends
              found
              (read_loop read process locked c name (q ∷ queues) n found)
            ≡ some end)
          × (end.1.total_event_count ≤ c.max_events + length queues * c.batch_size)
    unfolding after_cycle Ends
    after_cycle-Ends n true found few later = (found, refl, few)
    after_cycle-Ends n false found few later = later refl

    goes_on : (empty : Bool) → (c.test_mode || (c.stop_when_empty && empty)) ≡ false → empty ≡ false
    goes_on empty h = ground arith

    below :
        (b : Bool) (stats : StreamStats)
        → (b && not (is_exhausted c stats)) ≡ true
        → stats.total_event_count < c.max_events
    below b stats h = ground arith

    cycle_size_le :
        (stats : StreamStats)
        → (cycle_size c stats ≤ c.batch_size)
          × (cycle_size c stats ≤ c.max_events - stats.total_event_count)
    cycle_size_le stats = ground arith

    read_loop-Ends :
        (n : ℕ) (s : S) (stats : StreamStats) (last_res : Option (Result E (Option V)))
        → stats.total_event_count ≤ c.max_events + length queues * c.batch_size
        → c.max_events < stats.total_event_count + n
        → 0 < n
        → Ends n (s, stats, last_res)
    unfolding read_loop Ends
    read_loop-Ends zero s stats last_res few fuel pos = absurd (omega arith)
    read_loop-Ends (suc n) s stats last_res few fuel pos =
        elim (Bool-cases (locked s && not (is_exhausted c stats))) [
          | inr over ↦ rw over ((s, stats, last_res), refl, few)
          | inl goes ↦ rw goes (
              let less : stats.total_event_count < c.max_events = below (locked s) stats goes in
              let size : ℕ = cycle_size c stats in
              let next = read_stream_cycle read process s stats name (q ∷ queues) size in
              let (counted, more) = cycle-total s stats name (q ∷ queues) size in
              let (in_batch, in_rest) = cycle_size_le stats in
              let within : next.0.1.total_event_count
                  ≤ c.max_events + length queues * c.batch_size =
                omega
                  (arith, counted, in_batch, in_rest, most_le queues size c.batch_size in_batch) in
              after_cycle-Ends n (c.test_mode || (c.stop_when_empty && next.1)) next.0 within
                (λ open_now.
                  let grew : stats.total_event_count < next.0.1.total_event_count =
                    more (goes_on next.1 open_now) in
                  read_loop-Ends n next.0.0 next.0.1 next.0.2 within (omega (arith, grew))
                    (omega (arith, grew))))
        ]

    -- With `stop_when_empty` and a limit of `max_events`, the loop always ends, after at most
    -- `max_events` cycles that read something, if the manager gives at most as many entries as it is
    -- asked for; it has then consumed at most `max_events` and, for each queue behind the first one, a
    -- batch more.
    pub read_loop_limit : (s : S) → Ends (suc c.max_events) (s, no_stats, none)
    read_loop_limit s =
        read_loop-Ends (suc c.max_events) s no_stats none (omega arith) (omega arith) (omega arith)
