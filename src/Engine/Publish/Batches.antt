-- ===== src/Engine/Publish/Batches.antt =====
-- What `_execute_event` of engine/src/hopeit/server/engine.py publishes, whatever its batch size.
use mathlib.Core.List.{append-nil, append_assoc}
use hopeit_engine.Common.{
  map, ℕ, ◌<◌, ◌≡◌, ◌∙◌, refl, sym, ap, max, Bool-cases, inl, inr, Option, none, some, List, [],
  ◌∷◌, ◌++◌, String, Result, ok, err, leb, length, arith,
}
use hopeit_engine.Config.Defs.{WriteStreamDescriptor}
use hopeit_engine.Steps.Defs.{Trace, done, raised, yields}
use hopeit_engine.Engine.Publish.{
  Message, messages, put_all, write_stream, write_stream_batch, collected, flush, round,
  collect_results, execute_event,
}

-- A manager that keeps every message in a log of entries, and never raises.
abbrev pub keep_message :
    {V E L : Type 0} → (Message V → L) → List L → Message V → Result E (Unit {0}) × List L
keep_message entry log m = (ok tt, log ++ entry m ∷ [])

module _ {V E : Type 0} where
  -- The results that are not None.
  abbrev pub outputs : Trace E (Option V) → List V
  outputs done = []
  outputs (raised e) = []
  outputs (yields none t) = outputs t
  outputs (yields (some v) t) = v ∷ outputs t

  -- The exception at the end.
  abbrev pub ending : Trace E (Option V) → Option E
  ending done = none
  ending (raised e) = some e
  ending (yields r t) = ending t

  -- The last result, or the given one if there are none.
  abbrev pub last_of : Option V → Trace E (Option V) → Option V
  last_of result done = result
  last_of result (raised e) = result
  last_of result (yields r t) = last_of r t

module _ {V L : Type 0} (entry : Message V → L) (w : WriteStreamDescriptor) (queue : String) where
  -- The messages of some payloads, in order.
  abbrev pub all_messages : List V → List L
  all_messages [] = []
  all_messages (v ∷ vs) = map entry (messages w queue v) ++ all_messages vs

  all_messages-append :
      (xs ys : List V) → all_messages (xs ++ ys) ≡ all_messages xs ++ all_messages ys
  all_messages-append [] ys = refl
  all_messages-append (x ∷ xs) ys =
      ap (λ (t : List L). map entry (messages w queue x) ++ t) (all_messages-append xs ys)
      ∙ sym (append_assoc (map entry (messages w queue x)) (all_messages xs) (all_messages ys))

module _ {V E L : Type 0} (entry : Message V → L) (batch_size : ℕ) (w : WriteStreamDescriptor)
    (queue : String) where
  -- The log `log0` and the outcome of a run with these results to publish, the exception at its end,
  -- and its last result.
  abbrev pub Published :
      List L → List V → Option E → Option V → Result E (Option V) × List L → Type 0
  Published log0 items none last (r, log) =
      (r ≡ ok last) × (log ≡ log0 ++ all_messages entry w queue items)
  Published log0 items (some e) last (r, log) =
      (r ≡ err e)
      × ((kept : List V) × (lost : List V) × (items ≡ kept ++ lost)
          × (log ≡ log0 ++ all_messages entry w queue kept)
          × (length lost < max 1 batch_size))

  put_all-kept :
      (log : List L) (ms : List (Message V))
      → put_all {E = E} (keep_message entry) log ms ≡ (ok tt, log ++ map entry ms)
  unfolding put_all
  put_all-kept log [] = ap (λ (l : List L). (ok tt, l)) (sym (append-nil log))
  put_all-kept log (m ∷ ms) =
      put_all-kept (log ++ entry m ∷ []) ms
      ∙ ap (λ (l : List L). (ok tt, l)) (append_assoc log (entry m ∷ []) (map entry ms))

  write_stream_batch-kept :
      (log : List L) (batch : List V)
      → write_stream_batch {E = E} (keep_message entry) w queue log batch
        ≡ (ok tt, log ++ all_messages entry w queue batch)
  unfolding write_stream_batch write_stream
  write_stream_batch-kept log [] = ap (λ (l : List L). (ok tt, l)) (sym (append-nil log))
  write_stream_batch-kept log (v ∷ batch) =
      rw
        (
          put_all-kept log (messages w queue v),
          write_stream_batch-kept (log ++ map entry (messages w queue v)) batch,
        )
        (ap (λ (l : List L). (ok tt, l))
          (append_assoc log (map entry (messages w queue v)) (all_messages entry w queue batch)))

  flush-Published :
      (log : List L) (batch : List V) (result : Option V)
      → Published log batch none result
          (flush {E = E} (keep_message entry) (some w) queue log batch result)
  unfolding flush
  flush-Published log [] result = (refl, sym (append-nil log))
  flush-Published log (v ∷ batch) result = rw (write_stream_batch-kept log (v ∷ batch)) (refl, refl)

  -- A full batch was published before the rest.
  Published-later :
      (log : List L) (batch items : List V) (e : Option E) (last : Option V)
      (o : Result E (Option V) × List L)
      → Published (log ++ all_messages entry w queue batch) items e last o
      → Published log (batch ++ items) e last o
  Published-later log batch items none last (r, log') (same, at) = (
    same,
    at
        ∙ append_assoc log (all_messages entry w queue batch) (all_messages entry w queue items)
        ∙ ap (λ (t : List L). log ++ t) (sym (all_messages-append entry w queue batch items)),
  )
  Published-later log batch items (some e) last (r, log') (same, (kept, lost, cut, at, few)) = (
    same,
    (
      batch ++ kept,
      lost,
      ap (λ (t : List V). batch ++ t) cut ∙ sym (append_assoc batch kept lost),
      at
          ∙ append_assoc log (all_messages entry w queue batch) (all_messages entry w queue kept)
          ∙ ap (λ (t : List L). log ++ t) (sym (all_messages-append entry w queue batch kept)),
      few,
    ),
  )

  collected-outputs :
      (batch : List V) (r : Option V) (t : Trace E (Option V))
      → collected batch r ++ outputs t ≡ batch ++ outputs (yields r t)
  collected-outputs batch none t = refl
  collected-outputs batch (some v) t = append_assoc batch (v ∷ []) (outputs t)

  collect_results-Published :
      (log : List L) (batch : List V) (result : Option V) (t : Trace E (Option V))
      → length batch < max 1 batch_size
      → Published log
          (batch ++ outputs t)
          (ending t)
          (last_of result t)
          (collect_results (keep_message entry) batch_size (some w) queue log batch result t)
  unfolding collect_results round
  collect_results-Published log batch result done few =
      rw (append-nil batch) (flush-Published log batch result)
  collect_results-Published log batch result (raised e) few =
      (refl, ([], batch, append-nil batch, sym (append-nil log), few))
  collect_results-Published log batch result (yields r t) few =
      rw (← collected-outputs batch r t)
        (elim (Bool-cases (leb batch_size (length (collected batch r)))) [
          | inl full ↦
              rw (full, write_stream_batch-kept log (collected batch r))
                (Published-later log (collected batch r) (outputs t) (ending t) (last_of r t) _ (
                  collect_results-Published (log ++ all_messages entry w queue (collected batch r))
                    [] r t (omega arith)))
          | inr more ↦
              rw more (collect_results-Published log (collected batch r) r t (ground arith))
        ])

  -- With a manager that keeps every message, an event that writes a stream publishes, whatever its
  -- batch size, the messages of all results that are not None, once and in order, and returns the last
  -- result. If its steps raise, it raises that, and has published the results before, in order, up
  -- to some at the end, fewer than a batch.
  pub execute_event-Published :
      (log : List L) (t : Trace E (Option V))
      → Published log
          (outputs t)
          (ending t)
          (last_of none t)
          (execute_event (keep_message entry) batch_size (some w) queue log t)
  unfolding execute_event
  execute_event-Published log t = collect_results-Published log [] none t (omega arith)
