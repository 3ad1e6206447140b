-- ===== src/Redis/Batch.antt =====
-- plugins/streams/redis/src/hopeit/redis_streams/__init__.py: what a read of a batch gives, for the
-- messages that can be read and for those that cannot.
use hopeit_engine.Common.{
  Bool, true, false, Bool-cases, Option, none, some, String, List, [], ◌∷◌, Result, ok, err, ◌>>=◌,
  ◌≡◌, ◌⊎◌, inl, inr, refl,
}
use hopeit_engine.Common.Dict.{Dict, lookup}
use hopeit_engine.Serialization.Compression as Codes
use hopeit_engine.Serialization.Compression.{raised}
use hopeit_engine.Redis.Message.{
  Payloads, MessageError, key_error, value_error, codec_error, StreamEvent, text_field, decode,
  decode_message,
}
use hopeit_engine.Redis.{
  ManagerError, stream_os_error, message_error, raised_as, read_typed, Msg, Entry, read_message,
  read_batch, read_stream, message,
}

module _ {X Bytes P Ty A : Type 0} (f : Payloads X Bytes P Ty A) (stream_name group : String)
    (headers : List String) (datatypes : Dict Ty) (stamp : Bytes → String × String) where
  abbrev reads : Msg f → Result (MessageError X) (Entry f)
  reads = read_message f stream_name group headers datatypes stamp

  -- What one message is read as: the TypeError of a type that is not among the expected ones, or the
  -- event that is decoded as its type; or the exception of one of these.
  abbrev pub ReadAs : Msg f → Result (MessageError X) (Entry f) → Type 0
  ReadAs m (ok (err type_name)) =
      (text_field f "type" m.1 ≡ ok type_name) × (lookup type_name datatypes ≡ none)
  ReadAs m (ok (ok event)) =
      (type_name : String) × (ty : Ty) × (text_field f "type" m.1 ≡ ok type_name)
      × (lookup type_name datatypes ≡ some ty)
      × (decode_message f stream_name m ty group headers (stamp m.0).0 (stamp m.0).1 ≡ ok event)
  ReadAs m (err e) =
      (text_field f "type" m.1 ≡ err e)
      ⊎ ((type_name : String) × (text_field f "type" m.1 ≡ ok type_name)
          × (((lookup type_name datatypes ≡ none) × (decode f m.0 ≡ err e))
              ⊎ ((ty : Ty) × (lookup type_name datatypes ≡ some ty)
                  × (decode_message f stream_name m ty group headers (stamp m.0).0 (stamp m.0).1
                      ≡ err e))))

  unknown-ReadAs :
      (m : Msg f) (type_name : String) (r : Result (MessageError X) String)
      → text_field f "type" m.1 ≡ ok type_name
      → lookup type_name datatypes ≡ none
      → decode f m.0 ≡ r
      → ReadAs m (r >>= λ id. ok (err type_name))
  unknown-ReadAs m type_name (ok id) t l d = (t, l)
  unknown-ReadAs m type_name (err e) t l d = inr (type_name, t, inl (l, d))

  known-ReadAs :
      (m : Msg f) (type_name : String) (ty : Ty)
      (r : Result (MessageError X) (StreamEvent Bytes P A))
      → text_field f "type" m.1 ≡ ok type_name
      → lookup type_name datatypes ≡ some ty
      → decode_message f stream_name m ty group headers (stamp m.0).0 (stamp m.0).1 ≡ r
      → ReadAs m (r >>= λ e. ok (ok e))
  known-ReadAs m type_name ty (ok e) t l d = (type_name, ty, t, l, d)
  known-ReadAs m type_name ty (err e) t l d = inr (type_name, t, inr (ty, l, d))

  typed-ReadAs :
      (m : Msg f) (type_name : String) (o : Option Ty)
      → text_field f "type" m.1 ≡ ok type_name
      → lookup type_name datatypes ≡ o
      → ReadAs m (read_typed f stream_name group headers datatypes stamp m type_name o)
  typed-ReadAs m type_name none t l = unknown-ReadAs m type_name (decode f m.0) t l refl
  typed-ReadAs m type_name (some ty) t l = known-ReadAs m type_name ty _ t l refl

  text-ReadAs :
      (m : Msg f) (r : Result (MessageError X) String)
      → text_field f "type" m.1 ≡ r
      → ReadAs m (
          r >>= λ t.
          read_typed f stream_name group headers datatypes stamp m t (lookup t datatypes))
  text-ReadAs m (ok t) q = typed-ReadAs m t (lookup t datatypes) q refl
  text-ReadAs m (err e) q = inl q

  reads-ReadAs : (m : Msg f) → ReadAs m (reads m)
  unfolding read_message
  reads-ReadAs m = text-ReadAs m (text_field f "type" m.1) refl

  -- Each message gives the entry at its place.
  abbrev pub GiveEntries : List (Msg f) → List (Entry f) → Type 0
  GiveEntries [] [] = Unit
  GiveEntries [] (e ∷ entries) = ⊥
  GiveEntries (m ∷ batch) [] = ⊥
  GiveEntries (m ∷ batch) (e ∷ entries) = ReadAs m (ok e) × GiveEntries batch entries

  -- A message raises `e`, and those before it can be read.
  abbrev pub FirstRaises : List (Msg f) → MessageError X → Type 0
  FirstRaises [] e = ⊥
  FirstRaises (m ∷ batch) e =
      ReadAs m (err e) ⊎ ((a : Entry f) × ReadAs m (ok a) × FirstRaises batch e)

  abbrev pub Describes : List (Msg f) → Result (MessageError X) (List (Entry f)) → Type 0
  Describes batch (ok entries) = GiveEntries batch entries
  Describes batch (err e) = FirstRaises batch e

  Describes-cons :
      (m : Msg f) (batch : List (Msg f)) (r : Result (MessageError X) (Entry f))
      (rest : Result (MessageError X) (List (Entry f)))
      → ReadAs m r
      → Describes batch rest
      → Describes (m ∷ batch) (r >>= λ e. rest >>= λ l. ok (e ∷ l))
  Describes-cons m batch (err e) rest q h = inl q
  Describes-cons m batch (ok a) (err e) q h = inr (a, q, h)
  Describes-cons m batch (ok a) (ok l) q h = (q, h)

  read_batch-Describes :
      (batch : List (Msg f))
      → Describes batch (read_batch f stream_name group headers datatypes stamp batch)
  unfolding read_batch
  read_batch-Describes [] = tt
  read_batch-Describes (m ∷ batch) =
      Describes-cons m batch (reads m) _ (reads-ReadAs m) (read_batch-Describes batch)

  -- The exception of a message is an OSError, of a codec or of what reads JSON, or another one.
  pub is_os : MessageError X → Bool
  is_os (codec_error (raised x)) = f.is_os_error x
  is_os (codec_error Codes.key_error) = false
  is_os (codec_error Codes.value_error) = false
  is_os (key_error k) = false
  is_os value_error = false

  -- What `read_stream` gives for a batch.
  abbrev pub StreamDescribes : List (Msg f) → Result (ManagerError X) (List (Entry f)) → Type 0
  StreamDescribes batch (ok entries) = GiveEntries batch entries
  StreamDescribes batch (err e) =
      (x : MessageError X) × (((is_os x ≡ true) × (e ≡ stream_os_error))
        ⊎ ((is_os x ≡ false) × (e ≡ message_error x)))
      × FirstRaises batch x

  raised_as-is_os :
      (x : MessageError X)
      → ((is_os x ≡ true) × (raised_as f x ≡ stream_os_error))
        ⊎ ((is_os x ≡ false) × (raised_as f x ≡ message_error x))
  unfolding is_os
  raised_as-is_os (codec_error (raised x)) = elim (Bool-cases (f.is_os_error x)) [
    | inl y ↦ inl (y, rw y refl)
    | inr n ↦ inr (n, rw n refl)
  ]
  raised_as-is_os (codec_error Codes.key_error) = inr (refl, refl)
  raised_as-is_os (codec_error Codes.value_error) = inr (refl, refl)
  raised_as-is_os (key_error k) = inr (refl, refl)
  raised_as-is_os value_error = inr (refl, refl)

  message-Describes :
      (batch : List (Msg f)) (r : Result (MessageError X) (List (Entry f)))
      → Describes batch r
      → StreamDescribes batch (message f r)
  message-Describes batch (ok l) h = h
  message-Describes batch (err e) h = (e, raised_as-is_os e, h)

  -- A batch that is not empty gives, if all messages can be read, an entry for each in their order: the
  -- TypeError where the type of the message is none of the expected ones, and else the event that is
  -- decoded as that type. Otherwise the read gives no entry and raises what the first message raises
  -- that cannot be read, where an OSError comes out as StreamOSError.
  pub read_stream-Describes :
      (name : String) (m : Msg f) (batch : List (Msg f))
      → StreamDescribes
          (m ∷ batch)
          (read_stream f stream_name group headers datatypes stamp (ok ((name, m ∷ batch) ∷ [])))
  unfolding read_stream
  read_stream-Describes name m batch =
      message-Describes (m ∷ batch) _ (read_batch-Describes (m ∷ batch))
