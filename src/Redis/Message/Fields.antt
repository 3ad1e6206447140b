-- ===== src/Redis/Message/Fields.antt =====
-- plugins/streams/redis/src/hopeit/redis_streams/__init__.py: the fields of an encoded message, and
-- what is read back from them.
use hopeit_engine.Common.{
  false, Option, none, some, String, List, [], ◌∷◌, str_eq, ◌≡◌, refl, ap, ◌∙◌,
}
use hopeit_engine.Common.Dict.{
  Dict, lookup, update, keys, Fresh, lookup-insert_at, Items, Items-lookup,
}
use hopeit_engine.Common.Dict.Updates.{
  IsDict, lookup-update, lookup-update_other, update-some, update-Items, or_else,
}
use hopeit_engine.Serialization.Compression.{Compression, compression_of}
use hopeit_engine.Serialization.Compression as Codes
use hopeit_engine.Serialization.{
  Serialization, serialization_value, serialization_of, json_utf8, json_base64, pickle3, pickle4,
  pickle5,
}
use hopeit_engine.Redis.Message.{
  EventTs, datetime_ts, text_ts, no_ts, Payloads, bytes, track_fields, with_event_ts, first_fields,
  last_fields, text_or_empty,
}

-- The enumerations are read from their values.
pub compression_of-value : (c : Compression) → compression_of (Codes.value c) ≡ some c
unfolding compression_of Codes.value
compression_of-value Codes.no_compression = refl
compression_of-value _ = refl

pub serialization_of-value : (s : Serialization) → serialization_of (serialization_value s) ≡ some s
unfolding serialization_of
serialization_of-value json_utf8 = refl
serialization_of-value json_base64 = refl
serialization_of-value pickle3 = refl
serialization_of-value pickle4 = refl
serialization_of-value pickle5 = refl

-- The names of the fields of a message, but for its track ids.
abbrev pub field_names : List String
field_names =
    "id" ∷ "type" ∷ "submit_ts" ∷ "event_ts" ∷ "auth_info" ∷ "ser" ∷ "comp" ∷ "payload" ∷ "queue"
    ∷ []

module _ {X Bytes P Ty A : Type 0} (f : Payloads X Bytes P Ty A) where
  -- The message, once the payload is serialized.
  abbrev pub fields_of :
      P
      → String
      → Dict (Option String)
      → A
      → Compression
      → Serialization
      → Bytes
      → String
      → Dict Bytes
  fields_of p queue ids auth comp ser d now = with_event_ts f (f.event_ts p) (
      update (update (first_fields f p now) (track_fields f ids))
        (last_fields f queue auth comp ser d))

  -- A field that is not "event_ts" is as it was before that is set.
  event_ts_other :
      (k : String) (ts : EventTs) (d : Dict Bytes)
      → str_eq "event_ts" k ≡ false
      → lookup k (with_event_ts f ts d) ≡ lookup k d
  event_ts_other k (datetime_ts s) d n = lookup-insert_at "event_ts" k (bytes f s) d ∙ rw n refl
  event_ts_other k (text_ts s) d n = lookup-insert_at "event_ts" k (bytes f s) d ∙ rw n refl
  event_ts_other k no_ts d n = refl

  last-IsDict :
      (queue : String) (auth : A) (comp : Compression) (ser : Serialization) (d : Bytes)
      → IsDict (keys (last_fields f queue auth comp ser d))
  last-IsDict queue auth comp ser d = (
    (refl, (refl, (refl, (refl, tt)))),
    ((refl, (refl, (refl, tt))), ((refl, (refl, tt)), ((refl, tt), (tt, tt)))),
  )

  -- The text that a field is the encoding of.
  abbrev IsText : String → Bytes → Type 0
  IsText k v = (s : String) × (v ≡ bytes f s)

  track_fields-IsText : (ids : Dict (Option String)) → Items IsText (track_fields f ids)
  track_fields-IsText [] = tt
  track_fields-IsText ((k, v) ∷ ids) = ((text_or_empty f v, refl), track_fields-IsText ids)

  pub keys-track_fields : (ids : Dict (Option String)) → keys (track_fields f ids) ≡ keys ids
  keys-track_fields [] = refl
  keys-track_fields ((k, v) ∷ ids) = ap (◌∷◌ k) (keys-track_fields ids)

  -- The track ids of the event, as texts: the empty text where there is none.
  abbrev pub tracked : Dict (Option String) → String → String
  tracked ids k = elim (lookup k ids) [ none ↦ "" | some v ↦ text_or_empty f v ]

  module _ (p : P) (queue : String) (ids : Dict (Option String)) (auth : A) (comp : Compression)
      (ser : Serialization) (d : Bytes) (now : String) where
    abbrev pub fields : Dict Bytes
    fields = fields_of p queue ids auth comp ser d now

    -- The fields that are written last.
    pub field_last :
        (k : String) (v : Bytes)
        → str_eq "event_ts" k ≡ false
        → lookup k (last_fields f queue auth comp ser d) ≡ some v
        → lookup k fields ≡ some v
    field_last k v n h =
        event_ts_other k (f.event_ts p) _ n
        ∙ lookup-update k (update (first_fields f p now) (track_fields f ids))
            (last_fields f queue auth comp ser d) (last-IsDict queue auth comp ser d)
        ∙ ap (λ o. or_else o (lookup k (update (first_fields f p now) (track_fields f ids)))) h

    -- The fields that are not written last.
    pub field_first :
        (k : String)
        → str_eq "event_ts" k ≡ false
        → Fresh k (keys (last_fields f queue auth comp ser d))
        → lookup k fields ≡ lookup k (update (first_fields f p now) (track_fields f ids))
    field_first k n h =
        event_ts_other k (f.event_ts p) _ n
        ∙ lookup-update_other k (update (first_fields f p now) (track_fields f ids))
            (last_fields f queue auth comp ser d) h

    -- A first field is a text, be it overwritten by a track id or not.
    pub first_text :
        (k : String) {v : Bytes}
        → lookup k (first_fields f p now) ≡ some v
        → (s : String) × (lookup k (update (first_fields f p now) (track_fields f ids))
            ≡ some (bytes f s))
    first_text k h =
        let (w, q) = update-some k (first_fields f p now) (track_fields f ids) h in
        let (s, e) =
          Items-lookup IsText k (update (first_fields f p now) (track_fields f ids))
            (update-Items IsText (first_fields f p now) (track_fields f ids)
              ((_, refl), ((_, refl), ((_, refl), ((_, refl), tt)))) (track_fields-IsText ids))
            q in
        (s, q ∙ ap some e)

    pub event_ts_text : (s : String) × (lookup "event_ts" fields ≡ some (bytes f s))
    unfolding lookup
    event_ts_text = by_ts (f.event_ts p)
      where
        by_ts :
            (ts : EventTs)
            → (s : String) × (lookup "event_ts" (
                  with_event_ts f ts (
                    update
                      (update (first_fields f p now) (track_fields f ids))
                      (last_fields f queue auth comp ser d)))
                ≡ some (bytes f s))
        by_ts (datetime_ts s) = (s, lookup-insert_at "event_ts" "event_ts" (bytes f s) _)
        by_ts (text_ts s) = (s, lookup-insert_at "event_ts" "event_ts" (bytes f s) _)
        by_ts no_ts =
            let (s, q) = first_text "event_ts" {v = bytes f ""} refl in
            (
              s,
              lookup-update_other "event_ts" (update (first_fields f p now) (track_fields f ids))
                    (last_fields f queue auth comp ser d) (refl, (refl, (refl, (refl, (refl, tt)))))
                  ∙ q,
            )
