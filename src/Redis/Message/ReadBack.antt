-- ===== src/Redis/Message/ReadBack.antt =====
-- plugins/streams/redis/src/hopeit/redis_streams/__init__.py: that a message is read back as the event
-- that was written.
use hopeit_engine.Common.{
  false, Option, some, String, List, [], ◌∷◌, ok, All, str_eq, Bool-cases, ◌≡◌, inl, inr, refl, ◌∙◌,
}
use hopeit_engine.Common.Dict.{Dict, lookup, insert, update, keys, Fresh}
use hopeit_engine.Common.Dict.Updates.{
  IsDict, lookup-update, tagged, lookup-tagged, insert_other, or_else-none,
}
use hopeit_engine.Serialization.Compression.{Compression, compression_of}
use hopeit_engine.Serialization.Compression as Codes
use hopeit_engine.Serialization.{Serialization, serialization_value, deserialize}
use hopeit_engine.Serialization.Restored.{Documents}
use hopeit_engine.Redis.Message.{
  Payloads, bytes, track_fields, first_fields, text_or_empty, decode_payload, decode_headers,
  decode_track_ids, decode_auth_info, decode, field_or, text_field, field,
}
use hopeit_engine.Redis.Message.Fields.{
  compression_of-value, serialization_of-value, fields, field_first, keys-track_fields, tracked,
}

-- The track ids that say where an event was read.
abbrev track_base : String → String → String → String → String → String → String → Dict String
track_base stream_name id group submit_ts event_ts event_id read_ts =
    ("stream.name", stream_name)
    ∷ ("stream.msg_id", id)
    ∷ ("stream.consumer_group", group)
    ∷ ("stream.submit_ts", submit_ts)
    ∷ ("stream.event_ts", event_ts)
    ∷ ("stream.event_id", event_id)
    ∷ ("stream.read_ts", read_ts)
    ∷ []

module _ {X Bytes P Ty A : Type 0} (f : Payloads X Bytes P Ty A) where
  -- A header that is the name of no field of the message.
  abbrev pub IsPlain : String → Type 0
  IsPlain k = Fresh k (
      "event_ts" ∷ "auth_info" ∷ "ser" ∷ "comp" ∷ "payload" ∷ "queue" ∷ "id" ∷ "type" ∷ "submit_ts"
      ∷ "track.operation_id" ∷ [])

  module _ (laws : Documents f.formats) (empty : f.formats.utf8_decode f.no_bytes ≡ ok "") where
    decode_text : (s : String) → decode f (bytes f s) ≡ ok s
    decode_text s = rw (laws.utf8_law s) refl

    tracked_field :
        (k : String) (ids : Dict (Option String))
        → decode f (field_or f f.no_bytes k (track_fields f ids)) ≡ ok (tracked f ids k)
    unfolding lookup
    tracked_field k [] = rw empty refl
    tracked_field k ((j, v) ∷ ids) =
        let rest = tracked_field k ids in
        elim (Bool-cases (str_eq j k)) [
          | inl same ↦ rw (field_or, tracked, same) (decode_text (text_or_empty f v))
          | inr other ↦ rw (field_or, tracked, other) rest
        ]

    module _ (w : Dict Bytes) where
      text_at : (k s : String) → lookup k w ≡ some (bytes f s) → text_field f k w ≡ ok s
      text_at k s h = rw (text_field, field, h) (decode_text s)

      pub payload_back :
          (p : P) (ty : Ty) (comp : Compression) (ser : Serialization) (d : Bytes)
          → lookup "comp" w ≡ some (bytes f (Codes.value comp))
          → lookup "ser" w ≡ some (bytes f (serialization_value ser))
          → lookup "payload" w ≡ some d
          → deserialize f.formats d ser comp ty ≡ ok p
          → decode_payload f w ty ≡ ok p
      unfolding decode_payload
      payload_back p ty comp ser d hc hs hp h =
          rw
            (
              text_at "comp" (Codes.value comp) hc,
              compression_of-value comp,
              text_at "ser" (serialization_value ser) hs,
              serialization_of-value ser,
              field,
              hp,
              h,
            )
            refl

      pub queue_back :
          (queue : String)
          → lookup "queue" w ≡ some (bytes f queue)
          → decode f (field_or f (bytes f "AUTO") "queue" w) ≡ ok queue
      queue_back queue h = rw (field_or, h) (decode_text queue)

      pub auth_back :
          (auth : A)
          → lookup "auth_info" w ≡ some (f.formats.b64encode (bytes f (f.auth_json auth)))
          → f.parse_auth (f.auth_json auth) ≡ ok auth
          → decode_auth_info f w ≡ ok auth
      unfolding decode_auth_info
      auth_back auth h q =
          rw
            (
              field_or,
              h,
              laws.base64_law (bytes f (f.auth_json auth)),
              decode_text (f.auth_json auth),
              q,
            )
            refl

      headers_back :
          (g : String → String) (headers : List String)
          → All (λ k. decode f (field_or f f.no_bytes k w) ≡ ok (g k)) headers
          → decode_headers f headers w ≡ ok (tagged g headers)
      unfolding decode_headers
      headers_back g [] h = refl
      headers_back g (k ∷ ks) (h, hs) = rw (h, headers_back g ks hs) refl

      -- Every header is a track id of the event, as is the operation id.
      pub track_ids_back :
          (stream_name : String) (msg_id : Bytes) (group read_ts operation_id : String)
          (g : String → String) (headers : List String)
          → (s : String) × (decode f msg_id ≡ ok s)
          → (s : String) × (lookup "submit_ts" w ≡ some (bytes f s))
          → (s : String) × (lookup "event_ts" w ≡ some (bytes f s))
          → (s : String) × (lookup "id" w ≡ some (bytes f s))
          → All (λ k. decode f (field_or f f.no_bytes k w) ≡ ok (g k)) headers
          → All (λ k. str_eq "track.operation_id" k ≡ false) headers
          → (t : Dict String) × (decode_track_ids f stream_name msg_id w group headers read_ts
                operation_id
              ≡ ok t)
            × All (λ k. lookup k t ≡ some (g k)) headers
      unfolding decode_track_ids
      track_ids_back stream_name msg_id group read_ts operation_id g headers (i, hi) (s, hs) (e, he)
            (v, hv) hh no_id =
          let base = track_base stream_name i group s e v read_ts in
          (
            insert "track.operation_id" operation_id (update base (tagged g headers)),
            rw
                (
                  hi,
                  text_at "submit_ts" s hs,
                  text_at "event_ts" e he,
                  text_at "id" v hv,
                  headers_back g headers hh,
                )
                refl,
            insert_other g "track.operation_id" operation_id (update base (tagged g headers))
                headers (lookup-tagged g headers base) no_id,
          )

    module _ (p : P) (queue : String) (ids : Dict (Option String)) (auth : A) (comp : Compression)
        (ser : Serialization) (d : Bytes) (now : String) (unique : IsDict (keys ids)) where
      -- A field whose name is no other field's is a track id.
      plain_field :
          (k : String)
          → IsPlain k
          → lookup k (fields f p queue ids auth comp ser d now) ≡ lookup k (track_fields f ids)
      unfolding lookup
      plain_field k (e, (a, (s, (c, (pl, (q, (i, (t, (st, o))))))))) =
          field_first f p queue ids auth comp ser d now k e (a, (s, (c, (pl, (q, tt)))))
          ∙ lookup-update k (first_fields f p now) (track_fields f ids)
              (rw (keys-track_fields f ids) unique)
          ∙ rw (i, t, st, e) (or_else-none (lookup k (track_fields f ids)))

      pub plain_fields :
          (headers : List String)
          → All IsPlain headers
          → All
              (λ k.
                decode f (field_or f f.no_bytes k (fields f p queue ids auth comp ser d now))
                ≡ ok (tracked f ids k))
              headers
      plain_fields [] h = tt
      plain_fields (k ∷ ks) (h, hs) =
          (rw (field_or, plain_field k h) (tracked_field k ids), plain_fields ks hs)

      pub not_operation_id :
          (headers : List String)
          → All IsPlain headers
          → All (λ k. str_eq "track.operation_id" k ≡ false) headers
      not_operation_id [] h = tt
      not_operation_id (k ∷ ks) ((e, (a, (s, (c, (pl, (q, (i, (t, (st, (o, u)))))))))), hs) =
          (o, not_operation_id ks hs)
