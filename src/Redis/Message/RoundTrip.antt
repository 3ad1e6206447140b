-- ===== src/Redis/Message/RoundTrip.antt =====
-- plugins/streams/redis/src/hopeit/redis_streams/__init__.py: a message that was written, read by
-- `_decode_message`.
use hopeit_engine.Common.{Option, some, String, List, ok, All, ◌≡◌, ◌∙◌, refl}
use hopeit_engine.Common.Dict.{Dict, lookup, keys}
use hopeit_engine.Common.Dict.Updates.{IsDict}
use hopeit_engine.Serialization.Compression.{Compression}
use hopeit_engine.Serialization.Compression as Codes
use hopeit_engine.Serialization.{Serialization, serialization_value}
use hopeit_engine.Serialization.Restored.{Documents, IsData, serialize-deserialize}
use hopeit_engine.Redis.Message.{Payloads, StreamEvent, bytes, encode_message, decode_message}
use hopeit_engine.Redis.Message.Fields.{
  fields, field_last, field_first, first_text, event_ts_text, tracked,
}
use hopeit_engine.Redis.Message.ReadBack.{
  IsPlain, payload_back, queue_back, auth_back, track_ids_back, plain_fields, not_operation_id,
}

module _ {X Bytes P Ty A : Type 0} (f : Payloads X Bytes P Ty A) (laws : Documents f.formats)
    (empty : f.formats.utf8_decode f.no_bytes ≡ ok "") where
  -- A data object written to a stream is read back with its queue, its auth info and its track ids:
  -- a header that is no other field's name is the track id of that name, or empty if there is none.
  pub encode_message-decode_message :
      (p : P) (queue : String) (ids : Dict (Option String)) (auth : A) (comp : Compression)
      (ser : Serialization) (now stream_name : String) (msg_id : Bytes) (id : String) (ty : Ty)
      (group : String) (headers : List String) (read_ts operation_id : String)
      → IsData f.formats p ty
      → f.parse_auth (f.auth_json auth) ≡ ok auth
      → f.formats.utf8_decode msg_id ≡ ok id
      → IsDict (keys ids)
      → All (IsPlain f) headers
      → (w : Dict Bytes) × (encode_message f p queue ids auth comp ser now ≡ ok w)
        × (e : StreamEvent Bytes P A) × (decode_message f stream_name
              (msg_id, w)
              ty
              group
              headers
              read_ts
              operation_id
            ≡ ok e)
        × (e.msg_internal_id ≡ msg_id)
        × (e.payload ≡ p)
        × (e.queue ≡ queue)
        × (e.auth_info ≡ auth)
        × All (λ k. lookup k e.track_ids ≡ some (tracked f ids k)) headers
  unfolding encode_message decode_message lookup
  encode_message-decode_message p queue ids auth comp ser now stream_name msg_id id ty group headers
        read_ts operation_id is ha hi unique plain =
      let (d, hs, hd) = serialize-deserialize f.formats laws p ty is ser comp in
      let last = field_last f p queue ids auth comp ser d now in
      let w : Dict Bytes = fields f p queue ids auth comp ser d now in
      let submitted =
        first_text f p queue ids auth comp ser d now "submit_ts" {v = bytes f now} refl in
      let named =
        first_text f p queue ids auth comp ser d now "id" {v = bytes f (f.event_id p)} refl in
      let (t, ht, kept) =
        track_ids_back f laws empty w stream_name msg_id group read_ts operation_id (tracked f ids)
          headers (id, rw hi refl)
          (
            submitted.0,
            field_first f p queue ids auth comp ser d now "submit_ts" refl
                  (refl, (refl, (refl, (refl, (refl, tt)))))
                ∙ submitted.1,
          )
          (event_ts_text f p queue ids auth comp ser d now)
          (
            named.0,
            field_first f p queue ids auth comp ser d now "id" refl
                  (refl, (refl, (refl, (refl, (refl, tt)))))
                ∙ named.1,
          )
          (plain_fields f laws empty p queue ids auth comp ser d now unique headers plain)
          (not_operation_id f laws empty p queue ids auth comp ser d now unique headers plain) in
      (
        w,
        rw hs refl,
        record {
          msg_internal_id = msg_id;
          queue = queue;
          payload = p;
          track_ids = t;
          auth_info = auth;
        },
        rw
            (
              payload_back f laws empty w p ty comp ser d
                  (last "comp" (bytes f (Codes.value comp)) refl refl)
                  (last "ser" (bytes f (serialization_value ser)) refl refl)
                  (last "payload" d refl refl) hd,
              queue_back f laws empty w queue (last "queue" (bytes f queue) refl refl),
              ht,
              auth_back f laws empty w auth
                  (last "auth_info" (f.formats.b64encode (bytes f (f.auth_json auth))) refl refl)
                  ha,
            )
            refl,
        refl,
        refl,
        refl,
        refl,
        kept,
      )
