-- ===== src/Redis/Message.antt =====
-- `_encode_message` and `_decode_message` of
-- plugins/streams/redis/src/hopeit/redis_streams/__init__.py. The client encodes texts in UTF-8, so
-- that a message is a dict of bytes; its keys, which are bytes too, are written as texts here.
pub mod Fields
pub mod ReadBack
pub mod RoundTrip
use hopeit_engine.Common.{
  ℕ, Bool, true, false, Option, none, some, String, List, [], ◌∷◌, map, Result, ok, err, ◌>>=◌,
  if◌then◌else◌, str_eq,
}
use hopeit_engine.Common.Dict.{Dict, lookup, insert, update}
use hopeit_engine.Serialization.Compression.{Compression, CodecError, compression_of}
use hopeit_engine.Serialization.Compression as Codes
use hopeit_engine.Serialization.{
  Serialization, Formats, serialization_value, serialization_of, serialize, deserialize,
}

-- `payload.event_ts()`: a datetime, by its text in UTC, a text, or anything else.
pub data EventTs : Type 0 where
  datetime_ts text_ts : String → EventTs
  no_ts : EventTs

-- What the messages need of payloads, of `auth_info` and of the libraries.
pub record Payloads (X Bytes P Ty A : Type 0) : Type 0 where
  pub formats : Formats X Bytes P Ty
  pub event_id : P → String
  pub type_name : P → String
  pub event_ts : P → EventTs
  pub auth_json : A → String
  pub parse_auth : String → Result X A
  pub no_bytes : Bytes
  -- `isinstance(e, OSError)`, as are the exceptions of bz2 and gzip on data that they cannot read.
  pub is_os_error : X → Bool

pub record StreamEvent (Bytes P A : Type 0) : Type 0 where
  pub msg_internal_id : Bytes
  pub queue : String
  pub payload : P
  pub track_ids : Dict String
  pub auth_info : A

pub data MessageError (X : Type 0) : Type 0 where
  key_error : String → MessageError X
  value_error : MessageError X
  codec_error : CodecError X → MessageError X

module _ {X Bytes P Ty A : Type 0} (f : Payloads X Bytes P Ty A) where
  abbrev pub bytes : String → Bytes
  bytes s = f.formats.utf8_encode s

  abbrev pub text_or_empty : Option String → String
  text_or_empty none = ""
  text_or_empty (some s) = s

  -- `{k: v or "" for k, v in track_ids.items()}`
  abbrev pub track_fields : Dict (Option String) → Dict Bytes
  track_fields [] = []
  track_fields ((k, v) ∷ ids) = (k, bytes (text_or_empty v)) ∷ track_fields ids

  abbrev pub with_event_ts : EventTs → Dict Bytes → Dict Bytes
  with_event_ts (datetime_ts s) fields = insert "event_ts" (bytes s) fields
  with_event_ts (text_ts s) fields = insert "event_ts" (bytes s) fields
  with_event_ts no_ts fields = fields

  -- The fields that come before the track ids.
  abbrev pub first_fields : P → String → Dict Bytes
  first_fields p now =
      ("id", bytes (f.event_id p))
      ∷ ("type", bytes (f.type_name p))
      ∷ ("submit_ts", bytes now)
      ∷ ("event_ts", bytes "")
      ∷ []

  -- The fields that come after them, in their order.
  abbrev pub last_fields : String → A → Compression → Serialization → Bytes → Dict Bytes
  last_fields queue auth comp ser d =
      ("auth_info", f.formats.b64encode (bytes (f.auth_json auth)))
      ∷ ("ser", bytes (serialization_value ser))
      ∷ ("comp", bytes (Codes.value comp))
      ∷ ("payload", d)
      ∷ ("queue", bytes queue)
      ∷ []

  abbrev pub codec {ℓ} : {B : Type ℓ} → Result (CodecError X) B → Result (MessageError X) B
  codec (ok b) = ok b
  codec (err e) = err (codec_error e)

  unfoldable pub encode_message :
      P
      → String
      → Dict (Option String)
      → A
      → Compression
      → Serialization
      → String
      → Result (MessageError X) (Dict Bytes)
  unfolding update insert
  encode_message p queue track_ids auth comp ser now =
      codec (serialize f.formats p ser comp) >>= λ d. ok (
        with_event_ts (f.event_ts p) (
          update (update (first_fields p now) (track_fields track_ids))
            (last_fields queue auth comp ser d)))

  -- `msg[1][name]`
  abbrev pub field : String → Dict Bytes → Result (MessageError X) Bytes
  field name fields = elim (lookup name fields) [ none ↦ err (key_error name) | some d ↦ ok d ]

  -- `d.decode()`
  abbrev pub decode : Bytes → Result (MessageError X) String
  decode d = codec (Codes.lift (f.formats.utf8_decode d))

  abbrev pub text_field : String → Dict Bytes → Result (MessageError X) String
  text_field name fields = field name fields >>= decode

  -- `msg[1].get(name, default)`
  abbrev pub field_or : Bytes → String → Dict Bytes → Bytes
  field_or default name fields = elim (lookup name fields) [ none ↦ default | some d ↦ d ]

  abbrev pub member_or {ℓ} : {B : Type ℓ} → Option B → Result (MessageError X) B
  member_or none = err value_error
  member_or (some b) = ok b

  unfoldable pub decode_headers : List String → Dict Bytes → Result (MessageError X) (Dict String)
  decode_headers [] fields = ok []
  decode_headers (k ∷ ks) fields =
      let rest = decode_headers ks fields in
      decode (field_or f.no_bytes k fields) >>= λ s. rest >>= λ l. ok ((k, s) ∷ l)

  unfoldable pub decode_track_ids :
      String
      → Bytes
      → Dict Bytes
      → String
      → List String
      → String
      → String
      → Result (MessageError X) (Dict String)
  unfolding decode_headers update insert
  decode_track_ids stream_name msg_id fields group headers read_ts operation_id =
      decode msg_id >>= λ id. text_field "submit_ts" fields >>= λ submit_ts.
      text_field "event_ts" fields >>= λ event_ts. text_field "id" fields >>= λ event_id.
      decode_headers headers fields >>= λ tracked. ok (
        insert "track.operation_id" operation_id (
          update
            (("stream.name", stream_name)
              ∷ ("stream.msg_id", id)
              ∷ ("stream.consumer_group", group)
              ∷ ("stream.submit_ts", submit_ts)
              ∷ ("stream.event_ts", event_ts)
              ∷ ("stream.event_id", event_id)
              ∷ ("stream.read_ts", read_ts)
              ∷ [])
            tracked))

  -- `json.loads(base64.b64decode(msg[1].get(b"auth_info", b"{}")))`
  unfoldable pub decode_auth_info : Dict Bytes → Result (MessageError X) A
  unfolding lookup
  decode_auth_info fields =
      codec (Codes.lift (f.formats.b64decode (field_or (bytes "{}") "auth_info" fields))) >>= λ d.
      decode d >>= λ s. codec (Codes.lift (f.parse_auth s))

  unfoldable pub decode_payload : Dict Bytes → Ty → Result (MessageError X) P
  unfolding lookup compression_of serialization_of
  decode_payload fields ty = text_field "comp" fields >>= λ c.
      member_or (compression_of c) >>= λ comp. text_field "ser" fields >>= λ s.
      member_or (serialization_of s) >>= λ ser.
      field "payload" fields >>= λ d. codec (deserialize f.formats d ser comp ty)

  unfoldable pub decode_message :
      String
      → Bytes × Dict Bytes
      → Ty
      → String
      → List String
      → String
      → String
      → Result (MessageError X) (StreamEvent Bytes P A)
  unfolding decode_payload decode_track_ids decode_auth_info
  decode_message stream_name (msg_id, fields) ty group headers read_ts operation_id =
      decode_payload fields ty >>= λ p. decode (field_or (bytes "AUTO") "queue" fields) >>= λ queue.
      decode_track_ids stream_name msg_id fields group headers read_ts operation_id >>= λ ids.
      decode_auth_info fields >>= λ auth. ok (record {
        msg_internal_id = msg_id;
        queue = queue;
        payload = p;
        track_ids = ids;
        auth_info = auth;
      })
