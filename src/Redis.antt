-- ===== src/Redis.antt =====
-- plugins/streams/redis/src/hopeit/redis_streams/__init__.py: events as messages of Redis streams, and
-- the operations of the stream manager. The Redis client is a parameter: the outcome of a call.
pub mod Batch
pub mod Message
mod Tests
use hopeit_engine.Common.{
  ℕ, ◌<◌, ltb, ◌==◌, Bool, true, false, Option, none, some, String, List, [], ◌∷◌, Result, ok, err,
  ◌>>=◌, if◌then◌else◌, str_eq,
}
use hopeit_engine.Common.Dict.{Dict, lookup}
use hopeit_engine.Serialization.Compression.{Compression, raised}
use hopeit_engine.Serialization.{Serialization}
use Message.{
  text_field, StreamEvent, MessageError, Payloads, decode_message, encode_message, decode,
  codec_error,
}

-- What a call of the Redis client raises: a ResponseError is a RedisError.
pub data ClientError : Type 0 where
  response_error redis_error os_error other_error : ClientError

pub data ManagerError (X : Type 0) : Type 0 where
  stream_os_error assertion_error index_error : ManagerError X
  client_error : ClientError → ManagerError X
  message_error : MessageError X → ManagerError X

module _ {X : Type 0} where
  -- `except (OSError, RedisError, RedisConnectionError)`
  abbrev pub wrap_error : ClientError → ManagerError X
  wrap_error response_error = stream_os_error
  wrap_error redis_error = stream_os_error
  wrap_error os_error = stream_os_error
  wrap_error other_error = client_error other_error

  abbrev pub client : {A : Type 0} → Result ClientError A → Result (ManagerError X) A
  client (ok a) = ok a
  client (err e) = err (wrap_error e)

  -- `ensure_consumer_group`, given what `xgroup_create` does.
  unfoldable pub ensure_consumer_group :
      Result ClientError (Unit {0}) → Result (ManagerError X) (Unit {0})
  ensure_consumer_group (ok u) = ok u
  ensure_consumer_group (err response_error) = ok tt
  ensure_consumer_group (err redis_error) = err (wrap_error redis_error)
  ensure_consumer_group (err os_error) = err (wrap_error os_error)
  ensure_consumer_group (err other_error) = err (wrap_error other_error)

  -- `ack_read_stream`, given the number that `xack` returns.
  unfoldable pub ack_read_stream : Result ClientError ℕ → Result (ManagerError X) ℕ
  ack_read_stream r = client r >>= λ n. if n == 1 then ok n else err assertion_error

module _ {X Bytes P Ty A : Type 0} (f : Payloads X Bytes P Ty A) where
  -- What an exception of a message comes out as: an OSError is wrapped like those of the client.
  abbrev pub raised_as : MessageError X → ManagerError X
  raised_as (codec_error (raised x)) =
      if f.is_os_error x then stream_os_error else message_error (codec_error (raised x))
  raised_as e = message_error e

  abbrev pub message : {B : Type 0} → Result (MessageError X) B → Result (ManagerError X) B
  message (ok a) = ok a
  message (err e) = err (raised_as e)

  -- `target_max_len if target_max_len > 0 else None`
  abbrev pub max_len : ℕ → Option ℕ
  max_len n = if ltb 0 n then some n else none

  -- `write_stream`, given `xadd` as a function of the name, the fields and the maximal length.
  unfoldable pub write_stream :
      (String → Dict Bytes → Option ℕ → Result ClientError Bytes)
      → String
      → String
      → P
      → Dict (Option String)
      → A
      → Compression
      → Serialization
      → ℕ
      → String
      → Result (ManagerError X) Bytes
  unfolding encode_message
  write_stream xadd stream_name queue p track_ids auth comp ser target_max_len now =
      message (encode_message f p queue track_ids auth comp ser now) >>= λ fields.
      client (xadd stream_name fields (max_len target_max_len))

  -- An entry of the list that a read gives: an event, or the TypeError of a message.
  abbrev pub Entry : Type 0
  Entry = Result String (StreamEvent Bytes P A)

  abbrev pub Msg : Type 0
  Msg = Bytes × Dict Bytes

  module _ (stream_name group : String) (headers : List String) (datatypes : Dict Ty)
      (stamp : Bytes → String × String) where
    -- A message of a known type is decoded, at a time and with an operation id of its own.
    abbrev pub read_typed : Msg → String → Option Ty → Result (MessageError X) Entry
    read_typed msg msg_type none = decode f msg.0 >>= λ id. ok (err msg_type)
    read_typed msg msg_type (some ty) =
        decode_message f stream_name msg ty group headers (stamp msg.0).0 (stamp msg.0).1 >>= λ e.
        ok (ok e)

    unfoldable pub read_message : Msg → Result (MessageError X) Entry
    unfolding decode_message lookup
    read_message msg = text_field f "type" msg.1 >>= λ t. read_typed msg t (lookup t datatypes)

    unfoldable pub read_batch : List Msg → Result (MessageError X) (List Entry)
    unfolding read_message
    read_batch [] = ok []
    read_batch (msg ∷ batch) =
        let rest = read_batch batch in read_message msg >>= λ e. rest >>= λ l. ok (e ∷ l)

    -- The batch of the one stream of a response; the log line reads its first message.
    abbrev pub read_response : List (String × List Msg) → Result (ManagerError X) (List Entry)
    read_response [] = ok []
    read_response ((name, []) ∷ more) = err index_error
    read_response ((name, msg ∷ batch) ∷ more) = message (read_batch (msg ∷ batch))

    -- `read_stream`, given what `xreadgroup` does.
    unfoldable pub read_stream :
        Result ClientError (List (String × List Msg)) → Result (ManagerError X) (List Entry)
    unfolding read_batch
    read_stream response = client response >>= read_response
