-- ===== src/Redis/Tests.antt =====
-- Runs of plugins/streams/redis/src/hopeit/redis_streams/__init__.py with libraries that mark what
-- they are given.
use hopeit_engine.Common.{
  ℕ, Option, none, some, String, List, [], ◌∷◌, ◌≡◌, refl, ok, err, All, str_eq,
}
use hopeit_engine.Common.Dict.{Dict, lookup, insert, update}
use hopeit_engine.Serialization.Compression.{lz4_max, raised}
use hopeit_engine.Serialization.{json_base64, serialize, deserialize}
use hopeit_engine.Serialization.Samples.{Marked, formats, formats-Documents, order-IsData}
use hopeit_engine.Redis.Message.{
  Payloads, StreamEvent, codec_error, text_ts, encode_message, decode_message,
}
use hopeit_engine.Redis.Message.Fields.{tracked}
use hopeit_engine.Redis.Message.ReadBack.{IsPlain}
use hopeit_engine.Redis.Message.RoundTrip.{encode_message-decode_message}
use hopeit_engine.Redis.{
  ensure_consumer_group, response_error, os_error, stream_os_error, ack_read_stream,
  assertion_error, message_error, read_stream,
}
use hopeit_engine.Redis.Batch.{StreamDescribes, read_stream-Describes}

abbrev payloads : Payloads String Marked String ℕ String
payloads = record {
  formats = formats;
  event_id = λ p. "7";
  type_name = λ p. "shop.Order";
  event_ts = λ p. text_ts "noon";
  auth_json = λ a. a;
  parse_auth = λ s. ok s;
  no_bytes = "" ∷ [];
  is_os_error = λ x. str_eq x "bad data";
}

abbrev ids : Dict (Option String)
ids = ("track.request_id", some "r1") ∷ ("track.session", none) ∷ []

abbrev headers : List String
headers = "track.request_id" ∷ "track.session" ∷ "track.caller" ∷ []

abbrev message : Dict Marked
unfolding encode_message serialize
message = elim (encode_message payloads "order 7" "high" ids "{}" lz4_max json_base64 "now") [
  | ok w ↦ w
  | err e ↦ []
]

encode_queue : lookup "queue" message ≡ some ("high" ∷ [])
unfolding encode_message lookup serialize
encode_queue = refl

request-IsPlain : IsPlain payloads "track.request_id"
request-IsPlain = (refl, (refl, (refl, (refl, (refl, (refl, (refl, (refl, (refl, (refl, tt))))))))))

session-IsPlain : IsPlain payloads "track.session"
session-IsPlain = (refl, (refl, (refl, (refl, (refl, (refl, (refl, (refl, (refl, (refl, tt))))))))))

caller-IsPlain : IsPlain payloads "track.caller"
caller-IsPlain = (refl, (refl, (refl, (refl, (refl, (refl, (refl, (refl, (refl, (refl, tt))))))))))

encode_message-decode_message_example :
    (w : Dict Marked) × (encode_message payloads "order 7" "high" ids "{}" lz4_max json_base64 "now"
      ≡ ok w)
    × (e : StreamEvent Marked String String) × (decode_message payloads "orders"
          ("0-1" ∷ [], w)
          0
          "group"
          headers
          "later"
          "op"
        ≡ ok e)
    × (e.msg_internal_id ≡ "0-1" ∷ [])
    × (e.payload ≡ "order 7")
    × (e.queue ≡ "high")
    × (e.auth_info ≡ "{}")
    × All (λ k. lookup k e.track_ids ≡ some (tracked payloads ids k)) headers
encode_message-decode_message_example =
    encode_message-decode_message payloads formats-Documents refl "order 7" "high" ids "{}" lz4_max
      json_base64 "now" "orders" ("0-1" ∷ []) "0-1" 0 "group" headers "later" "op" order-IsData refl
      refl ((refl, tt), (tt, tt)) (request-IsPlain, (session-IsPlain, (caller-IsPlain, tt)))

abbrev stamp : Marked → String × String
stamp id = ("later", "op")

-- A message that says that it is not compressed, and is.
abbrev broken : Dict Marked
broken = insert "comp" ("none" ∷ []) message

abbrev two : List (Marked × Dict Marked)
two = ("0-1" ∷ [], message) ∷ ("0-2" ∷ [], broken) ∷ []

-- The first message is an event, but the read raises what the second one raises.
read_two :
    read_stream payloads "orders" "group" headers
      (("shop.Order", 0) ∷ [])
      stamp
      (ok (("orders", two) ∷ []))
    ≡ err (message_error (codec_error (raised "not a text")))
unfolding read_stream encode_message insert update serialize deserialize
read_two = refl

-- A message of another type is an entry of what is read.
read_unknown :
    read_stream payloads "orders" "group" headers [] stamp (ok (("orders", two) ∷ []))
    ≡ ok (err "shop.Order" ∷ err "shop.Order" ∷ [])
unfolding read_stream encode_message insert update serialize
read_unknown = refl

read_stream-Describes_example :
    StreamDescribes payloads "orders" "group" headers (("shop.Order", 0) ∷ []) stamp two (
      read_stream payloads "orders" "group" headers
        (("shop.Order", 0) ∷ [])
        stamp
        (ok (("orders", two) ∷ [])))
read_stream-Describes_example =
    read_stream-Describes payloads "orders" "group" headers (("shop.Order", 0) ∷ []) stamp "orders"
      ("0-1" ∷ [], message) (("0-2" ∷ [], broken) ∷ [])

group_exists : ensure_consumer_group {X = String} (err response_error) ≡ ok tt
unfolding ensure_consumer_group
group_exists = refl

group_unreachable : ensure_consumer_group {X = String} (err os_error) ≡ err stream_os_error
unfolding ensure_consumer_group
group_unreachable = refl

ack_unknown : ack_read_stream {X = String} (ok 0) ≡ err assertion_error
unfolding ack_read_stream
ack_unknown = refl

-- An OSError of a codec comes out as a failure of the stream.
read_bad :
    read_stream
      (record payloads { parse_auth = λ a. err "bad data" })
      "orders"
      "group"
      headers
      (("shop.Order", 0) ∷ [])
      stamp
      (ok (("orders", two) ∷ []))
    ≡ err stream_os_error
unfolding read_stream encode_message insert update serialize deserialize
read_bad = refl
