-- ===== src/Serialization.antt =====
-- engine/src/hopeit/server/serialization.py, and class Serialization of
-- engine/src/hopeit/app/config.py: payloads as bytes. JSON, pickle, UTF-8 and base64 are parameters.
pub mod Compression
pub mod Restored
pub mod Samples
mod Tests
use hopeit_engine.Common.{ℕ, ◌≡◌, Option, none, some, String, List, [], ◌∷◌, Result, ok, err, ◌>>=◌}
use Compression.{member, CodecError, raised, Codecs, compress, decompress, lift}

pub data Serialization : Type 0 where
  json_utf8 json_base64 pickle3 pickle4 pickle5 : Serialization

unfoldable pub serialization_value : Serialization → String
serialization_value json_utf8 = "json"
serialization_value json_base64 = "json+base64"
serialization_value pickle3 = "pickle:3"
serialization_value pickle4 = "pickle:4"
serialization_value pickle5 = "pickle:5"

-- `Serialization(s)`
unfoldable pub serialization_of : String → Option Serialization
unfolding serialization_value
serialization_of s =
    member serialization_value s (json_utf8 ∷ json_base64 ∷ pickle3 ∷ pickle4 ∷ pickle5 ∷ [])

-- The libraries that turn payloads into bytes.
pub record Formats (X Bytes P Ty : Type 0) : Type 0 where
  pub codecs : Codecs X Bytes
  pub to_json : P → Result X String
  pub from_json : String → Ty → Result X P
  pub utf8_encode : String → Bytes
  pub utf8_decode : Bytes → Result X String
  pub b64encode : Bytes → Bytes
  pub b64decode : Bytes → Result X Bytes
  pub pickle_dumps : ℕ → P → Result X Bytes
  pub pickle_loads : Bytes → Result X P

module _ {X Bytes P Ty : Type 0} (f : Formats X Bytes P Ty) where
  abbrev pub ser_json_utf8 : P → ℕ → Result X Bytes
  ser_json_utf8 p level = f.to_json p >>= λ s. ok (f.utf8_encode s)

  abbrev pub deser_json_utf8 : Bytes → Ty → Result X P
  deser_json_utf8 d ty = f.utf8_decode d >>= λ s. f.from_json s ty

  abbrev pub ser_pickle : P → ℕ → Result X Bytes
  ser_pickle p level = f.pickle_dumps level p

  abbrev pub deser_pickle : Bytes → Ty → Result X P
  deser_pickle d ty = f.pickle_loads d

  abbrev pub ser_json_base64 : P → ℕ → Result X Bytes
  ser_json_base64 p level = ser_json_utf8 p level >>= λ d. ok (f.b64encode d)

  abbrev pub deser_json_base64 : Bytes → Ty → Result X P
  deser_json_base64 d ty = f.b64decode d >>= λ e. deser_json_utf8 e ty

  -- `_SERDESER`
  abbrev pub serdeser : Serialization → (P → ℕ → Result X Bytes) × ℕ × (Bytes → Ty → Result X P)
  serdeser json_utf8 = (ser_json_utf8, 0, deser_json_utf8)
  serdeser json_base64 = (ser_json_base64, 0, deser_json_base64)
  serdeser pickle3 = (ser_pickle, 3, deser_pickle)
  serdeser pickle4 = (ser_pickle, 4, deser_pickle)
  serdeser pickle5 = (ser_pickle, 5, deser_pickle)

  unfoldable pub serialize :
      P → Serialization → Compression.Compression → Result (CodecError X) Bytes
  unfolding compress
  serialize p s c =
      lift ((serdeser s).0 p (serdeser s).1) >>= λ encoded. compress f.codecs encoded c

  unfoldable pub deserialize :
      Bytes → Serialization → Compression.Compression → Ty → Result (CodecError X) P
  unfolding decompress
  deserialize d s c ty = decompress f.codecs d c >>= λ decomp. lift ((serdeser s).2 decomp ty)
