-- ===== src/Serialization/Compression.antt =====
-- engine/src/hopeit/server/compression.py, and class Compression of engine/src/hopeit/app/config.py:
-- the algorithms by name, and the level that the name of a compression gives.
pub mod Levels
use Prim.Native.Char.{code}
use hopeit_engine.Common.{
  ℕ, ◌+◌, ◌-◌, ◌*◌, ◌≤◌, ◌≡◌, Bool, true, false, Option, none, some, String, List, [], ◌∷◌, Result,
  ok, err, ◌>>=◌, if◌then◌else◌, leb, ◌&&◌, split, str_eq,
}
use hopeit_engine.Common.Dict.{Dict, lookup}

pub data Compression : Type 0 where
  no_compression lz4 lz4_min lz4_max zip zip_min zip_max : Compression
  gzip gzip_min gzip_max bz2 bz2_min bz2_max lzma : Compression

unfoldable pub value : Compression → String
value no_compression = "none"
value lz4 = "lz4"
value lz4_min = "lz4:0"
value lz4_max = "lz4:16"
value zip = "zip"
value zip_min = "zip:1"
value zip_max = "zip:9"
value gzip = "gzip"
value gzip_min = "gzip:1"
value gzip_max = "gzip:9"
value bz2 = "bz2"
value bz2_min = "bz2:1"
value bz2_max = "bz2:9"
value lzma = "lzma"

abbrev pub all_compressions : List Compression
all_compressions =
    no_compression ∷ lz4 ∷ lz4_min ∷ lz4_max ∷ zip ∷ zip_min ∷ zip_max ∷ gzip ∷ gzip_min ∷ gzip_max
    ∷ bz2 ∷ bz2_min ∷ bz2_max ∷ lzma ∷ []

-- The first of some members whose text is `s`.
abbrev pub member {ℓ} : {A : Type ℓ} → (A → String) → String → List A → Option A
member text s [] = none
member text s (a ∷ rest) = if str_eq (text a) s then some a else member text s rest

-- `Compression(s)`
unfoldable pub compression_of : String → Option Compression
unfolding value
compression_of s = member value s all_compressions

-- What is raised: by a lookup in a table, by `int` or an enumeration, or by a codec.
pub data CodecError (X : Type 0) : Type 0 where
  key_error value_error : CodecError X
  raised : X → CodecError X

-- An exception of a library goes on.
abbrev pub lift {κ} : {X : Type 0} {A : Type κ} → Result X A → Result (CodecError X) A
lift (ok a) = ok a
lift (err x) = err (raised x)

-- `int(s)` for a text of digits, from the value of those before it; no other text is used.
digits : String → ℕ → Option ℕ
digits String.[] n = some n
digits (String.◌∷◌ c s) n =
    let rest = digits s (10 * n + (code c - b'0')) in
    if leb b'0' (code c) && leb (code c) b'9' then rest else none

unfoldable pub int_of : String → Option ℕ
unfolding digits
int_of String.[] = none
int_of (String.◌∷◌ c s) = digits (String.◌∷◌ c s) 0

module _ (X Bytes : Type 0) where
  -- A compression library: `compress` takes the level.
  pub record Codec : Type 0 where
    pub compress : ℕ → Bytes → Result X Bytes
    pub decompress : Bytes → Result X Bytes

  -- The libraries that the module imports.
  pub record Codecs : Type 0 where
    pub lz4_frame : Codec
    pub zlib_codec : Codec
    pub gzip_codec : Codec
    pub bz2_codec : Codec
    pub lzma_codec : Codec

  -- A row of `_ALGOS`.
  pub record Algo : Type 0 where
    pub comp : ℕ → Bytes → Result X Bytes
    pub default_level : ℕ
    pub decomp : Bytes → Result X Bytes

module _ {X Bytes : Type 0} where
  -- `_compress_none` and `_decompress_none`
  abbrev pub compress_none : ℕ → Bytes → Result X Bytes
  compress_none level d = ok d

  abbrev pub decompress_none : Bytes → Result X Bytes
  decompress_none d = ok d

  -- `_compress_lzma` makes no use of the level.
  abbrev pub compress_lzma : Codec X Bytes → ℕ → Bytes → Result X Bytes
  compress_lzma c level d = c.compress 0 d

  abbrev pub algo : (ℕ → Bytes → Result X Bytes) → ℕ → (Bytes → Result X Bytes) → Algo X Bytes
  algo comp level decomp = record { comp = comp; default_level = level; decomp = decomp }

  abbrev pub algos : Codecs X Bytes → Dict (Algo X Bytes)
  algos cs =
      ("none", algo compress_none 0 decompress_none)
      ∷ ("lz4", algo cs.lz4_frame.compress 3 cs.lz4_frame.decompress)
      ∷ ("zip", algo cs.zlib_codec.compress 6 cs.zlib_codec.decompress)
      ∷ ("gzip", algo cs.gzip_codec.compress 9 cs.gzip_codec.decompress)
      ∷ ("bz2", algo cs.bz2_codec.compress 9 cs.bz2_codec.decompress)
      ∷ ("lzma", algo (compress_lzma cs.lzma_codec) 0 cs.lzma_codec.decompress)
      ∷ []

  abbrev pub level_of : Algo X Bytes → List String → Result (CodecError X) ℕ
  level_of a [] = ok a.default_level
  level_of a (l ∷ more) = elim (int_of l) [ some n ↦ ok n | none ↦ err value_error ]

  abbrev pub with_level :
      List String → Option (Algo X Bytes) → Result (CodecError X) (Codec X Bytes × ℕ)
  with_level more none = err key_error
  with_level more (some a) =
      level_of a more >>= λ n. ok (record { compress = a.comp; decompress = a.decomp }, n)

  abbrev pub find_algo : Codecs X Bytes → List String → Result (CodecError X) (Codec X Bytes × ℕ)
  find_algo cs [] = err key_error
  find_algo cs (algo ∷ more) = with_level more (lookup algo (algos cs))

  -- `_compressors`: the algorithm and its level.
  unfoldable pub compressors :
      Codecs X Bytes → Compression → Result (CodecError X) (Codec X Bytes × ℕ)
  unfolding value split lookup int_of
  compressors cs c = find_algo cs (split b':' (value c))

  unfoldable pub compress : Codecs X Bytes → Bytes → Compression → Result (CodecError X) Bytes
  unfolding compressors
  compress cs d c = compressors cs c >>= λ (a : Codec X Bytes × ℕ). lift (a.0.compress a.1 d)

  unfoldable pub decompress : Codecs X Bytes → Bytes → Compression → Result (CodecError X) Bytes
  unfolding compressors
  decompress cs d c = compressors cs c >>= λ (a : Codec X Bytes × ℕ). lift (a.0.decompress d)
