-- ===== src/Serialization/Samples.antt =====
-- Libraries that mark what they are given, for the runs of engine/src/hopeit/server/serialization.py
-- and of the Redis streams.
use hopeit_engine.Common.{
  ℕ, refl, String, List, [], ◌∷◌, Result, ok, err, arith, if◌then◌else◌, leb, ◌&&◌,
}
use hopeit_engine.Serialization.Compression.{Codec, Codecs}
use hopeit_engine.Serialization.Compression.Levels.{Restores}
use hopeit_engine.Serialization.{Formats}
use hopeit_engine.Serialization.Restored.{Documents, IsData}

-- Bytes are marks in front of a text.
abbrev pub Marked : Type 0
Marked = List String

abbrev pub unmark : Marked → Result String Marked
unmark [] = err "empty"
unmark (m ∷ d) = ok d

abbrev pub text : Marked → Result String String
text (s ∷ []) = ok s
text d = err "not a text"

-- A codec that raises on levels out of its range.
abbrev pub marking : String → ℕ → ℕ → Codec String Marked
marking mark lo hi = record {
  compress = λ level d. if leb lo level && leb level hi then ok (mark ∷ d) else err "bad level";
  decompress = unmark;
}

pub marking-Restores : (mark : String) (lo hi : ℕ) → Restores (marking mark lo hi) lo hi
marking-Restores mark lo hi level d h k = (mark ∷ d, ground arith, refl)

abbrev pub libraries : Codecs String Marked
libraries = record {
  lz4_frame = marking "lz4" 0 16;
  zlib_codec = marking "zlib" 0 9;
  gzip_codec = marking "gzip" 0 9;
  bz2_codec = marking "bz2" 1 9;
  lzma_codec = marking "lzma" 0 0;
}

abbrev pub formats : Formats String Marked String ℕ
formats = record {
  codecs = libraries;
  to_json = λ p. ok p;
  from_json = λ s ty. ok s;
  utf8_encode = λ s. s ∷ [];
  utf8_decode = text;
  b64encode = λ d. "b64" ∷ d;
  b64decode = unmark;
  pickle_dumps = λ protocol p. ok (p ∷ []);
  pickle_loads = text;
}

pub formats-Documents : Documents formats
formats-Documents = record {
  codecs_law = record {
    lz4_levels = marking-Restores "lz4" 0 16;
    zlib_levels = marking-Restores "zlib" 0 9;
    gzip_levels = marking-Restores "gzip" 0 9;
    bz2_levels = marking-Restores "bz2" 1 9;
    lzma_levels = marking-Restores "lzma" 0 0;
  };
  utf8_law = λ s. refl;
  base64_law = λ d. refl;
}

pub order-IsData : IsData formats "order 7" 0
order-IsData = record {
  json = "order 7";
  written = refl;
  read = refl;
  pickled = λ protocol h. ("order 7" ∷ [], refl, refl);
}
