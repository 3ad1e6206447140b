-- ===== src/Serialization/Compression/Levels.antt =====
-- engine/src/hopeit/server/compression.py: each compression has an algorithm, at a level that its
-- library takes.
use hopeit_engine.Common.{ℕ, ◌≤◌, ◌≡◌, refl, ok, arith}
use hopeit_engine.Serialization.Compression.{
  Compression, no_compression, lz4, lz4_min, lz4_max, zip, zip_min, zip_max, gzip, gzip_min,
  gzip_max, bz2, bz2_min, bz2_max, lzma, Codec, Codecs, compressors, compress, decompress,
  compress_none, decompress_none, compress_lzma,
}

module _ {X Bytes : Type 0} where
  -- At the levels from `lo` to `hi` the library compresses, and decompresses what it compressed.
  abbrev pub Restores : Codec X Bytes → ℕ → ℕ → Type 0
  Restores c lo hi =
      (level : ℕ) (d : Bytes)
      → lo ≤ level
      → level ≤ hi
      → (e : Bytes) × (c.compress level d ≡ ok e) × (c.decompress e ≡ ok d)

  -- What the libraries document, for the levels that they accept.
  pub record Documented (cs : Codecs X Bytes) : Type 0 where
    pub lz4_levels : Restores cs.lz4_frame 0 16
    pub zlib_levels : Restores cs.zlib_codec 0 9
    pub gzip_levels : Restores cs.gzip_codec 0 9
    pub bz2_levels : Restores cs.bz2_codec 1 9
    pub lzma_levels : Restores cs.lzma_codec 0 0

  module _ (cs : Codecs X Bytes) (laws : Documented cs) where
    -- What is compressed can be decompressed, at the level of every member of the enumeration.
    Restored : Compression → Bytes → Type 0
    Restored c d = (e : Bytes) × (compress cs d c ≡ ok e) × (decompress cs e c ≡ ok d)

    compress-at :
        (c : Compression) (d : Bytes) (a : Codec X Bytes) (level : ℕ)
        → compressors cs c ≡ ok (a, level)
        → ((e : Bytes) × (a.compress level d ≡ ok e) × (a.decompress e ≡ ok d))
        → Restored c d
    unfolding compress decompress Restored
    compress-at c d a level q (e, p, r) = (e, rw (q, p) refl, rw (q, r) refl)

    compress-within :
        (c : Compression) (d : Bytes) {a : Codec X Bytes} (lo hi level : ℕ)
        → Restores a lo hi
        → compressors cs c ≡ ok (a, level)
        → lo ≤ level
        → level ≤ hi
        → Restored c d
    compress-within c d {a} lo hi level r q h k = compress-at c d a level q (r level d h k)

    pub compress-decompress :
        (c : Compression) (d : Bytes)
        → (e : Bytes) × (compress cs d c ≡ ok e) × (decompress cs e c ≡ ok d)
    unfolding compressors Restored
    compress-decompress no_compression d =
        compress-at no_compression d
          (record { compress = compress_none; decompress = decompress_none }) 0 refl (d, refl, refl)
    compress-decompress lz4 d =
        compress-within lz4 d 0 16 3 laws.lz4_levels refl (omega arith) (omega arith)
    compress-decompress lz4_min d =
        compress-within lz4_min d 0 16 0 laws.lz4_levels refl (omega arith) (omega arith)
    compress-decompress lz4_max d =
        compress-within lz4_max d 0 16 16 laws.lz4_levels refl (omega arith) (omega arith)
    compress-decompress zip d =
        compress-within zip d 0 9 6 laws.zlib_levels refl (omega arith) (omega arith)
    compress-decompress zip_min d =
        compress-within zip_min d 0 9 1 laws.zlib_levels refl (omega arith) (omega arith)
    compress-decompress zip_max d =
        compress-within zip_max d 0 9 9 laws.zlib_levels refl (omega arith) (omega arith)
    compress-decompress gzip d =
        compress-within gzip d 0 9 9 laws.gzip_levels refl (omega arith) (omega arith)
    compress-decompress gzip_min d =
        compress-within gzip_min d 0 9 1 laws.gzip_levels refl (omega arith) (omega arith)
    compress-decompress gzip_max d =
        compress-within gzip_max d 0 9 9 laws.gzip_levels refl (omega arith) (omega arith)
    compress-decompress bz2 d =
        compress-within bz2 d 1 9 9 laws.bz2_levels refl (omega arith) (omega arith)
    compress-decompress bz2_min d =
        compress-within bz2_min d 1 9 1 laws.bz2_levels refl (omega arith) (omega arith)
    compress-decompress bz2_max d =
        compress-within bz2_max d 1 9 9 laws.bz2_levels refl (omega arith) (omega arith)
    compress-decompress lzma d =
        compress-within lzma d
          {a = record {
            compress = compress_lzma cs.lzma_codec;
            decompress = cs.lzma_codec.decompress;
          }}
          0 0 0 (λ l e h k. laws.lzma_levels 0 e (omega arith) (omega arith)) refl (omega arith)
          (omega arith)
