-- ===== src/Serialization/Restored.antt =====
-- engine/src/hopeit/server/serialization.py: what is serialized can be deserialized.
use hopeit_engine.Common.{ℕ, ◌≤◌, ◌≡◌, refl, String, ok, arith}
use hopeit_engine.Serialization.Compression.{Compression}
use hopeit_engine.Serialization.Compression.Levels.{Documented, compress-decompress}
use hopeit_engine.Serialization.{
  Serialization, json_utf8, json_base64, pickle3, pickle4, pickle5, Formats, serialize, deserialize,
  serdeser,
}

module _ {X Bytes P Ty : Type 0} where
  -- What the libraries document: the codecs, the encodings, and pickle at its protocols, 0 to 5.
  pub record Documents (f : Formats X Bytes P Ty) : Type 0 where
    pub codecs_law : Documented f.codecs
    pub utf8_law : (s : String) → f.utf8_decode (f.utf8_encode s) ≡ ok s
    pub base64_law : (d : Bytes) → f.b64decode (f.b64encode d) ≡ ok d

  -- A data object that is read from what is written of it, as JSON and by the protocols of pickle.
  pub record IsData (f : Formats X Bytes P Ty) (p : P) (ty : Ty) : Type 0 where
    pub json : String
    pub written : f.to_json p ≡ ok json
    pub read : f.from_json json ty ≡ ok p
    pub pickled :
        (protocol : ℕ)
        → protocol ≤ 5
        → (d : Bytes) × (f.pickle_dumps protocol p ≡ ok d) × (f.pickle_loads d ≡ ok p)

  module _ (f : Formats X Bytes P Ty) (laws : Documents f) (p : P) (ty : Ty)
      (is : IsData f p ty) where
    encode-decode :
        (s : Serialization)
        → (d : Bytes) × ((serdeser f s).0 p (serdeser f s).1 ≡ ok d)
          × ((serdeser f s).2 d ty ≡ ok p)
    encode-decode json_utf8 =
        (f.utf8_encode is.json, rw is.written refl, rw (laws.utf8_law is.json) is.read)
    encode-decode json_base64 = (
      f.b64encode (f.utf8_encode is.json),
      rw is.written refl,
      rw (laws.base64_law (f.utf8_encode is.json)) (rw (laws.utf8_law is.json) is.read),
    )
    encode-decode pickle3 = is.pickled 3 (omega arith)
    encode-decode pickle4 = is.pickled 4 (omega arith)
    encode-decode pickle5 = is.pickled 5 (omega arith)

    -- With every serialization and every compression a data object is serialized, and read back as it
    -- was.
    pub serialize-deserialize :
        (s : Serialization) (c : Compression)
        → (d : Bytes) × (serialize f p s c ≡ ok d) × (deserialize f d s c ty ≡ ok p)
    unfolding serialize deserialize
    serialize-deserialize s c =
        let (b, q, r) = encode-decode s in
        let (d, u, v) = compress-decompress f.codecs laws.codecs_law c b in
        (d, rw (q, u) refl, rw (v, r) refl)
