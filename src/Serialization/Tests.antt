-- ===== src/Serialization/Tests.antt =====
-- Runs of engine/src/hopeit/server/serialization.py with libraries that mark what they are given.
use hopeit_engine.Common.{◌≡◌, refl, [], ◌∷◌, ok, err}
use hopeit_engine.Serialization.Compression.{lz4_max, bz2_min, raised}
use hopeit_engine.Serialization.{json_base64, serialize, deserialize, json_utf8}
use hopeit_engine.Serialization.Samples.{Marked, formats, formats-Documents, order-IsData}
use hopeit_engine.Serialization.Restored.{serialize-deserialize}

serialize_marks :
    serialize formats "order 7" json_base64 bz2_min ≡ ok ("bz2" ∷ "b64" ∷ "order 7" ∷ [])
unfolding serialize
serialize_marks = refl

-- A message of another compression is not read.
deserialize_marks :
    deserialize formats ("order 7" ∷ []) json_utf8 lz4_max 0 ≡ err (raised "not a text")
unfolding deserialize
deserialize_marks = refl

serialize-deserialize_example :
    (d : Marked) × (serialize formats "order 7" json_base64 lz4_max ≡ ok d)
    × (deserialize formats d json_base64 lz4_max 0 ≡ ok "order 7")
serialize-deserialize_example =
    serialize-deserialize formats formats-Documents "order 7" 0 order-IsData json_base64 lz4_max
