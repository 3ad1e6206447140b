-- ===== src/Job/Arguments.antt =====
-- `_parse_json_kv_payload`, `parse_track_ids` and `parse_query_args` of
-- engine/src/hopeit/server/job.py, on ASCII keys. `json.loads` is the parameter `loads`.
pub mod Tracked
use Prim.Native.Char.{code}
use Prim.Native.String
use hopeit_engine.Common.{
  Bool, true, false, ◌&&◌, Option, none, some, List, [], ◌∷◌, String, Result, ok, err, ◌>>=◌, ◌==◌,
  if◌then◌else◌,
}
use hopeit_engine.Common.Dict.{Dict, insert}
use hopeit_engine.Names.{is_space}

-- A value of a JSON object: null, a scalar as `str` prints it, or an array or an object.
pub data Json : Type 0 where
  null compound : Json
  scalar : String → Json

-- What `json.loads` gives.
pub data Loaded : Type 0 where
  object : Dict Json → Loaded
  no_object : Loaded

-- The ValueErrors, each with the name of the argument.
pub data ArgumentError : Type 0 where
  is_empty invalid_json not_an_object empty_key : String → ArgumentError
  not_scalar : String → String → ArgumentError

-- `not s.strip()`
pub is_blank : String → Bool
is_blank String.[] = true
is_blank (String.◌∷◌ c s) = is_space c && is_blank s

pub starts_with : String → String → Bool
starts_with String.[] s = true
starts_with (String.◌∷◌ p prefix) String.[] = false
starts_with (String.◌∷◌ p prefix) (String.◌∷◌ c s) = code p == code c && starts_with prefix s

-- `parsed[key] = ...` for a value that may be stored.
with_value : String → String → Json → Dict String → Result ArgumentError (Dict String)
with_value name key null parsed = ok (insert key "" parsed)
with_value name key (scalar v) parsed = ok (insert key v parsed)
with_value name key compound parsed = err (not_scalar name key)

-- The loop over the items.
parse_items : String → Dict String → Dict Json → Result ArgumentError (Dict String)
unfolding with_value is_blank
parse_items name parsed [] = ok parsed
parse_items name parsed ((key, value) ∷ items) =
    if is_blank key
    then err (empty_key name)
    else with_value name key value parsed >>= λ parsed'. parse_items name parsed' items

parse_loaded : String → Option Loaded → Result ArgumentError (Dict String)
unfolding parse_items
parse_loaded name none = err (invalid_json name)
parse_loaded name (some no_object) = err (not_an_object name)
parse_loaded name (some (object items)) = parse_items name [] items

-- `key if key.startswith("track.") else f"track.{key}"`
pub normalize_key : String → String
unfolding starts_with
normalize_key key = if starts_with "track." key then key else String.◌++◌ "track." key

normalize : Dict String → Dict String → Dict String
unfolding normalize_key
normalize normalized [] = normalized
normalize normalized ((key, value) ∷ items) =
    normalize (insert (normalize_key key) value normalized) items

module _ (loads : String → Option Loaded) where
  pub parse_json_kv_payload : Option String → String → Result ArgumentError (Dict String)
  unfolding parse_loaded is_blank
  parse_json_kv_payload none name = ok []
  parse_json_kv_payload (some payload) name =
      if is_blank payload then err (is_empty name) else parse_loaded name (loads payload)

  pub parse_track_ids : Option String → Result ArgumentError (Dict String)
  unfolding parse_json_kv_payload normalize
  parse_track_ids payload =
      parse_json_kv_payload payload "track" >>= λ track_ids. ok (normalize [] track_ids)

  pub parse_query_args : Option String → Result ArgumentError (Dict String)
  unfolding parse_json_kv_payload
  parse_query_args payload = parse_json_kv_payload payload "query-args"
