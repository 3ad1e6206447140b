-- ===== src/Names.antt =====
-- engine/src/hopeit/server/names.py, on ASCII names: upper and lower case and white space are those
-- of ASCII.
pub mod Parts
mod Tests
use Prim.Native.Char.{Char, code}
use Prim.Native.String
use mathlib.Core.Option
use hopeit_engine.Common.{
  ℕ, ◌-◌, Bool, ◌&&◌, ◌||◌, List, [], ◌∷◌, map, Option, none, some, String, leb, ◌==◌,
  if◌then◌else◌, split,
}

abbrev pub is_upper : Char → Bool
is_upper c = leb b'A' (code c) && leb (code c) b'Z'

abbrev pub is_lower : Char → Bool
is_lower c = leb b'a' (code c) && leb (code c) b'z'

-- `\s`
abbrev pub is_space : Char → Bool
is_space c = (leb 9 (code c) && leb (code c) 13) || (leb 28 (code c) && leb (code c) 32)

unfoldable pub lower : Char → Char
lower c = if is_upper c then String.char_at "abcdefghijklmnopqrstuvwxyz" (code c - b'A') else c

unfoldable pub upper : Char → Char
upper c = if is_lower c then String.char_at "ABCDEFGHIJKLMNOPQRSTUVWXYZ" (code c - b'a') else c

unfoldable pub map_chars : (Char → Char) → String → String
map_chars f String.[] = String.[]
map_chars f (String.◌∷◌ c s) = String.◌∷◌ (f c) (map_chars f s)

-- `re.sub` of one character by another.
unfoldable pub replace : ℕ → Char → String → String
unfolding map_chars
replace from to = map_chars (λ c. if code c == from then to else c)

-- `re.sub(r"[\-\.\s]", "_", string)`
abbrev pub is_separator : Char → Bool
is_separator c = code c == b'-' || code c == b'.' || is_space c

abbrev pub dash_to_underscore : Char → Char
dash_to_underscore c = if is_separator c then "_" else c

-- `re.sub(r"[A-Z]", convert_word, string)`
unfoldable pub convert_words : String → String
convert_words String.[] = String.[]
convert_words (String.◌∷◌ c s) =
    let rest = convert_words s in
    if is_upper c then String.◌∷◌ "_" (String.◌∷◌ (lower c) rest) else String.◌∷◌ c rest

lower_first : String → String
unfolding lower convert_words
lower_first String.[] = String.[]
lower_first (String.◌∷◌ c s) = String.◌∷◌ (lower c) (convert_words s)

unfoldable pub snakecase : String → String
unfolding lower_first map_chars
snakecase s = lower_first (map_chars dash_to_underscore s)

unfoldable pub spinalcase : String → String
unfolding snakecase replace
spinalcase s = replace b'_' "-" (snakecase s)

-- `sep.join(names)`
unfoldable pub join : String → List String → String
join sep [] = String.[]
join sep (n ∷ []) = n
join sep (n ∷ m ∷ names) = String.◌++◌ n (String.◌++◌ sep (join sep (m ∷ names)))

-- The part of a path that stands for one argument.
unfoldable pub path_part : String → String
unfolding snakecase replace
path_part name = snakecase (replace b'.' "x" name)

unfoldable pub auto_path : List String → String
unfolding join path_part
auto_path args = join "." (map path_part args)

unfoldable pub auto_path_prefixed : String → List String → String
unfolding join path_part
auto_path_prefixed prefix args = join "." (prefix ∷ map path_part args)

unfoldable pub module_name : List String → String
unfolding join snakecase replace
module_name args =
    join "." (map (λ name. replace b'$' "." (snakecase (replace b'.' "$" name))) args)

unfoldable pub route_name : List String → String
unfolding join spinalcase replace
route_name args = String.◌++◌ "/" (join "/" (map (λ name. spinalcase (replace b'.' "x" name)) args))

-- `word[0].upper() + word[1:]`; `none` is the IndexError on an empty word.
capital : String → Option String
unfolding upper
capital String.[] = none
capital (String.◌∷◌ c s) = some (String.◌∷◌ (upper c) s)

capitals : List String → Option (List String)
unfolding capital
capitals [] = some []
capitals (w ∷ words) = elim (capital w) [
  | none ↦ none
  | some c ↦ Option.map (◌∷◌ c) (capitals words)
]

unfoldable pub titlecase : String → Option String
unfolding capitals join snakecase split
titlecase String.[] = some String.[]
titlecase (String.◌∷◌ c s) =
    Option.map (join " ") (capitals (split b'_' (snakecase (String.◌∷◌ c s))))
