-- ===== src/Names/Parts.antt =====
-- The parts of the paths of engine/src/hopeit/server/names.py.
use Prim.Native.Char.{Char, code}
use Prim.Native.String
use text.Mathlib.TextLemmas.{nil-append, cons-append}
use hopeit_engine.Common.{
  if◌then◌else◌, ℕ, zero, suc, ◌-◌, ◌<◌, ◌≡◌, refl, ap, ◌∙◌, Bool, true, false, ◌||◌, not,
  Bool-cases, inl, inr, List, [], ◌∷◌, map, String, ◌==◌, split, arith, All,
}
use hopeit_engine.Names.{
  is_upper, is_space, is_separator, lower, map_chars, replace, dash_to_underscore, convert_words,
  lower_first, snakecase, join, path_part, auto_path,
}

-- The text has no character of this code point.
abbrev pub Lacks : ℕ → String → Type 0
Lacks k String.[] = Unit
Lacks k (String.◌∷◌ c s) = ((code c == k) ≡ false) × Lacks k s

-- The test passes for every number under the bound.
every : (test : ℕ → Bool) → ℕ → Bool
every test zero = true
every test (suc k) = let rest = every test k in if test k then rest else false

every-lt : (test : ℕ → Bool) (bound i : ℕ) → i < bound → every test bound ≡ true → test i ≡ true
unfolding every
every-lt test zero i below passed = absurd (omega arith)
every-lt test (suc k) i below passed = ground (arith, every-lt test k i)

abbrev letters : String
letters = "abcdefghijklmnopqrstuvwxyz"

letters_table : every (λ k. not (code (String.char_at letters k) == b'.')) 26 ≡ true
unfolding every
letters_table = refl

not_dot : (k : ℕ) → k < 26 → (code (String.char_at letters k) == b'.') ≡ false
not_dot k h =
    flip (code (String.char_at letters k) == b'.')
      (every-lt (λ k. not (code (String.char_at letters k) == b'.')) 26 k h letters_table)
  where
    flip : (b : Bool) → not b ≡ true → b ≡ false
    flip true e = cc
    flip false e = refl

lower-Lacks : (c : Char) → (code c == b'.') ≡ false → (code (lower c) == b'.') ≡ false
unfolding lower
lower-Lacks c h = elim (Bool-cases (is_upper c)) [
  | inl up ↦ rw up (not_dot (code c - b'A') (ground arith))
  | inr same ↦ rw same h
]

convert_words-Lacks : (s : String) → Lacks b'.' s → Lacks b'.' (convert_words s)
unfolding convert_words
convert_words-Lacks String.[] h = tt
convert_words-Lacks (String.◌∷◌ c s) (h, rest) = elim (Bool-cases (is_upper c)) [
  | inl up ↦ rw up (refl, (lower-Lacks c h, convert_words-Lacks s rest))
  | inr same ↦ rw same (h, convert_words-Lacks s rest)
]

lower_first-Lacks : (s : String) → Lacks b'.' s → Lacks b'.' (lower_first s)
unfolding lower_first
lower_first-Lacks String.[] h = tt
lower_first-Lacks (String.◌∷◌ c s) (h, rest) = (lower-Lacks c h, convert_words-Lacks s rest)

or_true : (a d : Bool) → (a || true || d) ≡ true
or_true true d = refl
or_true false d = refl

underscore-Lacks : (c : Char) → (code (dash_to_underscore c) == b'.') ≡ false
underscore-Lacks c = elim (Bool-cases (is_separator c)) [
  | inl yes_one ↦ rw yes_one refl
  | inr not_one ↦ rw not_one (second (code c == b'-') (code c == b'.') (is_space c) not_one)
]
  where
    second : (a b d : Bool) → (a || b || d) ≡ false → b ≡ false
    second a true d e = cc (or_true a d)
    second a false d e = refl

map_chars-Lacks : (s : String) → Lacks b'.' (map_chars dash_to_underscore s)
unfolding map_chars
map_chars-Lacks String.[] = tt
map_chars-Lacks (String.◌∷◌ c s) = (underscore-Lacks c, map_chars-Lacks s)

path_part-Lacks : (s : String) → Lacks b'.' (path_part s)
unfolding path_part snakecase
path_part-Lacks s = lower_first-Lacks _ (map_chars-Lacks (replace b'.' "x" s))

split-join_one : (s : String) → Lacks b'.' s → split b'.' s ≡ s ∷ []
unfolding split
split-join_one String.[] h = refl
split-join_one (String.◌∷◌ c s) (h, rest) = rw (h, split-join_one s rest) refl

split-before :
    (s t : String)
    → Lacks b'.' s
    → split b'.' (String.◌++◌ s (String.◌++◌ "." t)) ≡ s ∷ split b'.' t
unfolding split
split-before String.[] t h = rw (nil-append, cons-append, nil-append) refl
split-before (String.◌∷◌ c s) t (h, rest) =
    rw (cons-append, split, h) (rw (split-before s t rest) refl)

split-join :
    (p : String) (ps : List String)
    → All (Lacks b'.') (p ∷ ps)
    → split b'.' (join "." (p ∷ ps)) ≡ p ∷ ps
unfolding join
split-join p [] (h, hs) = split-join_one p h
split-join p (q ∷ ps) (h, hs) = split-before p _ h ∙ ap (◌∷◌ p) (split-join q ps hs)

parts-All : (args : List String) → All (Lacks b'.') (map path_part args)
parts-All [] = tt
parts-All (a ∷ args) = (path_part-Lacks a, parts-All args)

-- An automatic path has exactly one part for each of its arguments: whatever characters the
-- arguments have, cut at its dots the path gives the converted arguments back, in order; this holds
-- if there is an argument.
pub split-auto_path :
    (a : String) (args : List String) → split b'.' (auto_path (a ∷ args)) ≡ map path_part (a ∷ args)
unfolding auto_path
split-auto_path a args = split-join (path_part a) (map path_part args) (parts-All (a ∷ args))
