-- ===== src/Storage/Paths.antt =====
-- The operations on texts of paths that plugins/storage/fs/src/hopeit/fs_storage/__init__.py uses.
use Prim.Native.Char.{Char, code}
use hopeit_engine.Common.{
  Bool, Option, none, some, String, ◌==◌, if◌then◌else◌, ◌≡◌, ◌≢◌, refl, ap, ◌∙◌, arith,
}

-- Texts are put together by clauses, so that the proofs follow the characters.
infixr 66 ◌++◌
unfoldable pub ◌++◌ : String → String → String
String.[] ++ t = t
(String.◌∷◌ c s) ++ t = String.◌∷◌ c (s ++ t)

abbrev is_slash : Char → Bool
is_slash c = code c == b'/'

-- A character in front of what is left of a text.
abbrev strip_onto : Char → String → String
strip_onto c String.[] = if is_slash c then "" else String.◌∷◌ c ""
strip_onto c (String.◌∷◌ d s) = String.◌∷◌ c (String.◌∷◌ d s)

-- `s.rstrip("/")`
unfoldable pub rstrip : String → String
rstrip String.[] = ""
rstrip (String.◌∷◌ c s) = strip_onto c (rstrip s)

-- `s.lstrip("/")`
unfoldable pub lstrip : String → String
lstrip String.[] = ""
lstrip (String.◌∷◌ c s) = let rest = lstrip s in if is_slash c then rest else String.◌∷◌ c s

-- What comes before the last slash.
abbrev before_onto : Char → Option String → Option String
before_onto c (some h) = some (String.◌∷◌ c h)
before_onto c none = if is_slash c then some "" else none

unfoldable pub before_slash : String → Option String
before_slash String.[] = none
before_slash (String.◌∷◌ c s) = before_onto c (before_slash s)

-- The directory, given what comes before the last slash and that without slashes at its end.
abbrev dir_of : String → String → String
dir_of h String.[] = h ++ "/"
dir_of h (String.◌∷◌ c s) = String.◌∷◌ c s

-- `os.path.dirname(s)`
unfoldable pub dirname : String → String
unfolding before_slash rstrip
dirname s = elim (before_slash s) [ none ↦ "" | some h ↦ dir_of h (rstrip h) ]

-- What follows a prefix.
unfoldable pub strip_prefix : String → String → Option String
strip_prefix String.[] s = some s
strip_prefix (String.◌∷◌ c p) String.[] = none
strip_prefix (String.◌∷◌ c p) (String.◌∷◌ d s) = if code c == code d then strip_prefix p s else none

abbrev removed : Char → Option String → String → String
removed c (some t) rest = t
removed c none rest = String.◌∷◌ c rest

-- `s.replace(p, "", 1)`
unfoldable pub remove_first : String → String → String
unfolding strip_prefix
remove_first p String.[] = ""
remove_first p (String.◌∷◌ c s) = removed c (strip_prefix p (String.◌∷◌ c s)) (remove_first p s)

strip_prefix-append : (p t : String) → strip_prefix p (p ++ t) ≡ some t
unfolding strip_prefix ◌++◌
strip_prefix-append String.[] t = refl
strip_prefix-append (String.◌∷◌ c p) t = ground (arith, strip_prefix-append p t)

pub remove_first-append : (p t : String) → remove_first p (p ++ t) ≡ t
unfolding remove_first strip_prefix ◌++◌
remove_first-append String.[] String.[] = refl
remove_first-append String.[] (String.◌∷◌ c t) = refl
remove_first-append (String.◌∷◌ c p) t = rw (strip_prefix-append (String.◌∷◌ c p) t) refl

pub before_slash-append :
    (d name : String) → before_slash name ≡ none → before_slash (d ++ "/" ++ name) ≡ some d
unfolding before_slash ◌++◌
before_slash-append String.[] name h = rw h refl
before_slash-append (String.◌∷◌ c d) name h = rw (before_slash-append d name h) refl

pub before_slash-none :
    (s t : String) → before_slash s ≡ none → before_slash t ≡ none → before_slash (s ++ t) ≡ none
unfolding before_slash ◌++◌
before_slash-none String.[] t h k = k
before_slash-none (String.◌∷◌ c s) t h k = ground (arith, before_slash-none s t)

pub rstrip-slash : (s : String) → rstrip (s ++ "/") ≡ rstrip s
unfolding rstrip ◌++◌
rstrip-slash String.[] = refl
rstrip-slash (String.◌∷◌ c s) = ap (strip_onto c) (rstrip-slash s)

-- A text that is not empty and does not end with a slash.
abbrev pub IsClean : String → Type 0
IsClean s = (rstrip s ≡ s) × (s ≢ "")

strip_onto-clean : (c : Char) (s : String) → s ≢ "" → strip_onto c s ≡ String.◌∷◌ c s
strip_onto-clean c String.[] n = absurd (n refl)
strip_onto-clean c (String.◌∷◌ d s) n = refl

dir_of-clean : (h s : String) → s ≢ "" → dir_of h s ≡ s
dir_of-clean h String.[] n = absurd (n refl)
dir_of-clean h (String.◌∷◌ d s) n = refl

pub append-IsClean : (a b : String) → IsClean b → IsClean (a ++ b)
unfolding rstrip ◌++◌
append-IsClean String.[] b h = h
append-IsClean (String.◌∷◌ c a) b h =
    let (r, n) = append-IsClean a b h in (rw r (strip_onto-clean c (a ++ b) n), λ e. cc)

pub dirname-append :
    (d name : String) → IsClean d → before_slash name ≡ none → dirname (d ++ "/" ++ name) ≡ d
unfolding dirname
dirname-append d name h n =
    rw (dirname, before_slash-append d name n) (ap (dir_of d) h.0 ∙ dir_of-clean d d h.1)
