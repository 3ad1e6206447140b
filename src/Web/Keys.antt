-- ===== src/Web/Keys.antt =====
-- The public keys and the tokens of engine/src/hopeit/toolkit/auth.py. Reading a key from its file
-- and the two uses of `jwt.decode` are parameters.
pub mod Checked
use hopeit_engine.Common.{
  Bool, true, false, Option, none, some, List, [], ◌∷◌, String, Result, ok, err, ◌>>=◌, ◌||◌,
  str_eq, if◌then◌else◌, ◌≡◌,
}
use hopeit_engine.Common.Dict.{Dict, lookup, insert}

-- The exceptions of reading a key: FileNotFoundError, or another one.
pub data LoadError : Type 0 where
  file_not_found : LoadError
  load_failed : String → LoadError

-- The exceptions of decoding a token. `key_error` is that of `info["app"]`.
pub data AuthError : Type 0 where
  invalid_signature expired_signature decode_error public_key_not_found key_error : AuthError
  other_error : String → AuthError

-- `public_keys` and `rejected_apps`.
pub record KeyStore (Key : Type 0) : Type 0 where
  pub public_keys : Dict Key
  pub rejected_apps : List String

-- `decode_token`'s two calls: without verification, where only `app` is read, and with a key.
pub record Jwt (Key Claims : Type 0) : Type 0 where
  pub unverified_app : String → Result AuthError (Option String)
  pub verified : Key → String → Result AuthError Claims

abbrev pub is_rejected : String → List String → Bool
is_rejected app_key [] = false
is_rejected app_key (a ∷ apps) = str_eq a app_key || is_rejected app_key apps

-- The exceptions that `validate_token` catches.
abbrev pub is_caught : AuthError → Bool
is_caught invalid_signature = true
is_caught expired_signature = true
is_caught decode_error = true
is_caught public_key_not_found = true
is_caught key_error = false
is_caught (other_error e) = false

module _ {Key : Type 0} (load : String → Result LoadError Key) where
  loaded : KeyStore Key → String → Result LoadError Key → Result AuthError Key × KeyStore Key
  loaded s app_key (ok key) = (ok key, record s { public_keys = insert app_key key s.public_keys })
  loaded s app_key (err file_not_found) =
      (err public_key_not_found, record s { rejected_apps = app_key ∷ s.rejected_apps })
  loaded s app_key (err (load_failed e)) = (err (other_error e), s)

  load_app_public_key : KeyStore Key → String → Result AuthError Key × KeyStore Key
  load_app_public_key s app_key =
      if is_rejected app_key s.rejected_apps
      then (err public_key_not_found, s)
      else loaded s app_key (load app_key)

  pub app_public_key : KeyStore Key → String → Result AuthError Key × KeyStore Key
  app_public_key s app_key = elim (lookup app_key s.public_keys) [
    | none ↦ load_app_public_key s app_key
    | some key ↦ (ok key, s)
  ]

-- What `validate_token` gives for an outcome of decoding.
abbrev pub caught : {Claims : Type 0} → Result AuthError Claims → Result AuthError (Option Claims)
caught (ok c) = ok (some c)
caught (err e) = if is_caught e then ok none else err e

module _ {Key Claims : Type 0} (load : String → Result LoadError Key) (jwt : Jwt Key Claims) where
  verify_for :
      KeyStore Key
      → String
      → Result AuthError (Option String)
      → Result AuthError Claims × KeyStore Key
  verify_for s token (err e) = (err e, s)
  verify_for s token (ok none) = (err key_error, s)
  verify_for s token (ok (some app_key)) =
      let (key, s') = app_public_key load s app_key in (key >>= λ k. jwt.verified k token, s')

  pub decode_token : KeyStore Key → String → Result AuthError Claims × KeyStore Key
  decode_token s token = verify_for s token (jwt.unverified_app token)

  pub validate_token : KeyStore Key → String → Result AuthError (Option Claims) × KeyStore Key
  validate_token s token = let (r, s') = decode_token s token in (caught r, s')

  -- The claims of a token that was signed by the app that it names.
  abbrev pub Signed : String → Claims → Type 0
  Signed token c =
      (app_key : String) × (key : Key) × (jwt.unverified_app token ≡ ok (some app_key))
      × (load app_key ≡ ok key)
      × (jwt.verified key token ≡ ok c)
