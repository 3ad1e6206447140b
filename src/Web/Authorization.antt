-- ===== src/Web/Authorization.antt =====
-- `_extract_authorization` and `_validate_authorization` of engine/src/hopeit/server/web.py, with the
-- validation methods of engine/src/hopeit/toolkit/auth.py, on ASCII headers. `auth_info` is the one
-- dict `auth_info_default` that every request's context refers to.
pub mod Decides
pub mod Shared
use hopeit_engine.Common.{
  Bool, true, false, Option, none, some, List, [], ◌∷◌, String, Result, ok, err, str_eq,
  if◌then◌else◌, split,
}
use hopeit_engine.Names.{upper, map_chars}
use hopeit_engine.Config.Defs.{AuthType, unsecured, basic, bearer, refresh}
use hopeit_engine.Web.Keys.{LoadError, AuthError, KeyStore, Jwt, validate_token}

-- The value at `payload`: the data of a basic header, or the claims of a token.
pub data AuthPayload (Claims : Type 0) : Type 0 where
  text : String → AuthPayload Claims
  claims : Claims → AuthPayload Claims

-- The dict `auth_info`; `none` is a missing key.
pub record AuthInfo (Claims : Type 0) : Type 0 where
  pub domain : Option String
  pub auth_type : Option AuthType
  pub allowed : Option Bool
  pub payload : Option (AuthPayload Claims)

-- The state that all requests share.
pub record Server (Key Claims : Type 0) : Type 0 where
  pub auth_info : AuthInfo Claims
  pub keys : KeyStore Key

-- The header and the cookie `<app_key>.refresh` of a request.
pub record Request : Type 0 where
  pub authorization : Option String
  pub refresh_cookie : Option String

-- The exceptions of `_validate_authorization`.
pub data WebError : Type 0 where
  unauthorized : String → WebError
  bad_request : WebError
  failed : AuthError → WebError

-- `event_info.auth`, and `server.auth.default_auth_methods` if there is a server config.
pub record AuthSettings : Type 0 where
  pub event_auth : List AuthType
  pub default_auth_methods : Option (List AuthType)

-- `auth_type.name`
abbrev pub type_name : AuthType → String
type_name unsecured = "UNSECURED"
type_name basic = "BASIC"
type_name bearer = "BEARER"
type_name refresh = "REFRESH"

abbrev pub unsecured_header : String
unsecured_header = "Unsecured -"

-- AUTH_HEADER_EXTRACTORS
abbrev pub extract_header : AuthType → Request → Option String
extract_header unsecured r = some unsecured_header
extract_header basic r = r.authorization
extract_header bearer r = r.authorization
extract_header refresh r = r.refresh_cookie

pub extract_authorization : List AuthType → Request → String
extract_authorization [] r = unsecured_header
extract_authorization (t ∷ types) r = elim (extract_header t r) [
  | none ↦ extract_authorization types r
  | some header ↦ header
]

abbrev pub auth_methods : AuthSettings → List AuthType
auth_methods s = elim s.event_auth [
  | [] ↦ elim s.default_auth_methods [ none ↦ [] | some types ↦ types ]
  | t ∷ types ↦ t ∷ types
]

-- `method.upper() == auth_type.name.upper()`
pub is_method : String → AuthType → Bool
is_method method t = str_eq (map_chars upper method) (type_name t)

module _ {Key Claims : Type 0} where
  -- The three writes of a validation that passed.
  abbrev pub allow : Server Key Claims → AuthType → AuthPayload Claims → Server Key Claims
  allow w t p = record w {
    auth_info = record w.auth_info { auth_type = some t; allowed = some true; payload = some p };
  }

  abbrev pub is_allowed : Server Key Claims → Bool
  is_allowed w = elim w.auth_info.allowed [ none ↦ false | some b ↦ b ]

  pub validate_auth_none :
      Server Key Claims → String → Result AuthError (Unit {0}) × Server Key Claims
  validate_auth_none w credential = (
    ok tt,
    record w { auth_info = record w.auth_info { auth_type = some unsecured; allowed = some true } },
  )

  pub validate_auth_basic :
      Server Key Claims → String → Result AuthError (Unit {0}) × Server Key Claims
  validate_auth_basic w credential =
      (ok tt, if str_eq credential "" then w else allow w basic (text credential))

module _ {Key Claims : Type 0} (load : String → Result LoadError Key) (jwt : Jwt Key Claims) where
  -- What is left to do with the result of `validate_token`.
  token_checked :
      Server Key Claims
      → AuthType
      → Result AuthError (Option Claims)
      → Result AuthError (Unit {0}) × Server Key Claims
  token_checked w t (ok none) = (ok tt, w)
  token_checked w t (ok (some c)) = (ok tt, allow w t (claims c))
  token_checked w t (err e) = (err e, w)

  validate_auth_bearer :
      Server Key Claims → String → Result AuthError (Unit {0}) × Server Key Claims
  validate_auth_bearer w credential =
      let (r, keys) = validate_token load jwt w.keys credential in
      token_checked (record w { keys = keys }) bearer r

  validate_auth_refresh :
      Server Key Claims → String → Result AuthError (Unit {0}) × Server Key Claims
  validate_auth_refresh w credential =
      let (r, keys) = validate_token load jwt w.keys credential in
      token_checked (record w { keys = keys }) refresh r

  pub validate_auth_method :
      Server Key Claims → AuthType → String → Result AuthError (Unit {0}) × Server Key Claims
  unfolding validate_auth_none validate_auth_basic validate_auth_bearer validate_auth_refresh
  validate_auth_method w unsecured credential = validate_auth_none w credential
  validate_auth_method w basic credential = validate_auth_basic w credential
  validate_auth_method w bearer credential = validate_auth_bearer w credential
  validate_auth_method w refresh credential = validate_auth_refresh w credential

  -- `if context.auth_info.get("allowed"): return`
  returns_if_allowed :
      Result AuthError (Unit {0}) × Server Key Claims
      → (Server Key Claims → Result WebError (Unit {0}) × Server Key Claims)
      → Result WebError (Unit {0}) × Server Key Claims
  returns_if_allowed (err e, w) rest = (err (failed e), w)
  returns_if_allowed (ok u, w) rest =
      let later = rest w in if is_allowed w then (ok tt, w) else later

  -- The loop over `auth_types`.
  try_types :
      Server Key Claims
      → String
      → String
      → List AuthType
      → Result WebError (Unit {0}) × Server Key Claims
  unfolding returns_if_allowed validate_auth_method
  try_types w method credential [] = (err (unauthorized method), w)
  try_types w method credential (t ∷ types) =
      let later = try_types w method credential types in
      if is_method method t
      then returns_if_allowed (validate_auth_method w t credential)
          (λ w'. try_types w' method credential types)
      else later

  -- `method, data = auth_header.split(" ")`, and what follows.
  with_parts :
      Server Key Claims
      → List AuthType
      → List String
      → Result WebError (Unit {0}) × Server Key Claims
  with_parts w types (method ∷ credential ∷ []) =
      try_types (record w { auth_info = record w.auth_info { allowed = some false } }) method
        credential types
  with_parts w types _ = (err bad_request, w)

  pub validate_authorization :
      AuthSettings
      → List AuthType
      → Request
      → Server Key Claims
      → Result WebError (Unit {0}) × Server Key Claims
  unfolding with_parts extract_authorization
  validate_authorization s types r w =
      with_parts w types (split b' ' (extract_authorization (auth_methods s) r))
