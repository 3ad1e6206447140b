-- ===== src/Web/Authorization/Shared.antt =====
-- What the contexts of several requests see of the one dict `auth_info_default` of
-- engine/src/hopeit/server/web.py.
use hopeit_engine.Common.{
  ◌≡◌, refl, ℕ, zero, suc, false, none, some, List, [], ◌∷◌, String, Result, str_eq, split,
}
use hopeit_engine.Config.Defs.{AuthType, unsecured, basic}
use hopeit_engine.Web.Keys.{LoadError, Jwt}
use hopeit_engine.Web.Authorization.{
  text, AuthInfo, Server, Request, AuthSettings, WebError, validate_authorization,
  extract_authorization, with_parts, try_types, returns_if_allowed, validate_auth_method,
  validate_auth_none, validate_auth_basic, is_method,
}
use hopeit_engine.Names.{map_chars, upper}

-- A reference to a dict: the one that the module makes at its start, or one made later.
pub data DictRef : Type 0 where
  auth_info_default : DictRef
  made : ℕ → DictRef

-- The dicts: the first is that of the server, and the others in the order in which they are made.
pub record Heap (Key Claims : Type 0) : Type 0 where
  pub server : Server Key Claims
  pub others : List (AuthInfo Claims)

-- `EventContext` keeps the dict that it is given.
pub record Context : Type 0 where
  pub event_name : String
  pub auth_info : DictRef

abbrev nth {ℓ} : {A : Type ℓ} → A → List A → ℕ → A
nth a [] n = a
nth a (x ∷ xs) zero = x
nth a (x ∷ xs) (suc n) = nth a xs n

abbrev set_nth {ℓ} : {A : Type ℓ} → A → List A → ℕ → List A
set_nth a [] n = []
set_nth a (x ∷ xs) zero = a ∷ xs
set_nth a (x ∷ xs) (suc n) = x ∷ set_nth a xs n

module _ {Key Claims : Type 0} where
  -- `_request_start`: the context and the dicts after it.
  pub request_start : String → Heap Key Claims → Context × Heap Key Claims
  request_start event_name h =
      (record { event_name = event_name; auth_info = auth_info_default }, h)

  abbrev pub read : DictRef → Heap Key Claims → AuthInfo Claims
  read auth_info_default h = h.server.auth_info
  read (made n) h = nth h.server.auth_info h.others n

  -- `context.auth_info`
  pub auth_info_of : Context → Heap Key Claims → AuthInfo Claims
  auth_info_of c h = read c.auth_info h

  -- The dicts when the server `w` that a check leaves has the new content of one of them.
  abbrev pub write : DictRef → Server Key Claims → Heap Key Claims → Heap Key Claims
  write auth_info_default w h = record h { server = w }
  write (made n) w h = record {
    server = record h.server { keys = w.keys };
    others = set_nth w.auth_info h.others n;
  }

abbrev pub basic_settings : AuthSettings
basic_settings = record { event_auth = basic ∷ []; default_auth_methods = none }

abbrev pub unsecured_settings : AuthSettings
unsecured_settings = record { event_auth = unsecured ∷ []; default_auth_methods = none }

abbrev pub with_header : String → Request
with_header header = record { authorization = some header; refresh_cookie = none }

module _ {Key Claims : Type 0} (load : String → Result LoadError Key) (jwt : Jwt Key Claims) where
  -- `_validate_authorization` reads and writes the dict of its context.
  pub authorize :
      Context
      → AuthSettings
      → List AuthType
      → Request
      → Heap Key Claims
      → Result WebError (Unit {0}) × Heap Key Claims
  authorize c settings types r h =
      let (result, w) =
        validate_authorization load jwt settings types r
          (record h.server { auth_info = read c.auth_info h }) in
      (result, write c.auth_info w h)

  -- A request to an event that takes Basic credentials, and to one that takes any.
  pub basic_request : Context → String → Heap Key Claims → Heap Key Claims
  basic_request c header h = (authorize c basic_settings (basic ∷ []) (with_header header) h).1

  pub unsecured_request : Context → Heap Key Claims → Heap Key Claims
  unsecured_request c h = (authorize c unsecured_settings (unsecured ∷ []) (with_header "") h).1

  basic_payload :
      (header a : String) (w : Server Key Claims)
      → split b' ' header ≡ "Basic" ∷ a ∷ []
      → str_eq a "" ≡ false
      → (let checked =
            validate_authorization load jwt basic_settings (basic ∷ []) (with_header header) w in
          checked.1.auth_info.payload)
        ≡ some (text a)
  unfolding validate_authorization extract_authorization with_parts try_types returns_if_allowed
      validate_auth_method validate_auth_basic is_method map_chars upper split
  basic_payload header a w cut full = rw (cut, full) refl

  -- A second request starts when the header of a first one was checked. After the check of the first one, with a Basic credential `a` that is
  -- not empty, its context shows `a`. But after the check of the second one with a credential `b`, the
  -- context of the first shows `b`; and if the second is to an Unsecured event instead, its context
  -- shows the type Unsecured and the payload `a` of the first.
  pub auth_info_is_shared :
      (h : Heap Key Claims) (event_name other_name header_a a header_b b : String)
      → split b' ' header_a ≡ "Basic" ∷ a ∷ []
      → split b' ' header_b ≡ "Basic" ∷ b ∷ []
      → str_eq a "" ≡ false
      → str_eq b "" ≡ false
      → let (first, h1) = request_start event_name h in
        let h2 = basic_request first header_a h1 in
        let (second, h3) = request_start other_name h2 in
        ((auth_info_of first h2).payload ≡ some (text a))
        × ((auth_info_of first (basic_request second header_b h3)).payload ≡ some (text b))
        × ((auth_info_of second (unsecured_request second h3)).auth_type ≡ some unsecured)
        × ((auth_info_of second (unsecured_request second h3)).payload ≡ some (text a))
  unfolding auth_info_of request_start basic_request unsecured_request authorize
      validate_authorization extract_authorization with_parts try_types returns_if_allowed
      validate_auth_method validate_auth_none is_method map_chars upper split
  auth_info_is_shared h event_name other_name header_a a header_b b cut_a cut_b full_a full_b =
      let w = h.server in
      let w1 =
        (validate_authorization load jwt basic_settings (basic ∷ []) (with_header header_a) w).1 in
      let shown = basic_payload header_a a w cut_a full_a in
      (shown, basic_payload header_b b w1 cut_b full_b, refl, shown)
