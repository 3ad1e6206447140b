-- ===== src/Web/Authorization/Decides.antt =====
-- Whom `_validate_authorization` of engine/src/hopeit/server/web.py lets in.
use hopeit_engine.Common.{
  ◌≡◌, refl, ◌∙◌, ap, subst, ◌⊎◌, inl, inr, Bool-cases, Bool, true, false, Option, none, some, List,
  [], ◌∷◌, String, Result, ok, err, str_eq, if◌then◌else◌, All, Any, split,
}
use hopeit_engine.Config.Defs.{AuthType, unsecured, basic, bearer, refresh}
use hopeit_engine.Web.Keys.{LoadError, AuthError, KeyStore, Jwt, is_caught, Signed}
use hopeit_engine.Web.Keys.Checked.{IsLoaded, Checked, validate_token-Checked}
use hopeit_engine.Web.Authorization.{
  AuthPayload, text, claims, AuthInfo, Server, Request, WebError, unauthorized, bad_request, failed,
  AuthSettings, extract_authorization, auth_methods, is_method, is_allowed, validate_auth_none,
  validate_auth_basic, token_checked, validate_auth_bearer, validate_auth_refresh,
  validate_auth_method, returns_if_allowed, try_types, with_parts, validate_authorization,
}

module _ {Key Claims : Type 0} (load : String → Result LoadError Key) (jwt : Jwt Key Claims) where
  -- A credential is good for an authorization type and leaves the payload `q` after `p`: nothing is
  -- asked for Unsecured, which leaves the payload, some text for Basic, and a signed token for Bearer
  -- and Refresh.
  abbrev pub Accepts :
      AuthType → String → Option (AuthPayload Claims) → Option (AuthPayload Claims) → Type 0
  Accepts unsecured credential p q = q ≡ p
  Accepts basic credential p q = (str_eq credential "" ≡ false) × (q ≡ some (text credential))
  Accepts bearer credential p q =
      (c : Claims) × Signed load jwt credential c × (q ≡ some (claims c))
  Accepts refresh credential p q =
      (c : Claims) × Signed load jwt credential c × (q ≡ some (claims c))

  -- A credential is good for no payload.
  abbrev pub Refuses : AuthType → String → Type 0
  Refuses unsecured credential = ⊥
  Refuses basic credential = str_eq credential "" ≡ true
  Refuses bearer credential = (c : Claims) → Signed load jwt credential c → ⊥
  Refuses refresh credential = (c : Claims) → Signed load jwt credential c → ⊥

  -- What one validation method leaves.
  abbrev Tried :
      AuthType
      → String
      → Server Key Claims
      → Result AuthError (Unit {0}) × Server Key Claims
      → Type 0
  Tried t credential w (ok u, w') =
      IsLoaded load w'.keys
      × ((Accepts t credential w.auth_info.payload w'.auth_info.payload
            × (w'.auth_info.auth_type ≡ some t)
            × (w'.auth_info.allowed ≡ some true))
          ⊎ (Refuses t credential × (w'.auth_info ≡ w.auth_info)))
  Tried t credential w (err e, w') =
      IsLoaded load w'.keys × (w'.auth_info ≡ w.auth_info) × (is_caught e ≡ false)

  bearer-Tried :
      (credential : String) (w : Server Key Claims)
      (r : Result AuthError (Option Claims) × KeyStore Key)
      → Checked load jwt credential r
      → Tried bearer credential w (token_checked load jwt (record w { keys = r.1 }) bearer r.0)
  unfolding token_checked
  bearer-Tried credential w (ok none, s) (v, bad) = (v, inr (bad, refl))
  bearer-Tried credential w (ok (some c), s) (v, signed) = (v, inl ((c, signed, refl), refl, refl))
  bearer-Tried credential w (err e, s) (v, other, unsigned) = (v, refl, other)

  refresh-Tried :
      (credential : String) (w : Server Key Claims)
      (r : Result AuthError (Option Claims) × KeyStore Key)
      → Checked load jwt credential r
      → Tried refresh credential w (token_checked load jwt (record w { keys = r.1 }) refresh r.0)
  unfolding token_checked
  refresh-Tried credential w (ok none, s) (v, bad) = (v, inr (bad, refl))
  refresh-Tried credential w (ok (some c), s) (v, signed) = (v, inl ((c, signed, refl), refl, refl))
  refresh-Tried credential w (err e, s) (v, other, unsigned) = (v, refl, other)

  method-Tried :
      (t : AuthType) (credential : String) (w : Server Key Claims)
      → IsLoaded load w.keys
      → Tried t credential w (validate_auth_method load jwt w t credential)
  unfolding validate_auth_method validate_auth_none validate_auth_basic validate_auth_bearer
      validate_auth_refresh
  method-Tried unsecured credential w v = (v, inl (refl, refl, refl))
  method-Tried basic credential w v = elim (Bool-cases (str_eq credential "")) [
    | inl empty ↦ rw empty (v, inr (refl, refl))
    | inr full ↦ rw full (v, inl ((refl, refl), refl, refl))
  ]
  method-Tried bearer credential w v =
      bearer-Tried credential w _ (validate_token-Checked load jwt w.keys credential v)
  method-Tried refresh credential w v =
      refresh-Tried credential w _ (validate_token-Checked load jwt w.keys credential v)

  -- What a request with this method and credential gets, from the shared state `w`.
  abbrev pub Decided :
      String
      → String
      → List AuthType
      → Server Key Claims
      → Result WebError (Unit {0}) × Server Key Claims
      → Type 0
  Decided method credential types w (ok u, w') =
      IsLoaded load w'.keys
      × (w'.auth_info.allowed ≡ some true)
      × Any
          (λ t.
            (is_method method t ≡ true)
            × (w'.auth_info.auth_type ≡ some t)
            × Accepts t credential w.auth_info.payload w'.auth_info.payload)
          types
  Decided method credential types w (err (unauthorized m), w') =
      IsLoaded load w'.keys
      × (m ≡ method)
      × (w'.auth_info ≡ record w.auth_info { allowed = some false })
      × All (λ t. (is_method method t ≡ false) ⊎ Refuses t credential) types
  Decided method credential types w (err (failed e), w') =
      IsLoaded load w'.keys
      × (w'.auth_info ≡ record w.auth_info { allowed = some false })
      × (is_caught e ≡ false)
  Decided method credential types w (err bad_request, w') = ⊥

  -- One more type in front that does not fit.
  Decided-next :
      (method credential : String) (t : AuthType) (types : List AuthType) (w : Server Key Claims)
      (r : Result WebError (Unit {0}) × Server Key Claims)
      → (is_method method t ≡ false) ⊎ Refuses t credential
      → Decided method credential types w r
      → Decided method credential (t ∷ types) w r
  Decided-next method credential t types w (ok u, w') other (v, a, found) = (v, a, inr found)
  Decided-next method credential t types w (err (unauthorized m), w') other (v, e, i, all) =
      (v, e, i, (other, all))
  Decided-next method credential t types w (err (failed e), w') other d = d
  Decided-next method credential t types w (err bad_request, w') other d = d

  Tried-Decided :
      (method credential : String) (t : AuthType) (types : List AuthType) (w0 w : Server Key Claims)
      (r : Result AuthError (Unit {0}) × Server Key Claims)
      (rest : Server Key Claims → Result WebError (Unit {0}) × Server Key Claims)
      → is_method method t ≡ true
      → w.auth_info ≡ record w0.auth_info { allowed = some false }
      → Tried t credential w r
      → ((w' : Server Key Claims)
          → IsLoaded load w'.keys
          → w'.auth_info ≡ record w0.auth_info { allowed = some false }
          → Decided method credential types w0 (rest w'))
      → Decided method credential (t ∷ types) w0 (returns_if_allowed load jwt r rest)
  unfolding returns_if_allowed
  Tried-Decided method credential t types w0 w (err e, w') rest named i (v, same, other) later =
      (v, same ∙ i, other)
  Tried-Decided method credential t types w0 w (ok u, w') rest named i (v, inl (a, typed, allowed))
        later =
      rw allowed (v, refl, inl (named, typed, a'))
    where
      a' : Accepts t credential w0.auth_info.payload w'.auth_info.payload
      a' = subst (λ (x : AuthInfo Claims). Accepts t credential x.payload w'.auth_info.payload) i a
  Tried-Decided method credential t types w0 w (ok u, w') rest named i (v, inr (bad, same)) later =
      goes_on (is_allowed w')
        (ap (λ (x : AuthInfo Claims). is_allowed (record w' { auth_info = x })) (same ∙ i))
    where
      goes_on :
          (b : Bool)
          → b ≡ false
          → Decided method credential (t ∷ types) w0 (if b then (ok tt, w') else rest w')
      goes_on true e = cc
      goes_on false e =
          Decided-next method credential t types w0 (rest w') (inr bad) (later w' v (same ∙ i))

  try_types-Decided :
      (method credential : String) (types : List AuthType) (w0 w : Server Key Claims)
      → IsLoaded load w.keys
      → w.auth_info ≡ record w0.auth_info { allowed = some false }
      → Decided method credential types w0 (try_types load jwt w method credential types)
  unfolding try_types
  try_types-Decided method credential [] w0 w v i = (v, refl, i, tt)
  try_types-Decided method credential (t ∷ types) w0 w v i =
      elim (Bool-cases (is_method method t)) [
        | inl named ↦ rw named (
            Tried-Decided method credential t types w0 w _ _ named i (method-Tried t credential w v)
              (λ w' v' i'. try_types-Decided method credential types w0 w' v' i'))
        | inr other ↦ rw other (
            Decided-next method credential t types w0 _ (inl other)
              (try_types-Decided method credential types w0 w v i))
      ]

  -- What a request whose header is cut into these parts gets: without exactly a method and a
  -- credential, BadRequest, and then nothing is changed.
  abbrev pub Authorizes :
      List String
      → List AuthType
      → Server Key Claims
      → Result WebError (Unit {0}) × Server Key Claims
      → Type 0
  Authorizes [] types w r = r ≡ (err bad_request, w)
  Authorizes (method ∷ []) types w r = r ≡ (err bad_request, w)
  Authorizes (method ∷ credential ∷ []) types w r = Decided method credential types w r
  Authorizes (method ∷ credential ∷ x ∷ parts) types w r = r ≡ (err bad_request, w)

  with_parts-Authorizes :
      (parts : List String) (types : List AuthType) (w : Server Key Claims)
      → IsLoaded load w.keys
      → Authorizes parts types w (with_parts load jwt w types parts)
  unfolding with_parts
  with_parts-Authorizes [] types w v = refl
  with_parts-Authorizes (method ∷ []) types w v = refl
  with_parts-Authorizes (method ∷ credential ∷ []) types w v =
      try_types-Decided method credential types w
        (record w { auth_info = record w.auth_info { allowed = some false } }) v refl
  with_parts-Authorizes (method ∷ credential ∷ x ∷ parts) types w v = refl

  -- Whatever the requests before have left in the shared dict, if the cached keys are those in the
  -- files: a request passes only if one of the event's authorization types has the method of its
  -- header and accepts its credential, and then that type and what the credential says are in the
  -- dict. It gets Unauthorized only if every type has another method or refuses the credential, and
  -- BadRequest exactly without one method and one credential. Any other exception is none of those
  -- that bad tokens give. After each of them but BadRequest the dict says that nothing is allowed.
  pub validate_authorization-Authorizes :
      (s : AuthSettings) (types : List AuthType) (r : Request) (w : Server Key Claims)
      → IsLoaded load w.keys
      → Authorizes
          (split b' ' (extract_authorization (auth_methods s) r))
          types
          w
          (validate_authorization load jwt s types r w)
  unfolding validate_authorization
  validate_authorization-Authorizes s types r w v =
      with_parts-Authorizes (split b' ' (extract_authorization (auth_methods s) r)) types w v
