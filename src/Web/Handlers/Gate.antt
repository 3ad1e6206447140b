-- ===== src/Web/Handlers/Gate.antt =====
-- When the handlers of engine/src/hopeit/server/web.py run app code.
use hopeit_engine.Common.{
  ℕ, ◌≡◌, refl, ◌⊎◌, inl, inr, Bool-cases, true, Option, none, some, List, [], ◌∷◌, String, Result,
  ok, err, Any, split,
}
use hopeit_engine.Config.Defs.{AuthType}
use hopeit_engine.Web.Keys.{LoadError, Jwt}
use hopeit_engine.Web.Keys.Checked.{IsLoaded}
use hopeit_engine.Web.Authorization.{
  Server, Request, AuthSettings, WebError, is_method, extract_authorization, auth_methods,
}
use hopeit_engine.Web.Authorization.Decides.{Accepts, Authorizes, validate_authorization-Authorizes}
use hopeit_engine.Web.Handlers.{
  Exception, Response, error_response, Called, preprocessed, executed, postprocessed, Steps,
  goes_on, exception_status, exception_of, after_postprocess, after_execute, after_preprocess,
  request_execute, answered, authorized, invocation, handle_post_invocation, handle_get_invocation,
  handle_multipart_invocation,
}

-- The parts of a request's header, if there are settings.
abbrev pub parts_of : Result Exception AuthSettings → Request → List String
parts_of (err e) r = []
parts_of (ok s) r = split b' ' (extract_authorization (auth_methods s) r)

module _ {P : Type 0} (steps : Steps P) where
  -- App code ran in order: preprocessing always; the steps only if it gave no status or 200, and then
  -- perhaps postprocessing.
  abbrev pub Ran : List Called → Type 0
  Ran called =
      (called ≡ preprocessed ∷ [])
      ⊎ ((p q : Option P) × (status : Option ℕ) × (steps.preprocess p ≡ ok (q, status))
          × (goes_on status ≡ true)
          × ((called ≡ preprocessed ∷ executed ∷ [])
              ⊎ (called ≡ preprocessed ∷ executed ∷ postprocessed ∷ [])))

  postprocess-called :
      (r : Result Exception (Option P × Option ℕ))
      → (after_postprocess r).1 ≡ preprocessed ∷ executed ∷ postprocessed ∷ []
  unfolding after_postprocess
  postprocess-called (err e) = refl
  postprocess-called (ok x) = refl

  Ran-execute :
      (p q : Option P) (status : Option ℕ) (r : Result Exception (Option P))
      → steps.preprocess p ≡ ok (q, status)
      → goes_on status ≡ true
      → Ran (after_execute steps r).1
  unfolding after_execute
  Ran-execute p q status (err e) made on = inr (p, q, status, made, on, inl refl)
  Ran-execute p q status (ok x) made on =
      inr (p, q, status, made, on, inr (postprocess-called (steps.postprocess x)))

  Ran-preprocess :
      (p : Option P) (r : Result Exception (Option P × Option ℕ))
      → steps.preprocess p ≡ r
      → Ran (after_preprocess steps r).1
  unfolding after_preprocess
  Ran-preprocess p (err e) made = inl refl
  Ran-preprocess p (ok (q, status)) made = elim (Bool-cases (goes_on status)) [
    | inl on ↦ rw on (Ran-execute p q status (steps.execute q) made on)
    | inr off ↦ rw off (inl refl)
  ]

  Ran-answered : (r : Result Exception (Response P) × List Called) → Ran r.1 → Ran (answered r).1
  unfolding answered
  Ran-answered (ok x, called) h = h
  Ran-answered (err e, called) h = h

module _ {Key Claims P : Type 0} (load : String → Result LoadError Key) (jwt : Jwt Key Claims)
    (steps : Steps P) where
  -- No app code ran, and the response is that of an exception.
  abbrev pub Refused : Response P × List Called → Type 0
  Refused (r, called) =
      (called ≡ []) × ((e : Exception) × (r ≡ error_response (exception_status e) e))

  -- The header is a method and a credential, which a type with that method accepts, and the shared
  -- dict says so.
  abbrev pub Admitted : List String → List AuthType → Server Key Claims → Server Key Claims → Type 0
  Admitted parts types w w' =
      (method : String) × (credential : String) × (parts ≡ method ∷ credential ∷ [])
      × (w'.auth_info.allowed ≡ some true)
      × Any
          (λ t.
            (is_method method t ≡ true)
            × (w'.auth_info.auth_type ≡ some t)
            × Accepts load jwt t credential w.auth_info.payload w'.auth_info.payload)
          types

  abbrev pub Gated :
      List String
      → List AuthType
      → Server Key Claims
      → (Response P × List Called) × Server Key Claims
      → Type 0
  Gated parts types w (answer, w') =
      Refused answer ⊎ (Admitted parts types w w' × Ran steps answer.1)

  admitted :
      (parts : List String) (types : List AuthType) (w w' : Server Key Claims)
      → Authorizes load jwt parts types w (ok tt, w')
      → Admitted parts types w w'
  admitted [] types w w' h = cc
  admitted (m ∷ []) types w w' h = cc
  admitted (m ∷ c ∷ []) types w w' (v, allowed, found) = (m, c, refl, allowed, found)
  admitted (m ∷ c ∷ x ∷ parts) types w w' h = cc

  authorized-Gated :
      (parts : List String) (types : List AuthType) (payload : Result Exception (Option P))
      (w : Server Key Claims) (r : Result WebError (Unit {0}) × Server Key Claims)
      → Authorizes load jwt parts types w r
      → Gated parts types w (authorized load jwt steps payload r.0, r.1)
  unfolding authorized answered request_execute
  authorized-Gated parts types payload w (err e, w') h = inl (refl, (exception_of e, refl))
  authorized-Gated parts types (err e) w (ok u, w') h = inl (refl, (e, refl))
  authorized-Gated parts types (ok p) w (ok u, w') h = inr (admitted parts types w w' h, ran)
    where
      ran : Ran steps (answered (request_execute steps p)).1
      ran =
          Ran-answered steps (request_execute steps p)
            (Ran-preprocess steps p (steps.preprocess p) refl)

  invocation-Gated :
      (settings : Result Exception AuthSettings) (types : List AuthType)
      (payload : Result Exception (Option P)) (r : Request) (w : Server Key Claims)
      → IsLoaded load w.keys
      → Gated (parts_of settings r) types w (invocation load jwt steps settings types payload r w)
  unfolding invocation answered
  invocation-Gated (err e) types payload r w v = inl (refl, (e, refl))
  invocation-Gated (ok s) types payload r w v =
      authorized-Gated (split b' ' (extract_authorization (auth_methods s) r)) types payload w _
        (validate_authorization-Authorizes load jwt s types r w v)

  -- Each of the three handlers answers every request, whatever earlier requests have left. It runs
  -- app code only for a request whose header has a method and a credential that an authorization type
  -- of the event accepts; the steps run only if preprocessing gave no status or 200; and if no app
  -- code runs, the response is the error response of an exception: 401, 400 or 500. The cached keys
  -- are those in the files.
  pub handlers-Gated :
      (settings : Result Exception AuthSettings) (types : List AuthType)
      (body : Result Exception (Option P)) (query_payload : Option P)
      (multipart : Result Exception (Unit {0})) (r : Request) (w : Server Key Claims)
      → IsLoaded load w.keys
      → Gated
          (parts_of settings r)
          types
          w
          (handle_post_invocation load jwt steps settings types body r w)
        × Gated
            (parts_of settings r)
            types
            w
            (handle_get_invocation load jwt steps settings types query_payload r w)
        × Gated
            (parts_of settings r)
            types
            w
            (handle_multipart_invocation load jwt steps settings types multipart r w)
  unfolding handle_post_invocation handle_get_invocation handle_multipart_invocation
  handlers-Gated settings types body query_payload multipart r w v = (
    invocation-Gated settings types body r w v,
    invocation-Gated settings types (ok query_payload) r w v,
    invocation-Gated settings types (elim multipart [ ok u ↦ ok none | err e ↦ err e ]) r w v,
  )
