-- ===== src/Web/Handlers.antt =====
-- `_request_execute`, `_handle_post_invocation`, `_handle_get_invocation` and
-- `_handle_multipart_invocation` of engine/src/hopeit/server/web.py. The app's code is the parameter
-- `Steps`: preprocessing, the event's steps and postprocessing, each of which may raise. A response is
-- its status and its payload, or the exception that it reports. The calls of app code are listed.
pub mod Gate
use hopeit_engine.Common.{
  ℕ, zero, suc, Bool, true, false, Option, none, some, List, [], ◌∷◌, String, Result, ok, err, ◌==◌,
  if◌then◌else◌,
}
use hopeit_engine.Config.Defs.{AuthType}
use hopeit_engine.Web.Keys.{LoadError, Jwt}
use hopeit_engine.Web.Authorization.{
  Server, Request, AuthSettings, WebError, unauthorized, bad_request, failed,
  validate_authorization,
}

-- The exceptions that the handlers tell apart. App code may raise each of them.
pub data Exception : Type 0 where
  unauthorized_error bad_request_error other_error : Exception

pub data Response (P : Type 0) : Type 0 where
  response : ℕ → Option P → Response P
  error_response : ℕ → Exception → Response P

pub data Called : Type 0 where
  preprocessed executed postprocessed : Called

-- `hook.status` is given where a hook is.
pub record Steps (P : Type 0) : Type 0 where
  pub preprocess : Option P → Result Exception (Option P × Option ℕ)
  pub execute : Option P → Result Exception (Option P)
  pub postprocess : Option P → Result Exception (Option P × Option ℕ)

-- `(preprocess_hook.status is None) or (preprocess_hook.status == 200)`
abbrev pub goes_on : Option ℕ → Bool
goes_on none = true
goes_on (some status) = status == 200

-- `if hook.status: response.set_status(hook.status)`
abbrev pub hook_status : Option ℕ → ℕ
hook_status none = 200
hook_status (some zero) = 200
hook_status (some (suc n)) = suc n

-- The responses of the handlers' `except` clauses.
pub exception_status : Exception → ℕ
exception_status unauthorized_error = 401
exception_status bad_request_error = 400
exception_status other_error = 500

abbrev pub exception_of : WebError → Exception
exception_of (unauthorized m) = unauthorized_error
exception_of bad_request = bad_request_error
exception_of (failed e) = other_error

module _ {P : Type 0} where
  after_postprocess :
      Result Exception (Option P × Option ℕ) → Result Exception (Response P) × List Called
  after_postprocess (err e) = (err e, preprocessed ∷ executed ∷ postprocessed ∷ [])
  after_postprocess (ok (p, status)) =
      (ok (response (hook_status status) p), preprocessed ∷ executed ∷ postprocessed ∷ [])

  after_execute :
      Steps P → Result Exception (Option P) → Result Exception (Response P) × List Called
  after_execute steps (err e) = (err e, preprocessed ∷ executed ∷ [])
  after_execute steps (ok p) = after_postprocess (steps.postprocess p)

  after_preprocess :
      Steps P → Result Exception (Option P × Option ℕ) → Result Exception (Response P) × List Called
  after_preprocess steps (err e) = (err e, preprocessed ∷ [])
  after_preprocess steps (ok (p, status)) =
      if goes_on status
      then after_execute steps (steps.execute p)
      else (ok (response (hook_status status) p), preprocessed ∷ [])

  pub request_execute : Steps P → Option P → Result Exception (Response P) × List Called
  unfolding after_preprocess after_execute after_postprocess
  request_execute steps payload = after_preprocess steps (steps.preprocess payload)

  -- The `try` statement of a handler.
  pub answered : Result Exception (Response P) × List Called → Response P × List Called
  answered (ok r, called) = (r, called)
  answered (err e, called) = (error_response (exception_status e) e, called)

module _ {Key Claims P : Type 0} (load : String → Result LoadError Key) (jwt : Jwt Key Claims)
    (steps : Steps P) where
  -- What follows the authorization, with the payload or what reading it raised.
  authorized : Result Exception (Option P) → Result WebError (Unit {0}) → Response P × List Called
  authorized payload (err e) = answered (err (exception_of e), [])
  authorized (err e) (ok u) = answered (err e, [])
  authorized (ok p) (ok u) = answered (request_execute steps p)

  -- A handler's body, with the event's settings or what finding them raised.
  invocation :
      Result Exception AuthSettings
      → List AuthType
      → Result Exception (Option P)
      → Request
      → Server Key Claims
      → (Response P × List Called) × Server Key Claims
  unfolding authorized answered
  invocation (err e) types payload r w = (answered (err e, []), w)
  invocation (ok s) types payload r w =
      let (decision, w') = validate_authorization load jwt s types r w in
      (authorized payload decision, w')

  -- `body` is what `_request_process_payload` gave for the request's body.
  pub handle_post_invocation :
      Result Exception AuthSettings
      → List AuthType
      → Result Exception (Option P)
      → Request
      → Server Key Claims
      → (Response P × List Called) × Server Key Claims
  unfolding invocation
  handle_post_invocation settings types body r w = invocation settings types body r w

  -- `query_payload` is the query argument `payload`.
  pub handle_get_invocation :
      Result Exception AuthSettings
      → List AuthType
      → Option P
      → Request
      → Server Key Claims
      → (Response P × List Called) × Server Key Claims
  unfolding invocation
  handle_get_invocation settings types query_payload r w =
      invocation settings types (ok query_payload) r w

  -- The payload is None; `multipart` is what opening the request's reader gave.
  pub handle_multipart_invocation :
      Result Exception AuthSettings
      → List AuthType
      → Result Exception (Unit {0})
      → Request
      → Server Key Claims
      → (Response P × List Called) × Server Key Claims
  unfolding invocation
  handle_multipart_invocation settings types multipart r w =
      invocation settings types (elim multipart [ ok u ↦ ok none | err e ↦ err e ]) r w
