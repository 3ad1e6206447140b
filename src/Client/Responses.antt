-- ===== src/Client/Responses.antt =====
-- How a response is read: `AppsClient._parse_response` of
-- plugins/clients/apps-client/src/hopeit/apps_client/__init__.py. Decoding of payloads is the
-- `Codec`, a parameter.
use hopeit_engine.Common.{
  ℕ, Option, none, some, List, [], ◌∷◌, String, Result, ok, err, ◌>>=◌, leb, ◌==◌, str_eq,
  if◌then◌else◌,
}

-- The exceptions that a request can end with.
pub data RequestError : Type 0 where
  os_error server_exception unauthorized : RequestError
  unhandled_response : ℕ → RequestError
  other : String → RequestError

-- `Payload.from_obj` at a datatype, and a JSON value as a list; `keyed k t` is the dict `{k: t}`.
pub record Codec (Json T A : Type 0) : Type 0 where
  pub as_list : Json → Option (List Json)
  pub keyed : String → String → Json
  pub from_list : T → List Json → Result RequestError (List A)
  pub from_obj : T → String → Json → Result RequestError A

pub record Response (Json : Type 0) : Type 0 where
  pub status : ℕ
  pub content_type : String
  pub text : String
  pub json : Json

-- `responses[status]`; `none` is a `KeyError`, or a `TypeError` where there are no `responses`.
abbrev pub lookup_status {ℓ} : {T : Type ℓ} → ℕ → List (ℕ × T) → Option T
lookup_status k [] = none
lookup_status k ((j, t) ∷ ts) = if j == k then some t else lookup_status k ts

module _ {T : Type 0} where
  abbrev pub declared_type : Option (List (ℕ × T)) → ℕ → Option T
  declared_type none status = none
  declared_type (some responses) status = lookup_status status responses

  pub response_type : T → Option (List (ℕ × T)) → ℕ → Result RequestError T
  response_type datatype responses status =
      if status == 200 then ok datatype else elim (declared_type responses status) [
        | some t ↦ ok t
        | none ↦
            if status == 401
            then err unauthorized
            else if leb 500 status
            then err server_exception
            else err (unhandled_response status)
      ]

  module _ {Json A : Type 0} (c : Codec Json T A) where
    decode_body : T → String → Json → Result RequestError (List A)
    decode_body t event_name body = elim (c.as_list body) [
      | some items ↦ c.from_list t items
      | none ↦ c.from_obj t event_name body >>= λ a. ok (a ∷ [])
    ]

    pub parse_response :
        T → String → Option (List (ℕ × T)) → Response Json → Result RequestError (List A)
    parse_response datatype event_name responses r =
        response_type datatype responses r.status >>= λ t.
        decode_body t event_name
          (if str_eq r.content_type "text/plain" then c.keyed event_name r.text else r.json)
