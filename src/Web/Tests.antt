-- ===== src/Web/Tests.antt =====
-- Runs of the authorization of requests in engine/src/hopeit/server/web.py. Keys are numbers, and the
-- token "T" is signed by app "app" with its key 1.
use hopeit_engine.Common.{
  ℕ, ◌≡◌, refl, none, some, [], ◌∷◌, String, Result, ok, err, str_eq, split, if◌then◌else◌,
}
use hopeit_engine.Common.Dict.{lookup}
use hopeit_engine.Config.Defs.{basic, bearer}
use hopeit_engine.Web.Keys.{LoadError, file_not_found, invalid_signature, KeyStore, Jwt}
use hopeit_engine.Web.Keys.Checked.{IsLoaded, Checked}
use hopeit_engine.Web.Authorization.{
  text, Server, Request, AuthSettings, extract_authorization, auth_methods, validate_authorization,
}
use hopeit_engine.Web.Authorization.Decides.{Authorizes, validate_authorization-Authorizes}
use hopeit_engine.Web.Authorization.Shared.{
  Heap, request_start, auth_info_of, basic_request, unsecured_request, auth_info_is_shared,
}
use hopeit_engine.Config.Defs.{unsecured}
use hopeit_engine.Web.Handlers.{
  Steps, handle_post_invocation, handle_get_invocation, handle_multipart_invocation,
}
use hopeit_engine.Web.Handlers.Gate.{Gated, parts_of, handlers-Gated}

abbrev load : String → Result LoadError ℕ
load app_key = if str_eq app_key "app" then ok 1 else err file_not_found

abbrev jwt : Jwt ℕ String
jwt = record {
  unverified_app = λ token. ok (some "app");
  verified = λ key token. if str_eq token "T" then ok "user" else err invalid_signature;
}

abbrev no_keys : KeyStore ℕ
no_keys = record { public_keys = []; rejected_apps = [] }

no_keys-IsLoaded : IsLoaded load no_keys
unfolding lookup
no_keys-IsLoaded = record { cached = λ app_key key found. cc; rejected = λ app_key found. cc }

abbrev fresh : Server ℕ String
fresh = record {
  auth_info = record { domain = none; auth_type = none; allowed = none; payload = none };
  keys = no_keys;
}

abbrev settings : AuthSettings
settings = record { event_auth = basic ∷ bearer ∷ []; default_auth_methods = none }

abbrev with_token : Request
with_token = record { authorization = some "Bearer T"; refresh_cookie = none }

abbrev echo : Steps String
echo = record {
  preprocess = λ p. ok (p, none);
  execute = λ p. ok p;
  postprocess = λ p. ok (p, none);
}

validate_authorization-Authorizes_example :
    Authorizes load jwt
      (split b' ' (extract_authorization (auth_methods settings) with_token))
      (basic ∷ bearer ∷ [])
      fresh
      (validate_authorization load jwt settings (basic ∷ bearer ∷ []) with_token fresh)
validate_authorization-Authorizes_example =
    validate_authorization-Authorizes load jwt settings (basic ∷ bearer ∷ []) with_token fresh
      no_keys-IsLoaded

alice_cut : split b' ' "Basic alice" ≡ "Basic" ∷ "alice" ∷ []
unfolding split
alice_cut = refl

bob_cut : split b' ' "Basic bob" ≡ "Basic" ∷ "bob" ∷ []
unfolding split
bob_cut = refl

abbrev dicts : Heap ℕ String
dicts = record { server = fresh; others = [] }

auth_info_is_shared_example :
    let (first, h1) = request_start "save" dicts in
    let h2 = basic_request load jwt first "Basic alice" h1 in
    let (second, h3) = request_start "list_all" h2 in
    ((auth_info_of first h2).payload ≡ some (text "alice"))
    × ((auth_info_of first (basic_request load jwt second "Basic bob" h3)).payload
        ≡ some (text "bob"))
    × ((auth_info_of second (unsecured_request load jwt second h3)).auth_type ≡ some unsecured)
    × ((auth_info_of second (unsecured_request load jwt second h3)).payload ≡ some (text "alice"))
auth_info_is_shared_example =
    auth_info_is_shared load jwt dicts "save" "list_all" "Basic alice" "alice" "Basic bob" "bob"
      alice_cut bob_cut refl refl

handlers-Gated_example :
    Gated load jwt echo (parts_of (ok settings) with_token) (basic ∷ bearer ∷ []) fresh (
      handle_post_invocation load jwt echo
        (ok settings)
        (basic ∷ bearer ∷ [])
        (ok (some "x"))
        with_token
        fresh)
    × Gated load jwt echo (parts_of (ok settings) with_token) (basic ∷ bearer ∷ []) fresh (
        handle_get_invocation load jwt echo
          (ok settings)
          (basic ∷ bearer ∷ [])
          none
          with_token
          fresh)
    × Gated load jwt echo (parts_of (ok settings) with_token) (basic ∷ bearer ∷ []) fresh (
        handle_multipart_invocation load jwt echo
          (ok settings)
          (basic ∷ bearer ∷ [])
          (ok tt)
          with_token
          fresh)
handlers-Gated_example =
    handlers-Gated load jwt echo (ok settings) (basic ∷ bearer ∷ []) (ok (some "x")) none (ok tt)
      with_token fresh no_keys-IsLoaded
