-- ===== src/Client/Tokens.antt =====
-- The access tokens of a client: `_ensure_token`, `_create_access_token` and `_auth_headers` of
-- plugins/clients/apps-client/src/hopeit/apps_client/__init__.py, and `new_token` of
-- engine/src/hopeit/toolkit/auth.py. Signing (`jwt.encode` with the app's private key) is a
-- parameter; its error stands for a missing key.
use hopeit_engine.Common.{
  ℕ, ◌+◌, ◌<◌, ◌≡◌, refl, inl, inr, Bool-cases, Option, none, some, String, Result, ok, err, ◌>>=◌,
  leb, if◌then◌else◌, arith,
}

pub record Claims : Type 0 where
  pub iat : ℕ
  pub exp : ℕ
  pub app : String

pub data AuthStrategy : Type 0 where
  client_app_public_key forward_context unsecured : AuthStrategy

-- The Authorization header of a request, if it has one.
pub data Authorization (Token : Type 0) : Type 0 where
  bearer : Option Token → Authorization Token
  forwarded : String → String → Authorization Token
  absent : Authorization Token

pub data TokenError : Type 0 where
  private_key_not_found : String → TokenError
  key_error : String → TokenError

pub record Tokens (Token : Type 0) : Type 0 where
  pub token : Option Token
  pub token_expire : ℕ

-- `auth_info['auth_type'].value` and `auth_info['payload']` of an event context.
pub record AuthInfo : Type 0 where
  pub auth_type : Option String
  pub payload : Option String

module _ {Token : Type 0} (sign : Claims → Result TokenError Token) (app_key : String) where
  pub create_access_token : ℕ → ℕ → Result TokenError Token
  create_access_token now_ts timeout =
      sign (record { iat = now_ts; exp = now_ts + timeout; app = app_key })

  renewed :
      ℕ → Tokens Token → Result TokenError Token → Result TokenError (Option Token) × Tokens Token
  renewed now_ts s (ok t) = (ok (some t), record { token = some t; token_expire = now_ts + 50 })
  renewed now_ts s (err e) = (err e, s)

  pub ensure_token : ℕ → Tokens Token → Result TokenError (Option Token) × Tokens Token
  unfolding renewed create_access_token
  ensure_token now_ts s =
      if leb s.token_expire now_ts
      then renewed now_ts s (create_access_token now_ts 60)
      else (ok s.token, s)

  forward : AuthInfo → Result TokenError (Authorization Token)
  forward info = elim info.auth_type [
    | none ↦ err (key_error "auth_type")
    | some t ↦ elim info.payload [ none ↦ err (key_error "payload") | some p ↦ ok (forwarded t p) ]
  ]

  pub auth_headers :
      AuthStrategy
      → AuthInfo
      → ℕ
      → Tokens Token
      → Result TokenError (Authorization Token) × Tokens Token
  auth_headers client_app_public_key info now_ts s =
      let (r, s') = ensure_token now_ts s in (r >>= λ t. ok (bearer t), s')
  auth_headers forward_context info now_ts s = (forward info, s)
  auth_headers unsecured info now_ts s = (ok absent, s)

  -- A token that is held was signed for this app, to expire ten seconds after it is renewed.
  abbrev pub IsFresh : Tokens Token → Type 0
  IsFresh s = elim s.token [
    | none ↦ s.token_expire ≡ 0
    | some t ↦
        (c : Claims) × (sign c ≡ ok t)
        × (c.app ≡ app_key)
        × (c.exp ≡ s.token_expire + 10)
        × (c.exp ≡ c.iat + 60)
  ]

  -- What a call of `ensure_token` at `now` promises.
  abbrev pub Serves : ℕ → Result TokenError (Option Token) × Tokens Token → Type 0
  Serves now (ok none, s) = ⊥
  Serves now (ok (some t), s) =
      IsFresh s × ((c : Claims) × (sign c ≡ ok t) × (c.app ≡ app_key) × (now + 10 < c.exp))
  Serves now (err e, s) =
      IsFresh s × (sign (record { iat = now; exp = now + 60; app = app_key }) ≡ err e)

  renewed-Serves :
      (now : ℕ) (s : Tokens Token) (r : Result TokenError Token)
      → IsFresh s
      → sign (record { iat = now; exp = now + 60; app = app_key }) ≡ r
      → Serves now (renewed now s r)
  unfolding renewed
  renewed-Serves now s (ok t) f e =
      let c : Claims = record { iat = now; exp = now + 60; app = app_key } in
      ((c, e, refl, omega arith, refl), (c, e, refl, omega arith))
  renewed-Serves now s (err x) f e = (f, e)

  kept-Serves :
      (now : ℕ) (t : Option Token) (expire : ℕ)
      → IsFresh (record { token = t; token_expire = expire })
      → now < expire
      → Serves now (ok t, record { token = t; token_expire = expire })
  kept-Serves now none expire f h = absurd (omega arith)
  kept-Serves now (some t) expire (c, signed, app, exp, life) h =
      ((c, signed, app, exp, life), (c, signed, app, omega arith))

  -- From a client state whose token, if any, is fresh, a call always gets a token that was signed
  -- for this app and is valid for more than ten seconds after the call, and the new state is fresh
  -- again; the only failure is the signing's, and it leaves the state fresh.
  pub ensure_token-Serves :
      (now : ℕ) (s : Tokens Token) → IsFresh s → Serves now (ensure_token now s)
  unfolding ensure_token
  ensure_token-Serves now s f = elim (Bool-cases (leb s.token_expire now)) [
    | inl due ↦ rw due (renewed-Serves now s _ f refl)
    | inr held ↦ rw held (kept-Serves now s.token s.token_expire f (ground arith))
  ]
