-- ===== src/Web/Keys/Checked.antt =====
-- Which tokens `validate_token` of engine/src/hopeit/toolkit/auth.py accepts.
use hopeit_engine.Common.{
  ◌≡◌, refl, ◌⊎◌, inl, inr, Bool-cases, true, false, Option, none, some, String, Result, ok, err,
  ◌>>=◌, str_eq, eq_iff,
}
use hopeit_engine.Common.Dict.{lookup, insert-lookup}
use hopeit_engine.Web.Keys.{
  LoadError, file_not_found, load_failed, AuthError, KeyStore, Jwt, is_rejected, is_caught, caught,
  loaded, load_app_public_key, app_public_key, verify_for, decode_token, validate_token, Signed,
}

module _ {Key : Type 0} (load : String → Result LoadError Key) where
  -- Every cached key is the one in its file, and no rejected app has a file.
  pub record IsLoaded (s : KeyStore Key) : Type 0 where
    pub cached :
        (app_key : String) (key : Key)
        → lookup app_key s.public_keys ≡ some key
        → load app_key ≡ ok key
    pub rejected :
        (app_key : String)
        → is_rejected app_key s.rejected_apps ≡ true
        → load app_key ≡ err file_not_found

  -- A key is the app's, and an error says that it has none or that reading it failed otherwise.
  abbrev pub Keyed : String → Result AuthError Key × KeyStore Key → Type 0
  Keyed app_key (ok key, s) = IsLoaded s × (load app_key ≡ ok key)
  Keyed app_key (err e, s) =
      IsLoaded s
      × (l : LoadError) × (load app_key ≡ err l)
      × ((l ≡ file_not_found) ⊎ (is_caught e ≡ false))

  loaded-Keyed :
      (s : KeyStore Key) (app_key : String) (r : Result LoadError Key)
      → IsLoaded s
      → load app_key ≡ r
      → Keyed app_key (loaded load s app_key r)
  unfolding loaded
  loaded-Keyed s app_key (ok key) v e = (
    record {
      cached = λ a k found. elim (insert-lookup app_key a key k s.public_keys found) [
        | inl (same, value) ↦ rw (← same, ← value) e
        | inr old ↦ v.cached a k old
      ];
      rejected = v.rejected;
    },
    e,
  )
  loaded-Keyed s app_key (err file_not_found) v e = (
    record {
      cached = v.cached;
      rejected = λ a found. elim (Bool-cases (str_eq app_key a)) [
        | inl same ↦ rw (← (eq_iff app_key a).0 same) e
        | inr other ↦ v.rejected a (rw other at found)
      ];
    },
    file_not_found,
    e,
    inl refl,
  )
  loaded-Keyed s app_key (err (load_failed x)) v e = (v, load_failed x, e, inr refl)

  app_public_key-Keyed :
      (s : KeyStore Key) (app_key : String)
      → IsLoaded s
      → Keyed app_key (app_public_key load s app_key)
  unfolding app_public_key load_app_public_key
  app_public_key-Keyed s app_key v = found (lookup app_key s.public_keys) refl
    where
      found :
          (o : Option Key)
          → lookup app_key s.public_keys ≡ o
          → Keyed app_key
              (elim o [ none ↦ load_app_public_key load s app_key | some key ↦ (ok key, s) ])
      found (some key) e = (v, v.cached app_key key e)
      found none e = elim (Bool-cases (is_rejected app_key s.rejected_apps)) [
        | inl known ↦ rw known (v, file_not_found, v.rejected app_key known, inl refl)
        | inr new ↦ rw new (loaded-Keyed s app_key (load app_key) v refl)
      ]

module _ {Key Claims : Type 0} (load : String → Result LoadError Key) (jwt : Jwt Key Claims) where
  -- Claims are those of a signed token; with none, and with an error, the token is not signed; an error
  -- is none of those that a bad token gives.
  abbrev pub Checked : String → Result AuthError (Option Claims) × KeyStore Key → Type 0
  Checked token (ok (some c), s) = IsLoaded load s × Signed load jwt token c
  Checked token (ok none, s) = IsLoaded load s × ((c : Claims) → Signed load jwt token c → ⊥)
  Checked token (err e, s) =
      IsLoaded load s × (is_caught e ≡ false) × ((c : Claims) → Signed load jwt token c → ⊥)

  unsigned-Checked :
      (token : String) (e : AuthError) (s : KeyStore Key)
      → IsLoaded load s
      → ((c : Claims) → Signed load jwt token c → ⊥)
      → Checked token (caught (err e), s)
  unsigned-Checked token e s v unsigned = elim (Bool-cases (is_caught e)) [
    | inl bad ↦ rw bad (v, unsigned)
    | inr other ↦ rw other (v, other, unsigned)
  ]

  verified-Checked :
      (token app_key : String) (key : Key) (r : Result AuthError Claims) (s : KeyStore Key)
      → IsLoaded load s
      → jwt.unverified_app token ≡ ok (some app_key)
      → load app_key ≡ ok key
      → jwt.verified key token ≡ r
      → Checked token (caught r, s)
  verified-Checked token app_key key (ok c) s v named l e = (v, (app_key, key, named, l, e))
  verified-Checked token app_key key (err x) s v named l e =
      unsigned-Checked token x s v (λ c (a, k, n, m, d). cc)

  Keyed-Checked :
      (token app_key : String) (r : Result AuthError Key × KeyStore Key)
      → jwt.unverified_app token ≡ ok (some app_key)
      → Keyed load app_key r
      → Checked token (caught (r.0 >>= λ k. jwt.verified k token), r.1)
  Keyed-Checked token app_key (ok key, s) named (v, l) =
      verified-Checked token app_key key (jwt.verified key token) s v named l refl
  Keyed-Checked token app_key (err x, s) named (v, l, missing, kind) =
      unsigned-Checked token x s v (λ c (a, k, n, m, d). cc)

  pub validate_token-Checked :
      (s : KeyStore Key) (token : String)
      → IsLoaded load s
      → Checked token (validate_token load jwt s token)
  unfolding validate_token decode_token verify_for
  validate_token-Checked s token v = decoded (jwt.unverified_app token) refl
    where
      decoded :
          (r : Result AuthError (Option String))
          → jwt.unverified_app token ≡ r
          → Checked token
              (caught (verify_for load jwt s token r).0, (verify_for load jwt s token r).1)
      decoded (err x) e = unsigned-Checked token x s v (λ c (a, k, n, m, d). cc)
      decoded (ok none) e = (v, refl, λ c (a, k, n, m, d). cc)
      decoded (ok (some app_key)) e =
          Keyed-Checked token app_key (app_public_key load s app_key) e
            (app_public_key-Keyed load s app_key v)
