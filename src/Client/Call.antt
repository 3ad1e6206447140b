-- ===== src/Client/Call.antt =====
-- `AppsClient.call` of plugins/clients/apps-client/src/hopeit/apps_client/__init__.py: the search
-- for the connection, the headers and the loop of tries. Sending a request is a parameter, by the
-- number of retries so far and the host; so are the numbers that `random.randint` draws.
pub mod Tries
use hopeit_engine.Common.{
  ℕ, zero, suc, ◌+◌, Bool, true, false, Option, none, some, List, [], ◌∷◌, ◌++◌, String, Result, ok,
  err, ◌>>=◌, ◌==◌, str_eq, if◌then◌else◌, split,
}
use hopeit_engine.Common.Dict.{lookup}
use hopeit_engine.Client.Balancer.{Balancer, Limits, next_available_host, success, failure}
use hopeit_engine.Client.Responses.{
  RequestError, os_error, server_exception, Codec, Response, parse_response,
}
use hopeit_engine.Client.Tokens.{
  Claims, AuthStrategy, Authorization, AuthInfo, Tokens, TokenError, auth_headers,
}

-- The exceptions that end a call.
pub data CallError : Type 0 where
  not_started : CallError
  app_connection_not_found : String → String → CallError
  no_token : TokenError → CallError
  no_hosts_available : CallError
  apps_client_exception : ℕ → CallError
  request_failed : RequestError → CallError
  unexpected_missing_result : CallError

-- The exceptions that the loop of tries catches.
abbrev pub is_retried : RequestError → Bool
is_retried os_error = true
is_retried server_exception = true
is_retried _ = false

-- The load balancer, and the hosts that requests were sent to, in order.
pub record Progress : Type 0 where
  pub balancer : Balancer
  pub sent : List ℕ

-- The part of `s.split("$")` before the first `$`.
abbrev pub first_part : List String → String → String
first_part [] s = s
first_part (p ∷ ps) s = p

module _ {A : Type 0} (l : Limits) (retries now_ts : ℕ) where
  -- `except (OSError, ServerException)`: what is left of the loop, `rest`, runs unless this was the
  -- last try.
  handle_error :
      RequestError
      → ℕ
      → ℕ
      → Progress
      → (Progress → Result CallError A × Progress)
      → Result CallError A × Progress
  handle_error e retry_count i p rest =
      if is_retried e
      then (let p' : Progress = record p { balancer = failure l p.balancer i now_ts } in
          let later = rest p' in
          if retry_count == retries then (err (apps_client_exception retry_count), p') else later)
      else (err (request_failed e), p)

  try_host :
      Result RequestError A
      → ℕ
      → ℕ
      → Progress
      → (Progress → Result CallError A × Progress)
      → Result CallError A × Progress
  try_host (ok a) retry_count i p rest = (ok a, record p { balancer = success p.balancer i })
  try_host (err e) retry_count i p rest = handle_error e retry_count i p rest

module _ {A : Type 0} (l : Limits) (retries now_ts : ℕ) (draw : ℕ → ℕ)
    (request : ℕ → ℕ → Result RequestError A) where
  -- `for retry_count in range(retries + 1)`, with `left` rounds left.
  pub tries : ℕ → ℕ → Progress → Result CallError A × Progress
  tries zero retry_count p = (err unexpected_missing_result, p)
  tries (suc left) retry_count p =
      let (found, b) = next_available_host p.balancer now_ts (draw retry_count) in
      elim found [
        | none ↦ (err no_hosts_available, record p { balancer = b })
        | some i ↦
            try_host l retries now_ts (request retry_count i) retry_count i
              (record { balancer = b; sent = p.sent ++ i ∷ [] }) (tries left (retry_count + 1))
      ]

-- The client, as `call` finds it. `conn_state` is set, with the session, by `start`.
pub record Client (Token T : Type 0) : Type 0 where
  pub app_key : String
  pub limits : Limits
  pub retries : ℕ
  pub auth_strategy : AuthStrategy
  pub event_connections : List (String × List (String × T))
  pub conn_state : Option Balancer
  pub tokens : Tokens Token

module _ {Token Kind Json T A : Type 0} (sign : Claims → Result TokenError Token)
    (codec : Codec Json T A)
    (send : Kind → Authorization Token → ℕ → ℕ → Result RequestError (Response Json))
    (draw : ℕ → ℕ) where
  pub get_event_connection : Client Token Kind → String → String → Result CallError Kind
  get_event_connection c context_event event_name =
      let base : String = first_part (split b'$' context_event) context_event in
      elim (lookup base c.event_connections) [
        | none ↦ err (app_connection_not_found event_name context_event)
        | some conns ↦ elim (lookup event_name conns) [
          | none ↦ err (app_connection_not_found event_name context_event)
          | some kind ↦ ok kind
        ]
      ]

  -- The tries of a started client, once the headers are made.
  call_with :
      Client Token Kind
      → Balancer
      → ℕ
      → T
      → String
      → Option (List (ℕ × T))
      → Kind
      → Authorization Token
      → Result CallError (List A) × Progress
  call_with c b now_ts datatype event_name responses kind auth =
      tries c.limits c.retries now_ts draw
        (λ retry_count i.
          send kind auth retry_count i >>= parse_response codec datatype event_name responses)
        (suc c.retries) 0 (record { balancer = b; sent = [] })

  -- The result, the client after the call, and the hosts that requests were sent to.
  pub call :
      Client Token Kind
      → ℕ
      → T
      → String
      → Option (List (ℕ × T))
      → String
      → AuthInfo
      → Result CallError (List A) × Client Token Kind × List ℕ
  unfolding call_with
  call c now_ts datatype event_name responses context_event info = elim c.conn_state [
    | none ↦ (err not_started, c, [])
    | some b ↦ elim (get_event_connection c context_event event_name) [
      | err e ↦ (err e, c, [])
      | ok kind ↦
          let (headers, tokens) =
            auth_headers sign c.app_key c.auth_strategy info now_ts c.tokens in
          elim headers [
            | err e ↦ (err (no_token e), record c { tokens = tokens }, [])
            | ok auth ↦
                let (r, p) = call_with c b now_ts datatype event_name responses kind auth in
                (r, record c { tokens = tokens; conn_state = some p.balancer }, p.sent)
          ]
    ]
  ]
