-- ===== src/Auth/Sessions/Refresh.antt =====
-- reana_server/auth/sessions.py: `_refresh_locked_session` and what it calls.
use reana_server.Prelude.{
  ℕ, ◌+◌, String, Bool, true, false, Option, none, some, ◌&&◌, not, leb, if◌then◌else◌, str_eq,
  or_default,
}
use reana_server.Auth.Errors.{AuthError, invalid_token, Result, ok, err}
use reana_server.Auth.Exec.{Exec, pure, raise, lift, ◌>>=◌, ◌>>◌}
use reana_server.Auth.Sessions.{Session, Redis, AuthConfig}
use reana_server.Auth.Sessions.Store.{
  given, same, delete_session, store_session, get_session, session_matches_identity,
}

-- `RefreshResult`
pub data RefreshResult : Type 0 where
  success : String → RefreshResult
  terminal transient : RefreshResult

-- The claims of a validated token.
pub record Claims : Type 0 where
  pub iss : Option String
  pub sub : Option String

-- The body of the issuer's token response.
pub record TokenBody : Type 0 where
  pub access_token : String
  pub refresh_token : Option String
  pub id_token : Option String

-- What the request for new tokens meets: an error in the lookup of the endpoint, a failed
-- transport, a status and the `error` of its body, or a 200 whose body is unusable (`none`).
pub data Response : Type 0 where
  endpoint_error : AuthError → Response
  transport_failure : Response
  status : ℕ → Option String → Response
  answer : Option TokenBody → Response

pub data Outcome : Type 0 where
  refreshed : TokenBody → Outcome
  rejected failed : Outcome

-- `_request_refreshed_tokens`
unfoldable pub request_refreshed_tokens : Response → Result Outcome
request_refreshed_tokens (endpoint_error e) = err e
request_refreshed_tokens transport_failure = ok failed
request_refreshed_tokens (status code error) =
    if same error "invalid_grant" then ok rejected else ok failed
request_refreshed_tokens (answer none) = ok failed
request_refreshed_tokens (answer (some body)) = ok (refreshed body)

-- `validate_access_token` and `validate_id_token` (tokens.py), with the keys and the clock that they
-- read put in.
pub record Validators : Type 0 where
  pub access : String → Result Claims
  pub id : String → Result Claims

-- The surroundings of a refresh: the clock where a session has no creation time, at the check of
-- its age and at its storing; the issuer's answer.
pub record Surroundings : Type 0 where
  pub default_created : ℕ
  pub checked : ℕ
  pub stored : ℕ
  pub response : Response

abbrev pub same_option : Option String → Option String → Bool
same_option none none = true
same_option (some a) (some b) = str_eq a b
same_option _ _ = false

-- `claims.get("iss") != session["iss"] or …`, negated
abbrev pub same_identity : Claims → Session → Bool
same_identity claims x = same_option claims.iss x.iss && same_option claims.sub x.sub

abbrev checked_id_token : Session → String → Result Claims → Result (Option String)
checked_id_token x id_token (err e) = err e
checked_id_token x id_token (ok claims) =
    if same_identity claims x then ok (some id_token) else err invalid_token

-- `_refreshed_id_token`
unfoldable pub refreshed_id_token : Validators → Option String → Session → Result (Option String)
refreshed_id_token v none x = ok (some (or_default x.idt ""))
refreshed_id_token v (some id_token) x =
    if str_eq id_token ""
    then ok (some (or_default x.idt ""))
    else checked_id_token x id_token (v.id id_token)

-- `body.get("refresh_token") or session["rt"]`
abbrev pub rotated : Option String → Option String → Option String
rotated none old = old
rotated (some new) old = if str_eq new "" then old else some new

module _ (redis : Redis) (config : AuthConfig) (v : Validators) where
  open redis use {State, set, get, exec_delete}

  abbrev pub ended : String → Exec State RefreshResult
  ended sid = delete_session redis sid >> pure terminal

  -- `try: delete_session(sid) except SessionUnavailableError: pass`
  abbrev pub try_ended : String → Exec State RefreshResult
  try_ended sid s = (ok terminal, (delete_session redis sid s).1)

  -- The session that a refresh stores in the place of `x`.
  abbrev pub renewed : Session → ℕ → TokenBody → Option String → Session
  renewed x created_at body id_token = record {
    rt = rotated body.refresh_token x.rt;
    idt = id_token;
    at = some body.access_token;
    iss = x.iss;
    sub = x.sub;
    cid = x.cid;
    created_at = some created_at;
  }

  abbrev settled : String → Bool → Exec State RefreshResult
  settled token true = pure (success token)
  settled token false = pure terminal

  -- The storing of the new tokens, once they have been validated.
  unfoldable pub renew :
      Surroundings → String → Session → ℕ → TokenBody → Option String → Exec State RefreshResult
  renew w sid x created_at body id_token =
      store_session redis config w.stored sid (renewed x created_at body id_token) created_at true
      >>= settled body.access_token

  -- An InvalidTokenError ends the session; any other error is passed on.
  abbrev pub on_invalid {ℓ} :
      {A : Type ℓ} → String → Result A → (A → Exec State RefreshResult) → Exec State RefreshResult
  on_invalid sid (ok a) k = k a
  on_invalid sid (err invalid_token) k = ended sid
  on_invalid sid (err e) k = raise e

  -- What `_refresh_locked_session` does with the issuer's answer.
  unfoldable pub redeem : Surroundings → String → Session → ℕ → Outcome → Exec State RefreshResult
  redeem w sid x created_at rejected = try_ended sid
  redeem w sid x created_at failed = pure transient
  redeem w sid x created_at (refreshed body) = on_invalid sid (v.access body.access_token) λ claims.
      if same_identity claims x
      then on_invalid sid (refreshed_id_token v body.id_token x) (renew w sid x created_at body)
      else ended sid

  -- The binding of a stored session to the configured issuer and client.
  unfoldable pub is_bound : Session → Bool
  is_bound x = same x.iss config.issuer && same x.cid config.web_client_id && given x.sub

  -- The checks of `_refresh_locked_session`, then the request to the issuer, during which other
  -- clients of Redis do `meanwhile`.
  unfoldable pub refresh_stored :
      (State → State)
      → Surroundings
      → String
      → String
      → String
      → Option Session
      → Exec State RefreshResult
  refresh_stored meanwhile w sid issuer subject none = pure terminal
  refresh_stored meanwhile w sid issuer subject (some x) =
      let created_at = or_default x.created_at w.default_created in
      if not (given x.rt)
      then pure terminal
      else if not (is_bound x)
      then ended sid
      else if not (session_matches_identity x issuer subject)
      then pure terminal
      else if leb (created_at + config.session_ttl) w.checked
      then ended sid
      else λ s.
          ((lift (request_refreshed_tokens w.response) >>= redeem w sid x created_at) (meanwhile s))

  unfoldable pub refresh_locked_session :
      (State → State) → Surroundings → String → String → String → Exec State RefreshResult
  refresh_locked_session meanwhile w sid issuer subject =
      get_session redis sid >>= refresh_stored meanwhile w sid issuer subject
