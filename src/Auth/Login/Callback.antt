-- ===== src/Auth/Login/Callback.antt =====
-- reana_server/rest/auth.py: `oauth_callback`.
use reana_server.Prelude.{
  ℕ, String, Bool, true, false, Option, none, some, ◌||◌, if◌then◌else◌, str_eq, or_default,
}
use reana_server.Auth.Errors.{
  AuthError, issuer_unavailable, issuer_key_unavailable, unknown_key_healthy_backoff,
  issuer_misconfigured, invalid_token, csrf_error, terminal_session, missing_role,
  provisioning_error, session_unavailable, value_error, unexpected_error, Result, ok, err,
}
use reana_server.Auth.Exec.{Exec, pure, raise, ◌>>=◌}
use reana_server.Auth.Sessions.{Session, Redis, AuthConfig}
use reana_server.Auth.Sessions.Store.{
  delete_session, store_session, get_session, session_matches_identity,
}
use reana_server.Auth.Login.{
  safe_next_url, StateData, Serializer, state_accepted, state_rejected, state_raises, Consumption,
  consume_state,
}

-- The validated claims that are read; the validators require both.
pub record Subject : Type 0 where
  pub iss : String
  pub sub : String

pub record TokenBody : Type 0 where
  pub access_token : String
  pub id_token : Option String
  pub refresh_token : Option String

-- How the exchange of the code ends: its exceptions that are caught, or a body.
pub data Exchange : Type 0 where
  misconfigured failed : Exchange
  tokens : TokenBody → Exchange

-- The calls to the issuer and to the database. The exchange is given the PKCE verifier, the
-- validation of the ID token the nonce; `provision` is the exception of `get_or_provision_user`.
pub record Calls : Type 0 where
  pub exchange : String → Exchange
  pub validate_access_token : String → Result Subject
  pub validate_id_token : Option String → String → Result String
  pub provision : Subject → String → Option AuthError

-- What is read of the request, and the session id that is drawn.
pub record Arrival (Cookie : Type 0) : Type 0 where
  pub bff_active : Bool
  pub state_param : String
  pub state_cookie : Option Cookie
  pub has_error : Bool
  pub old_sid : Option String
  pub now : ℕ
  pub stored_at : ℕ
  pub sid : String

-- What the URL of a redirect is made of: a page, or the arguments of `_login_error_redirect`, whose
-- work on the URL is left out.
pub data Target : Type 0 where
  page : String → Target
  login_error : String → String → Target

-- `signed_in` has the access token and the session id of `set_auth_cookies`.
pub record Response : Type 0 where
  pub status : ℕ
  pub target : Option Target
  pub signed_in : Option (String × String)
  pub state_cleared : Bool

abbrev pub plain : ℕ → Bool → Response
plain status cleared = record {
  status = status;
  target = none;
  signed_in = none;
  state_cleared = cleared;
}

abbrev pub redirected : Target → Option (String × String) → Response
redirected target signed_in = record {
  status = 302;
  target = some target;
  signed_in = signed_in;
  state_cleared = true;
}

-- The except clauses of the validation; what they do not catch is an error of the server.
abbrev pub invalid : AuthError → ℕ
invalid (issuer_misconfigured why) = 500
invalid value_error = 500
invalid unexpected_error = 500
invalid issuer_unavailable = 502
invalid issuer_key_unavailable = 502
invalid unknown_key_healthy_backoff = 502
invalid invalid_token = 502
invalid csrf_error = 502
invalid terminal_session = 502
invalid (missing_role token) = 502
invalid provisioning_error = 502
invalid session_unavailable = 502

-- The except clauses of the provisioning; `none` is a user without the role, who goes on.
abbrev pub unprovisioned : String → AuthError → Option Response
unprovisioned next (missing_role token) = none
unprovisioned next issuer_unavailable = some (plain 503 true)
unprovisioned next issuer_key_unavailable = some (plain 503 true)
unprovisioned next unknown_key_healthy_backoff = some (plain 503 true)
unprovisioned next (issuer_misconfigured why) = some (plain 500 true)
unprovisioned next provisioning_error = some (redirected (login_error next "provisioning") none)
unprovisioned next invalid_token = some (plain 500 false)
unprovisioned next csrf_error = some (plain 500 false)
unprovisioned next terminal_session = some (plain 500 false)
unprovisioned next session_unavailable = some (plain 500 false)
unprovisioned next value_error = some (plain 500 false)
unprovisioned next unexpected_error = some (plain 500 false)

abbrev pub same_subject : Subject → Result String → Result Subject
same_subject claims (err e) = err e
same_subject claims (ok sub) = if str_eq sub claims.sub then ok claims else err invalid_token

abbrev pub with_nonce : Calls → TokenBody → Option String → Subject → Result Subject
with_nonce calls body none claims = err invalid_token
with_nonce calls body (some nonce) claims =
    if str_eq nonce ""
    then err invalid_token
    else same_subject claims (calls.validate_id_token body.id_token nonce)

abbrev pub after_access : Calls → TokenBody → Option String → Result Subject → Result Subject
after_access calls body drawn (err e) = err e
after_access calls body drawn (ok claims) = with_nonce calls body drawn claims

-- The `try` block that binds the tokens to the login request.
unfoldable pub validated : Calls → TokenBody → Option String → Result Subject
validated calls body drawn =
    after_access calls body drawn (calls.validate_access_token body.access_token)

module _ (redis : Redis) where
  open redis use {State}

  abbrev pub forget : Subject → String → Option Session → Exec State Bool
  forget claims old none = pure false
  forget claims old (some x) =
      if session_matches_identity x claims.iss claims.sub
      then delete_session redis old
      else pure false

  -- The session that this browser had before.
  abbrev pub forget_old : Subject → String → Option String → Exec State Bool
  forget_old claims sid none = pure false
  forget_old claims sid (some old) =
      if str_eq old "" || str_eq old sid
      then pure false
      else get_session redis old >>= forget claims old

  abbrev pub new_session : AuthConfig → Subject → TokenBody → ℕ → Session
  new_session config claims body now = record {
    rt = some (or_default body.refresh_token "");
    idt = body.id_token;
    at = some body.access_token;
    iss = some claims.iss;
    sub = some claims.sub;
    cid = some config.web_client_id;
    created_at = some now;
  }

  abbrev pub after_stored : Subject → String → Option String → Bool → Exec State Bool
  after_stored claims sid old false = raise session_unavailable
  after_stored claims sid old true = forget_old claims sid old

  module _ (serializer : Serializer) (config : AuthConfig) (calls : Calls)
      (a : Arrival serializer.Cookie) where
    unfoldable pub establish : Subject → TokenBody → Exec State Bool
    establish claims body =
        store_session redis config a.stored_at a.sid (new_session config claims body a.now) a.now
          false
        >>= after_stored claims a.sid a.old_sid

    -- `set_auth_cookies`, or the answer of a session store that fails.
    abbrev pub established : String → String → Result Bool → Response
    established next token (ok b) = redirected (page next) (some (token, a.sid))
    established next token (err e) = plain 503 true

    abbrev pub signing_in : String → TokenBody → Subject → State → Response × State
    signing_in next body claims s = (
      established next body.access_token (establish claims body s).0,
      (establish claims body s).1,
    )

    abbrev pub refused_or :
        String → TokenBody → Subject → Option Response → State → Response × State
    refused_or next body claims none s = signing_in next body claims s
    refused_or next body claims (some r) s = (r, s)

    abbrev pub or_refused : String → Option AuthError → Option Response
    or_refused next none = none
    or_refused next (some e) = unprovisioned next e

    abbrev pub after_validation : String → TokenBody → Result Subject → State → Response × State
    after_validation next body (err e) s = (plain (invalid e) false, s)
    after_validation next body (ok claims) s =
        refused_or next body claims (or_refused next (calls.provision claims body.access_token)) s

    abbrev pub after_exchange : String → Option String → Exchange → State → Response × State
    after_exchange next drawn misconfigured s = (plain 500 false, s)
    after_exchange next drawn failed s = (plain 502 false, s)
    after_exchange next drawn (tokens body) s =
        after_validation next body (validated calls body drawn) s

    abbrev pub returned : Bool → StateData → State → Response × State
    returned true d s = (redirected (login_error (safe_next_url d.next) "authorization") none, s)
    returned false d s =
        after_exchange (safe_next_url d.next) d.nonce (calls.exchange (or_default d.verifier "")) s

    abbrev pub consumed : Consumption → State → Response × State
    consumed state_rejected s = (plain 403 false, s)
    consumed state_raises s = (plain 500 false, s)
    consumed (state_accepted d) s = returned a.has_error d s

    abbrev pub if_active : Bool → State → Response × State
    if_active false s = (plain 404 false, s)
    if_active true s =
        consumed (consume_state serializer a.now a.state_cookie a.state_param "bff") s

    unfoldable pub oauth_callback : State → Response × State
    oauth_callback s = if_active a.bff_active s
