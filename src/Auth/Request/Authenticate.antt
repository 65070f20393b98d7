-- ===== src/Auth/Request/Authenticate.antt =====
-- reana_server/decorators.py: `_authenticate` and its helpers.
use reana_server.Prelude.{
  ℕ, String, Bool, true, false, Option, none, some, ◌&&◌, not, ltb, if◌then◌else◌, str_eq,
  or_default,
}
use reana_server.Auth.Errors.{
  AuthError, unknown_key_healthy_backoff, invalid_token, csrf_error, terminal_session, missing_role,
  session_unavailable, Result, ok, err,
}
use reana_server.Auth.Exec.{Exec, pure, raise, lift, ◌>>=◌}
use reana_server.Auth.Sessions.Refresh.{RefreshResult, success, terminal, transient}
use reana_server.Auth.Request.{Identity, Request}
use reana_server.Auth.Request.Headers.{bearer_token, csrf_verdict}

-- `except InvalidTokenError`; `_TerminalSessionError` is one too.
abbrev pub is_invalid : AuthError → Bool
is_invalid invalid_token = true
is_invalid terminal_session = true
is_invalid _ = false

module _ (identity : Identity) where
  open identity use {
    State, Claims, User, issuer, subject, validate_access_token, decode_expired_token,
    refresh_session, delete_session, require_role, get_or_provision_user, user_of_secret,
    gitlab_webhook_secret, gitlab_webhook_secret_expires_at,
  }

  -- The state during a request: the application's, and the token and claims in flask's `g`.
  abbrev pub Local : Type 0
  Local = State × Option (String × Claims)

  abbrev pub outside : {A : Type 0} → Exec State A → Exec Local A
  outside m (s, g) = ((m s).0, ((m s).1, g))

  abbrev pub remembered :
      String → Result Claims → Option (String × Claims) → Option (String × Claims)
  remembered raw (ok claims) g = some (raw, claims)
  remembered raw (err e) g = g

  abbrev pub validate_now : String → Exec Local Claims
  validate_now raw (s, g) =
      let r = validate_access_token raw s in (r.0, (r.1, remembered raw r.0 g))

  abbrev pub validate_unless : Option (String × Claims) → String → Exec Local Claims
  validate_unless none raw = validate_now raw
  validate_unless (some (token, claims)) raw =
      if str_eq token raw then pure claims else validate_now raw

  -- `_validate_token_once`
  unfoldable pub validate_token_once : String → Exec Local Claims
  validate_token_once raw l = validate_unless l.1 raw l

  -- `_authorize_and_provision`
  unfoldable pub authorize_and_provision : Claims → String → Exec Local User
  authorize_and_provision claims raw = lift (require_role claims) >>= λ _.
      outside (get_or_provision_user claims raw) >>= λ u. pure u.0

  abbrev pub caught : {A : Type 0} → (AuthError → Exec Local A) → Result A → Exec Local A
  caught handler (ok a) = pure a
  caught handler (err e) = handler e

  -- `try … except`: the state stays as it was where the error was raised.
  abbrev pub catch : {A : Type 0} → Exec Local A → (AuthError → Exec Local A) → Exec Local A
  catch m handler l = caught handler (m l).0 (m l).1

  abbrev pub on_healthy_backoff : AuthError → Exec Local Claims
  on_healthy_backoff unknown_key_healthy_backoff = raise invalid_token
  on_healthy_backoff e = raise e

  -- The path of a bearer token.
  unfoldable pub authenticate_bearer : String → Exec Local (Option User × Option String)
  authenticate_bearer raw = catch (validate_token_once raw) on_healthy_backoff >>= λ claims.
      authorize_and_provision claims raw >>= λ u. pure (some u, none)

  abbrev pub unusable : String → AuthError → Exec Local Claims
  unusable sid e =
      if is_invalid e
      then outside (delete_session sid) >>= (λ _. raise terminal_session)
      else raise e

  -- The claims of a refreshed token; a session whose new token is invalid is deleted.
  abbrev pub settle : String → RefreshResult → Exec Local (Claims × String)
  settle sid terminal = raise terminal_session
  settle sid transient = raise session_unavailable
  settle sid (success token) =
      catch (outside (validate_access_token token)) (unusable sid) >>= λ claims.
      pure (claims, token)

  abbrev pub definitively_invalid : AuthError → Exec Local Claims
  definitively_invalid e = if is_invalid e then raise terminal_session else raise e

  -- The transparent refresh of a session.
  unfoldable pub refreshed_claims : String → Option String → Exec Local (Claims × String)
  refreshed_claims raw cookie =
      catch (outside (decode_expired_token raw)) definitively_invalid >>= λ claims. elim cookie [
        | none ↦ raise terminal_session
        | some sid ↦
            if str_eq sid ""
            then raise terminal_session
            else outside (refresh_session sid raw (issuer claims) (subject claims)) >>= settle sid
      ]

  abbrev pub revoked : String → AuthError → Exec Local User
  revoked token (missing_role carried) = raise (missing_role (some token))
  revoked token e = raise e

  abbrev pub with_claims : String → Claims → Exec Local (Option User × Option String)
  with_claims raw claims = authorize_and_provision claims raw >>= λ u. pure (some u, none)

  abbrev pub with_refreshed : Claims × String → Exec Local (Option User × Option String)
  with_refreshed (claims, token) =
      catch (authorize_and_provision claims token) (revoked token) >>= λ u.
      pure (some u, some token)

  abbrev pub after_validation :
      String → Option String → Result Claims → Exec Local (Option User × Option String)
  after_validation raw cookie (ok claims) = with_claims raw claims
  after_validation raw cookie (err e) =
      if is_invalid e then refreshed_claims raw cookie >>= with_refreshed else raise e

  abbrev pub unless_forged :
      Result Bool → Request → String → Exec Local (Option User × Option String)
  unless_forged (err e) request raw = raise e
  unless_forged (ok false) request raw = raise csrf_error
  unless_forged (ok true) request raw = λ l.
      after_validation raw request.session_cookie (validate_token_once raw l).0
        (validate_token_once raw l).1

  -- The path of the cookie.
  unfoldable pub authenticate_cookie : Request → String → Exec Local (Option User × Option String)
  authenticate_cookie request raw = unless_forged (csrf_verdict request) request raw

  abbrev pub is_current : String → ℕ → User → Bool
  is_current secret now u =
      str_eq (or_default (gitlab_webhook_secret u) "") secret
      && ltb now (or_default (gitlab_webhook_secret_expires_at u) 0)

  abbrev pub accepted : String → ℕ → Option User → Exec Local User
  accepted secret now none = raise invalid_token
  accepted secret now (some u) = if is_current secret now u then pure u else raise invalid_token

  -- `_get_user_from_gitlab_secret`, at the time `now`; a secret without an expiry is refused,
  -- and as time 0 is not after `now`, so it is here.
  unfoldable pub get_user_from_gitlab_secret : String → ℕ → Exec Local User
  get_user_from_gitlab_secret secret now = outside (user_of_secret secret) >>= accepted secret now

  abbrev pub by_secret : Bool → Option String → ℕ → Exec Local (Option User × Option String)
  by_secret true (some secret) now =
      get_user_from_gitlab_secret secret now >>= λ u. pure (some u, none)
  by_secret _ _ now = pure (none, none)

  abbrev pub without_bearer :
      Bool → Bool → ℕ → Request → Option String → Exec Local (Option User × Option String)
  without_bearer bff_enabled include_gitlab now request none =
      by_secret include_gitlab request.x_gitlab_token now
  without_bearer bff_enabled include_gitlab now request (some raw) =
      if not (str_eq raw "") && bff_enabled
      then authenticate_cookie request raw
      else by_secret include_gitlab request.x_gitlab_token now

  -- `_authenticate`
  unfoldable pub authenticate : Bool → Bool → ℕ → Request → Exec Local (Option User × Option String)
  authenticate bff_enabled include_gitlab now request = elim (bearer_token request.authorization) [
    | some raw ↦ authenticate_bearer raw
    | none ↦ without_bearer bff_enabled include_gitlab now request request.auth_cookie
  ]
