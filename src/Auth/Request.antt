-- ===== src/Auth/Request.antt =====
-- reana_server/decorators.py: the authentication of a request. What it calls in other modules is an
-- interface, `Identity`; the clock of the GitLab secret is given.
pub mod Headers
pub mod Authenticate
pub mod Signin
pub mod Credentials
pub mod Origins
pub mod Endings
pub mod Terminated
mod Tests
use reana_server.Prelude.{ℕ, String, Bool, Option}
use reana_server.Auth.Errors.{Result}
use reana_server.Auth.Exec.{Exec}
use reana_server.Auth.Sessions.Refresh.{RefreshResult}

-- The operations of reana_server/auth that a request calls, over the state of Redis, of the key
-- cache and of the database.
pub record Identity : Type 1 where
  pub State : Type 0
  pub Claims : Type 0
  pub User : Type 0
  pub issuer : Claims → String
  pub subject : Claims → String
  pub validate_access_token : String → Exec State Claims
  pub decode_expired_token : String → Exec State Claims
  -- session, token that expired, issuer, subject
  pub refresh_session : String → String → String → String → Exec State RefreshResult
  pub delete_session : String → Exec State Bool
  pub require_role : Claims → Result (Unit {0})
  pub get_or_provision_user : Claims → String → Exec State (User × Bool)
  -- the user whose secret has the digest of this one
  pub user_of_secret : String → Exec State (Option User)
  pub gitlab_webhook_secret : User → Option String
  pub gitlab_webhook_secret_expires_at : User → Option ℕ

-- What is read of a request; `authorization` is "" where the header is missing.
pub record Request : Type 0 where
  pub authorization : String
  pub method : String
  pub auth_cookie : Option String
  pub session_cookie : Option String
  pub csrf_cookie : Option String
  pub csrf_header : Option String
  pub x_gitlab_token : Option String
