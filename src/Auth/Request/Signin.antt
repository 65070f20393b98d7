-- ===== src/Auth/Request/Signin.antt =====
-- reana_server/decorators.py: the answer of `signin_required`, and `check_quota`.
use reana_server.Prelude.{ℕ, String, Bool, true, false, Option, none, some, if◌then◌else◌, str_eq}
use reana_server.Auth.Errors.{
  AuthError, issuer_unavailable, issuer_key_unavailable, unknown_key_healthy_backoff,
  issuer_misconfigured, invalid_token, csrf_error, terminal_session, missing_role,
  provisioning_error, session_unavailable, value_error, unexpected_error, Result, ok, err,
}
use reana_server.Auth.Exec.{Exec, pure, lift, ◌>>=◌}
use reana_server.Auth.Sessions.Store.{given}
use reana_server.Auth.Request.{Identity, Request}
use reana_server.Auth.Request.Authenticate.{Local, authenticate}

-- What an answer does to the cookies of the browser: nothing, `clear_auth_cookies`,
-- `set_auth_cookies` with a token.
pub data Cookies : Type 0 where
  kept cleared : Cookies
  installed : String → Cookies

-- An answer, its texts left out; `code` is the machine-readable code.
pub record Answer : Type 0 where
  pub status : ℕ
  pub code : Option String
  pub cookies : Cookies

abbrev pub answer : ℕ → Option String → Cookies → Answer
answer status code cookies = record { status = status; code = code; cookies = cookies }

abbrev pub installing : Option String → Cookies
installing none = kept
installing (some token) = if str_eq token "" then kept else installed token

-- The except clauses of `signin_required`, in their order; an error of another class is passed on.
unfoldable pub refusal : Option String → AuthError → Result Answer
refusal denied terminal_session = ok (answer 401 (some "session_terminated") cleared)
refusal denied invalid_token = ok (answer 401 none kept)
refusal denied session_unavailable = ok (answer 503 none kept)
refusal denied issuer_unavailable = ok (answer 503 none kept)
refusal denied issuer_key_unavailable = ok (answer 503 none kept)
refusal denied unknown_key_healthy_backoff = ok (answer 503 none kept)
refusal denied (missing_role refreshed) =
    ok (answer 403 (if given denied then denied else none) (installing refreshed))
refusal denied csrf_error = ok (answer 403 none kept)
refusal denied (issuer_misconfigured why) = ok (answer 500 none kept)
refusal denied provisioning_error = ok (answer 403 none kept)
refusal denied value_error = ok (answer 403 none kept)
refusal denied unexpected_error = err unexpected_error

-- A refreshed token is set on the answer of the endpoint.
abbrev pub with_token : Option String → Answer → Answer
with_token none a = a
with_token (some token) a = if str_eq token "" then a else record a { cookies = installed token }

module _ (identity : Identity) where
  open identity use {State, User}

  abbrev pub served :
      (User → Exec (Local identity) Answer)
      → Option String
      → Result (Option User × Option String)
      → Exec (Local identity) Answer
  served endpoint denied (err e) = lift (refusal denied e)
  served endpoint denied (ok (none, refreshed)) = pure (answer 401 none kept)
  served endpoint denied (ok (some u, refreshed)) =
      endpoint u >>= λ a. pure (with_token refreshed a)

  -- `signin_required`; `denied` is `access_denied_code`.
  unfoldable pub signin_required :
      Bool
      → Bool
      → Option String
      → ℕ
      → (User → Exec (Local identity) Answer)
      → Request
      → Exec (Local identity) Answer
  signin_required bff_enabled include_gitlab denied now endpoint request l =
      let r = authenticate identity bff_enabled include_gitlab now request l in
      served endpoint denied r.0 r.1

  -- `check_quota`, for the answer of `user.has_exceeded_quota()`: another exception is a 500.
  unfoldable pub check_quota :
      (User → Result Bool)
      → (User → Exec (Local identity) Answer)
      → User
      → Exec (Local identity) Answer
  check_quota has_exceeded_quota endpoint u = elim (has_exceeded_quota u) [
    | ok true ↦ pure (answer 403 none kept)
    | ok false ↦ endpoint u
    | err e ↦ pure (answer 500 none kept)
  ]
