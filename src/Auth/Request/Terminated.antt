-- ===== src/Auth/Request/Terminated.antt =====
-- reana_server/decorators.py: when the session of a browser is said to be over.
use reana_server.Prelude.{String, ◌≡◌, ◌⊎◌, true, Option, none, some}
use reana_server.Auth.Errors.{AuthError, Result, ok, err}
use reana_server.Auth.Sessions.Refresh.{success, terminal}
use reana_server.Auth.Request.{Identity, Request}
use reana_server.Auth.Request.Authenticate.{is_invalid}
use reana_server.Auth.Request.Endings.{IsPlain}

abbrev pub IsInvalid : {A : Type 0} → Result A → Type 0
IsInvalid r = (e : AuthError) × (r ≡ err e) × (is_invalid e ≡ true)

module _ (identity : Identity) where
  open identity use {
    State, Claims, User, issuer, subject, validate_access_token, decode_expired_token,
    refresh_session, delete_session, require_role, get_or_provision_user, user_of_secret,
  }

  -- What the rest of the modules raises.
  abbrev pub SessionsPlain : Type 0
  SessionsPlain =
      ((t : String) (s : State) → IsPlain (decode_expired_token t s).0)
      × ((sid t iss sub : String) (s : State) → IsPlain (refresh_session sid t iss sub s).0)
      × ((sid : String) (s : State) → IsPlain (delete_session sid s).0)
      × ((t : String) (s : State) → IsPlain (user_of_secret t s).0)

  -- Nothing is left of the session of a cookie: the token in it is no expired token of the issuer,
  -- or there is no session cookie, or the refresh ended the session, or its new token is invalid.
  abbrev pub IsOver : String → Option String → Type 0
  IsOver raw cookie =
      ((s : State) × IsInvalid (decode_expired_token raw s).0)
      ⊎ ((cookie ≡ none) ⊎ (cookie ≡ some ""))
      ⊎ ((sid : String) × (old : Claims) × (s : State) × (cookie ≡ some sid)
          × (((refresh_session sid raw (issuer old) (subject old) s).0 ≡ ok terminal)
              ⊎ ((token : String) × ((refresh_session sid raw (issuer old) (subject old) s).0
                    ≡ ok (success token))
                  × ((t : State) × IsInvalid (validate_access_token token t).0))))
