-- ===== src/Auth/Sessions/Tests.antt =====
-- Runs of the refresh on a Redis that is a dictionary, and the theorems at those runs.
use reana_server.Prelude.{
  String, ◌≡◌, refl, false, none, some, [], ◌∷◌, Dict, lookup, insert, erase, List, All,
}
use reana_server.Auth.Errors.{ok}
use reana_server.Auth.Sessions.{Session, Value, session, text, AuthConfig}
use reana_server.Auth.Sessions.Dictionary.{redis, set, exec_delete, String-discrete, Value-discrete}
use reana_server.Auth.Sessions.Store.{
  session_key, lock_key, store_session, delete_session, get_session, session_matches_identity,
}
use reana_server.Auth.Sessions.Refresh.{
  success, terminal, Claims, TokenBody, answer, transport_failure, refreshed, Validators,
  Surroundings, request_refreshed_tokens, refreshed_id_token, is_bound, renew, redeem,
  refresh_stored, refresh_locked_session,
}
use reana_server.Auth.Sessions.Lock.{
  set_refresh_lock, release_refresh_lock, last_look, wait_for_concurrent_refresh, refresh_session,
}
use reana_server.Auth.Sessions.Renewal.{Revoked, redeem-Revoked}
use reana_server.Auth.Sessions.Subjects.{
  is_lock, IsClean, delete_sessions_for_subject, delete_sessions_for_subject-IsClean,
}
use reana_server.Auth.Sessions.Success.{IsRenewal, refresh_locked_session-success}

abbrev config : AuthConfig
config = record { issuer = "https://idp"; web_client_id = "reana"; session_ttl = 100 }

abbrev claims : Claims
claims = record { iss = some "https://idp"; sub = some "ann" }

abbrev validators : Validators
validators = record { access = λ t. ok claims; id = λ t. ok claims }

abbrev old : Session
old = record {
  rt = some "r1";
  idt = some "i1";
  at = some "a1";
  iss = some "https://idp";
  sub = some "ann";
  cid = some "reana";
  created_at = some 10;
}

abbrev body : TokenBody
body = record { access_token = "a2"; refresh_token = some "r2"; id_token = none }

abbrev surroundings : Surroundings
surroundings = record {
  default_created = 50;
  checked = 50;
  stored = 51;
  response = answer (some body);
}

abbrev before : Dict Value
before = (session_key "s", session old) ∷ []

sessions : Unit {0}
unfolding refresh_locked_session refresh_stored redeem renew store_session delete_session
    get_session session_matches_identity request_refreshed_tokens refreshed_id_token is_bound
    set_refresh_lock release_refresh_lock last_look wait_for_concurrent_refresh lookup insert erase
    set exec_delete refresh_session Value-discrete String-discrete
sessions = tt

refresh_tests :
    ((refresh_locked_session redis config validators
        (λ s. s)
        surroundings
        "s"
        "https://idp"
        "ann"
        before).0
      ≡ ok (success "a2"))
    × ((refresh_locked_session redis config validators
          (λ s. [])
          surroundings
          "s"
          "https://idp"
          "ann"
          before).0
        ≡ ok terminal)
    × ((refresh_locked_session redis config validators
          (λ s. s)
          surroundings
          "s"
          "https://idp"
          "bob"
          before).0
        ≡ ok terminal)
unfolding sessions
refresh_tests = (refl, refl, refl)

redeem-Revoked_example :
    Revoked redis config validators "s" "a2"
      (redeem redis config validators surroundings "s" old 10 (refreshed body) [])
unfolding lookup
redeem-Revoked_example =
    redeem-Revoked redis config validators surroundings "s" old 10 (refreshed body) "a2" [] refl

refresh_locked_session-success_example :
    (x : Session) × (lookup (session_key "s") before ≡ some (session x))
    × IsRenewal redis config validators surroundings "s" "https://idp" "ann" "a2" x
        (refresh_locked_session redis config validators
          (λ s. s)
          surroundings
          "s"
          "https://idp"
          "ann"
          before).1
refresh_locked_session-success_example =
    refresh_locked_session-success redis config validators (λ s. s) surroundings "s" "https://idp"
      "ann" "a2" before refresh_tests.0

abbrev locked : Dict Value
locked = (lock_key "s", text "me") ∷ []

abbrev taken : Dict Value
taken = (lock_key "s", text "you") ∷ []

abbrev renewed_session : Session
renewed_session = record old { at = some "a2" }

abbrev outage : Surroundings
outage = record surroundings { response = transport_failure }

abbrev scanned : List String
scanned = session_key "s" ∷ lock_key "s" ∷ []

delete_sessions_for_subject-IsClean_example :
    All
      (λ key.
        is_lock key ≡ false
        → IsClean redis "https://idp" "ann"
            (delete_sessions_for_subject redis "https://idp" "ann" false scanned before).1
            key)
      scanned
unfolding sessions delete_sessions_for_subject
delete_sessions_for_subject-IsClean_example =
    delete_sessions_for_subject-IsClean redis "https://idp" "ann" scanned before 1 refl
