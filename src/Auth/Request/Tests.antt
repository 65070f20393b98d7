-- ===== src/Auth/Request/Tests.antt =====
-- reana_server/decorators.py on concrete requests.
use reana_server.Prelude.{
  String, ◌≡◌, refl, ◌⊎◌, true, false, Option, none, some, if◌then◌else◌, str_eq, arith, eq_iff,
  compare_digest, is_ascii, or_default, ◌&&◌,
}
use reana_server.Auth.Errors.{invalid_token, issuer_unavailable, unexpected_error, Result, ok, err}
use reana_server.Auth.Exec.{Exec, pure}
use reana_server.Auth.Sessions.Refresh.{RefreshResult, success, terminal}
use reana_server.Auth.Request.{Identity, Request}
use reana_server.Auth.Request.Headers.{bearer_token, csrf_ok, is_mutating}
use reana_server.Auth.Request.Authenticate.{
  Local, authenticate, validate_token_once, authenticate_cookie, refreshed_claims,
  authenticate_bearer, authorize_and_provision, get_user_from_gitlab_secret,
}
use reana_server.Auth.Request.Signin.{
  kept, cleared, installed, Answer, answer, signin_required, refusal,
}
use reana_server.Auth.Request.Credentials.{Validated, Provisioned}
use reana_server.Auth.Request.Origins.{OfCookie, OfSecret, authenticate-origin}
use reana_server.Auth.Request.Endings.{signin_required-csrf}

-- Tokens: "good" is valid, "old" has expired, the issuer is away for "away".
abbrev validated : String → Result String
validated t =
    if str_eq t "good"
    then ok "jane"
    else if str_eq t "away"
    then err issuer_unavailable
    else err invalid_token

abbrev decoded_as : String → Result String
decoded_as t = if str_eq t "old" then ok "jane" else err invalid_token

abbrev renewal : String → RefreshResult
renewal sid = if str_eq sid "alive" then success "good" else terminal

abbrev site : Identity
site = record {
  State = Unit {0};
  Claims = String;
  User = String;
  issuer = λ c. "https://idp";
  subject = λ c. c;
  validate_access_token = λ t s. (validated t, s);
  decode_expired_token = λ t s. (decoded_as t, s);
  refresh_session = λ sid t iss sub s. (ok (renewal sid), s);
  delete_session = λ sid s. (ok true, s);
  require_role = λ c. ok tt;
  get_or_provision_user = λ c t s. (ok (c, false), s);
  user_of_secret = λ t s. (ok (some "bot"), s);
  gitlab_webhook_secret = λ u. some "hook";
  gitlab_webhook_secret_expires_at = λ u. some 100;
}

abbrev request : String → String → Option String → Option String → Request
request authorization method token sid = record {
  authorization = authorization;
  method = method;
  auth_cookie = token;
  session_cookie = sid;
  csrf_cookie = some "c";
  csrf_header = some "c";
  x_gitlab_token = some "hook";
}

abbrev start : Local site
start = (tt, none)

abbrev endpoint : String → Exec (Local site) Answer
endpoint u = pure (answer 200 none kept)

abbrev denied : Option String
denied = none

requests : Unit {0}
unfolding bearer_token csrf_ok compare_digest authenticate validate_token_once authenticate_cookie
    refreshed_claims authenticate_bearer authorize_and_provision get_user_from_gitlab_secret
    signin_required refusal
requests = tt

abbrev answered_to : Request → Result Answer
answered_to r = (signin_required site true false denied 50 endpoint r start).0

request_tests :
    (bearer_token " BEARER  a b " ≡ some "a b ")
    × (bearer_token "Basic abc" ≡ none)
    × (bearer_token "Bearer " ≡ none)
    × (answered_to (request "bearer good" "GET" none none) ≡ ok (answer 200 none kept))
    × (answered_to (request "bearer away" "GET" none none) ≡ ok (answer 503 none kept))
    × (answered_to (request "" "POST" (some "old") (some "alive"))
        ≡ ok (answer 200 none (installed "good")))
    × (answered_to (request "" "GET" (some "old") (some "dead"))
        ≡ ok (answer 401 (some "session_terminated") cleared))
    × ((authenticate site true true 50 (request "" "GET" none none) start).0
        ≡ ok (some "bot", none))
    × ((authenticate site true true 100 (request "" "GET" none none) start).0 ≡ err invalid_token)
unfolding requests
request_tests = (refl, refl, refl, refl, refl, refl, refl, refl, refl)

abbrev by_cookie : Request
by_cookie = request "" "POST" (some "old") (some "alive")

abbrev new_token : Option String
new_token = some "good"

authenticate-origin_example :
    ((raw : String) × (bearer_token by_cookie.authorization ≡ some raw)
      × ((claims : String) × Validated site raw claims start
          × Provisioned site claims raw "jane"
          × (new_token ≡ none)))
    ⊎ (((raw : String) × (bearer_token by_cookie.authorization ≡ none)
          × (true ≡ true)
          × (by_cookie.auth_cookie ≡ some raw)
          × ((is_mutating by_cookie ≡ false) ⊎ (csrf_ok by_cookie ≡ ok true))
          × OfCookie site by_cookie raw "jane" new_token start)
        ⊎ ((bearer_token by_cookie.authorization ≡ none)
            × OfSecret site false by_cookie.x_gitlab_token 50 "jane"
            × (new_token ≡ none)))
unfolding requests
authenticate-origin_example =
    authenticate-origin site true false 50 by_cookie "jane" new_token start refl

abbrev forged : Request
forged = record by_cookie { csrf_header = none }

signin_required-csrf_example :
    (signin_required site true false denied 50 endpoint forged start
      ≡ (ok (answer 403 none kept), start))
    ⊎ ((signin_required site true false denied 50 endpoint forged start
          ≡ (err unexpected_error, start))
        × (is_ascii (or_default forged.csrf_header "")
              && is_ascii (or_default forged.csrf_cookie "")
            ≡ false))
unfolding requests
signin_required-csrf_example =
    signin_required-csrf site false denied 50 endpoint forged "old" start refl refl
      (λ h. ground (arith, (eq_iff "old" "").1 h)) (λ h. ground (arith, (eq_iff "POST" "GET").1 h))
      (λ h. ground (arith, (eq_iff "POST" "HEAD").1 h))
      (λ h. ground (arith, (eq_iff "POST" "OPTIONS").1 h)) (λ token h c. ground (arith, h))

abbrev dead : Request
dead = request "" "GET" (some "old") (some "dead")
