-- ===== src/Auth/Request/Endings.antt =====
-- reana_server/decorators.py: refusals, and what becomes of the cookies.
use reana_server.Prelude.{
  ℕ, String, ◌≡◌, refl, sym, ap, str_eq, ◌∙◌, ◌≢◌, inl, inr, Bool, true, false, Option, none, some,
  arith, eq_iff, is_ascii, compare_digest, ◌&&◌, ◌⊎◌, or_default, Bool-cases,
}
use reana_server.Auth.Errors.{
  AuthError, terminal_session, missing_role, unexpected_error, Result, ok, err, Result-cases,
}
use reana_server.Auth.Exec.{Exec}
use reana_server.Auth.Request.{Identity, Request}
use reana_server.Auth.Request.Headers.{bearer_token, csrf_ok, is_mutating}
use reana_server.Auth.Request.Authenticate.{
  Local, validate_token_once, authorize_and_provision, authenticate_bearer, authenticate_cookie,
  authenticate,
}
use reana_server.Auth.Request.Credentials.{authenticate_bearer-origin}
use reana_server.Auth.Request.Signin.{kept, Answer, answer, refusal, signin_required}

-- The errors that decorators.py alone makes.
abbrev pub IsPlain : {A : Type 0} → Result A → Type 0
IsPlain r = (r ≢ err terminal_session) × ((t : String) → r ≢ err (missing_role (some t)))

refusal-kept :
    (denied : Option String) (e : AuthError) (a : Answer)
    → e ≢ terminal_session
    → ((t : String) → e ≢ missing_role (some t))
    → refusal denied e ≡ ok a
    → a.cookies ≡ kept
unfolding refusal
refusal-kept denied (missing_role (some t)) a n m h = absurd (m t refl)
refusal-kept denied e a n m h = ground (arith, n, h)

shared :
    (header cookie : Option String)
    → str_eq (or_default header "") "" ≡ false
    → str_eq (or_default header "") (or_default cookie "") ≡ true
    → ¬ ((token : String) → header ≡ some token → cookie ≡ some token → token ≡ "")
shared none cookie full same apart = ground (arith, full)
shared (some t) none full same apart = ground (arith, full, same)
shared (some t) (some u) full same apart =
    let equal : t ≡ u = (eq_iff t u).0 same in
    ground (arith, full, (eq_iff t "").1 (apart t refl (ap some (sym equal))))

csrf_ok-apart :
    (request : Request)
    → ((token : String)
        → request.csrf_header ≡ some token
        → request.csrf_cookie ≡ some token
        → token ≡ "")
    → (csrf_ok request ≡ ok false)
      ⊎ ((csrf_ok request ≡ err unexpected_error)
          × (is_ascii (or_default request.csrf_header "")
                && is_ascii (or_default request.csrf_cookie "")
              ≡ false))
unfolding csrf_ok compare_digest
csrf_ok-apart request apart =
    let header = or_default request.csrf_header "" in
    let cookie = or_default request.csrf_cookie "" in
    elim (Bool-cases (str_eq header "")) [
      | inl empty ↦ inl (ground (arith, empty))
      | inr full ↦ elim (Bool-cases (is_ascii header && is_ascii cookie)) [
        | inr other ↦ inr (ground (arith, full, other), other)
        | inl plain ↦ elim (Bool-cases (str_eq header cookie)) [
          | inr differs ↦ inl (ground (arith, full, plain, differs))
          | inl same ↦ absurd (shared request.csrf_header request.csrf_cookie full same apart)
        ]
      ]
    ]

module _ (identity : Identity) where
  open identity use {
    State, Claims, User, issuer, subject, validate_access_token, decode_expired_token,
    refresh_session, delete_session, require_role, get_or_provision_user, user_of_secret,
  }

  -- Let a request with another method than GET, HEAD and OPTIONS have a cookie and no bearer token,
  -- where cookies are enabled, and no CSRF token that its header and its cookie share, an empty one not
  -- counted. Then no token is looked at, the endpoint does not run, and nothing changes: the answer
  -- is a 403, or the error of a comparison with a text that has characters outside ASCII.
  pub signin_required-csrf :
      (include_gitlab : Bool) (denied : Option String) (now : ℕ)
      (endpoint : User → Exec (Local identity) Answer) (request : Request) (raw : String)
      (l : Local identity)
      → bearer_token request.authorization ≡ none
      → request.auth_cookie ≡ some raw
      → raw ≢ ""
      → request.method ≢ "GET"
      → request.method ≢ "HEAD"
      → request.method ≢ "OPTIONS"
      → ((token : String)
          → request.csrf_header ≡ some token
          → request.csrf_cookie ≡ some token
          → token ≡ "")
      → (signin_required identity true include_gitlab denied now endpoint request l
          ≡ (ok (answer 403 none kept), l))
        ⊎ ((signin_required identity true include_gitlab denied now endpoint request l
              ≡ (err unexpected_error, l))
            × (is_ascii (or_default request.csrf_header "")
                  && is_ascii (or_default request.csrf_cookie "")
                ≡ false))
  unfolding signin_required authenticate authenticate_cookie refusal
  signin_required-csrf include_gitlab denied now endpoint request raw l no_bearer cookie full get
        head options apart =
      let mutating : is_mutating request ≡ true = ground (
        arith,
        get,
        head,
        options,
        eq_iff request.method "GET",
        eq_iff request.method "HEAD",
        eq_iff request.method "OPTIONS",
      ) in
      elim (csrf_ok-apart request apart) [
        | inl forged ↦
            inl (ground (arith, no_bearer, cookie, full, mutating, forged, eq_iff raw ""))
        | inr (raises, other) ↦
            inr (ground (arith, no_bearer, cookie, full, mutating, raises, eq_iff raw ""), other)
      ]

  -- What the other modules raise.
  abbrev pub RaisesPlain : Type 0
  RaisesPlain =
      ((t : String) (s : State) → IsPlain (validate_access_token t s).0)
      × ((c : Claims) → IsPlain (require_role c))
      × ((c : Claims) (t : String) (s : State) → IsPlain (get_or_provision_user c t s).0)

  pub authorize_and_provision-IsPlain :
      (claims : Claims) (raw : String) (l : Local identity)
      → RaisesPlain
      → IsPlain (authorize_and_provision identity claims raw l).0
  unfolding authorize_and_provision
  authorize_and_provision-IsPlain claims raw l plain =
      let role = plain.1 claims in
      let user = plain.2 claims raw l.0 in
      (λ h. ground (arith, h, role.0, user.0), λ t h. ground (arith, h, role.1 t, user.1 t))

  validate_token_once-IsPlain :
      (raw : String) (l : Local identity)
      → RaisesPlain
      → IsPlain (validate_token_once identity raw l).0
  unfolding validate_token_once
  validate_token_once-IsPlain raw l plain =
      let valid = plain.0 raw l.0 in
      (λ h. ground (arith, h, valid.0), λ t h. ground (arith, h, valid.1 t))

  pub authenticate_bearer-IsPlain :
      (raw : String) (l : Local identity)
      → RaisesPlain
      → IsPlain (authenticate_bearer identity raw l).0
  unfolding authenticate_bearer
  authenticate_bearer-IsPlain raw l plain =
      let r = validate_token_once identity raw l in
      let valid = validate_token_once-IsPlain raw l plain in
      elim (Result-cases r.0) [
        | inl (e, bad) ↦
            (λ h. ground (arith, bad, h, valid.0), λ t h. ground (arith, bad, h, valid.1 t))
        | inr (claims, good) ↦
            let user = authorize_and_provision-IsPlain claims raw r.1 plain in
            (λ h. ground (arith, good, h, user.0), λ t h. ground (arith, good, h, user.1 t))
      ]

  -- A request with a bearer token leaves the cookies of the browser to its endpoint: whatever goes
  -- wrong, they are neither cleared nor replaced.
  pub signin_required-bearer :
      (bff_enabled include_gitlab : Bool) (denied : Option String) (now : ℕ)
      (endpoint : User → Exec (Local identity) Answer) (request : Request) (raw : String)
      (l : Local identity) (a : Answer)
      → RaisesPlain
      → ((u : User) (m : Local identity) (b : Answer) → (endpoint u m).0 ≡ ok b → b.cookies ≡ kept)
      → bearer_token request.authorization ≡ some raw
      → (signin_required identity bff_enabled include_gitlab denied now endpoint request l).0 ≡ ok a
      → a.cookies ≡ kept
  unfolding signin_required authenticate refusal
  signin_required-bearer bff_enabled include_gitlab denied now endpoint request raw l a plain keeps
        bearer h =
      let r = authenticate_bearer identity raw l in
      let calm = authenticate_bearer-IsPlain raw l plain in
      elim (Result-cases r.0) [
        | inl (e, bad) ↦
            refusal-kept denied e a (λ x. calm.0 (bad ∙ ap (λ e. err e) x))
              (λ t x. calm.1 t (bad ∙ ap (λ e. err e) x)) (ground (arith, bearer, bad, h))
        | inr ((none, refreshed), good) ↦ ground (arith, bearer, good, h)
        | inr ((some u, refreshed), good) ↦
            let (claims, valid, got, plain_new) =
              authenticate_bearer-origin identity raw u refreshed l good in
            elim (Result-cases (endpoint u r.1).0) [
              | inl (e, worse) ↦ absurd (ground (arith, bearer, good, worse, h))
              | inr (b, served) ↦
                  ground (arith, bearer, good, served, plain_new, keeps u r.1 b served, h)
            ]
      ]
