-- ===== src/Auth/Request/Origins.antt =====
-- reana_server/decorators.py: where an authenticated user and an ended session come from.
use reana_server.Prelude.{
  ℕ, String, ◌≡◌, refl, sym, ap, ◌∙◌, ◌⊎◌, inl, inr, Bool, true, false, Option, none, some, ◌&&◌,
  not, str_eq, arith, Option-cases, Bool-cases,
}
use reana_server.Auth.Errors.{ok, Result-cases}
use reana_server.Auth.Request.{Identity, Request}
use reana_server.Auth.Request.Headers.{bearer_token, csrf_ok, csrf_verdict, is_mutating}
use reana_server.Auth.Request.Authenticate.{
  Local, validate_token_once, authorize_and_provision, refreshed_claims, authenticate_cookie,
  get_user_from_gitlab_secret, is_current, authenticate, with_claims, with_refreshed,
  after_validation, by_secret,
}
use reana_server.Auth.Request.Credentials.{
  Provisioned, Validated, Refreshed, authorize_and_provision-Provisioned,
  validate_token_once-Validated, refreshed_claims-Refreshed, authenticate_bearer-origin,
}

module _ (identity : Identity) where
  open identity use {
    State, Claims, User, issuer, subject, validate_access_token, decode_expired_token,
    refresh_session, delete_session, require_role, get_or_provision_user, user_of_secret,
  }

  -- The user of a cookie: of its token, or of the token that a refresh brought.
  abbrev pub OfCookie : Request → String → User → Option String → Local identity → Type 0
  OfCookie request raw u refreshed l =
      ((claims : Claims) × Validated identity raw claims l
        × Provisioned identity claims raw u
        × (refreshed ≡ none))
      ⊎ ((claims : Claims) × (token : String) × Refreshed identity request raw claims token
          × Provisioned identity claims token u
          × (refreshed ≡ some token))

  with_claims-origin :
      (claims : Claims) (raw : String) (u : User) (refreshed : Option String) (l : Local identity)
      → (with_claims identity raw claims l).0 ≡ ok (some u, refreshed)
      → Provisioned identity claims raw u × (refreshed ≡ none)
  with_claims-origin claims raw u refreshed l h =
      elim (Result-cases (authorize_and_provision identity claims raw l).0) [
        | inl (x, bad) ↦ absurd (ground (arith, bad, h))
        | inr (v, got) ↦
            let same : v ≡ u = ground (arith, got, h) in
            (
              authorize_and_provision-Provisioned identity claims raw u l
                  (got ∙ ap (λ v. ok v) same),
              ground (arith, got, h),
            )
      ]

  with_refreshed-origin :
      (claims : Claims) (token : String) (u : User) (refreshed : Option String) (l : Local identity)
      → (with_refreshed identity (claims, token) l).0 ≡ ok (some u, refreshed)
      → Provisioned identity claims token u × (refreshed ≡ some token)
  with_refreshed-origin claims token u refreshed l h =
      elim (Result-cases (authorize_and_provision identity claims token l).0) [
        | inl (x, bad) ↦ absurd (ground (arith, bad, h))
        | inr (v, got) ↦
            let same : v ≡ u = ground (arith, got, h) in
            (
              authorize_and_provision-Provisioned identity claims token u l
                  (got ∙ ap (λ v. ok v) same),
              ground (arith, got, h),
            )
      ]

  after_validation-origin :
      (request : Request) (raw : String) (u : User) (refreshed : Option String) (l : Local identity)
      → (after_validation identity raw request.session_cookie
          (validate_token_once identity raw l).0
          (validate_token_once identity raw l).1).0
        ≡ ok (some u, refreshed)
      → OfCookie request raw u refreshed l
  after_validation-origin request raw u refreshed l h =
      let r = validate_token_once identity raw l in
      elim (Result-cases r.0) [
        | inr (claims, valid) ↦
            let (got, none_new) =
              with_claims-origin claims raw u refreshed r.1 (ground (arith, valid, h)) in
            inl (claims, validate_token_once-Validated identity raw claims l valid, got, none_new)
        | inl (x, bad) ↦
            elim (Result-cases (refreshed_claims identity raw request.session_cookie r.1).0) [
              | inl (y, worse) ↦ absurd (ground (arith, bad, worse, h))
              | inr ((claims, token), renewed) ↦
                  let end = refreshed_claims identity raw request.session_cookie r.1 in
                  let (got, new) =
                    with_refreshed-origin claims token u refreshed end.1
                      (ground (arith, bad, renewed, h)) in
                  inr (
                    claims,
                    token,
                    refreshed_claims-Refreshed identity request raw claims token r.1 renewed,
                    got,
                    new,
                  )
            ]
      ]

  csrf_verdict-passed :
      (request : Request)
      → csrf_verdict request ≡ ok true
      → (is_mutating request ≡ false) ⊎ (csrf_ok request ≡ ok true)
  csrf_verdict-passed request h = elim (Bool-cases (is_mutating request)) [
    | inl mutating ↦ inr (ground (arith, mutating, h))
    | inr safe ↦ inl safe
  ]

  authenticate_cookie-origin :
      (request : Request) (raw : String) (u : User) (refreshed : Option String) (l : Local identity)
      → (authenticate_cookie identity request raw l).0 ≡ ok (some u, refreshed)
      → ((is_mutating request ≡ false) ⊎ (csrf_ok request ≡ ok true))
        × OfCookie request raw u refreshed l
  unfolding authenticate_cookie
  authenticate_cookie-origin request raw u refreshed l h =
      elim (Result-cases (csrf_verdict request)) [
        | inl (e, bad) ↦ ground (arith, bad, h)
        | inr (false, forged) ↦ ground (arith, forged, h)
        | inr (true, passed) ↦ (
          csrf_verdict-passed request passed,
          after_validation-origin request raw u refreshed l (ground (arith, passed, h)),
        )
      ]

  get_user_from_gitlab_secret-origin :
      (secret : String) (now : ℕ) (u : User) (l : Local identity)
      → (get_user_from_gitlab_secret identity secret now l).0 ≡ ok u
      → ((s : State) × ((user_of_secret secret s).0 ≡ ok (some u)))
        × (is_current identity secret now u ≡ true)
  unfolding get_user_from_gitlab_secret
  get_user_from_gitlab_secret-origin secret now u l h =
      elim (Result-cases (user_of_secret secret l.0).0) [
        | inl (x, bad) ↦ absurd (ground (arith, bad, h))
        | inr (none, nobody) ↦ absurd (ground (arith, nobody, h))
        | inr (some v, found) ↦ elim (Bool-cases (is_current identity secret now v)) [
          | inr stale ↦ absurd (ground (arith, found, stale, h))
          | inl current ↦
              let same : v ≡ u = ground (arith, found, current, h) in
              (
                (l.0, found ∙ ap (λ v. ok (some v)) same),
                ap (λ v. is_current identity secret now v) (sym same) ∙ current,
              )
        ]
      ]

  -- The user of a secret that is his own and has not expired.
  abbrev pub OfSecret : Bool → Option String → ℕ → User → Type 0
  OfSecret include_gitlab token now u =
      (secret : String) × (include_gitlab ≡ true)
      × (token ≡ some secret)
      × ((s : State) × ((user_of_secret secret s).0 ≡ ok (some u)))
      × (is_current identity secret now u ≡ true)

  by_secret-origin :
      (include_gitlab : Bool) (token : Option String) (now : ℕ) (u : User)
      (refreshed : Option String) (l : Local identity)
      → (by_secret identity include_gitlab token now l).0 ≡ ok (some u, refreshed)
      → OfSecret include_gitlab token now u × (refreshed ≡ none)
  by_secret-origin false token now u refreshed l h = absurd (ground (arith, h))
  by_secret-origin true none now u refreshed l h = absurd (ground (arith, h))
  by_secret-origin true (some secret) now u refreshed l h =
      elim (Result-cases (get_user_from_gitlab_secret identity secret now l).0) [
        | inl (x, bad) ↦ absurd (ground (arith, bad, h))
        | inr (v, got) ↦
            let same : v ≡ u = ground (arith, got, h) in
            let (found, current) =
              get_user_from_gitlab_secret-origin secret now u l (got ∙ ap (λ v. ok v) same) in
            ((secret, refl, refl, found, current), ground (arith, got, h))
      ]

  -- Whoever is authenticated has shown a credential. It is the bearer token, if the request has one:
  -- the validation accepts it and its claims have the required role. Else it is the cookie, if
  -- cookies are enabled: the request changes nothing or has the CSRF token, and the
  -- validation accepts the cookie's token, or the session of the cookie was refreshed and the
  -- validation accepts the new token, which is then given back to be stored; again the claims
  -- have the required role. Else it is the secret of a GitLab webhook, where that is allowed: it
  -- is the user's own and has not expired.
  pub authenticate-origin :
      (bff_enabled include_gitlab : Bool) (now : ℕ) (request : Request) (u : User)
      (refreshed : Option String) (l : Local identity)
      → (authenticate identity bff_enabled include_gitlab now request l).0 ≡ ok (some u, refreshed)
      → ((raw : String) × (bearer_token request.authorization ≡ some raw)
          × ((claims : Claims) × Validated identity raw claims l
              × Provisioned identity claims raw u
              × (refreshed ≡ none)))
        ⊎ (((raw : String) × (bearer_token request.authorization ≡ none)
              × (bff_enabled ≡ true)
              × (request.auth_cookie ≡ some raw)
              × ((is_mutating request ≡ false) ⊎ (csrf_ok request ≡ ok true))
              × OfCookie request raw u refreshed l)
            ⊎ ((bearer_token request.authorization ≡ none)
                × OfSecret include_gitlab request.x_gitlab_token now u
                × (refreshed ≡ none)))
  unfolding authenticate
  authenticate-origin bff_enabled include_gitlab now request u refreshed l h =
      let secret = by_secret-origin include_gitlab request.x_gitlab_token now u refreshed l in
      elim (Option-cases (bearer_token request.authorization)) [
        | inr (raw, bearer) ↦ inl (
          raw,
          bearer,
          authenticate_bearer-origin identity raw u refreshed l (ground (arith, bearer, h)),
        )
        | inl no_bearer ↦ elim (Option-cases request.auth_cookie) [
          | inl no_cookie ↦
              let (own, plain) = secret (ground (arith, no_bearer, no_cookie, h)) in
              inr (inr (no_bearer, own, plain))
          | inr (raw, cookie) ↦ elim (Bool-cases (not (str_eq raw "") && bff_enabled)) [
            | inr unused ↦
                let (own, plain) = secret (ground (arith, no_bearer, cookie, unused, h)) in
                inr (inr (no_bearer, own, plain))
            | inl used ↦
                let (safe, own) =
                  authenticate_cookie-origin request raw u refreshed l
                    (ground (arith, no_bearer, cookie, used, h)) in
                inr (inl (raw, no_bearer, ground (arith, used), cookie, safe, own))
          ]
        ]
      ]
