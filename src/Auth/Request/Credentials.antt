-- ===== src/Auth/Request/Credentials.antt =====
-- reana_server/decorators.py: the credentials behind the results of the parts of `_authenticate`.
use reana_server.Prelude.{
  String, ◌≡◌, sym, ap, ◌∙◌, ◌⊎◌, inl, inr, Bool, Option, none, some, str_eq, arith, Option-cases,
  Bool-cases, eq_iff,
}
use reana_server.Auth.Errors.{ok, Result-cases}
use reana_server.Auth.Sessions.Refresh.{success, terminal, transient}
use reana_server.Auth.Request.{Identity, Request}
use reana_server.Auth.Request.Authenticate.{
  Local, validate_token_once, authorize_and_provision, authenticate_bearer, refreshed_claims,
}

module _ (identity : Identity) where
  open identity use {
    State, Claims, User, issuer, subject, validate_access_token, decode_expired_token,
    refresh_session, delete_session, require_role, get_or_provision_user, user_of_secret,
  }

  -- Claims with the required role for which provisioning yields the user.
  abbrev pub Provisioned : Claims → String → User → Type 0
  Provisioned claims raw u =
      (require_role claims ≡ ok tt)
      × ((s : State) × (b : Bool) × ((get_or_provision_user claims raw s).0 ≡ ok (u, b)))

  pub authorize_and_provision-Provisioned :
      (claims : Claims) (raw : String) (u : User) (l : Local identity)
      → (authorize_and_provision identity claims raw l).0 ≡ ok u
      → Provisioned claims raw u
  unfolding authorize_and_provision
  authorize_and_provision-Provisioned claims raw u l h = elim (Result-cases (require_role claims)) [
    | inl (x, bad) ↦ absurd (ground (arith, bad, h))
    | inr (r, role) ↦ elim (Result-cases (get_or_provision_user claims raw l.0).0) [
      | inl (x, bad) ↦ absurd (ground (arith, role, bad, h))
      | inr ((v, b), got) ↦
          let same : v ≡ u = ground (arith, role, got, h) in
          (role, (l.0, b, ground (arith, got, same)))
    ]
  ]

  -- A token that the validation of the request accepts, or has accepted.
  abbrev pub Validated : String → Claims → Local identity → Type 0
  Validated raw claims l =
      ((validate_access_token raw l.0).0 ≡ ok claims) ⊎ (l.1 ≡ some (raw, claims))

  pub validate_token_once-Validated :
      (raw : String) (claims : Claims) (l : Local identity)
      → (validate_token_once identity raw l).0 ≡ ok claims
      → Validated raw claims l
  unfolding validate_token_once
  validate_token_once-Validated raw claims (s, none) h = inl (ground (arith, h))
  validate_token_once-Validated raw claims (s, some (token, known)) h =
      elim (Bool-cases (str_eq token raw)) [
        | inl same ↦
            let e : known ≡ claims = ground (arith, same, h) in
            inr (ground (arith, (eq_iff token raw).0 same, e))
        | inr differs ↦ inl (ground (arith, differs, h))
      ]

  pub authenticate_bearer-origin :
      (raw : String) (u : User) (refreshed : Option String) (l : Local identity)
      → (authenticate_bearer identity raw l).0 ≡ ok (some u, refreshed)
      → (claims : Claims) × Validated raw claims l × Provisioned claims raw u × (refreshed ≡ none)
  unfolding authenticate_bearer
  authenticate_bearer-origin raw u refreshed l h =
      let r = validate_token_once identity raw l in
      elim (Result-cases r.0) [
        | inl (x, bad) ↦ absurd (ground (arith, bad, h))
        | inr (claims, valid) ↦
            elim (Result-cases (authorize_and_provision identity claims raw r.1).0) [
              | inl (x, bad) ↦ absurd (ground (arith, valid, bad, h))
              | inr (v, got) ↦
                  let same : v ≡ u = ground (arith, valid, got, h) in
                  (
                    claims,
                    validate_token_once-Validated raw claims l valid,
                    authorize_and_provision-Provisioned claims raw u r.1
                        (got ∙ ap (λ v. ok v) same),
                    ground (arith, valid, got, h),
                  )
            ]
      ]

  -- A refresh of the session of the cookie, whose new token the validation accepts.
  abbrev pub Refreshed : Request → String → Claims → String → Type 0
  Refreshed request raw claims token =
      (sid : String) × (old : Claims) × (s : State) × (t : State) × (request.session_cookie
        ≡ some sid)
      × ((decode_expired_token raw s).0 ≡ ok old)
      × ((refresh_session sid raw (issuer old) (subject old) t).0 ≡ ok (success token))
      × ((validate_access_token token (refresh_session sid raw (issuer old) (subject old) t).1).0
          ≡ ok claims)

  pub refreshed_claims-Refreshed :
      (request : Request) (raw : String) (claims : Claims) (token : String) (l : Local identity)
      → (refreshed_claims identity raw request.session_cookie l).0 ≡ ok (claims, token)
      → Refreshed request raw claims token
  unfolding refreshed_claims
  refreshed_claims-Refreshed request raw claims token l h =
      elim (Result-cases (decode_expired_token raw l.0).0) [
        | inl (x, bad) ↦ absurd (ground (arith, bad, h))
        | inr (old, decoded) ↦ elim (Option-cases request.session_cookie) [
          | inl missing ↦ absurd (ground (arith, decoded, missing, h))
          | inr (sid, there) ↦ elim (Bool-cases (str_eq sid "")) [
            | inl empty ↦ absurd (ground (arith, decoded, there, empty, h))
            | inr full ↦
                let s = (decode_expired_token raw l.0).1 in
                let step = refresh_session sid raw (issuer old) (subject old) s in
                elim (Result-cases step.0) [
                  | inl (x, bad) ↦ absurd (ground (arith, decoded, there, full, bad, h))
                  | inr (terminal, got) ↦ absurd (ground (arith, decoded, there, full, got, h))
                  | inr (transient, got) ↦ absurd (ground (arith, decoded, there, full, got, h))
                  | inr (success new, got) ↦
                      elim (Result-cases (validate_access_token new step.1).0) [
                        | inl (x, bad) ↦ absurd (ground (arith, decoded, there, full, got, bad, h))
                        | inr (c, valid) ↦
                            let same : new ≡ token =
                              ground (arith, decoded, there, full, got, valid, h) in
                            let alike : c ≡ claims =
                              ground (arith, decoded, there, full, got, valid, h) in
                            (
                              sid,
                              old,
                              l.0,
                              s,
                              there,
                              decoded,
                              got ∙ ap (λ t. ok (success t)) same,
                              ap (λ t. (validate_access_token t step.1).0) (sym same)
                                  ∙ valid
                                  ∙ ap (λ c. ok c) alike,
                            )
                      ]
                ]
          ]
        ]
      ]
