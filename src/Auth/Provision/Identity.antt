-- ===== src/Auth/Provision/Identity.antt =====
-- reana_server/auth/provision.py: the user that a login gets is the one of the token's identity.
use reana_server.Prelude.{
  String, ◌≡◌, refl, ◌∙◌, ap, Bool, true, Option, none, some, ◌⊎◌, inl, inr, List, [], ◌∷◌, arith,
  Bool-cases, eq_refl,
}
use reana_server.Auth.Errors.{Result, ok, Result-cases}
use reana_server.Auth.Roles.{require_role, require_role_iff, Grants}
use reana_server.Auth.Provision.{
  text, UserInfo, User, equals_iff, identified, has_email, select, one_or_none,
  get_user_by_idp_identity,
}
use reana_server.Auth.Provision.Claims.{
  validated_email, validated_identity_claim, validated_identity_claim-text, verify_userinfo_subject,
}
use reana_server.Auth.Provision.Linking.{
  email_linking_allowed, link_existing_user, link_user_identity,
}
use reana_server.Auth.Provision.Jit.{
  Claims, Config, Surroundings, Change, updated, inserted, subject, new_user, new_user,
  given_or_fetched, on_invalid_request, commit, link_or_create, first_sight, known_or_new,
  get_or_provision_user,
}

select-some :
    (p : User → Bool) (users : List User) (u : User)
    → one_or_none (select p users) ≡ ok (some u)
    → p u ≡ true
select-some p [] u h = absurd (ground arith)
select-some p (v ∷ users) u h = elim (Bool-cases (p v)) [
  | inl holds ↦ ground (arith, holds, h)
  | inr fails ↦ select-some p users u (ground (arith, fails, h))
]

pub get_user_by_idp_identity-some :
    (sub iss : String) (users : List User) (u : User)
    → get_user_by_idp_identity sub iss users ≡ ok (some u)
    → identified sub iss u ≡ true
unfolding get_user_by_idp_identity
get_user_by_idp_identity-some sub iss users u h = select-some (identified sub iss) users u h

link_user_identity-identified :
    (users : List User) (u v : User) (iss sub : String)
    → link_user_identity users u iss sub ≡ ok v
    → identified sub iss v ≡ true
unfolding link_user_identity
link_user_identity-identified users u v iss sub h = ground (arith, eq_refl iss, eq_refl sub)

pub link_existing_user-identified :
    (users : List User) (u v : User) (sub iss : String) (info : UserInfo)
    → on_invalid_request (link_existing_user users u sub iss info) ≡ ok v
    → identified sub iss v ≡ true
unfolding link_existing_user
link_existing_user-identified users u v sub iss info h =
    elim (Result-cases (link_user_identity users u iss sub)) [
      | inl (x, bad) ↦ absurd (ground (arith, bad, h))
      | inr (x, good) ↦
          ground (arith, good, h, link_user_identity-identified users u x iss sub good)
    ]

module _ (lower : String → String) (config : Config) (w : Surroundings) where
  abbrev Linked : String → String → Result (User × Bool) → Type 0
  Linked sub iss r = (u : User) (b : Bool) → r ≡ ok (u, b) → identified sub iss u ≡ true

  commit-Linked :
      (sub iss : String) (change : Change) (users : List User)
      → identified sub iss (subject change) ≡ true
      → Linked sub iss (commit lower config w sub iss change users).0
  unfolding commit
  commit-Linked sub iss change users h u b e =
      ground
        (arith, get_user_by_idp_identity-some sub iss (w.before_recovery (w.before_commit users)) u)

  link_or_create-Linked :
      (sub iss email : String) (info : UserInfo) (o : Option User) (users : List User)
      → Linked sub iss (link_or_create lower config w sub iss email info o users).0
  unfolding link_or_create
  link_or_create-Linked sub iss email info none users =
      commit-Linked sub iss (inserted (new_user w.new_id email sub iss info)) users
        (ground (arith, eq_refl iss, eq_refl sub))
  link_or_create-Linked sub iss email info (some existing) users =
      elim (Bool-cases (identified sub iss existing)) [
        | inl same ↦ λ u b e. ground (arith, same, e)
        | inr differs ↦
            elim (Bool-cases (email_linking_allowed lower config.linking iss email info)) [
              | inr refused ↦ λ u b e. absurd (ground (arith, differs, refused, e))
              | inl allowed ↦
                  let r =
                    on_invalid_request
                      (link_existing_user (w.before_linking users) existing sub iss info) in
                  elim (Result-cases r) [
                    | inl (x, bad) ↦ λ u b e. absurd (ground (arith, differs, allowed, bad, e))
                    | inr (v, good) ↦ rw differs (
                        rw allowed (
                          rw good (
                            commit-Linked sub iss (updated v) (w.before_linking users)
                              (link_existing_user-identified _ existing v sub iss info good))))
                  ]
            ]
      ]

  first_sight-Linked :
      (sub iss : String) (info : UserInfo) (users : List User)
      → Linked sub iss (first_sight lower config w sub iss info users).0
  unfolding first_sight
  first_sight-Linked sub iss info users = elim (Result-cases (verify_userinfo_subject sub info)) [
    | inl (x, bad) ↦ λ u b e. absurd (ground (arith, bad, e))
    | inr (x, good) ↦ elim (Result-cases (validated_email info)) [
      | inl (x, bad) ↦ λ u b e. absurd (ground (arith, good, bad, e))
      | inr (email, valid) ↦
          let r =
            on_invalid_request (one_or_none (select (has_email email) (w.before_email users))) in
          elim (Result-cases r) [
            | inl (x, bad) ↦ λ u b e. absurd (ground (arith, good, valid, bad, e))
            | inr (o, found) ↦ rw good (
                rw valid
                  (rw found (link_or_create-Linked sub iss email info o (w.before_email users))))
          ]
    ]
  ]

  known_or_new-Linked :
      (sub iss : String) (given : Option UserInfo) (fetched : Result UserInfo) (o : Option User)
      (users : List User)
      → ((u : User) → o ≡ some u → identified sub iss u ≡ true)
      → Linked sub iss (known_or_new lower config w sub iss given fetched o users).0
  unfolding known_or_new
  known_or_new-Linked sub iss none fetched (some u) users h v b e = ground (arith, h u refl, e)
  known_or_new-Linked sub iss (some info) fetched (some u) users h v b e =
      ground (arith, h u refl, e)
  known_or_new-Linked sub iss given fetched none users h v b e =
      elim (Result-cases (given_or_fetched given fetched)) [
        | inl (x, bad) ↦ absurd (ground (arith, bad, e))
        | inr (info, good) ↦ first_sight-Linked sub iss info users v b (ground (arith, good, e))
      ]

  -- Whoever logs in gets the user of his own identity: if a user results, then issuer and subject
  -- of the token are texts, its roles grant the required role (where one is required), and the
  -- user is linked to this issuer and this subject. This holds whatever others commit in between
  -- and whatever the database answers.
  pub get_or_provision_user-identity :
      (claims : Claims) (given : Option UserInfo) (fetched : Result UserInfo) (users : List User)
      (u : User) (is_new : Bool)
      → (get_or_provision_user lower config w claims given fetched users).0 ≡ ok (u, is_new)
      → (sub : String) × (iss : String) × (claims.sub ≡ text sub)
        × (claims.iss ≡ text iss)
        × ((config.required_role ≡ "") ⊎ Grants config.required_role claims.roles)
        × (u.idp_subject ≡ some sub)
        × (u.idp_issuer ≡ some iss)
  unfolding get_or_provision_user
  get_or_provision_user-identity claims given fetched users u is_new h =
      elim (Result-cases (validated_identity_claim claims.sub)) [
        | inl (x, bad) ↦ absurd (ground (arith, bad, h))
        | inr (sub, s_ok) ↦ elim (Result-cases (validated_identity_claim claims.iss)) [
          | inl (x, bad) ↦ absurd (ground (arith, s_ok, bad, h))
          | inr (iss, i_ok) ↦ elim (Result-cases (require_role config.required_role claims.roles)) [
            | inl (x, bad) ↦ absurd (ground (arith, s_ok, i_ok, bad, h))
            | inr (tt, r_ok) ↦ elim (Result-cases (get_user_by_idp_identity sub iss users)) [
              | inl (x, bad) ↦ absurd (ground (arith, s_ok, i_ok, r_ok, bad, h))
              | inr (o, found) ↦
                  let linked : identified sub iss u ≡ true =
                    known_or_new-Linked sub iss given fetched o users
                      (λ v e.
                        get_user_by_idp_identity-some sub iss users v (found ∙ ap (λ o. ok o) e))
                      u is_new (ground (arith, s_ok, i_ok, r_ok, found, h)) in
                  (
                    sub,
                    iss,
                    validated_identity_claim-text claims.sub sub s_ok,
                    validated_identity_claim-text claims.iss iss i_ok,
                    (require_role_iff config.required_role claims.roles).0 r_ok,
                    ground (arith, linked, equals_iff u.idp_subject sub),
                    ground (arith, linked, equals_iff u.idp_issuer iss),
                  )
            ]
          ]
        ]
      ]
