-- ===== src/Auth/Provision/Unmoved.antt =====
-- reana_server/auth/provision.py: what a login writes to the table of users.
use reana_server.Prelude.{
  String, ◌≡◌, refl, sym, ap, ◌∙◌, subst, Bool, true, false, Option, none, some, ◌⊎◌, inl, inr, ◌≢◌,
  List, [], ◌∷◌, ◌++◌, arith, Bool-cases, Option-cases, eq_iff,
}
use reana_server.Auth.Errors.{Result, ok, Result-cases}
use reana_server.Auth.Roles.{require_role}
use reana_server.Auth.Provision.{
  text, null, boolean, other, UserInfo, User, identified, has_email, select, one_or_none,
  get_user_by_idp_identity, update,
}
use reana_server.Auth.Provision.Claims.{
  validated_email, validated_identity_claim, validated_identity_claim-text, verify_userinfo_subject,
}
use reana_server.Auth.Provision.Linking.{
  filled, email_linking_allowed, link_existing_user, link_user_identity, link_user_identity-unmoved,
}
use reana_server.Auth.Provision.Jit.{
  Claims, Config, Surroundings, Change, updated, inserted, apply, subject, new_user,
  given_or_fetched, on_invalid_request, commit, link_or_create, first_sight, known_or_new,
  get_or_provision_user,
}

select-one :
    (email : String) (users : List User) (u : User)
    → one_or_none (select (has_email email) users) ≡ ok (some u)
    → (select (has_email email) users ≡ u ∷ []) × (u.email ≡ email)
select-one email [] u h = absurd (ground arith)
select-one email (v ∷ users) u h = ground (arith, select-one email users u, eq_iff v.email email)

select-none :
    (p : User → Bool) (users : List User)
    → one_or_none (select p users) ≡ ok none
    → select p users ≡ []
select-none p users h = ground arith

-- What linking makes of an account.
abbrev pub IsLinked : User → User → Type 0
IsLinked old u =
    (u.id_ ≡ old.id_)
    × (u.email ≡ old.email)
    × (old.idp_subject ≡ none)
    × (filled old.idp_issuer ≡ false)

pub link_existing_user-IsLinked :
    (users : List User) (old u : User) (sub iss : String) (info : UserInfo)
    → on_invalid_request (link_existing_user users old sub iss info) ≡ ok u
    → IsLinked old u
unfolding link_existing_user
link_existing_user-IsLinked users old u sub iss info h =
    elim (Result-cases (link_user_identity users old iss sub)) [
      | inl (x, bad) ↦ absurd (ground (arith, bad, h))
      | inr (x, good) ↦ ground (arith, good, h, link_user_identity-unmoved users old x iss sub good)
    ]

link_existing_user-identity :
    (users : List User) (old u : User) (sub iss : String) (info : UserInfo)
    → on_invalid_request (link_existing_user users old sub iss info) ≡ ok u
    → (u.idp_subject ≡ some sub) × (u.idp_issuer ≡ some iss)
unfolding link_existing_user
link_existing_user-identity users old u sub iss info h =
    elim (Result-cases (link_user_identity users old iss sub)) [
      | inl (x, bad) ↦ absurd (ground (arith, bad, h))
      | inr (x, good) ↦ ground (arith, good, h, link_user_identity-unmoved users old x iss sub good)
    ]

validated_email-text :
    (info : UserInfo) (email : String)
    → validated_email info ≡ ok email
    → info.email ≡ some (text email)
unfolding validated_email
validated_email-text info email h = ground (arith, h)

verify_userinfo_subject-text :
    (sub : String) (info : UserInfo)
    → verify_userinfo_subject sub info ≡ ok tt
    → info.sub ≡ some (text sub)
unfolding verify_userinfo_subject
verify_userinfo_subject-text sub info h = elim (Option-cases info.sub) [
  | inl missing ↦ ground (arith, missing, h)
  | inr (text t, there) ↦ ground (arith, there, h, eq_iff t sub)
  | inr (null, there) ↦ ground (arith, there, h)
  | inr (boolean b, there) ↦ ground (arith, there, h)
  | inr (other b, there) ↦ ground (arith, there, h)
]

-- UserInfo is that of the subject, with the email of the user, who has the identity of the token.
abbrev pub Carries : String → String → UserInfo → User → Type 0
Carries sub iss info u =
    (info.sub ≡ some (text sub))
    × (info.email ≡ some (text u.email))
    × (u.idp_subject ≡ some sub)
    × (u.idp_issuer ≡ some iss)

-- The others commit nothing in between.
abbrev pub Quiet : Surroundings → Type 0
Quiet w =
    ((t : List User) → w.before_email t ≡ t)
    × ((t : List User) → w.before_linking t ≡ t)
    × ((t : List User) → w.before_commit t ≡ t)
    × ((t : List User) → w.before_recovery t ≡ t)

-- Nothing has been written, and no user is said to be new.
abbrev pub Unchanged : List User → Result (User × Bool) × List User → Type 0
Unchanged users end = (end.1 ≡ users) × ((u : User) → end.0 ≢ ok (u, true))

-- A user has been added whose email no user had.
abbrev pub Created :
    String → String → UserInfo → List User → Result (User × Bool) × List User → Type 0
Created sub iss info users end =
    (u : User) × (end ≡ (ok (u, true), users ++ (u ∷ [])))
    × (select (has_email u.email) users ≡ [])
    × Carries sub iss info u

module _ (lower : String → String) (config : Config) (w : Surroundings) (quiet : Quiet w) where
  -- The one account with the email, which had no identity, has been given one, where that is allowed.
  abbrev pub Linked :
      String → String → UserInfo → List User → Result (User × Bool) × List User → Type 0
  Linked sub iss info users end =
      (old : User) × (u : User) × (end ≡ (ok (u, true), update u users))
      × (select (has_email old.email) users ≡ old ∷ [])
      × IsLinked old u
      × Carries sub iss info u
      × (email_linking_allowed lower config.linking iss old.email info ≡ true)

  abbrev Effect : String → String → UserInfo → List User → Result (User × Bool) × List User → Type 0
  Effect sub iss info users end =
      Unchanged users end ⊎ (Created sub iss info users end ⊎ Linked sub iss info users end)

  commit-writes :
      (sub iss : String) (change : Change) (users : List User)
      → Unchanged users (commit lower config w sub iss change users)
        ⊎ (commit lower config w sub iss change users
            ≡ (ok (subject change, true), apply change users))
  unfolding commit
  commit-writes sub iss change users = rw (quiet.2 users) (ground (arith, quiet.3 users))

  linked-Effect :
      (sub iss email : String) (info : UserInfo) (users : List User) (old u : User)
      → (select (has_email email) users ≡ old ∷ []) × (old.email ≡ email)
      → IsLinked old u
      → Carries sub iss info u
      → email_linking_allowed lower config.linking iss old.email info ≡ true
      → Effect sub iss info users (commit lower config w sub iss (updated u) users)
  linked-Effect sub iss email info users old u found linked carries allowed =
      elim (commit-writes sub iss (updated u) users) [
        | inl same ↦ inl same
        | inr done ↦ inr (
            inr (
              old,
              u,
              done,
              subst (λ e. select (has_email e) users ≡ old ∷ []) (sym found.1) found.0,
              linked,
              carries,
              allowed,
            ))
      ]

  carried :
      (sub iss email : String) (info : UserInfo) (users : List User) (old u : User)
      → info.sub ≡ some (text sub)
      → info.email ≡ some (text email)
      → old.email ≡ email
      → on_invalid_request (link_existing_user users old sub iss info) ≡ ok u
      → Carries sub iss info u
  carried sub iss email info users old u shown mailed same good =
      let (_, kept, _, _) = link_existing_user-IsLinked users old u sub iss info good in
      let (subject_new, issuer_new) = link_existing_user-identity users old u sub iss info good in
      (shown, mailed ∙ ap (λ e. some (text e)) (sym same ∙ sym kept), subject_new, issuer_new)

  link_or_create-Effect :
      (sub iss email : String) (info : UserInfo) (users : List User) (o : Option User)
      → info.sub ≡ some (text sub)
      → info.email ≡ some (text email)
      → one_or_none (select (has_email email) users) ≡ ok o
      → Effect sub iss info users (link_or_create lower config w sub iss email info o users)
  unfolding link_or_create
  link_or_create-Effect sub iss email info users none shown mailed h =
      elim (commit-writes sub iss (inserted (new_user w.new_id email sub iss info)) users) [
        | inl same ↦ inl same
        | inr done ↦ inr (
            inl (
              new_user w.new_id email sub iss info,
              done,
              select-none _ users h,
              (shown, mailed, refl, refl),
            ))
      ]
  link_or_create-Effect sub iss email info users (some old) shown mailed h =
      elim (Bool-cases (identified sub iss old)) [
        | inl same ↦ rw same (inl (refl, λ u e. ground arith))
        | inr differs ↦
            elim (Bool-cases (email_linking_allowed lower config.linking iss email info)) [
              | inr refused ↦ rw differs (rw refused (inl (refl, λ u e. ground arith)))
              | inl allowed ↦
                  elim (Result-cases
                    (on_invalid_request (link_existing_user users old sub iss info))) [
                      | inl (x, bad) ↦ rw differs (
                          rw allowed
                            (rw (quiet.1 users) (rw bad (inl (refl, λ u e. ground arith)))))
                      | inr (u, good) ↦ rw differs (
                          rw allowed (
                            rw (quiet.1 users) (
                              rw good (
                                linked-Effect sub iss email info users old u
                                  (select-one email users old h)
                                  (link_existing_user-IsLinked users old u sub iss info good)
                                  (carried sub iss email info users old u shown mailed
                                    (select-one email users old h).1 good)
                                  (rw (select-one email users old h).1 allowed)))))
                    ]
            ]
      ]

  first_sight-Effect :
      (sub iss : String) (info : UserInfo) (users : List User)
      → Effect sub iss info users (first_sight lower config w sub iss info users)
  unfolding first_sight
  first_sight-Effect sub iss info users = elim (Result-cases (verify_userinfo_subject sub info)) [
    | inl (x, bad) ↦ rw bad (inl (refl, λ u e. ground arith))
    | inr (tt, good) ↦ elim (Result-cases (validated_email info)) [
      | inl (x, bad) ↦ rw good (rw bad (inl (refl, λ u e. ground arith)))
      | inr (email, valid) ↦
          let r = one_or_none (select (has_email email) users) in
          elim (Result-cases (on_invalid_request r)) [
            | inl (x, bad) ↦
                rw good (rw valid (rw (quiet.0 users) (rw bad (inl (refl, λ u e. ground arith)))))
            | inr (o, found) ↦ rw good (
                rw valid (
                  rw (quiet.0 users) (
                    rw found (
                      link_or_create-Effect sub iss email info users o
                        (verify_userinfo_subject-text sub info good)
                        (validated_email-text info email valid) (ground (arith, found))))))
          ]
    ]
  ]

  known_or_new-Effect :
      (sub iss : String) (given : Option UserInfo) (fetched : Result UserInfo) (users : List User)
      (o : Option User)
      → Unchanged users (known_or_new lower config w sub iss given fetched o users)
        ⊎ ((info : UserInfo) × (given_or_fetched given fetched ≡ ok info)
            × (Created sub iss info users
                  (known_or_new lower config w sub iss given fetched o users)
                ⊎ Linked sub iss info users
                    (known_or_new lower config w sub iss given fetched o users)))
  unfolding known_or_new
  known_or_new-Effect sub iss none fetched users (some u) = inl (refl, λ v e. ground arith)
  known_or_new-Effect sub iss (some info) fetched users (some u) =
      inl (ground arith, λ v e. ground arith)
  known_or_new-Effect sub iss given fetched users none =
      elim (Result-cases (given_or_fetched given fetched)) [
        | inl (x, bad) ↦ rw bad (inl (refl, λ u e. ground arith))
        | inr (info, good) ↦ elim (first_sight-Effect sub iss info users) [
          | inl same ↦ inl (rw good same)
          | inr wrote ↦ inr (info, good, rw good wrote)
        ]
      ]

  -- While others commit nothing, a login leaves the table of users as it was and says that no user
  -- is new; or it adds one user, whose email no user had; or it links the one account that has the
  -- email, if that account had no identity and linking is allowed for the issuer of the token, this
  -- email and this UserInfo, and writes no other row. The email of the user who is written is that of
  -- UserInfo, UserInfo is that of the subject of the token, and the identity that is written is the
  -- issuer and the subject of the token. So no link is ever moved, and an error leaves nothing behind,
  -- whatever the issuer and the database answer.
  pub get_or_provision_user-writes :
      (claims : Claims) (given : Option UserInfo) (fetched : Result UserInfo) (users : List User)
      → Unchanged users (get_or_provision_user lower config w claims given fetched users)
        ⊎ ((sub : String) × (iss : String) × (info : UserInfo) × (claims.sub ≡ text sub)
            × (claims.iss ≡ text iss)
            × (given_or_fetched given fetched ≡ ok info)
            × (Created sub iss info users
                  (get_or_provision_user lower config w claims given fetched users)
                ⊎ Linked sub iss info users
                    (get_or_provision_user lower config w claims given fetched users)))
  unfolding get_or_provision_user
  get_or_provision_user-writes claims given fetched users =
      elim (Result-cases (validated_identity_claim claims.sub)) [
        | inl (x, bad) ↦ rw bad (inl (refl, λ u e. ground arith))
        | inr (sub, s_ok) ↦ elim (Result-cases (validated_identity_claim claims.iss)) [
          | inl (x, bad) ↦ rw s_ok (rw bad (inl (refl, λ u e. ground arith)))
          | inr (iss, i_ok) ↦ elim (Result-cases (require_role config.required_role claims.roles)) [
            | inl (x, bad) ↦ rw s_ok (rw i_ok (rw bad (inl (refl, λ u e. ground arith))))
            | inr (r, r_ok) ↦ elim (Result-cases (get_user_by_idp_identity sub iss users)) [
              | inl (x, bad) ↦
                  rw s_ok (rw i_ok (rw r_ok (rw bad (inl (refl, λ u e. ground arith)))))
              | inr (o, found) ↦ rw s_ok (
                  rw i_ok (
                    rw r_ok (
                      rw found (elim (known_or_new-Effect sub iss given fetched users o) [
                        | inl same ↦ inl same
                        | inr (info, seen, wrote) ↦ inr (
                          sub,
                          iss,
                          info,
                          validated_identity_claim-text claims.sub sub s_ok,
                          validated_identity_claim-text claims.iss iss i_ok,
                          seen,
                          wrote,
                        )
                      ]))))
            ]
          ]
        ]
      ]
