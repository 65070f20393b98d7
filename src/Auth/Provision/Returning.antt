-- ===== src/Auth/Provision/Returning.antt =====
-- reana_server/auth/provision.py: the second login of a user finds the user of the first.
use reana_server.Prelude.{
  String, ◌≡◌, refl, ap, Bool, true, false, Option, none, some, ◌⊎◌, inl, inr, ◌≢◌, List, [], ◌∷◌,
  ◌++◌, arith, Bool-cases, eq_refl,
}
use reana_server.Auth.Errors.{unexpected_error, Result, ok, err, Result-cases}
use reana_server.Auth.Roles.{require_role}
use reana_server.Auth.Provision.{
  UserInfo, User, identified, has_email, select, one_or_none, get_user_by_idp_identity, update,
}
use reana_server.Auth.Provision.Claims.{
  validated_email, validated_identity_claim, verify_userinfo_subject,
}
use reana_server.Auth.Provision.Linking.{email_linking_allowed, link_existing_user}
use reana_server.Auth.Provision.Identity.{link_existing_user-identified}
use reana_server.Auth.Provision.Unmoved.{Quiet, link_existing_user-IsLinked}
use reana_server.Auth.Provision.Jit.{
  Claims, Config, Surroundings, Change, updated, inserted, apply, subject, new_user,
  given_or_fetched, on_invalid_request, commit, link_or_create, first_sight, known_or_new,
  get_or_provision_user, committed,
}

abbrev Has : User → List User → Type 0
Has u [] = ⊥
Has u (v ∷ users) = (v ≡ u) ⊎ Has u users

select-Has :
    (p : User → Bool) (users : List User) (u : User)
    → Has u users
    → p u ≡ true
    → (one_or_none (select p users) ≡ ok (some u))
      ⊎ (one_or_none (select p users) ≡ err unexpected_error)
select-Has p [] u h e = absurd h
select-Has p (v ∷ users) u (inl same) e = elim (Bool-cases (p v)) [
  | inl holds ↦ ground (arith, holds, same)
  | inr fails ↦ absurd (ground (arith, fails, e, ap p same))
]
select-Has p (v ∷ users) u (inr later) e = elim (Bool-cases (p v)) [
  | inl holds ↦ ground (arith, holds, select-Has p users u later e)
  | inr fails ↦ rw fails (select-Has p users u later e)
]

Has-append : (users : List User) (u : User) → Has u (users ++ (u ∷ []))
Has-append [] u = inl refl
Has-append (v ∷ users) u = inr (Has-append users u)

Has-update :
    (users : List User) (old u : User) → Has old users → u.id_ ≡ old.id_ → Has u (update u users)
Has-update [] old u h e = h
Has-update (v ∷ users) old u (inl same) e = ground (arith, e, ap (λ x. x.id_) same)
Has-update (v ∷ users) old u (inr later) e = ground (arith, Has-update users old u later e)

one_or_none-Has :
    (p : User → Bool) (users : List User) (u : User)
    → one_or_none (select p users) ≡ ok (some u)
    → Has u users
one_or_none-Has p [] u h = absurd (ground arith)
one_or_none-Has p (v ∷ users) u h = elim (Bool-cases (p v)) [
  | inl holds ↦ inl (ground (arith, holds, h))
  | inr fails ↦ inr (one_or_none-Has p users u (ground (arith, fails, h)))
]

unknown-Has :
    (sub iss : String) (users : List User) (u : User)
    → get_user_by_idp_identity sub iss users ≡ ok none
    → Has u users
    → identified sub iss u ≢ true
unfolding get_user_by_idp_identity
unknown-Has sub iss users u h there linked =
    ground (arith, select-Has (identified sub iss) users u there linked)

-- The database keeps identities unique: it commits no table in which two users have the same one.
abbrev pub IsGuarded : Surroundings → Type 0
IsGuarded w =
    (t : List User) (sub iss : String)
    → w.verdict t ≡ committed
    → get_user_by_idp_identity sub iss t ≢ err unexpected_error

-- The user that results is what a lookup of the identity finds afterwards.
abbrev Found : String → String → Result (User × Bool) × List User → Type 0
Found sub iss end =
    (u : User) (b : Bool) → end.0 ≡ ok (u, b) → get_user_by_idp_identity sub iss end.1 ≡ ok (some u)

module _ (lower : String → String) (config : Config) (w : Surroundings) where
  module _ (quiet : Quiet w) (guarded : IsGuarded w) where
    commit-Found :
        (sub iss : String) (change : Change) (users : List User)
        → Has (subject change) (apply change users)
        → identified sub iss (subject change) ≡ true
        → Found sub iss (commit lower config w sub iss change users)
    unfolding commit get_user_by_idp_identity
    commit-Found sub iss change users there linked =
        let unique = guarded (apply change users) sub iss in
        let single =
          select-Has (identified sub iss) (apply change users) (subject change) there linked in
        rw (quiet.2 users) (λ u b e. ground (arith, quiet.3 users, unique, single, e))

    link_or_create-Found :
        (sub iss email : String) (info : UserInfo) (o : Option User) (users : List User)
        → get_user_by_idp_identity sub iss users ≡ ok none
        → one_or_none (select (has_email email) users) ≡ ok o
        → Found sub iss (link_or_create lower config w sub iss email info o users)
    unfolding link_or_create
    link_or_create-Found sub iss email info none users unknown h =
        let u = new_user w.new_id email sub iss info in
        commit-Found sub iss (inserted u) users (Has-append users u)
          (ground (arith, eq_refl iss, eq_refl sub))
    link_or_create-Found sub iss email info (some old) users unknown h =
        let there = one_or_none-Has (has_email email) users old h in
        elim (Bool-cases (identified sub iss old)) [
          | inl same ↦ λ u b e. absurd (unknown-Has sub iss users old unknown there same)
          | inr differs ↦
              elim (Bool-cases (email_linking_allowed lower config.linking iss email info)) [
                | inr refused ↦ rw differs (rw refused (λ u b e. absurd (ground (arith, e))))
                | inl allowed ↦
                    let r = on_invalid_request (link_existing_user users old sub iss info) in
                    elim (Result-cases r) [
                      | inl (x, bad) ↦ rw differs (
                          rw allowed
                            (rw (quiet.1 users) (rw bad (λ u b e. absurd (ground (arith, e))))))
                      | inr (v, good) ↦ rw differs (
                          rw allowed (
                            rw (quiet.1 users) (
                              rw good (
                                commit-Found sub iss (updated v) users
                                  (Has-update users old v there
                                    (link_existing_user-IsLinked users old v sub iss info good).0)
                                  (link_existing_user-identified users old v sub iss info good)))))
                    ]
              ]
        ]

    first_sight-Found :
        (sub iss : String) (info : UserInfo) (users : List User)
        → get_user_by_idp_identity sub iss users ≡ ok none
        → Found sub iss (first_sight lower config w sub iss info users)
    unfolding first_sight
    first_sight-Found sub iss info users unknown =
        elim (Result-cases (verify_userinfo_subject sub info)) [
          | inl (x, bad) ↦ rw bad (λ u b e. absurd (ground (arith, e)))
          | inr (x, good) ↦ elim (Result-cases (validated_email info)) [
            | inl (x, bad) ↦ rw good (rw bad (λ u b e. absurd (ground (arith, e))))
            | inr (email, valid) ↦
                let r = one_or_none (select (has_email email) users) in
                elim (Result-cases (on_invalid_request r)) [
                  | inl (x, bad) ↦
                      rw good (
                        rw valid
                          (rw (quiet.0 users) (rw bad (λ u b e. absurd (ground (arith, e))))))
                  | inr (o, found) ↦ rw good (
                      rw valid (
                        rw (quiet.0 users) (
                          rw found (
                            link_or_create-Found sub iss email info o users unknown
                              (ground (arith, found))))))
                ]
          ]
        ]

    known_or_new-Found :
        (sub iss : String) (given : Option UserInfo) (fetched : Result UserInfo) (users : List User)
        (o : Option User)
        → get_user_by_idp_identity sub iss users ≡ ok o
        → Found sub iss (known_or_new lower config w sub iss given fetched o users)
    unfolding known_or_new
    known_or_new-Found sub iss none fetched users (some u) h v b e = ground (arith, h, e)
    known_or_new-Found sub iss (some info) fetched users (some u) h v b e = ground (arith, h, e)
    known_or_new-Found sub iss given fetched users none h v b e =
        elim (Result-cases (given_or_fetched given fetched)) [
          | inl (x, bad) ↦ absurd (ground (arith, bad, e))
          | inr (info, good) ↦
              rw good (first_sight-Found sub iss info users h v b (ground (arith, good, e)))
        ]

  -- The user of a first login is the user of every later one: while others commit nothing and the
  -- database keeps identities unique, a login that results in a user leaves a table in which a
  -- login with the same claims results in that user, as a known one, without UserInfo being
  -- asked for and without a change of the table.
  pub get_or_provision_user-again :
      (claims : Claims) (given : Option UserInfo) (fetched : Result UserInfo) (users : List User)
      (u : User) (is_new : Bool) (v : Surroundings) (later : Result UserInfo)
      → Quiet w
      → IsGuarded w
      → (get_or_provision_user lower config w claims given fetched users).0 ≡ ok (u, is_new)
      → get_or_provision_user lower config v claims none later
          (get_or_provision_user lower config w claims given fetched users).1
        ≡ (ok (u, false), (get_or_provision_user lower config w claims given fetched users).1)
  unfolding get_or_provision_user known_or_new
  get_or_provision_user-again claims given fetched users u is_new v later quiet guarded h =
      elim (Result-cases (validated_identity_claim claims.sub)) [
        | inl (x, bad) ↦ absurd (ground (arith, bad, h))
        | inr (sub, s_ok) ↦ elim (Result-cases (validated_identity_claim claims.iss)) [
          | inl (x, bad) ↦ absurd (ground (arith, s_ok, bad, h))
          | inr (iss, i_ok) ↦ elim (Result-cases (require_role config.required_role claims.roles)) [
            | inl (x, bad) ↦ absurd (ground (arith, s_ok, i_ok, bad, h))
            | inr (r, r_ok) ↦ elim (Result-cases (get_user_by_idp_identity sub iss users)) [
              | inl (x, bad) ↦ absurd (ground (arith, s_ok, i_ok, r_ok, bad, h))
              | inr (o, found) ↦
                  let again =
                    known_or_new-Found quiet guarded sub iss given fetched users o found u is_new
                      (ground (arith, s_ok, i_ok, r_ok, found, h)) in
                  rw s_ok (rw i_ok (rw r_ok (rw found (rw again refl))))
            ]
          ]
        ]
      ]
