-- ===== src/Auth/Provision/Jit.antt =====
-- reana_server/auth/provision.py: `get_or_provision_user`.
use reana_server.Prelude.{
  ℕ, String, Bool, true, false, Option, none, some, if◌then◌else◌, List, [], ◌∷◌, ◌++◌,
}
use reana_server.Auth.Errors.{provisioning_error, unexpected_error, Result, ok, err}
use reana_server.Auth.Exec.{Exec, pure, raise, lift, ◌>>=◌}
use reana_server.Auth.Roles.{RoleClaim, require_role}
use reana_server.Auth.Provision.{
  Json, text, UserInfo, User, identified, has_email, select, one_or_none, get_user_by_idp_identity,
  update,
}
use reana_server.Auth.Provision.Claims.{
  sanitize_claim, validated_email, validated_identity_claim, verify_userinfo_subject,
}
use reana_server.Auth.Provision.Linking.{LinkingConfig, email_linking_allowed, link_existing_user}

-- The validated claims of the access token that are read.
pub record Claims : Type 0 where
  pub iss : Json
  pub sub : Json
  pub roles : RoleClaim

-- The settings.
pub record Config : Type 0 where
  pub required_role : String
  pub linking : LinkingConfig

-- What the database says to a COMMIT, given the table that it would leave.
pub data Verdict : Type 0 where
  committed integrity_error invalid_request other_failure : Verdict

-- What others commit before the lookup of the email, before the lookup of the owner of the identity,
-- before the COMMIT and before the lookup after a failed one; the key of a new row; the verdict.
pub record Surroundings : Type 0 where
  pub before_email : List User → List User
  pub before_linking : List User → List User
  pub before_commit : List User → List User
  pub before_recovery : List User → List User
  pub new_id : ℕ
  pub verdict : List User → Verdict

-- What the request writes: nothing, an UPDATE of a user or an INSERT of one.
pub data Change : Type 0 where
  updated : User → Change
  inserted : User → Change

abbrev pub apply : Change → List User → List User
apply (updated u) users = update u users
apply (inserted u) users = users ++ (u ∷ [])

abbrev pub subject : Change → User
subject (updated u) = u
subject (inserted u) = u

-- `except InvalidRequestError` for a query
abbrev pub on_invalid_request {ℓ} : {A : Type ℓ} → Result A → Result A
on_invalid_request (ok a) = ok a
on_invalid_request (err unexpected_error) = err provisioning_error
on_invalid_request (err e) = err e

-- `userinfo or fetch_userinfo(token)`; an empty object counts as none.
abbrev pub given_or_fetched : Option UserInfo → Result UserInfo → Result UserInfo
given_or_fetched none fetched = fetched
given_or_fetched (some info) fetched = ok info

-- `userinfo.get(name, email)`
abbrev pub or_email : Option Json → String → Json
or_email none email = text email
or_email (some v) email = v

abbrev pub new_user : ℕ → String → String → String → UserInfo → User
new_user id_ email sub iss info = record {
  id_ = id_;
  email = email;
  full_name = sanitize_claim (or_email info.name email);
  username = sanitize_claim (or_email info.preferred_username email);
  idp_issuer = some iss;
  idp_subject = some sub;
}

module _ (lower : String → String) (config : Config) (w : Surroundings) where
  -- The end of the except clause for an IntegrityError.
  abbrev pub winner : Option User → Exec (List User) (User × Bool)
  winner none = raise provisioning_error
  winner (some u) = pure (u, false)

  abbrev pub recovered : String → String → Exec (List User) (User × Bool)
  recovered sub iss users =
      (lift (get_user_by_idp_identity sub iss (w.before_recovery users)) >>= winner)
        (w.before_recovery users)

  abbrev pub decided :
      Verdict → String → String → Change → List User → Result (User × Bool) × List User
  decided committed sub iss change users = (ok (subject change, true), apply change users)
  decided integrity_error sub iss change users = recovered sub iss users
  decided invalid_request sub iss change users = (err provisioning_error, users)
  decided other_failure sub iss change users = (err unexpected_error, users)

  -- `Session.commit()` and its except clauses.
  unfoldable pub commit : String → String → Change → Exec (List User) (User × Bool)
  commit sub iss change users =
      let before = w.before_commit users in
      decided (w.verdict (apply change before)) sub iss change before

  -- The account that has the email, if there is one.
  unfoldable pub link_or_create :
      String → String → String → UserInfo → Option User → Exec (List User) (User × Bool)
  link_or_create sub iss email info none =
      commit sub iss (inserted (new_user w.new_id email sub iss info))
  link_or_create sub iss email info (some existing) =
      if identified sub iss existing
      then pure (existing, false)
      else if email_linking_allowed lower config.linking iss email info
      then (λ users.
          (lift (
                on_invalid_request
                  (link_existing_user (w.before_linking users) existing sub iss info))
              >>= (λ u. commit sub iss (updated u)))
            (w.before_linking users))
      else raise provisioning_error

  -- First sight of an identity.
  unfoldable pub first_sight : String → String → UserInfo → Exec (List User) (User × Bool)
  first_sight sub iss info = lift (verify_userinfo_subject sub info) >>= λ _.
      lift (validated_email info) >>= λ email. (λ users.
        (lift (on_invalid_request (one_or_none (select (has_email email) (w.before_email users))))
            >>= link_or_create sub iss email info)
          (w.before_email users))

  -- A user that is known needs no UserInfo, but one that was given must be his.
  unfoldable pub known_or_new :
      String
      → String
      → Option UserInfo
      → Result UserInfo
      → Option User
      → Exec (List User) (User × Bool)
  known_or_new sub iss none fetched (some u) = pure (u, false)
  known_or_new sub iss (some info) fetched (some u) =
      lift (verify_userinfo_subject sub info) >>= λ _. pure (u, false)
  known_or_new sub iss given fetched none =
      lift (given_or_fetched given fetched) >>= first_sight sub iss

  -- `get_or_provision_user`; `fetched` is what `fetch_userinfo` answers.
  unfoldable pub get_or_provision_user :
      Claims → Option UserInfo → Result UserInfo → Exec (List User) (User × Bool)
  get_or_provision_user claims given fetched = lift (validated_identity_claim claims.sub) >>= λ sub.
      lift (validated_identity_claim claims.iss) >>= λ iss.
      lift (require_role config.required_role claims.roles) >>= λ _. λ users.
        ((lift (get_user_by_idp_identity sub iss users) >>= known_or_new sub iss given fetched)
          users)
