-- ===== src/Auth/Provision/Tests.antt =====
-- reana_server/auth/provision.py on concrete logins, and roles.
use reana_server.Prelude.{
  String, ◌≡◌, refl, true, false, none, some, ◌⊎◌, ◌↔◌, List, [], ◌∷◌, contains, arith,
}
use reana_server.Auth.Errors.{provisioning_error, missing_role, ok, err}
use reana_server.Auth.Roles.{role_list, no_roles, as_role_list, extract_roles, require_role, Grants}
use reana_server.Auth.Provision.{boolean, text, UserInfo, User, get_user_by_idp_identity}
use reana_server.Auth.Provision.Claims.{
  sanitize_claim, validated_email, validated_identity_claim, verify_userinfo_subject,
}
use reana_server.Auth.Provision.Linking.{
  link_user_identity-unmoved, filled, email_linking_allowed, email_linking_allowed_iff,
  email_domain, link_user_identity, link_existing_user, with_identity,
}
use reana_server.Auth.Provision.Jit.{
  Claims, Config, Surroundings, Verdict, committed, integrity_error, commit, given_or_fetched,
  link_or_create, first_sight, known_or_new, get_or_provision_user,
}
use reana_server.Auth.Provision.Identity.{get_or_provision_user-identity}
use reana_server.Auth.Provision.Unmoved.{
  Quiet, Unchanged, Created, Linked, get_or_provision_user-writes,
}
use reana_server.Auth.Provision.Returning.{IsGuarded, get_or_provision_user-again}

abbrev lower : String → String
lower t = t

abbrev config : Config
config = record {
  required_role = "reana:user";
  linking = record {
    email_linking_enabled = true;
    email_linking_assume_verified_issuers = "https://idp" ∷ [];
    email_linking_issuer_allowlist = [];
    email_linking_domain_allowlist = "cern.ch" ∷ [];
  };
}

abbrev same_table : List User → List User
same_table t = t

abbrev quiet_world : (List User → Verdict) → Surroundings
quiet_world verdict = record {
  before_email = same_table;
  before_linking = same_table;
  before_commit = same_table;
  before_recovery = same_table;
  new_id = 7;
  verdict = verdict;
}

abbrev jane : User
jane = record {
  id_ = 1;
  email = "jane@cern.ch";
  full_name = none;
  username = some "jane";
  idp_issuer = none;
  idp_subject = none;
}

abbrev info : UserInfo
info = record {
  sub = some (text "s1");
  email = some (text "jane@cern.ch");
  name = some (text "Jane\nDoe");
  preferred_username = none;
  email_verified = none;
}

abbrev claims : Claims
claims = record {
  iss = text "https://idp";
  sub = text "s1";
  roles = role_list (some "reana:user" ∷ none ∷ some "reana:user" ∷ []);
}

abbrev linked_jane : User
linked_jane = record jane {
  full_name = some "JaneDoe";
  idp_issuer = some "https://idp";
  idp_subject = some "s1";
}

-- One user is as many as this database takes.
abbrev one_user : List User → Verdict
one_user [] = committed
one_user (u ∷ []) = committed
one_user (u ∷ v ∷ users) = integrity_error

abbrev guarded_world : Surroundings
guarded_world = quiet_world one_user

quiet : Quiet guarded_world
quiet = (λ t. refl, λ t. refl, λ t. refl, λ t. refl)

guarded : IsGuarded guarded_world
unfolding get_user_by_idp_identity
guarded [] sub iss h = ground arith
guarded (u ∷ []) sub iss h = ground arith
guarded (u ∷ v ∷ users) sub iss h = absurd (ground (arith, h))

login : Unit {0}
unfolding get_or_provision_user known_or_new first_sight link_or_create commit
    get_user_by_idp_identity link_user_identity link_existing_user email_linking_allowed
    sanitize_claim validated_email validated_identity_claim verify_userinfo_subject require_role
    extract_roles as_role_list
login = tt

login_tests :
    (get_or_provision_user lower config guarded_world claims none (ok info) (jane ∷ [])
      ≡ (ok (linked_jane, true), linked_jane ∷ []))
    × ((get_or_provision_user lower config guarded_world claims none (ok info) []).0
        ≡ ok (record linked_jane { id_ = 7; username = some "jane@cern.ch" }, true))
    × ((get_or_provision_user lower config guarded_world
          (record claims { roles = no_roles })
          none
          (ok info)
          []).0
        ≡ err (missing_role none))
    × (email_domain lower "a@b@cern.ch" ≡ "cern.ch")
unfolding login
login_tests = (refl, refl, refl, refl)

email_linking_allowed_iff_example :
    (email_linking_allowed lower config.linking "https://idp" "jane@cern.ch" info ≡ true) ↔ (
      (true ≡ true)
      × ((info.email_verified ≡ some (boolean true))
          ⊎ ((info.email_verified ≡ none) × (contains ("https://idp" ∷ []) "https://idp" ≡ true)))
      × ((config.linking.email_linking_issuer_allowlist ≡ [])
          ⊎ (contains config.linking.email_linking_issuer_allowlist "https://idp" ≡ true))
      × ((config.linking.email_linking_domain_allowlist ≡ [])
          ⊎ (contains ("cern.ch" ∷ []) (email_domain lower "jane@cern.ch") ≡ true)))
email_linking_allowed_iff_example =
    email_linking_allowed_iff lower config.linking "https://idp" "jane@cern.ch" info

abbrev identified_jane : User
identified_jane = with_identity jane "https://idp" "s1"

get_or_provision_user-identity_example :
    (sub : String) × (iss : String) × (claims.sub ≡ text sub)
    × (claims.iss ≡ text iss)
    × ((config.required_role ≡ "") ⊎ Grants config.required_role claims.roles)
    × (linked_jane.idp_subject ≡ some sub)
    × (linked_jane.idp_issuer ≡ some iss)
unfolding login
get_or_provision_user-identity_example =
    get_or_provision_user-identity lower config guarded_world claims none (ok info) (jane ∷ [])
      linked_jane true refl

get_or_provision_user-writes_example :
    Unchanged
      (jane ∷ [])
      (get_or_provision_user lower config guarded_world claims none (ok info) (jane ∷ []))
    ⊎ ((sub : String) × (iss : String) × (seen : UserInfo) × (claims.sub ≡ text sub)
        × (claims.iss ≡ text iss)
        × (given_or_fetched none (ok info) ≡ ok seen)
        × (Created sub iss seen
              (jane ∷ [])
              (get_or_provision_user lower config guarded_world claims none (ok info) (jane ∷ []))
            ⊎ Linked lower config guarded_world quiet sub iss seen (jane ∷ []) (
                get_or_provision_user lower config guarded_world claims none
                  (ok info)
                  (jane ∷ []))))
get_or_provision_user-writes_example =
    get_or_provision_user-writes lower config guarded_world quiet claims none (ok info) (jane ∷ [])

get_or_provision_user-again_example :
    get_or_provision_user lower config guarded_world claims none
      (err provisioning_error)
      (get_or_provision_user lower config guarded_world claims none (ok info) (jane ∷ [])).1
    ≡ (
      ok (linked_jane, false),
      (get_or_provision_user lower config guarded_world claims none (ok info) (jane ∷ [])).1,
    )
unfolding login
get_or_provision_user-again_example =
    get_or_provision_user-again lower config guarded_world claims none (ok info) (jane ∷ [])
      linked_jane true guarded_world (err provisioning_error) quiet guarded refl

link_user_identity-unmoved_example :
    ((w : User) → get_user_by_idp_identity "s1" "https://idp" (jane ∷ []) ≡ ok (some w) → w.id_ ≡ 1)
    × (((filled jane.idp_issuer ≡ false)
          × (filled jane.idp_subject ≡ false)
          × (identified_jane ≡ with_identity jane "https://idp" "s1"))
        ⊎ ((jane.idp_issuer ≡ some "https://idp")
            × (jane.idp_subject ≡ some "s1")
            × (identified_jane ≡ jane)))
unfolding login
link_user_identity-unmoved_example =
    link_user_identity-unmoved (jane ∷ []) jane identified_jane "https://idp" "s1" refl
