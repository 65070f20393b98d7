-- ===== src/Auth/Provision/Linking.antt =====
-- reana_server/auth/provision.py: the linking of an identity to an account.
use reana_server.Prelude.{
  String, ◌≡◌, ◌↔◌, ◌⊎◌, Bool, true, false, Option, none, some, ◌&&◌, ◌||◌, not, if◌then◌else◌,
  str_eq, List, [], ◌∷◌, ◌==◌, contains, is_some, arith,
}
use reana_server.Auth.Errors.{provisioning_error, Result, ok, err}
use reana_server.Auth.Provision.{
  Json, null, boolean, text, other, UserInfo, User, equals, equals_iff, get_user_by_idp_identity,
}
use reana_server.Auth.Provision.Claims.{has_at, after_last_at, sanitize_claim}

-- The settings of `get_auth_config` that linking reads.
pub record LinkingConfig : Type 0 where
  pub email_linking_enabled : Bool
  pub email_linking_assume_verified_issuers : List String
  pub email_linking_issuer_allowlist : List String
  pub email_linking_domain_allowlist : List String

-- The truth of a text that may be missing.
abbrev pub filled : Option String → Bool
filled none = false
filled (some t) = not (str_eq t "")

-- The truth of a claim that may be missing.
abbrev pub truthy : Option Json → Bool
truthy none = false
truthy (some null) = false
truthy (some (boolean b)) = b
truthy (some (text t)) = not (str_eq t "")
truthy (some (other b)) = b

abbrev is_empty : List String → Bool
is_empty [] = true
is_empty (t ∷ ts) = false

-- The test of `email_verified`.
abbrev verified : LinkingConfig → String → Option Json → Bool
verified config iss none = contains config.email_linking_assume_verified_issuers iss
verified config iss (some (boolean b)) = b
verified config iss (some null) = false
verified config iss (some (text t)) = false
verified config iss (some (other b)) = false

-- `lower` is Python's `str.lower`.
module _ (lower : String → String) where
  abbrev pub email_domain : String → String
  email_domain email = if has_at email then lower (after_last_at email) else ""

  -- `email_linking_allowed`
  unfoldable pub email_linking_allowed : LinkingConfig → String → String → UserInfo → Bool
  email_linking_allowed config iss email info =
      let issuers = config.email_linking_issuer_allowlist in
      let domains = config.email_linking_domain_allowlist in
      if not config.email_linking_enabled
      then false
      else if not (verified config iss info.email_verified)
      then false
      else if not (is_empty issuers) && not (contains issuers iss)
      then false
      else if not (is_empty domains) && not (contains domains (email_domain email))
      then false
      else true

  -- An identity is linked by its email exactly when linking is enabled; the issuer says that the
  -- email is verified, or says nothing and is one that is attested to verify it; and the issuer and
  -- the domain of the email are on their lists, where these are not empty.
  pub email_linking_allowed_iff :
      (config : LinkingConfig) (iss email : String) (info : UserInfo)
      → (email_linking_allowed config iss email info ≡ true) ↔ (
          (config.email_linking_enabled ≡ true)
          × ((info.email_verified ≡ some (boolean true))
              ⊎ ((info.email_verified ≡ none)
                  × (contains config.email_linking_assume_verified_issuers iss ≡ true)))
          × ((config.email_linking_issuer_allowlist ≡ [])
              ⊎ (contains config.email_linking_issuer_allowlist iss ≡ true))
          × ((config.email_linking_domain_allowlist ≡ [])
              ⊎ (contains config.email_linking_domain_allowlist (email_domain email) ≡ true)))
  unfolding email_linking_allowed
  email_linking_allowed_iff config iss email info = ground arith

-- A user with the identity written.
abbrev pub with_identity : User → String → String → User
with_identity u iss sub = record u { idp_issuer = some iss; idp_subject = some sub }

abbrev owned_by_another : Option User → User → Bool
owned_by_another none u = false
owned_by_another (some v) u = not (v.id_ == u.id_)

abbrev linked_to : Result (Option User) → User → String → String → Result User
linked_to (err e) u iss sub = err e
linked_to (ok owner) u iss sub =
    if owned_by_another owner u
    then err provisioning_error
    else if filled u.idp_issuer || filled u.idp_subject
    then (if equals u.idp_issuer iss && equals u.idp_subject sub
        then ok u
        else err provisioning_error)
    else ok (with_identity u iss sub)

-- `link_user_identity`: the user as it is left, which its caller commits
unfoldable pub link_user_identity : List User → User → String → String → Result User
link_user_identity users u iss sub =
    if str_eq iss "" || str_eq sub ""
    then err provisioning_error
    else linked_to (get_user_by_idp_identity sub iss users) u iss sub

abbrev pub json : Option Json → Json
json none = null
json (some v) = v

abbrev pub named : UserInfo → User → User
named info u =
    let full_name =
      if not (filled u.full_name) && truthy info.name
      then sanitize_claim (json info.name)
      else u.full_name in
    let username =
      if not (filled u.username) && truthy info.preferred_username
      then sanitize_claim (json info.preferred_username)
      else u.username in
    record u { full_name = full_name; username = username }

abbrev pub with_names : UserInfo → Result User → Result User
with_names info (err e) = err e
with_names info (ok u) = ok (named info u)

-- `_link_existing_user`
unfoldable pub link_existing_user : List User → User → String → String → UserInfo → Result User
link_existing_user users u sub iss info =
    if is_some u.idp_subject
    then err provisioning_error
    else with_names info (link_user_identity users u iss sub)

-- Linking never moves a link: it succeeds only for an identity that no other user has, and either
-- the user has no link yet and gets this one, or it has this very link and is left unchanged.
pub link_user_identity-unmoved :
    (users : List User) (u v : User) (iss sub : String)
    → link_user_identity users u iss sub ≡ ok v
    → ((w : User) → get_user_by_idp_identity sub iss users ≡ ok (some w) → w.id_ ≡ u.id_)
      × (((filled u.idp_issuer ≡ false)
            × (filled u.idp_subject ≡ false)
            × (v ≡ with_identity u iss sub))
          ⊎ ((u.idp_issuer ≡ some iss) × (u.idp_subject ≡ some sub) × (v ≡ u)))
unfolding link_user_identity
link_user_identity-unmoved users u v iss sub h =
    ground (arith, equals_iff u.idp_issuer iss, equals_iff u.idp_subject sub)
