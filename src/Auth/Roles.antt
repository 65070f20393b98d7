-- ===== src/Auth/Roles.antt =====
-- reana_server/auth/tokens.py: the roles of an access token (`_as_role_list`, `extract_roles`,
-- `require_role`).
use reana_server.Prelude.{
  String, true, false, ◌≡◌, ◌⊎◌, ◌↔◌, Option, none, some, List, [], ◌∷◌, if◌then◌else◌, str_eq,
  contains, eq_iff, eq_refl, arith,
}
use reana_server.Auth.Errors.{missing_role, Result, ok, err}

-- The roles claim: a text, a list whose entries may be no texts, or anything else, also nothing.
pub data RoleClaim : Type 0 where
  one_role : String → RoleClaim
  role_list : List (Option String) → RoleClaim
  no_roles : RoleClaim

abbrev texts : List (Option String) → List String
texts [] = []
texts (none ∷ entries) = texts entries
texts (some role ∷ entries) = role ∷ texts entries

-- `_as_role_list`
unfoldable pub as_role_list : RoleClaim → List String
as_role_list (one_role role) = role ∷ []
as_role_list (role_list entries) = texts entries
as_role_list no_roles = []

-- The loop of `extract_roles`; `seen` holds what `unique_roles` holds.
abbrev distinct : List String → List String → List String
distinct seen [] = []
distinct seen (role ∷ roles) =
    let others = distinct seen roles in
    let more = distinct (role ∷ seen) roles in if contains seen role then others else role ∷ more

unfoldable pub extract_roles : RoleClaim → List String
extract_roles claim = distinct [] (as_role_list claim)

-- `require_role`, with the configured role
unfoldable pub require_role : String → RoleClaim → Result (Unit {0})
require_role required claim =
    if str_eq required ""
    then ok tt
    else if contains (extract_roles claim) required
    then ok tt
    else err (missing_role none)

abbrev AnyText : String → List (Option String) → Type 0
AnyText role [] = ⊥
AnyText role (none ∷ entries) = AnyText role entries
AnyText role (some other ∷ entries) = (other ≡ role) ⊎ AnyText role entries

-- What the claim grants, read directly.
abbrev pub Grants : String → RoleClaim → Type 0
Grants role (one_role other) = other ≡ role
Grants role (role_list entries) = AnyText role entries
Grants role no_roles = ⊥

abbrev pub Distinct : List String → Type 0
Distinct [] = Unit
Distinct (role ∷ roles) = (contains roles role ≡ false) × Distinct roles

contains-distinct :
    (seen roles : List String) (role : String)
    → contains (distinct seen roles) role
      ≡ (if contains seen role then false else contains roles role)
contains-distinct seen [] role = ground arith
contains-distinct seen (other ∷ roles) role = ground (
  arith,
  contains-distinct seen roles role,
  contains-distinct (other ∷ seen) roles role,
  eq_iff other role,
)

distinct-Distinct : (seen roles : List String) → Distinct (distinct seen roles)
distinct-Distinct seen [] = tt
distinct-Distinct seen (role ∷ roles) = ground (
  arith,
  distinct-Distinct seen roles,
  distinct-Distinct (role ∷ seen) roles,
  contains-distinct (role ∷ seen) roles role,
  eq_refl role,
)

texts_iff :
    (role : String) (entries : List (Option String))
    → (contains (texts entries) role ≡ true) ↔ AnyText role entries
texts_iff role [] = ground arith
texts_iff role (none ∷ entries) = texts_iff role entries
texts_iff role (some other ∷ entries) = ground (arith, texts_iff role entries, eq_iff other role)

-- No role is listed twice, and a role is listed exactly when the claim grants it: it is the claim
-- itself, or one of the texts of the list that the claim is.
pub extract_roles_lem :
    (claim : RoleClaim) (role : String)
    → Distinct (extract_roles claim)
      × ((contains (extract_roles claim) role ≡ true) ↔ Grants role claim)
unfolding extract_roles as_role_list
extract_roles_lem (one_role other) role =
    (distinct-Distinct [] (other ∷ []), ground (arith, eq_iff other role))
extract_roles_lem (role_list entries) role = (
  distinct-Distinct [] (texts entries),
  ground (arith, contains-distinct [] (texts entries) role, texts_iff role entries),
)
extract_roles_lem no_roles role = (tt, ground arith)

-- A required role is enforced: the check passes exactly when no role is required or the claim
-- grants the required one.
pub require_role_iff :
    (required : String) (claim : RoleClaim)
    → (require_role required claim ≡ ok tt) ↔ ((required ≡ "") ⊎ Grants required claim)
unfolding require_role
require_role_iff required claim =
    ground (arith, eq_iff required "", (extract_roles_lem claim required).1)
