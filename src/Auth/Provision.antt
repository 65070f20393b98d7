-- ===== src/Auth/Provision.antt =====
-- reana_server/auth/provision.py: users provisioned at their first login. The table of users is what
-- other transactions have committed; `Others` says what they commit in between.
pub mod Claims
pub mod Linking
pub mod Jit
pub mod Identity
pub mod Unmoved
pub mod Returning
mod Tests
use reana_server.Prelude.{
  ℕ, String, ◌≡◌, Bool, true, false, Option, none, some, ◌&&◌, if◌then◌else◌, str_eq, List, [], ◌∷◌,
  ◌==◌, ◌↔◌, eq_iff, arith,
}
use reana_server.Auth.Errors.{unexpected_error, Result, ok, err}

-- A value of a JSON document. Of a number, a list or an object only its truth is kept.
pub data Json : Type 0 where
  null : Json
  boolean : Bool → Json
  text : String → Json
  other : Bool → Json

-- The claims of a UserInfo response that are read; `none` is a missing key.
pub record UserInfo : Type 0 where
  pub sub : Option Json
  pub email : Option Json
  pub name : Option Json
  pub preferred_username : Option Json
  pub email_verified : Option Json

-- The columns of a user that this module reads or writes.
pub record User : Type 0 where
  pub id_ : ℕ
  pub email : String
  pub full_name : Option String
  pub username : Option String
  pub idp_issuer : Option String
  pub idp_subject : Option String

-- A column equals a text; NULL equals none.
abbrev pub equals : Option String → String → Bool
equals none t = false
equals (some u) t = str_eq u t

pub equals_iff : (o : Option String) (t : String) → (equals o t ≡ true) ↔ (o ≡ some t)
equals_iff none t = ground arith
equals_iff (some u) t = ground (arith, eq_iff u t)

-- `filter_by(idp_subject=sub, idp_issuer=iss)`
abbrev pub identified : String → String → User → Bool
identified sub iss u = equals u.idp_issuer iss && equals u.idp_subject sub

abbrev pub has_email : String → User → Bool
has_email email u = str_eq u.email email

abbrev pub select : (User → Bool) → List User → List User
select p [] = []
select p (u ∷ users) = let others = select p users in if p u then u ∷ others else others

-- `one_or_none`; several rows raise MultipleResultsFound, an InvalidRequestError of SQLAlchemy.
abbrev pub one_or_none : List User → Result (Option User)
one_or_none [] = ok none
one_or_none (u ∷ []) = ok (some u)
one_or_none (u ∷ v ∷ users) = err unexpected_error

-- `get_user_by_idp_identity`
unfoldable pub get_user_by_idp_identity : String → String → List User → Result (Option User)
get_user_by_idp_identity sub iss users = one_or_none (select (identified sub iss) users)

-- The row of a changed user is written back.
abbrev pub update : User → List User → List User
update u [] = []
update u (v ∷ users) =
    let others = update u users in if v.id_ == u.id_ then u ∷ others else v ∷ others
