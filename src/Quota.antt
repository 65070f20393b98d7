-- ===== src/Quota.antt =====
-- reana_server/utils.py and reana_server/rest/quota.py: the tables that quotas are kept in.
pub mod Limits
pub mod Chosen
pub mod Granting
pub mod Periods
pub mod Periodic
pub mod Endpoints
pub mod Closed
mod Tests
use reana_server.Prelude.{
  ℕ, String, ◌≡◌, Bool, true, false, ◌&&◌, not, Option, none, some, if◌then◌else◌, str_eq, List, [],
  ◌∷◌, ◌++◌,
}

-- A row of a user, with the time of its creation.
pub record User : Type 0 where
  pub id : String
  pub email : String
  pub created : ℕ

pub record Resource : Type 0 where
  pub id : String
  pub kind : String
  pub name : String

-- `UserResource`
pub record Share : Type 0 where
  pub user : String
  pub resource : String
  pub quota_limit : ℕ
  pub quota_used : ℕ
  pub quota_period_months : Option ℕ
  pub quota_period_start_at : Option ℕ

-- What is committed.
pub record Tables : Type 0 where
  pub users : List User
  pub resources : List Resource
  pub shares : List Share

abbrev pub is_filled : Option String → Bool
is_filled none = false
is_filled (some t) = not (str_eq t "")

-- `filter_by(...).one_or_none()`, by a column that is unique
abbrev pub by_id : String → List User → Option User
by_id key [] = none
by_id key (u ∷ users) = if str_eq u.id key then some u else by_id key users

abbrev pub by_email : String → List User → Option User
by_email key [] = none
by_email key (u ∷ users) = if str_eq u.email key then some u else by_email key users

abbrev pub or_by_email : Option String → List User → Option User
or_by_email none users = none
or_by_email (some email) users = if str_eq email "" then none else by_email email users

-- `_get_user_by_criteria`: by the id, and without it by the email; a text that is no id finds nobody
unfoldable pub get_user_by_criteria : Option String → Option String → List User → Option User
get_user_by_criteria none email users = or_by_email email users
get_user_by_criteria (some id) email users =
    if str_eq id "" then or_by_email email users else by_id id users

abbrev pub is_of : String → String → Share → Bool
is_of user resource share = str_eq share.user user && str_eq share.resource resource

-- `filter_by(user=..., resource=...).one_or_none()`
unfoldable pub find_share : String → String → List Share → Option Share
find_share user resource [] = none
find_share user resource (share ∷ shares) =
    if is_of user resource share then some share else find_share user resource shares
