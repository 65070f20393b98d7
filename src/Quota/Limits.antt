-- ===== src/Quota/Limits.antt =====
-- reana_server/utils.py: setting a quota limit for users.
use reana_server.Prelude.{
  ℕ, ℤ, pos, negsuc, String, Bool, true, false, ◌&&◌, ◌||◌, not, Option, none, some, if◌then◌else◌,
  str_eq, contains, List, [], ◌∷◌,
}
use reana_server.Quota.{User, Resource, Share, Tables, is_filled, is_of, get_user_by_criteria}

-- How `_set_quota_limit` ends, by its message.
pub data Ending : Type 0 where
  -- 200
  limit_set : Ending
  -- 400
  not_one_of_emails_and_ids : Ending
  emails_empty : Ending
  ids_empty : Ending
  not_one_of_type_and_name : Ending
  limit_negative : Ending
  id_looks_like_email : Ending
  several_resources : Ending
  resource_unknown : Ending
  -- 404
  users_unknown : Ending
  -- 500
  failed : Ending

abbrev pub status : Ending → ℕ
status limit_set = 200
status not_one_of_emails_and_ids = 400
status emails_empty = 400
status ids_empty = 400
status not_one_of_type_and_name = 400
status limit_negative = 400
status id_looks_like_email = 400
status several_resources = 400
status resource_unknown = 400
status users_unknown = 404
status failed = 500

abbrev pub with_limit : ℕ → Share → Share
with_limit limit share = record {
  user = share.user;
  resource = share.resource;
  quota_limit = limit;
  quota_used = share.quota_used;
  quota_period_months = share.quota_period_months;
  quota_period_start_at = share.quota_period_start_at;
}

-- The body of the last loop: a share that is there gets the limit, and else a share is added.
unfoldable pub set_share : ℕ → String → String → List Share → List Share
set_share limit user resource [] =
    record {
      user = user;
      resource = resource;
      quota_limit = limit;
      quota_used = 0;
      quota_period_months = none;
      quota_period_start_at = none;
    }
    ∷ []
set_share limit user resource (share ∷ shares) =
    let later = set_share limit user resource shares in
    if is_of user resource share then with_limit limit share ∷ shares else share ∷ later

-- How the database answers: whether the queries before the last loop do, the ids of the users for
-- whom the queries in the loop raise an exception, and whether it commits.
pub record Database : Type 0 where
  pub reads : Bool
  pub fails : String → Bool
  pub commits : Bool

-- The last loop; `none` is an exception.
unfoldable pub set_shares :
    (String → Bool) → ℕ → List User → String → List Share → Option (List Share)
set_shares fails limit [] resource shares = some shares
set_shares fails limit (user ∷ users) resource shares =
    let rest = set_shares fails limit users resource (set_share limit user.id resource shares) in
    if fails user.id then none else rest

-- The users for emails or for ids; `none` when one of them is not there.
abbrev pub and_user : Option User → Option (List User) → Option (List User)
and_user none later = none
and_user (some user) none = none
and_user (some user) (some users) = some (user ∷ users)

unfoldable pub users_by_email : List String → List User → Option (List User)
users_by_email [] users = some []
users_by_email (email ∷ emails) users =
    and_user (get_user_by_criteria none (some email) users) (users_by_email emails users)

unfoldable pub users_by_id : List String → List User → Option (List User)
users_by_id [] users = some []
users_by_id (id ∷ ids) users =
    and_user (get_user_by_criteria (some id) none users) (users_by_id ids users)

abbrev pub resource_named : String → List Resource → Option Resource
resource_named name [] = none
resource_named name (r ∷ rs) = if str_eq r.name name then some r else resource_named name rs

abbrev pub resources_of : String → List Resource → List Resource
resources_of kind [] = []
resources_of kind (r ∷ rs) =
    let others = resources_of kind rs in if str_eq r.kind kind then r ∷ others else others

-- The resource that a type or a name stands for.
pub data Choice : Type 0 where
  chosen : Resource → Choice
  ambiguous : Choice
  unknown : Choice

abbrev pub one_of : List Resource → Choice
one_of [] = unknown
one_of (r ∷ []) = chosen r
one_of (r ∷ s ∷ rs) = ambiguous

abbrev pub known : Option Resource → Choice
known none = unknown
known (some r) = chosen r

abbrev pub text_of : Option String → String
text_of none = ""
text_of (some t) = t

-- `ResourceType._member_names_` is `types`; `is_valid_email` is the validator of WTForms.
module _ (types : List String) (is_valid_email : String → Bool) where
  unfoldable pub choose_resource : Option String → Option String → List Resource → Choice
  choose_resource kind name resources =
      if is_filled name
      then known (resource_named (text_of name) resources)
      else (if contains types (text_of kind)
          then one_of (resources_of (text_of kind) resources)
          else unknown)

  -- What is not committed is gone when the request ends and its session is removed.
  abbrev pub committed : Bool → Option (List Share) → Tables → Ending × Tables
  committed commits none t = (failed, t)
  committed false (some shares) t = (failed, t)
  committed true (some shares) t =
      (limit_set, record { users = t.users; resources = t.resources; shares = shares })

  -- After the choice of a resource.
  abbrev pub set_for : Database → ℕ → List User → Choice → Tables → Ending × Tables
  set_for db limit users unknown t = (resource_unknown, t)
  set_for db limit users ambiguous t = (several_resources, t)
  set_for db limit users (chosen r) t =
      committed db.commits (set_shares db.fails limit users r.id t.shares) t

  abbrev pub for_found :
      Database → ℕ → Option String → Option String → Option (List User) → Tables → Ending × Tables
  for_found db limit kind name none t = (users_unknown, t)
  for_found db limit kind name (some users) t =
      set_for db limit users (choose_resource kind name t.resources) t

  -- The `try` block.
  abbrev pub for_users :
      Database → ℕ → Option String → Option String → Option (List User) → Tables → Ending × Tables
  for_users db limit kind name found t =
      let result = for_found db limit kind name found t in if db.reads then result else (failed, t)

  abbrev pub any_email : List String → Bool
  any_email [] = false
  any_email (id ∷ ids) = is_valid_email id || any_email ids

  -- The checks of the type, the name and the limit, then the work for the users that `find` finds.
  abbrev pub checked :
      Database
      → ℤ
      → Option String
      → Option String
      → Bool
      → (List User → Option (List User))
      → Tables
      → Ending × Tables
  checked db (negsuc n) kind name wrong_ids find t = (
    if is_filled kind && is_filled name || not (is_filled kind) && not (is_filled name)
        then not_one_of_type_and_name
        else limit_negative,
    t,
  )
  checked db (pos limit) kind name wrong_ids find t =
      let result = for_users db limit kind name (find t.users) t in
      if is_filled kind && is_filled name || not (is_filled kind) && not (is_filled name)
      then (not_one_of_type_and_name, t)
      else (if wrong_ids then (id_looks_like_email, t) else result)

  -- `_set_quota_limit`, with its emails and its ids
  unfoldable pub set_quota_limit :
      Database
      → ℤ
      → Option String
      → Option String
      → Option (List String)
      → Option (List String)
      → Tables
      → Ending × Tables
  set_quota_limit db limit kind name none none t = (not_one_of_emails_and_ids, t)
  set_quota_limit db limit kind name (some (e ∷ emails)) (some (i ∷ ids)) t =
      (not_one_of_emails_and_ids, t)
  set_quota_limit db limit kind name (some []) ids t = (emails_empty, t)
  set_quota_limit db limit kind name none (some []) t = (ids_empty, t)
  set_quota_limit db limit kind name (some (e ∷ emails)) (some []) t = (ids_empty, t)
  set_quota_limit db limit kind name (some (e ∷ emails)) none t =
      checked db limit kind name false (users_by_email (e ∷ emails)) t
  set_quota_limit db limit kind name none (some (i ∷ ids)) t =
      checked db limit kind name (any_email (i ∷ ids)) (users_by_id (i ∷ ids)) t
