-- ===== src/Quota/Endpoints.antt =====
-- reana_server/rest/quota.py: the endpoints for quotas.
use reana_server.Prelude.{
  ℕ, ℤ, pos, negsuc, String, Bool, true, ◌&&◌, ◌||◌, Option, none, some, if◌then◌else◌, str_eq,
  contains, List, [], ◌∷◌, false, compare_digest,
}
use reana_server.Quota.{User, Share, Tables, is_filled, find_share}
use reana_server.Quota.Limits.{Ending, limit_set, status, Database, set_quota_limit}
use reana_server.Quota.Periods.{
  Argument, PeriodEnding, period_set, period_status, is_given, exactly_one, set_quota_period,
}

-- The answer to a request. `crashed` is an exception that the endpoint does not catch.
pub data Response : Type 0 where
  refused : ℕ → Response
  -- the limit, or -1 when there is none, the usage, the months and the start of the period
  quota : Option ℕ → Option ℕ → Option ℕ → Option ℕ → Response
  crashed : Response

abbrev of_comparison : Option Bool → Option Response
of_comparison none = some crashed
of_comparison (some true) = none
of_comparison (some false) = some (refused 401)

-- `_check_quota_management_secret`: the configured secret and the header, "" without it; the answer is
-- `none` when the request may go on.
unfoldable pub check_quota_management_secret : Option String → String → Option Response
unfolding compare_digest
check_quota_management_secret none header = some (refused 403)
check_quota_management_secret (some secret) header =
    let compared = of_comparison (compare_digest header secret) in
    if str_eq secret "" then some (refused 403) else compared

-- The value of `limit` in the body: the schema takes integers and texts of integers.
pub data RawLimit : Type 0 where
  integer : ℤ → RawLimit
  digits : String → RawLimit

-- A body that the schema accepts.
pub record LimitBody : Type 0 where
  pub user_id : Option String
  pub email : Option String
  pub resource_type : String
  pub limit : RawLimit

pub record PeriodBody : Type 0 where
  pub user_id : Option String
  pub email : Option String
  pub resource_type : String
  pub quota_period_months : Argument ℤ
  pub quota_period_start_at : Argument ℕ

-- What a request sends: no JSON object, an object that the schema rejects, or one that it accepts.
pub data Body (B : Type 0) : Type 0 where
  no_object : Body B
  rejected : Body B
  accepted : B → Body B

-- A result of `_get_quota` or `_get_quota_period`.
pub data Part (A : Type 0) : Type 0 where
  part : A → Part A
  wrong : ℕ → Part A
  raised : Part A

abbrev matches : Option String → String → Bool
matches none t = true
matches (some key) t = if str_eq key "" then true else str_eq key t

abbrev first_user : Option String → Option String → List User → Option User
first_user id email [] = none
first_user id email (u ∷ users) =
    if matches id u.id && matches email u.email then some u else first_user id email users

abbrev is_valid_key : (String → Bool) → Option String → Bool
is_valid_key is_uuid none = true
is_valid_key is_uuid (some id) = if str_eq id "" then true else is_uuid id

abbrev one_or_none : Option String → Option (List String)
one_or_none none = none
one_or_none (some t) = if str_eq t "" then none else some (t ∷ [])

-- `is_uuid` says which texts the database takes as ids. `usage_of` gives the limit and the usage of a
-- user, from get_quota_usage of reana-db; `default_resource` is the id of a resource, by its type.
module _ (types : List String) (is_valid_email is_uuid : String → Bool)
    (current_start : ℕ → Option ℕ → Option ℕ)
    (usage_of : Tables → String → String → Option ℕ × Option ℕ)
    (default_resource : String → String) where
  -- `_get_users(user_id, email)`, and its first user
  abbrev user_of : Option String → Option String → Tables → Part User
  user_of id email t =
      if is_valid_key is_uuid id
      then elim (first_user id email t.users) [ none ↦ wrong 404 | some u ↦ part u ]
      else raised

  abbrev quota_for : String → Tables → Part User → Part (Option ℕ × Option ℕ)
  quota_for kind t raised = raised
  quota_for kind t (wrong n) = wrong n
  quota_for kind t (part user) =
      if contains types kind then part (usage_of t user.id kind) else wrong 400

  -- `_get_quota`
  unfoldable pub get_quota :
      String → Option String → Option String → Tables → Part (Option ℕ × Option ℕ)
  get_quota kind id email t = quota_for kind t (user_of id email t)

  abbrev period_in : Option Share → Part (Option ℕ × Option ℕ)
  period_in none = wrong 404
  period_in (some share) = part (share.quota_period_months, share.quota_period_start_at)

  abbrev period_for : String → Tables → Part User → Part (Option ℕ × Option ℕ)
  period_for kind t raised = raised
  period_for kind t (wrong n) = wrong n
  period_for kind t (part user) =
      if contains types kind
      then period_in (find_share user.id (default_resource kind) t.shares)
      else wrong 400

  -- `_get_quota_period`
  unfoldable pub get_quota_period :
      String → Option String → Option String → Tables → Part (Option ℕ × Option ℕ)
  get_quota_period kind id email t = period_for kind t (user_of id email t)

  abbrev both_parts : Part (Option ℕ × Option ℕ) → Part (Option ℕ × Option ℕ) → Response
  both_parts raised period = crashed
  both_parts (wrong n) period = refused n
  both_parts (part limits) raised = crashed
  both_parts (part limits) (wrong n) = refused n
  both_parts (part (limit, none)) (part period) = refused 500
  both_parts (part (limit, some usage)) (part (months, start)) =
      quota limit (some usage) months start

  -- The end of `get_quota_usage` and of `patch_quota`.
  abbrev report : String → Option String → Option String → Tables → Response
  report kind id email t = both_parts (get_quota kind id email t) (get_quota_period kind id email t)

  abbrev text_of : Option String → String
  text_of none = ""
  text_of (some t) = t

  -- `get_quota_usage` after the check of the secret
  unfoldable pub read_quota : Option String → Option String → Option String → Tables → Response
  read_quota kind id email t =
      let answer = report (text_of kind) id email t in
      if exactly_one (is_filled id) (is_filled email)
      then (if contains types (text_of kind) then answer else refused 400)
      else refused 400

  -- `get_quota_usage`
  unfoldable pub get_quota_usage :
      Option String → String → Option String → Option String → Option String → Tables → Response
  get_quota_usage secret header kind id email t =
      elim (check_quota_management_secret secret header) [
        | some response ↦ response
        | none ↦ read_quota kind id email t
      ]

  -- The end of `set_quota_limit`, which shows the limit of the body, and the usage even if it is null.
  abbrev limit_parts : ℤ → Part (Option ℕ × Option ℕ) → Part (Option ℕ × Option ℕ) → Response
  limit_parts limit raised period = crashed
  limit_parts limit (wrong n) period = refused n
  limit_parts limit (part limits) raised = crashed
  limit_parts limit (part limits) (wrong n) = refused n
  limit_parts (pos limit) (part (old, usage)) (part (months, start)) =
      quota (some limit) usage months start
  limit_parts (negsuc n) (part (old, usage)) (part (months, start)) = refused 400

  abbrev limit_report : ℤ → String → Option String → Option String → Tables → Response
  limit_report limit kind id email t =
      limit_parts limit (get_quota kind id email t) (get_quota_period kind id email t)

  abbrev after_limit : LimitBody → ℤ → Ending × Tables → Response × Tables
  after_limit b limit (limit_set, t) = (limit_report limit b.resource_type b.user_id b.email t, t)
  after_limit b limit (ending, t) = (refused (status ending), t)

  abbrev write_limit : Database → LimitBody → RawLimit → Tables → Response × Tables
  write_limit db b (digits text) t = (crashed, t)
  write_limit db b (integer limit) t = after_limit b limit (
      set_quota_limit types is_valid_email db limit (some b.resource_type) none
        (one_or_none b.email) (one_or_none b.user_id) t)

  abbrev post_accepted : Database → Body LimitBody → Tables → Response × Tables
  post_accepted db no_object t = (refused 400, t)
  post_accepted db rejected t = (refused 400, t)
  post_accepted db (accepted b) t =
      let result = write_limit db b b.limit t in
      if exactly_one (is_filled b.user_id) (is_filled b.email) then result else (refused 400, t)

  -- `set_quota_limit`
  unfoldable pub post_quota_limit :
      Database → Option String → String → Body LimitBody → Tables → Response × Tables
  post_quota_limit db secret header body t = elim (check_quota_management_secret secret header) [
    | some response ↦ (response, t)
    | none ↦ post_accepted db body t
  ]

  abbrev after_period : PeriodBody → PeriodEnding × Tables → Response × Tables
  after_period b (period_set, t) = (report b.resource_type b.user_id b.email t, t)
  after_period b (ending, t) = (refused (period_status ending), t)

  abbrev patch_accepted : Bool → Body PeriodBody → Tables → Response × Tables
  patch_accepted commits no_object t = (refused 400, t)
  patch_accepted commits rejected t = (refused 400, t)
  patch_accepted commits (accepted b) t =
      let result = after_period b (
        set_quota_period current_start (default_resource "cpu") commits b.resource_type
          b.quota_period_months b.quota_period_start_at b.email b.user_id t) in
      if exactly_one (is_filled b.user_id) (is_filled b.email)
      then (if is_given b.quota_period_months || is_given b.quota_period_start_at
          then result
          else (refused 400, t))
      else (refused 400, t)

  -- `patch_quota`
  unfoldable pub patch_quota :
      Bool → Option String → String → Body PeriodBody → Tables → Response × Tables
  patch_quota commits secret header body t = elim (check_quota_management_secret secret header) [
    | some response ↦ (response, t)
    | none ↦ patch_accepted commits body t
  ]
