-- ===== src/Quota/Periods.antt =====
-- reana_server/utils.py: setting the period of a quota, in months, and the start of the period.
use reana_server.Prelude.{
  ℕ, zero, suc, ℤ, pos, negsuc, String, Bool, true, false, ◌&&◌, not, Option, none, some,
  if◌then◌else◌, str_eq, is_some, List, [], ◌∷◌,
}
use reana_server.Quota.{User, Share, Tables, is_filled, is_of, get_user_by_criteria, find_share}

-- An argument that may be `_UNSET`.
pub data Argument (A : Type 0) : Type 0 where
  unset : Argument A
  given : Option A → Argument A

-- How `_set_quota_period` ends, by its message.
pub data PeriodEnding : Type 0 where
  -- 200
  period_set : PeriodEnding
  -- 400
  not_cpu : PeriodEnding
  not_one_of_id_and_email : PeriodEnding
  months_not_positive : PeriodEnding
  start_without_months : PeriodEnding
  -- 404
  user_unknown : PeriodEnding
  share_unknown : PeriodEnding
  -- 500
  failed : PeriodEnding

abbrev pub period_status : PeriodEnding → ℕ
period_status period_set = 200
period_status not_cpu = 400
period_status not_one_of_id_and_email = 400
period_status months_not_positive = 400
period_status start_without_months = 400
period_status user_unknown = 404
period_status share_unknown = 404
period_status failed = 500

-- `quota_period_months`, where it is a positive number, null or unset
abbrev pub months_of : Argument ℤ → Option (Argument ℕ)
months_of unset = some unset
months_of (given none) = some (given none)
months_of (given (some (negsuc n))) = none
months_of (given (some (pos zero))) = none
months_of (given (some (pos (suc n)))) = some (given (some (suc n)))

-- `effective_quota_period_months`
abbrev pub effective : Argument ℕ → Share → Option ℕ
effective unset share = share.quota_period_months
effective (given months) share = months

abbrev pub with_period : Option ℕ → Option ℕ → Share → Share
with_period months start share = record {
  user = share.user;
  resource = share.resource;
  quota_limit = share.quota_limit;
  quota_used = share.quota_used;
  quota_period_months = months;
  quota_period_start_at = start;
}

-- The share after the months are set: without months there is no start either.
abbrev pub set_months : Argument ℕ → Share → Share
set_months unset share = share
set_months (given none) share = with_period none none share
set_months (given (some n)) share = with_period (some n) share.quota_period_start_at share

abbrev pub is_given : {A : Type 0} → Argument A → Bool
is_given unset = false
is_given (given a) = true

-- `user_resource` after the change, in the table.
unfoldable pub put_share : String → String → Share → List Share → List Share
put_share user resource new [] = []
put_share user resource new (share ∷ shares) =
    let later = put_share user resource new shares in
    if is_of user resource share then new ∷ shares else share ∷ later

abbrev pub exactly_one : Bool → Bool → Bool
exactly_one true b = not b
exactly_one false b = b

-- `current_start` is get_current_quota_period_start_at of reana-db, of the creation of the user and the
-- months. `cpu_resource` is the id of the CPU resource.
module _ (current_start : ℕ → Option ℕ → Option ℕ) (cpu_resource : String) where
  -- The share after its start is set, with `months` the effective months.
  abbrev pub set_start : ℕ → Argument ℕ → Option ℕ → Share → Share
  set_start created (given start) months share = with_period share.quota_period_months start share
  set_start created unset months share =
      if is_some share.quota_period_start_at
      then share
      else with_period share.quota_period_months (current_start created months) share

  abbrev pub without_months : Argument ℕ → Option ℕ → Bool
  without_months start months = is_given start && not (is_some months)

  abbrev pub stored : Bool → User → Argument ℕ → Argument ℕ → Share → Tables → PeriodEnding × Tables
  stored false user months start share t = (failed, t)
  stored true user months start share t = (
    period_set,
    record {
      users = t.users;
      resources = t.resources;
      shares =
          put_share user.id cpu_resource
            (set_start user.created start (effective months share) (set_months months share))
            t.shares;
    },
  )

  abbrev pub of_share :
      Bool → User → Option (Argument ℕ) → Argument ℕ → Share → Tables → PeriodEnding × Tables
  of_share commits user none start share t = (months_not_positive, t)
  of_share commits user (some months) start share t =
      let result = stored commits user months start share t in
      if without_months start (effective months share) then (start_without_months, t) else result

  abbrev pub of_found :
      Bool → User → Argument ℤ → Argument ℕ → Option Share → Tables → PeriodEnding × Tables
  of_found commits user months start none t = (share_unknown, t)
  of_found commits user months start (some share) t =
      of_share commits user (months_of months) start share t

  abbrev pub of_user : Bool → Option User → Argument ℤ → Argument ℕ → Tables → PeriodEnding × Tables
  of_user commits none months start t = (user_unknown, t)
  of_user commits (some user) months start t =
      of_found commits user months start (find_share user.id cpu_resource t.shares) t

  -- `_set_quota_period`; `commits` says whether the database commits.
  unfoldable pub set_quota_period :
      Bool
      → String
      → Argument ℤ
      → Argument ℕ
      → Option String
      → Option String
      → Tables
      → PeriodEnding × Tables
  set_quota_period commits kind months start email id t =
      let result = of_user commits (get_user_by_criteria id email t.users) months start t in
      if str_eq kind "cpu"
      then (if exactly_one (is_filled id) (is_filled email)
          then result
          else (not_one_of_id_and_email, t))
      else (not_cpu, t)
