-- ===== src/Quota/Periodic.antt =====
-- reana_server/utils.py: a period that starts has a length.
use reana_server.Prelude.{
  ℕ, ℤ, String, ◌≡◌, refl, Bool, true, false, Option, none, some, str_eq, List, [], ◌∷◌, All, arith,
  Bool-cases, inl, inr, subst, Option-cases,
}
use reana_server.Quota.{User, Share, Tables, is_filled, is_of, get_user_by_criteria, find_share}
use reana_server.Quota.Periods.{
  Argument, unset, given, months_of, effective, set_months, without_months, set_start, put_share,
  exactly_one, of_share, of_found, of_user, set_quota_period,
}

-- Without months there is no start.
abbrev pub IsPeriodic : Share → Type 0
IsPeriodic share = share.quota_period_months ≡ none → share.quota_period_start_at ≡ none

module _ (current_start : ℕ → Option ℕ → Option ℕ) (cpu_resource : String) where
  find_share-IsPeriodic :
      (user resource : String) (shares : List Share) (share : Share)
      → All IsPeriodic shares
      → find_share user resource shares ≡ some share
      → IsPeriodic share
  unfolding find_share
  find_share-IsPeriodic user resource [] share h e = ground (arith, e)
  find_share-IsPeriodic user resource (s ∷ shares) share (p, h) e =
      elim (Bool-cases (is_of user resource s)) [
        | inl here ↦ let same : s ≡ share = ground (arith, e, here) in subst IsPeriodic same p
        | inr later ↦ find_share-IsPeriodic user resource shares share h (ground (arith, later, e))
      ]

  put_share-IsPeriodic :
      (user resource : String) (new : Share) (shares : List Share)
      → IsPeriodic new
      → All IsPeriodic shares
      → All IsPeriodic (put_share user resource new shares)
  unfolding put_share
  put_share-IsPeriodic user resource new [] n h = tt
  put_share-IsPeriodic user resource new (s ∷ shares) n (p, h) =
      elim (Bool-cases (is_of user resource s)) [
        | inl here ↦ rw here (n, h)
        | inr later ↦ rw later (p, put_share-IsPeriodic user resource new shares n h)
      ]

  module _ (no_start : (created : ℕ) → current_start created none ≡ none) where
    set_start-IsPeriodic :
        (created : ℕ) (start months : Argument ℕ) (share : Share)
        → without_months current_start cpu_resource start (effective months share) ≡ false
        → IsPeriodic share
        → IsPeriodic (
            set_start current_start cpu_resource created start
              (effective months share)
              (set_months months share))
    set_start-IsPeriodic created unset unset share w p = λ e.
        elim (Option-cases share.quota_period_start_at) [
          | inl missing ↦ ground (arith, e, missing, no_start created)
          | inr (start, there) ↦ ground (arith, e, there, p)
        ]
    set_start-IsPeriodic created unset (given none) share w p = λ e. no_start created
    set_start-IsPeriodic created unset (given (some n)) share w p = λ e. ground (arith, e)
    set_start-IsPeriodic created (given start) unset share w p = λ e. ground (arith, e, w)
    set_start-IsPeriodic created (given start) (given none) share w p = λ e. ground (arith, w)
    set_start-IsPeriodic created (given start) (given (some n)) share w p = λ e. ground (arith, e)

    of_share-IsPeriodic :
        (commits : Bool) (user : User) (months : Option (Argument ℕ)) (start : Argument ℕ)
        (share : Share) (t : Tables)
        → IsPeriodic share
        → All IsPeriodic t.shares
        → All IsPeriodic
            (of_share current_start cpu_resource commits user months start share t).1.shares
    of_share-IsPeriodic commits user none start share t p h = h
    of_share-IsPeriodic false user (some months) start share t p h =
        elim (Bool-cases
          (without_months current_start cpu_resource start (effective months share))) [
            | inl wrong ↦ rw wrong h
            | inr right ↦ rw right h
          ]
    of_share-IsPeriodic true user (some months) start share t p h =
        elim (Bool-cases
          (without_months current_start cpu_resource start (effective months share))) [
            | inl wrong ↦ rw wrong h
            | inr right ↦ rw right (
                put_share-IsPeriodic user.id cpu_resource _ t.shares
                  (set_start-IsPeriodic user.created start months share right p) h)
          ]

    of_found-IsPeriodic :
        (commits : Bool) (user : User) (months : Argument ℤ) (start : Argument ℕ)
        (share : Option Share) (t : Tables)
        → ((s : Share) → share ≡ some s → IsPeriodic s)
        → All IsPeriodic t.shares
        → All IsPeriodic
            (of_found current_start cpu_resource commits user months start share t).1.shares
    of_found-IsPeriodic commits user months start none t p h = h
    of_found-IsPeriodic commits user months start (some share) t p h =
        of_share-IsPeriodic commits user (months_of months) start share t (p share refl) h

    of_user-IsPeriodic :
        (commits : Bool) (user : Option User) (months : Argument ℤ) (start : Argument ℕ)
        (t : Tables)
        → All IsPeriodic t.shares
        → All IsPeriodic (of_user current_start cpu_resource commits user months start t).1.shares
    of_user-IsPeriodic commits none months start t h = h
    of_user-IsPeriodic commits (some user) months start t h =
        of_found-IsPeriodic commits user months start _ t
          (λ s e. find_share-IsPeriodic user.id cpu_resource t.shares s h e) h

    -- No share has a start of its period without a period in months, if none had before, whatever
    -- is asked for. reana-db is trusted to give no start where there are no months.
    pub set_quota_period-IsPeriodic :
        (commits : Bool) (kind : String) (months : Argument ℤ) (start : Argument ℕ)
        (email id : Option String) (t : Tables)
        → All IsPeriodic t.shares
        → All IsPeriodic
            (set_quota_period current_start cpu_resource commits kind months start email id
              t).1.shares
    unfolding set_quota_period
    set_quota_period-IsPeriodic commits kind months start email id t h =
        let done =
          of_user-IsPeriodic commits (get_user_by_criteria id email t.users) months start t h in
        elim (Bool-cases (str_eq kind "cpu")) [
          | inr other ↦ rw other h
          | inl cpu ↦ elim (Bool-cases (exactly_one (is_filled id) (is_filled email))) [
            | inl one ↦ rw cpu (rw one done)
            | inr wrong ↦ rw cpu (rw wrong h)
          ]
        ]
