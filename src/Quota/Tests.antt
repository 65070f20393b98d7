-- ===== src/Quota/Tests.antt =====
-- Quotas of two users.
use reana_server.Prelude.{
  ℕ, pos, String, ◌≡◌, refl, Bool, true, false, inl, Option, none, some, if◌then◌else◌, str_eq,
  List, [], ◌∷◌, All, arith, eq_iff, compare_digest,
}
use reana_server.Quota.{User, Resource, Share, Tables, get_user_by_criteria, find_share}
use reana_server.Quota.Limits.{
  limit_set, failed, Database, set_shares, users_unknown, users_by_id, users_by_email,
  choose_resource, set_quota_limit,
}
use reana_server.Quota.Granting.{Granted, set_quota_limit-Granted}
use reana_server.Quota.Periods.{unset, given, period_set, set_quota_period}
use reana_server.Quota.Periodic.{IsPeriodic, set_quota_period-IsPeriodic}
use reana_server.Quota.Endpoints.{
  Response, refused, check_quota_management_secret, no_object, accepted, LimitBody, integer,
  get_quota_usage, post_quota_limit, patch_quota,
}
use reana_server.Quota.Closed.{IsRefusal, endpoints-closed}

abbrev alice : User
alice = record { id = "a1"; email = "alice@cern.ch"; created = 100 }

abbrev bob : User
bob = record { id = "b2"; email = "bob@cern.ch"; created = 200 }

abbrev cpu : Resource
cpu = record { id = "c"; kind = "cpu"; name = "processing time" }

abbrev alice_cpu : Share
alice_cpu = record {
  user = "a1";
  resource = "c";
  quota_limit = 10;
  quota_used = 3;
  quota_period_months = some 6;
  quota_period_start_at = some 100;
}

abbrev tables : Tables
tables = record { users = alice ∷ bob ∷ []; resources = cpu ∷ []; shares = alice_cpu ∷ [] }

abbrev kinds : List String
kinds = "cpu" ∷ "disk" ∷ []

abbrev no_email : String → Bool
no_email t = false

abbrev both_ids : Option (List String)
both_ids = some ("a1" ∷ "b2" ∷ [])

abbrev working : Database
working = record { reads = true; fails = λ id. false; commits = true }

limit-set :
    (set_quota_limit kinds no_email working (pos 50) (some "cpu") none none both_ids tables).0
    ≡ limit_set
unfolding set_quota_limit users_by_id get_user_by_criteria choose_resource set_shares
limit-set = refl

-- An exception for the second user leaves the limit of the first one.
limit-failed :
    set_quota_limit kinds no_email
      (record working { fails = λ id. str_eq id "b2" })
      (pos 50)
      (some "cpu")
      none
      none
      both_ids
      tables
    ≡ (failed, tables)
unfolding set_quota_limit users_by_id get_user_by_criteria choose_resource set_shares
limit-failed = refl

limit-unset :
    (set_quota_limit kinds no_email working
      (pos 50)
      (some "cpu")
      none
      (some ("alice@cern.ch" ∷ "eve@cern.ch" ∷ []))
      none
      tables).0
    ≡ users_unknown
unfolding set_quota_limit users_by_email get_user_by_criteria
limit-unset = refl

set_quota_limit-Granted_example :
    (n : ℕ) × (pos 50 ≡ pos n)
    × Granted n
        (some "cpu")
        none
        ("a1" ∷ "b2" ∷ [])
        tables
        (set_quota_limit kinds no_email working (pos 50) (some "cpu") none none both_ids tables).1
set_quota_limit-Granted_example =
    set_quota_limit-Granted kinds no_email working (pos 50) (some "cpu") none "a1" ("b2" ∷ [])
      tables limit-set

-- The start of the period, which is the creation of the user when there are months.
abbrev from_creation : ℕ → Option ℕ → Option ℕ
from_creation created none = none
from_creation created (some months) = some created

set_quota_period-IsPeriodic_example :
    All IsPeriodic
      (set_quota_period from_creation "c" true "cpu"
        (given none)
        unset
        none
        (some "a1")
        tables).1.shares
set_quota_period-IsPeriodic_example =
    set_quota_period-IsPeriodic from_creation "c" (λ created. refl) true "cpu" (given none) unset
      none (some "a1") tables ((λ e. ground (arith, e)), tt)

period-unset :
    (set_quota_period from_creation "c" true "cpu" (given none) unset none (some "a1") tables).0
    ≡ period_set
unfolding set_quota_period get_user_by_criteria find_share
period-unset = refl

abbrev used : Tables → String → String → Option ℕ × Option ℕ
used t user kind = (some 10, some 3)

abbrev resource_id : String → String
resource_id kind = if str_eq kind "cpu" then "c" else "d"

abbrev limit_body : LimitBody
limit_body = record {
  user_id = some "a1";
  email = none;
  resource_type = "cpu";
  limit = integer (pos 50);
}

posted :
    (post_quota_limit kinds no_email no_email from_creation used resource_id working
      (some "s")
      "s"
      no_object
      tables).0
    ≡ refused 400
unfolding post_quota_limit check_quota_management_secret compare_digest
posted = refl

endpoints-closed_example :
    (response : Response) × IsRefusal (some "s") "guess" response
    × (get_quota_usage kinds no_email no_email from_creation used resource_id
          (some "s")
          "guess"
          (some "cpu")
          (some "a1")
          none
          tables
        ≡ response)
    × (post_quota_limit kinds no_email no_email from_creation used resource_id working
          (some "s")
          "guess"
          (accepted limit_body)
          tables
        ≡ (response, tables))
    × (patch_quota kinds no_email no_email from_creation used resource_id true
          (some "s")
          "guess"
          no_object
          tables
        ≡ (response, tables))
endpoints-closed_example =
    endpoints-closed kinds no_email no_email from_creation used resource_id working true (some "s")
      "guess" (some "cpu") (some "a1") none (accepted limit_body) no_object tables
      (inl (λ e. ground (arith, e, eq_iff "s" "guess")))
