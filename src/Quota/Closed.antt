-- ===== src/Quota/Closed.antt =====
-- reana_server/rest/quota.py: the endpoints for quotas are closed without the secret.
use reana_server.Prelude.{
  ℕ, String, ◌≡◌, ◌≢◌, refl, Bool, List, Option, none, some, str_eq, arith, eq_iff, Bool-cases, inl,
  inr, ◌⊎◌, is_ascii, compare_digest, ◌&&◌, or_default, false,
}
use reana_server.Quota.{Tables}
use reana_server.Quota.Limits.{Database}
use reana_server.Quota.Endpoints.{
  Response, refused, crashed, check_quota_management_secret, LimitBody, PeriodBody, Body,
  get_quota_usage, post_quota_limit, patch_quota,
}

-- An answer to a request that is not let in: 401 or 403, or the TypeError of a comparison with a text
-- that has characters outside ASCII.
abbrev pub IsRefusal : Option String → String → Response → Type 0
IsRefusal secret header response =
    (response ≡ refused 401)
    ⊎ ((response ≡ refused 403)
        ⊎ ((response ≡ crashed) × (is_ascii header && is_ascii (or_default secret "") ≡ false)))

check-IsRefusal :
    (secret : Option String) (header : String)
    → (secret ≢ some header) ⊎ (header ≡ "")
    → (response : Response) × (check_quota_management_secret secret header ≡ some response)
      × IsRefusal secret header response
unfolding check_quota_management_secret compare_digest
check-IsRefusal none header h = (refused 403, refl, inr (inl refl))
check-IsRefusal (some secret) header h = elim (Bool-cases (str_eq secret "")) [
  | inl empty ↦ rw empty (refused 403, refl, inr (inl refl))
  | inr given ↦ elim (Bool-cases (is_ascii header && is_ascii secret)) [
    | inr other ↦ (crashed, ground (arith, given, other), inr (inr (refl, other)))
    | inl plain ↦ elim (Bool-cases (str_eq header secret)) [
      | inl same ↦ absurd (ground (arith, given, same, h, eq_iff header secret, eq_iff secret ""))
      | inr differs ↦ rw given (rw plain (rw differs (refused 401, refl, inl refl)))
    ]
  ]
]

module _ (types : List String) (is_valid_email is_uuid : String → Bool)
    (current_start : ℕ → Option ℕ → Option ℕ)
    (usage_of : Tables → String → String → Option ℕ × Option ℕ)
    (default_resource : String → String) where
  -- Without the configured secret in the header, or with an empty header, all three endpoints give one
  -- answer, whatever else is sent, and write nothing; so it is too when no secret or an empty one is
  -- configured. The answer is 401 or 403, or, only if the header or the secret has characters outside
  -- ASCII, the TypeError of their comparison.
  pub endpoints-closed :
      (db : Database) (commits : Bool) (secret : Option String) (header : String)
      (kind id email : Option String) (limit : Body LimitBody) (period : Body PeriodBody)
      (t : Tables)
      → (secret ≢ some header) ⊎ (header ≡ "")
      → (response : Response) × IsRefusal secret header response
        × (get_quota_usage types is_valid_email is_uuid current_start usage_of default_resource
              secret header kind id email t
            ≡ response)
        × (post_quota_limit types is_valid_email is_uuid current_start usage_of default_resource db
              secret header limit t
            ≡ (response, t))
        × (patch_quota types is_valid_email is_uuid current_start usage_of default_resource commits
              secret header period t
            ≡ (response, t))
  unfolding get_quota_usage post_quota_limit patch_quota
  endpoints-closed db commits secret header kind id email limit period t h =
      let (response, e, which) = check-IsRefusal secret header h in
      (
        response,
        which,
        rw (e, get_quota_usage) refl,
        rw (e, post_quota_limit) refl,
        rw (e, patch_quota) refl,
      )
