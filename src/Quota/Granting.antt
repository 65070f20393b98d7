-- ===== src/Quota/Granting.antt =====
-- reana_server/utils.py: what setting a quota limit changes, and what it leaves.
use reana_server.Prelude.{
  ℕ, ℤ, pos, negsuc, String, ◌≡◌, refl, ap, ◌∙◌, Bool, true, false, ◌&&◌, ◌||◌, not, Option, none,
  some, if◌then◌else◌, str_eq, List, [], ◌∷◌, arith, eq_iff, Bool-cases, inl, inr, contains, All,
}
use reana_server.Quota.{User, Resource, Share, Tables, is_filled, is_of}
use reana_server.Quota.Limits.{
  limit_set, set_share, Database, set_shares, users_by_id, Choice, chosen, ambiguous, unknown,
  choose_resource, committed, set_for, for_found, for_users, checked, any_email, set_quota_limit,
}
use reana_server.Quota.Chosen.{has_id, IsMeant, users_by_id-some, choose_resource-IsMeant}

-- The limit of a user for a resource.
unfoldable pub limit_of : String → String → List Share → Option ℕ
limit_of user resource [] = none
limit_of user resource (share ∷ shares) =
    if is_of user resource share then some share.quota_limit else limit_of user resource shares

limit_of-set_share :
    (u r user resource : String) (limit : ℕ) (shares : List Share)
    → limit_of u r (set_share limit user resource shares)
      ≡ (if str_eq resource r && str_eq user u then some limit else limit_of u r shares)
unfolding limit_of set_share
limit_of-set_share u r user resource limit [] = ground arith
limit_of-set_share u r user resource limit (share ∷ shares) = ground (
  arith,
  limit_of-set_share u r user resource limit shares,
  eq_iff share.user u,
  eq_iff share.user user,
  eq_iff share.resource r,
  eq_iff share.resource resource,
  eq_iff user u,
  eq_iff resource r,
)

limit_of-set_shares :
    (fails : String → Bool) (u r resource : String) (limit : ℕ) (users : List User)
    (shares after : List Share)
    → set_shares fails limit users resource shares ≡ some after
    → limit_of u r after
      ≡ (if str_eq resource r && has_id u users then some limit else limit_of u r shares)
unfolding set_shares
limit_of-set_shares fails u r resource limit [] shares after h = ground (arith, h)
limit_of-set_shares fails u r resource limit (user ∷ users) shares after h =
    elim (Bool-cases (fails user.id)) [
      | inl raises ↦ ground (arith, h, raises)
      | inr fine ↦ ground (
        arith,
        limit_of-set_shares fails u r resource limit users (set_share limit user.id resource shares)
            after (ground (arith, h, fine)),
        limit_of-set_share u r user.id resource limit shares,
      )
    ]

-- The limit for one resource, the one that is meant, is new for exactly the users of these ids, who
-- are all there.
abbrev pub Granted : ℕ → Option String → Option String → List String → Tables → Tables → Type 0
Granted limit kind name ids t after =
    (r : Resource) × IsMeant kind name t.resources r
    × All (λ id. has_id id t.users ≡ true) ids
    × ((u resource : String)
        → limit_of u resource after.shares ≡ (
            if str_eq r.id resource && contains ids u
            then some limit
            else limit_of u resource t.shares))

module _ (types : List String) (is_valid_email : String → Bool) where
  abbrev wrong_names : Option String → Option String → Bool
  wrong_names kind name =
      is_filled kind && is_filled name || not (is_filled kind) && not (is_filled name)

  committed-set :
      (commits : Bool) (o : Option (List Share)) (t : Tables)
      → (committed types is_valid_email commits o t).0 ≡ limit_set
      → (shares : List Share) × (o ≡ some shares)
        × ((committed types is_valid_email commits o t).1.shares ≡ shares)
  committed-set commits none t h = ground (arith, h)
  committed-set false (some shares) t h = ground (arith, h)
  committed-set true (some shares) t h = (shares, refl, refl)

  set_for-Granted :
      (db : Database) (limit : ℕ) (kind name : Option String) (ids : List String)
      (users : List User) (choice : Choice) (t : Tables)
      → users_by_id ids t.users ≡ some users
      → ((r : Resource) → choice ≡ chosen r → IsMeant kind name t.resources r)
      → (set_for types is_valid_email db limit users choice t).0 ≡ limit_set
      → Granted limit kind name ids t (set_for types is_valid_email db limit users choice t).1
  set_for-Granted db limit kind name ids users unknown t found meant h = ground (arith, h)
  set_for-Granted db limit kind name ids users ambiguous t found meant h = ground (arith, h)
  set_for-Granted db limit kind name ids users (chosen r) t found meant h =
      let (shares, done, same) =
        committed-set db.commits (set_shares db.fails limit users r.id t.shares) t h in
      let (ids_of, there) = users_by_id-some ids t.users users found in
      (
        r,
        meant r refl,
        there,
        λ u resource. rw same (
            limit_of-set_shares db.fails u resource r.id limit users t.shares shares done
            ∙ ap
                (λ b.
                  if str_eq r.id resource && b then some limit else limit_of u resource t.shares)
                (ids_of u)),
      )

  for_found-Granted :
      (db : Database) (limit : ℕ) (kind name : Option String) (ids : List String)
      (found : Option (List User)) (t : Tables)
      → wrong_names kind name ≡ false
      → users_by_id ids t.users ≡ found
      → (for_found types is_valid_email db limit kind name found t).0 ≡ limit_set
      → Granted limit kind name ids t (for_found types is_valid_email db limit kind name found t).1
  for_found-Granted db limit kind name ids none t right found h = ground (arith, h)
  for_found-Granted db limit kind name ids (some users) t right found h =
      set_for-Granted db limit kind name ids users
        (choose_resource types is_valid_email kind name t.resources) t found
        (λ r. choose_resource-IsMeant types is_valid_email kind name t.resources r right) h

  for_users-Granted :
      (db : Database) (limit : ℕ) (kind name : Option String) (ids : List String) (t : Tables)
      → wrong_names kind name ≡ false
      → (for_users types is_valid_email db limit kind name (users_by_id ids t.users) t).0
        ≡ limit_set
      → Granted limit kind name ids t
          (for_users types is_valid_email db limit kind name (users_by_id ids t.users) t).1
  for_users-Granted db limit kind name ids t right h = elim (Bool-cases db.reads) [
    | inl reads ↦ rw reads (
        for_found-Granted db limit kind name ids (users_by_id ids t.users) t right refl
          (ground (arith, reads, h)))
    | inr raises ↦ ground (arith, raises, h)
  ]

  checked-Granted :
      (db : Database) (limit : ℤ) (kind name : Option String) (wrong_ids : Bool) (ids : List String)
      (t : Tables)
      → (checked types is_valid_email db limit kind name wrong_ids (users_by_id ids) t).0
        ≡ limit_set
      → (n : ℕ) × (limit ≡ pos n)
        × Granted n kind name ids t
            (checked types is_valid_email db limit kind name wrong_ids (users_by_id ids) t).1
  checked-Granted db (negsuc n) kind name wrong_ids ids t h = ground (arith, h)
  checked-Granted db (pos limit) kind name wrong_ids ids t h =
      elim (Bool-cases (wrong_names kind name)) [
        | inl wrong ↦ ground (arith, h, wrong)
        | inr right ↦ elim (Bool-cases wrong_ids) [
          | inl bad ↦ ground (arith, h, right, bad)
          | inr good ↦ (
            limit,
            refl,
            rw right (
                rw good (
                  for_users-Granted db limit kind name ids t right
                    (ground (arith, h, right, good)))),
          )
        ]
      ]

  -- If a quota limit is set for users, by their ids, then it is not negative, and every id is that of
  -- a user. There is one resource, the one with the name, or else the only one of the type, such that
  -- its limit is the new one for exactly these ids, and every other limit, of another user or for
  -- another resource, is what it was.
  pub set_quota_limit-Granted :
      (db : Database) (limit : ℤ) (kind name : Option String) (id : String) (ids : List String)
      (t : Tables)
      → (set_quota_limit types is_valid_email db limit kind name none (some (id ∷ ids)) t).0
        ≡ limit_set
      → (n : ℕ) × (limit ≡ pos n)
        × Granted n kind name
            (id ∷ ids)
            t
            (set_quota_limit types is_valid_email db limit kind name none (some (id ∷ ids)) t).1
  unfolding set_quota_limit
  set_quota_limit-Granted db limit kind name id ids t h =
      checked-Granted db limit kind name (any_email types is_valid_email (id ∷ ids)) (id ∷ ids) t h
