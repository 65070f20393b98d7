-- ===== src/Quota/Chosen.antt =====
-- reana_server/utils.py: the users and the resource that a quota limit is set for.
use reana_server.Prelude.{
  ℕ, suc, String, ◌≡◌, refl, sym, ap, ◌∙◌, Bool, true, false, not, ◌&&◌, ◌||◌, Option, none, some,
  if◌then◌else◌, str_eq, contains, List, [], ◌∷◌, arith, eq_iff, Bool-cases, Option-cases, inl, inr,
  ◌⊎◌, All,
}
use reana_server.Quota.{User, Resource, is_filled, by_id, get_user_by_criteria}
use reana_server.Quota.Limits.{
  users_by_id, resource_named, resources_of, one_of, known, chosen, choose_resource, text_of,
}

abbrev pub has_id : String → List User → Bool
has_id id [] = false
has_id id (u ∷ users) = str_eq u.id id || has_id id users

abbrev pub In : Resource → List Resource → Type 0
In r [] = ⊥
In r (s ∷ rs) = (s ≡ r) ⊎ In r rs

-- How many resources are of a type.
abbrev pub of_kind : String → List Resource → ℕ
of_kind kind [] = 0
of_kind kind (r ∷ rs) = if str_eq r.kind kind then suc (of_kind kind rs) else of_kind kind rs

-- The resource is there, and has the name, or it is the only one of the type where there is no name.
abbrev pub IsMeant : Option String → Option String → List Resource → Resource → Type 0
IsMeant kind name rs r =
    In r rs
    × ((name ≡ some r.name)
        ⊎ ((is_filled name ≡ false) × (kind ≡ some r.kind) × (of_kind r.kind rs ≡ 1)))

by_id-some :
    (key : String) (users : List User) (u : User)
    → by_id key users ≡ some u
    → (u.id ≡ key) × (has_id key users ≡ true)
by_id-some key [] u h = ground (arith, h)
by_id-some key (v ∷ users) u h = ground (arith, h, eq_iff v.id key, by_id-some key users u)

found-some :
    (key : String) (users : List User) (u : User)
    → get_user_by_criteria (some key) none users ≡ some u
    → (u.id ≡ key) × (has_id key users ≡ true)
unfolding get_user_by_criteria
found-some key users u h = ground (arith, h, by_id-some key users u)

-- The users that are found have exactly the ids that are asked for.
pub users_by_id-some :
    (ids : List String) (users found : List User)
    → users_by_id ids users ≡ some found
    → ((u : String) → has_id u found ≡ contains ids u) × All (λ id. has_id id users ≡ true) ids
unfolding users_by_id
users_by_id-some [] users found h = (λ u. ground (arith, h), tt)
users_by_id-some (id ∷ ids) users found h =
    elim (Option-cases (get_user_by_criteria (some id) none users)) [
      | inl nobody ↦ ground (arith, h, nobody)
      | inr (v, there) ↦ elim (Option-cases (users_by_id ids users)) [
        | inl missing ↦ ground (arith, h, there, missing)
        | inr (later, those) ↦
            let same : found ≡ v ∷ later = ground (arith, h, there, those) in
            let (is_v, known) = found-some id users v there in
            let (ids_of, all_known) = users_by_id-some ids users later those in
            (λ u. rw same (ground (arith, ids_of u, is_v)), (known, all_known))
      ]
    ]

resource_named-some :
    (name : String) (rs : List Resource) (r : Resource)
    → resource_named name rs ≡ some r
    → In r rs × (r.name ≡ name)
resource_named-some name [] r h = ground (arith, h)
resource_named-some name (s ∷ rs) r h =
    ground (arith, h, eq_iff s.name name, resource_named-some name rs r)

resources_of-nil :
    (kind : String) (rs : List Resource) → resources_of kind rs ≡ [] → of_kind kind rs ≡ 0
resources_of-nil kind [] h = refl
resources_of-nil kind (s ∷ rs) h = ground (arith, h, resources_of-nil kind rs)

resources_of-one :
    (kind : String) (rs : List Resource) (r : Resource)
    → resources_of kind rs ≡ r ∷ []
    → In r rs × (r.kind ≡ kind) × (of_kind kind rs ≡ 1)
resources_of-one kind [] r h = ground (arith, h)
resources_of-one kind (s ∷ rs) r h =
    ground (arith, h, eq_iff s.kind kind, resources_of-one kind rs r, resources_of-nil kind rs)

filled-text : (o : Option String) → is_filled o ≡ true → o ≡ some (text_of o)
filled-text none h = ground (arith, h)
filled-text (some t) h = refl

one_of-chosen : (rs : List Resource) (r : Resource) → one_of rs ≡ chosen r → rs ≡ r ∷ []
one_of-chosen [] r h = ground (arith, h)
one_of-chosen (s ∷ []) r h = ground (arith, h)
one_of-chosen (s ∷ t ∷ rs) r h = ground (arith, h)

known-chosen : (o : Option Resource) (r : Resource) → known o ≡ chosen r → o ≡ some r
known-chosen none r h = ground (arith, h)
known-chosen (some s) r h = ground (arith, h)

module _ (types : List String) (is_valid_email : String → Bool) where
  pub choose_resource-IsMeant :
      (kind name : Option String) (rs : List Resource) (r : Resource)
      → is_filled kind && is_filled name || not (is_filled kind) && not (is_filled name) ≡ false
      → choose_resource types is_valid_email kind name rs ≡ chosen r
      → IsMeant kind name rs r
  unfolding choose_resource
  choose_resource-IsMeant kind name rs r right h = elim (Bool-cases (is_filled name)) [
    | inl named ↦
        let found = known-chosen (resource_named (text_of name) rs) r (ground (arith, named, h)) in
        let (there, same) = resource_named-some (text_of name) rs r found in
        (there, inl (filled-text name named ∙ ap some (sym same)))
    | inr unnamed ↦ elim (Bool-cases (contains types (text_of kind))) [
      | inr untyped ↦ ground (arith, unnamed, untyped, h)
      | inl typed ↦
          let one =
            one_of-chosen (resources_of (text_of kind) rs) r (ground (arith, unnamed, typed, h)) in
          let (there, same, single) = resources_of-one (text_of kind) rs r one in
          let filled : is_filled kind ≡ true = ground (arith, right, unnamed) in
          (there, inr (unnamed, filled-text kind filled ∙ ap some (sym same), rw same single))
    ]
  ]
