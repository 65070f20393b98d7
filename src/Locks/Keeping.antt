-- ===== src/Locks/Keeping.antt =====
-- What a request keeps while it goes through `_local_process_locks`, in step with the others.
use reana_server.Prelude.{
  count, ℕ, ◌+◌, ◌≤◌, ◌<◌, String, ◌≡◌, refl, ap, Bool, ◌==◌, List, [], ◌∷◌, map, arith, eq_iff,
  eq_refl, Bool-cases, inl, inr,
}
use reana_server.Locks.{Store, Entries, enter_path, enter, leave_path, leave}
use reana_server.Locks.Consistent.{
  Consistent, uses, held, enter_path-Consistent, leave_path-Consistent, lock-Consistent,
  unlock-Consistent,
}
use reana_server.Locks.Requests.{
  Phase, entering, acquiring, holding, releasing, ended, LockRequest, advance_in, advance,
}

pub Consistent-agree :
    (store : Store) (U V : String → ℕ → ℕ) (H J : ℕ → ℕ)
    → ((p : String) (i : ℕ) → U p i ≡ V p i)
    → ((i : ℕ) → H i ≡ J i)
    → Consistent store U H
    → Consistent store V J
Consistent-agree store U V H J e f k = record {
  tabled = λ p i. ground (arith, e p i, k.tabled p i);
  counted = λ p i h. ground (arith, e p i, k.counted p i);
  separate = λ p q i h h2. ground (arith, e p i, e q i, k.separate p q i);
  born = λ p i h. ground (arith, e p i, k.born p i);
  locking = λ i. ground (arith, f i, k.locking i);
  unborn = λ i h. ground (arith, f i, k.unborn i);
}

pub enter-Consistent :
    (paths : List String) (store : Store) (U : String → ℕ → ℕ) (H : ℕ → ℕ)
    → Consistent store U H
    → Consistent (enter paths store).1 (λ p i. uses p i (enter paths store).0 + U p i) H
unfolding enter uses
enter-Consistent [] store U H k = Consistent-agree _ _ _ _ _ (λ p i. omega arith) (λ i. refl) k
enter-Consistent (path ∷ paths) store U H k =
    Consistent-agree _ _ _ _ _ (λ p i. omega arith) (λ i. refl)
      (enter-Consistent paths (enter_path path store).1 _ H
        (enter_path-Consistent store U H k path))

pub leave-Consistent :
    (entries : Entries) (store : Store) (V : String → ℕ → ℕ) (H : ℕ → ℕ)
    → Consistent store (λ p i. uses p i entries + V p i) H
    → Consistent (leave entries store) V H
unfolding leave uses
leave-Consistent [] store V H k = Consistent-agree _ _ _ _ _ (λ p i. omega arith) (λ i. refl) k
leave-Consistent ((path, id) ∷ entries) store V H k =
    leave-Consistent entries (leave_path path id store) V H (
      leave_path-Consistent store _ H k path id (λ p i. uses p i entries + V p i)
        (λ p i. omega arith))

abbrev pub path_in : String × ℕ → String
path_in (path, id) = path

pub enter-paths : (paths : List String) (store : Store) → map path_in (enter paths store).0 ≡ paths
unfolding enter
enter-paths [] store = refl
enter-paths (path ∷ paths) store = ap (λ l. path ∷ l) (enter-paths paths (enter_path path store).1)

uses-enter :
    (p : String) (i : ℕ) (paths : List String) (store : Store)
    → uses p i (enter paths store).0 ≤ count p paths
unfolding enter uses count
uses-enter p i [] store = omega arith
uses-enter p i (path ∷ paths) store = ground (arith, uses-enter p i paths (enter_path path store).1)

pub record IsAcquiring (acquired : List ℕ) (todo entries : Entries) (paths : List String)
    : Type 0 where
  pub named : map path_in entries ≡ paths
  pub split : (p : String) (i : ℕ) → uses p i entries ≤ held i acquired + uses p i todo
  pub within : (p : String) (i : ℕ) → uses p i todo ≤ uses p i entries
  pub once : (p : String) (i : ℕ) → uses p i todo ≤ 1
  pub grounded : (i : ℕ) → 0 < held i acquired → (p : String) × (0 < uses p i entries)
  pub apart : (p : String) (i : ℕ) → 0 < uses p i todo → held i acquired ≡ 0

-- What is true of a request in each phase.
abbrev pub FitIn : Phase → List String → Entries → Type 0
FitIn entering paths entries = (entries ≡ []) × ((p : String) → count p paths ≤ 1)
FitIn (acquiring acquired todo) paths entries = IsAcquiring acquired todo entries paths
FitIn (holding acquired) paths entries =
    (map path_in entries ≡ paths)
    × ((i : ℕ) → 0 < held i acquired → (p : String) × (0 < uses p i entries))
    × ((p : String) (i : ℕ) → uses p i entries ≤ held i acquired)
FitIn (releasing refused acquired) paths entries =
    (map path_in entries ≡ paths)
    × ((i : ℕ) → 0 < held i acquired → (p : String) × (0 < uses p i entries))
FitIn (ended refused) paths entries = entries ≡ []

abbrev pub Fit : LockRequest → Type 0
Fit r = FitIn r.phase r.paths r.entries

abbrev pub acquired_in : Phase → List ℕ
acquired_in entering = []
acquired_in (acquiring acquired todo) = acquired
acquired_in (holding acquired) = acquired
acquired_in (releasing refused acquired) = acquired
acquired_in (ended refused) = []

unfoldable pub uses_by : String → ℕ → LockRequest → ℕ
uses_by p i r = uses p i r.entries

unfoldable pub held_by : ℕ → LockRequest → ℕ
held_by i r = held i (acquired_in r.phase)

-- The store fits one request and what the others use and hold.
abbrev pub Agrees : LockRequest → Store → (String → ℕ → ℕ) → (ℕ → ℕ) → Type 0
Agrees r store U H =
    Consistent store (λ p i. uses_by p i r + U p i) (λ i. held_by i r + H i) × Fit r

module _ (U : String → ℕ → ℕ) (H : ℕ → ℕ) where
  abbrev Kept : Phase → Type 0
  Kept phase =
      (paths : List String) (entries : Entries) (store : Store)
      → Consistent store (λ p i. uses p i entries + U p i) (λ i. held i (acquired_in phase) + H i)
      → FitIn phase paths entries
      → (let next =
            advance_in phase record { paths = paths; entries = entries; phase = phase } store in
          Agrees next.0 next.1 U H)

  entering-Kept : Kept entering
  unfolding advance_in uses_by held_by uses held
  entering-Kept paths entries store k (e, unique) = (
    Consistent-agree _ _ _ _ _ (λ p i. rw e (omega arith)) (λ i. refl)
        (enter-Consistent paths store _ _ k),
    record {
      named = enter-paths paths store;
      split = λ p i. omega arith;
      within = λ p i. omega arith;
      once = λ p i. omega (arith, uses-enter p i paths store, unique p);
      grounded = λ i h. absurd (omega (arith, h));
      apart = λ p i h. refl;
    },
  )

  acquiring-Kept : (acquired : List ℕ) (todo : Entries) → Kept (acquiring acquired todo)
  unfolding advance_in uses_by held_by uses held
  acquiring-Kept acquired [] paths entries store k fit =
      (k, (fit.named, fit.grounded, λ p i. omega (arith, fit.split p i)))
  acquiring-Kept acquired ((path, id) ∷ todo) paths entries store k fit =
      let here : 0 < uses path id ((path, id) ∷ todo) = ground (arith, eq_refl path) in
      elim (Bool-cases (store.heap id).locked) [
        | inl taken ↦ rw taken (k, (fit.named, fit.grounded))
        | inr free ↦ rw free (
          Consistent-agree _ _ _ _ _ (λ p i. refl) (λ i. omega arith)
              (lock-Consistent store _ _ k id free
                (k.born path id (omega (arith, here, fit.within path id)))),
          record {
            named = fit.named;
            split = λ p i. ground (arith, fit.split p i);
            within = λ p i. ground (arith, fit.within p i);
            once = λ p i. ground (arith, fit.once p i);
            grounded = λ i h. elim (Bool-cases (id == i)) [
              | inl same ↦ (path, ground (arith, here, fit.within path i, same))
              | inr other ↦ fit.grounded i (ground (arith, h, other))
            ];
            apart = λ p i h. ground (
              arith,
              fit.once p i,
              fit.apart p i,
              fit.within p i,
              fit.within path i,
              here,
              k.separate path p i,
              eq_iff path p,
              eq_refl path,
            );
          },
        )
      ]

  releasing-Kept : (refused : Bool) (acquired : List ℕ) → Kept (releasing refused acquired)
  unfolding advance_in uses_by held_by uses held
  releasing-Kept refused [] paths entries store k fit = (
    Consistent-agree _ _ _ _ _ (λ p i. omega arith) (λ i. refl)
        (leave-Consistent entries store U _ k),
    refl,
  )
  releasing-Kept refused (id ∷ acquired) paths entries store k fit = (
    unlock-Consistent store _ _ k id _ (λ i. omega arith),
    (fit.0, λ i h. fit.1 i (omega (arith, h))),
  )

  holding-Kept : (acquired : List ℕ) → Kept (holding acquired)
  unfolding advance_in uses_by held_by
  holding-Kept acquired paths entries store k fit = (k, (fit.0, fit.1))

  ended-Kept : (refused : Bool) → Kept (ended refused)
  unfolding advance_in uses_by held_by
  ended-Kept refused paths entries store k fit = (k, fit)

  advance_in-Kept : (phase : Phase) → Kept phase
  advance_in-Kept entering = entering-Kept
  advance_in-Kept (acquiring acquired todo) = acquiring-Kept acquired todo
  advance_in-Kept (holding acquired) = holding-Kept acquired
  advance_in-Kept (releasing refused acquired) = releasing-Kept refused acquired
  advance_in-Kept (ended refused) = ended-Kept refused

  pub advance-Agrees :
      (r : LockRequest) (store : Store)
      → Agrees r store U H
      → Agrees (advance r store).0 (advance r store).1 U H
  unfolding advance uses_by held_by
  advance-Agrees r store h = advance_in-Kept r.phase r.paths r.entries store h.0 h.1
