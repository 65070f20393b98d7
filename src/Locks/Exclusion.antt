-- ===== src/Locks/Exclusion.antt =====
-- reana_server/workspace_mutations.py: what the locks give to requests that run at the same time.
use reana_server.Prelude.{
  ℕ, ◌+◌, ◌<◌, String, ◌≡◌, refl, ap, sym, subst, Bool, true, false, none, str_eq, List, [], ◌∷◌,
  ◌++◌, map, All, contains, lookup, arith, Dict, ltb, ltb→lt, eq_refl, inl, inr, Option-cases,
  Bool-cases,
}
use reana_server.Locks.{Store, Entries}
use reana_server.Locks.Consistent.{uses, held}
use reana_server.Locks.Requests.{
  Phase, entering, acquiring, holding, releasing, ended, LockRequest, advance_in, advance,
}
use reana_server.Locks.Keeping.{Fit, FitIn, uses_by, held_by, acquired_in, path_in}
use reana_server.Locks.System.{System, nobody, Event, run, total, Sound, run-Sound}

-- The caller's mutation is running.
abbrev pub IsHolding : LockRequest → Type 0
IsHolding r = (acquired : List ℕ) × (r.phase ≡ holding acquired)

named-Used :
    (p : String) (entries : Entries)
    → contains (map path_in entries) p ≡ true
    → (i : ℕ) × (0 < uses p i entries)
unfolding uses
named-Used p [] h = ground (arith, h)
named-Used p ((path, id) ∷ entries) h = elim (Bool-cases (str_eq path p)) [
  | inl same ↦ (id, ground (arith, same))
  | inr other ↦
      let (i, u) = named-Used p entries (ground (arith, h, other)) in (i, ground (arith, u))
]

used-named :
    (p : String) (i : ℕ) (entries : Entries)
    → 0 < uses p i entries
    → contains (map path_in entries) p ≡ true
unfolding uses
used-named p i [] h = absurd (omega (arith, h))
used-named p i ((path, id) ∷ entries) h = ground (arith, used-named p i entries, h)

total-append :
    (w : LockRequest → ℕ) (xs ys : List LockRequest) → total w (xs ++ ys) ≡ total w xs + total w ys
total-append w [] ys = omega arith
total-append w (x ∷ xs) ys = omega (arith, total-append w xs ys)

All-last : (xs ys : List LockRequest) → All Fit (xs ++ ys) → All Fit ys
All-last [] ys fit = fit
All-last (x ∷ xs) ys (f, fit) = All-last xs ys fit

All-member : (xs ys : List LockRequest) (r : LockRequest) → All Fit (xs ++ r ∷ ys) → Fit r
All-member xs ys r fit = (All-last xs (r ∷ ys) fit).0

All-others :
    (xs ys : List LockRequest) (r : LockRequest) → All Fit (xs ++ r ∷ ys) → All Fit (xs ++ ys)
All-others [] ys r (f, fit) = fit
All-others (x ∷ xs) ys r (f, fit) = (f, All-others xs ys r fit)

total-positive :
    (w : LockRequest → ℕ) (rs : List LockRequest)
    → 0 < total w rs
    → (before : List LockRequest) × (after : List LockRequest) × (u : LockRequest) × (rs
        ≡ before ++ u ∷ after)
      × (0 < w u)
total-positive w [] h = absurd (omega (arith, h))
total-positive w (r ∷ rs) h = elim (Bool-cases (ltb 0 (w r))) [
  | inl some_here ↦ ([], rs, r, refl, ltb→lt 0 (w r) some_here)
  | inr none_here ↦
      let (before, after, u, e, more) = total-positive w rs (ground (arith, h, none_here)) in
      (r ∷ before, after, u, ap (λ l. r ∷ l) e, more)
]

holding-uses :
    (r : LockRequest)
    → Fit r
    → IsHolding r
    → (p : String) → contains r.paths p ≡ true
    → (i : ℕ) × ((0 < uses_by p i r) × (0 < held_by i r))
unfolding uses_by held_by
holding-uses r fit (a, h) p c =
    let fit_now = subst (λ phase. FitIn phase r.paths r.entries) h fit in
    let (i, u) = named-Used p r.entries (subst (λ l. contains l p ≡ true) (sym fit_now.0) c) in
    (
      i,
      (
        u,
        subst (λ phase. 0 < held i (acquired_in phase)) (sym h) (omega (arith, u, fit_now.2 p i)),
      ),
    )

uses-named :
    (p : String) (i : ℕ) (r : LockRequest)
    → map path_in r.entries ≡ r.paths
    → 0 < uses p i r.entries
    → contains r.paths p ≡ true
uses-named p i r named u = subst (λ l. contains l p ≡ true) named (used-named p i r.entries u)

abbrev Grip : ℕ → Entries → List String → Type 0
Grip i entries paths = (p : String) × ((0 < uses p i entries) × (map path_in entries ≡ paths))

held-uses :
    (i : ℕ) (phase : Phase) (paths : List String) (entries : Entries)
    → FitIn phase paths entries
    → 0 < held i (acquired_in phase)
    → Grip i entries paths
unfolding held
held-uses i entering paths entries fit h = absurd (omega (arith, h))
held-uses i (acquiring acquired todo) paths entries fit h =
    let (p, u) = fit.grounded i h in (p, (u, fit.named))
held-uses i (holding acquired) paths entries fit h = let (p, u) = fit.1 i h in (p, (u, fit.0))
held-uses i (releasing refused acquired) paths entries fit h =
    let (p, u) = fit.1 i h in (p, (u, fit.0))
held-uses i (ended refused) paths entries fit h = absurd (omega (arith, h))

abbrev IsEnded : LockRequest → Type 0
IsEnded r = (refused : Bool) × (r.phase ≡ ended refused)

ended-unused :
    (p : String) (i : ℕ) (rs : List LockRequest)
    → All Fit rs
    → All IsEnded rs
    → total (uses_by p i) rs ≡ 0
unfolding uses_by uses
ended-unused p i [] fit h = refl
ended-unused p i (r ∷ rs) (f, fit) ((refused, e), h) =
    rw (subst (λ phase. FitIn phase r.paths r.entries) e f)
      (omega (arith, ended-unused p i rs fit h))

nowhere-empty : (table : Dict ℕ) → ((p : String) → lookup p table ≡ none) → table ≡ []
unfolding lookup
nowhere-empty [] h = refl
nowhere-empty ((p, i) ∷ table) h = ground (arith, h p, eq_refl p)

refused-locked :
    (phase : Phase) (r : LockRequest) (store : Store) (acquired : List ℕ) (path : String) (id : ℕ)
    (todo : Entries)
    → phase ≡ acquiring acquired ((path, id) ∷ todo)
    → (advance_in phase r store).0.phase ≡ releasing true acquired
    → (store.heap id).locked ≡ true
unfolding advance_in
refused-locked phase r store acquired path id todo e h = elim (Bool-cases (store.heap id).locked) [
  | inl taken ↦ taken
  | inr free ↦ ground (arith, free, e, h)
]

total-others :
    (w : LockRequest → ℕ) (xs ys : List LockRequest) (r : LockRequest)
    → total w (xs ++ r ∷ ys) ≡ w r + total w (xs ++ ys)
total-others w xs ys r = omega (arith, total-append w xs (r ∷ ys), total-append w xs ys)

one_path :
    (store : Store) (xs ys before after : List LockRequest) (r u : LockRequest) (path p : String)
    (id : ℕ)
    → Sound store (xs ++ r ∷ ys)
    → xs ++ ys ≡ before ++ u ∷ after
    → 0 < uses_by path id r
    → 0 < uses_by p id u
    → p ≡ path
one_path store xs ys before after r u path p id (k, fit) others h h2 =
    k.separate p path id
      (omega (
        arith,
        h2,
        total-others (uses_by p id) xs ys r,
        ap (total (uses_by p id)) others,
        total-append (uses_by p id) before (u ∷ after),
      ))
      (omega (arith, h, total-others (uses_by path id) xs ys r))

module _ (abspath hexdigest : String → String) (events : List Event) where
  abbrev now : System
  now = run abspath hexdigest events nobody

  -- Mutual exclusion: after any sequence of arrivals and steps of the requests of one process, if
  -- two requests are in their mutation, then no key is locked for both.
  pub exclusion :
      (xs ys zs : List LockRequest) (r u : LockRequest) (p : String)
      → now.requests ≡ xs ++ r ∷ (ys ++ u ∷ zs)
      → IsHolding r
      → IsHolding u
      → contains r.paths p ≡ true
      → contains u.paths p ≡ false
  exclusion xs ys zs r u p here (a, hr) (b, hu) cr = elim (Bool-cases (contains u.paths p)) [
    | inr apart ↦ apart
    | inl both ↦
        let (k, fit) = subst (λ rs. Sound now.store rs) here (run-Sound abspath hexdigest events) in
        let fit_ys = All-last xs (r ∷ (ys ++ u ∷ zs)) fit in
        let (i, (ui, hi)) = holding-uses r fit_ys.0 (a, hr) p cr in
        let (j, (uj, hj)) = holding-uses u (All-member ys zs u fit_ys.1) (b, hu) p both in
        ground (
          arith,
          k.tabled p i,
          k.tabled p j,
          k.locking i,
          ui,
          uj,
          hi,
          hj,
          total-append (uses_by p i) xs (r ∷ (ys ++ u ∷ zs)),
          total-append (uses_by p i) ys (u ∷ zs),
          total-append (uses_by p j) xs (r ∷ (ys ++ u ∷ zs)),
          total-append (uses_by p j) ys (u ∷ zs),
          total-append (held_by i) xs (r ∷ (ys ++ u ∷ zs)),
          total-append (held_by i) ys (u ∷ zs),
        )
  ]

  -- After any sequence of arrivals and steps, if every request that came has ended, then the table of
  -- locks is empty.
  pub no_leak :
      All (λ r. (refused : Bool) × (r.phase ≡ ended refused)) now.requests → now.store.table ≡ []
  no_leak h =
      let (k, fit) = run-Sound abspath hexdigest events in
      nowhere-empty now.store.table (λ p. elim (Option-cases (lookup p now.store.table)) [
        | inl missing ↦ missing
        | inr (i, found) ↦ ground (arith, found, k.tabled p i, ended-unused p i now.requests fit h)
      ])

  -- No needless conflict: after any sequence of arrivals and steps, if the next step of a request that
  -- tries to lock a path refuses it, then another request was given the same path.
  pub refused-by_another :
      (xs ys : List LockRequest) (r : LockRequest) (acquired : List ℕ) (path : String) (id : ℕ)
      (todo : Entries)
      → now.requests ≡ xs ++ r ∷ ys
      → r.phase ≡ acquiring acquired ((path, id) ∷ todo)
      → (advance r now.store).0.phase ≡ releasing true acquired
      → (before : List LockRequest) × (after : List LockRequest) × (u : LockRequest) × (xs ++ ys
          ≡ before ++ u ∷ after)
        × (contains u.paths path ≡ true)
  unfolding held_by held uses uses_by advance
  refused-by_another xs ys r acquired path id todo here hr refused =
      let (k, fit) = subst (λ rs. Sound now.store rs) here (run-Sound abspath hexdigest events) in
      let fit_r = subst (λ phase. FitIn phase r.paths r.entries) hr (All-member xs ys r fit) in
      let taken = refused-locked r.phase r now.store acquired path id todo hr refused in
      let held_r = subst (λ phase. held_by id r ≡ held id (acquired_in phase)) hr refl in
      let here_r : 0 < uses path id ((path, id) ∷ todo) = ground (arith, eq_refl path) in
      let (before, after, u, others, grip) = total-positive (held_by id) (xs ++ ys) (
        ground (
          arith,
          taken,
          k.locking id,
          held_r,
          here_r,
          fit_r.apart path id,
          total-append (held_by id) xs (r ∷ ys),
          total-append (held_by id) xs ys,
        )) in
      let (p, (used, named)) =
        held-uses id u.phase u.paths u.entries
          (All-member before after u (subst (λ rs. All Fit rs) others (All-others xs ys r fit)))
          grip in
      let used_r : 0 < uses_by path id r = omega (arith, here_r, fit_r.within path id) in
      let same = one_path now.store xs ys before after r u path p id (k, fit) others used_r used in
      (
        before,
        after,
        u,
        others,
        subst (λ t. contains u.paths t ≡ true) same (uses-named p id u named used),
      )
