-- ===== src/Locks/Consistent.antt =====
-- What the table of locks says of the requests: how often each entry is referred to, and which locks
-- are held.
use reana_server.Prelude.{
  one_if, ℕ, ◌+◌, ◌≤◌, ◌<◌, String, ◌≡◌, true, false, ◌&&◌, some, ◌↔◌, ◌==◌, str_eq, List, [], ◌∷◌,
  lookup, lookup-insert, lookup-erase, arith, eq_iff, eq_refl, Option-cases, inl, inr,
}
use reana_server.Locks.{Store, Entries, enter_path, leave_path, set_lock}

-- How often a path stands with an entry in a list of entries.
unfoldable pub uses : String → ℕ → Entries → ℕ
uses path id [] = 0
uses path id ((p, i) ∷ entries) = one_if (str_eq p path && i == id) + uses path id entries

-- How often a lock stands in a list of locks.
unfoldable pub held : ℕ → List ℕ → ℕ
held id [] = 0
held id (i ∷ ids) = one_if (i == id) + held id ids

-- `U` gives how often the requests refer to an entry for a path, `H` how often they hold its lock.
pub record Consistent (store : Store) (U : String → ℕ → ℕ) (H : ℕ → ℕ) : Type 0 where
  pub tabled : (p : String) (i : ℕ) → (lookup p store.table ≡ some i) ↔ (0 < U p i)
  pub counted : (p : String) (i : ℕ) → 0 < U p i → (store.heap i).references ≡ U p i
  pub separate : (p q : String) (i : ℕ) → 0 < U p i → 0 < U q i → p ≡ q
  pub born : (p : String) (i : ℕ) → 0 < U p i → i < store.fresh
  pub locking : (i : ℕ) → one_if (store.heap i).locked ≡ H i
  pub unborn : (i : ℕ) → store.fresh ≤ i → H i ≡ 0

module _ (store : Store) (U : String → ℕ → ℕ) (H : ℕ → ℕ) (k : Consistent store U H) where
  pub enter_path-Consistent :
      (path : String)
      → Consistent
          (enter_path path store).1
          (λ p i. one_if (str_eq path p && (enter_path path store).0 == i) + U p i)
          H
  unfolding enter_path
  enter_path-Consistent path = elim (Option-cases (lookup path store.table)) [
    | inl new ↦ rw new (record {
      tabled = λ p i. ground (
        arith,
        new,
        k.tabled p i,
        k.tabled path i,
        lookup-insert path p store.fresh store.table,
        eq_iff path p,
        k.born p i,
      );
      counted =
          λ p i h. ground (arith, k.counted p i, k.tabled path i, k.born p i, eq_iff path p, new);
      separate = λ p q i h h2.
          ground (arith, k.separate p q i, k.born p i, k.born q i, eq_iff path p, eq_iff path q);
      born = λ p i h. ground (arith, k.born p i);
      locking = λ i. ground (arith, k.locking i, k.unborn i);
      unborn = λ i h. ground (arith, k.unborn i);
    })
    | inr (id, known) ↦ rw known (record {
      tabled = λ p i. ground (arith, known, k.tabled p i, eq_iff path p);
      counted = λ p i h. ground (
        arith,
        known,
        k.counted p i,
        k.counted path i,
        k.tabled path i,
        k.separate p path i,
        eq_iff path p,
      );
      separate = λ p q i h h2. ground (
        arith,
        known,
        k.tabled path i,
        k.separate p q i,
        k.separate path q i,
        k.separate p path i,
        eq_iff path p,
        eq_iff path q,
      );
      born = λ p i h. ground (arith, known, k.tabled path i, k.born p i, k.born path i);
      locking = λ i. ground (arith, k.locking i);
      unborn = k.unborn;
    })
  ]

  pub leave_path-Consistent :
      (path : String) (id : ℕ) (V : String → ℕ → ℕ)
      → ((p : String) (i : ℕ) → U p i ≡ one_if (str_eq path p && id == i) + V p i)
      → Consistent (leave_path path id store) V H
  unfolding leave_path
  leave_path-Consistent path id V e = record {
    tabled = λ p i. ground (
      arith,
      e p i,
      e path id,
      k.tabled p i,
      k.tabled path id,
      k.tabled path i,
      k.counted path id,
      lookup-erase path p store.table,
      eq_iff path p,
      eq_refl path,
    );
    counted = λ p i h. ground (
      arith,
      e p i,
      e path id,
      k.counted p i,
      k.counted path id,
      k.separate p path i,
      eq_iff path p,
      eq_refl path,
    );
    separate = λ p q i h h2. ground (arith, e p i, e q i, k.separate p q i);
    born = λ p i h. ground (arith, e p i, k.born p i);
    locking = λ i. ground (arith, k.locking i);
    unborn = k.unborn;
  }

  pub lock-Consistent :
      (id : ℕ)
      → (store.heap id).locked ≡ false
      → id < store.fresh
      → Consistent (set_lock true id store) U (λ i. one_if (id == i) + H i)
  unfolding set_lock
  lock-Consistent id free born = record {
    tabled = k.tabled;
    counted = λ p i h. ground (arith, k.counted p i);
    separate = k.separate;
    born = k.born;
    locking = λ i. ground (arith, free, k.locking i);
    unborn = λ i h. ground (arith, k.unborn i);
  }

  pub unlock-Consistent :
      (id : ℕ) (J : ℕ → ℕ)
      → ((i : ℕ) → H i ≡ one_if (id == i) + J i)
      → Consistent (set_lock false id store) U J
  unfolding set_lock
  unlock-Consistent id J e = record {
    tabled = k.tabled;
    counted = λ p i h. ground (arith, k.counted p i);
    separate = k.separate;
    born = k.born;
    locking = λ i. ground (arith, e i, k.locking i);
    unborn = λ i h. ground (arith, e i, k.unborn i);
  }
