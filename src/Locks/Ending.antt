-- ===== src/Locks/Ending.antt =====
-- reana_server/workspace_mutations.py: a request comes to its end after a bounded number of its own
-- steps.
use reana_server.Prelude.{
  ℕ, ◌+◌, ◌-◌, ◌*◌, ◌≤◌, String, ◌≡◌, refl, Bool, List, [], ◌∷◌, length, arith,
}
use reana_server.Locks.{Store, Entries, enter, enter_path}
use reana_server.Locks.Requests.{
  Phase, entering, acquiring, holding, releasing, ended, LockRequest, arrive, advance_in, advance,
}

-- How many steps are left at most.
unfoldable pub steps_left : Phase → List String → ℕ
steps_left entering paths = 2 * length paths + 4
steps_left (acquiring acquired todo) paths = length acquired + 2 * length todo + 3
steps_left (holding acquired) paths = length acquired + 2
steps_left (releasing refused acquired) paths = length acquired + 1
steps_left (ended refused) paths = 0

length-enter : (paths : List String) (store : Store) → length (enter paths store).0 ≡ length paths
unfolding enter
length-enter [] store = refl
length-enter (path ∷ paths) store = omega (arith, length-enter paths (enter_path path store).1)

advance_in-less :
    (phase : Phase) (paths : List String) (entries : Entries) (store : Store)
    → (let next =
          (advance_in phase record { paths = paths; entries = entries; phase = phase } store).0 in
        steps_left next.phase next.paths ≤ steps_left phase paths - 1)
unfolding advance_in steps_left
advance_in-less entering paths entries store = omega (arith, length-enter paths store)
advance_in-less (acquiring acquired []) paths entries store = omega arith
advance_in-less (acquiring acquired ((path, id) ∷ todo)) paths entries store = ground arith
advance_in-less (holding acquired) paths entries store = omega arith
advance_in-less (releasing refused []) paths entries store = omega arith
advance_in-less (releasing refused (id ∷ acquired)) paths entries store = omega arith
advance_in-less (ended refused) paths entries store = omega arith

-- The request takes its steps at stores that the others have changed in between.
unfoldable pub advance_at : List Store → LockRequest → LockRequest
advance_at [] r = r
advance_at (store ∷ stores) r = advance_at stores (advance r store).0

none_left-ended :
    (phase : Phase) (paths : List String)
    → steps_left phase paths ≡ 0
    → (refused : Bool) × (phase ≡ ended refused)
unfolding steps_left
none_left-ended entering paths h = absurd (omega (arith, h))
none_left-ended (acquiring acquired todo) paths h = absurd (omega (arith, h))
none_left-ended (holding acquired) paths h = absurd (omega (arith, h))
none_left-ended (releasing refused acquired) paths h = absurd (omega (arith, h))
none_left-ended (ended refused) paths h = (refused, refl)

advance_at-left :
    (stores : List Store) (r : LockRequest)
    → (let last = advance_at stores r in
        steps_left last.phase last.paths ≤ steps_left r.phase r.paths - length stores)
unfolding advance_at advance
advance_at-left [] r = omega arith
advance_at-left (store ∷ stores) r = omega (
  arith,
  advance_at-left stores (advance r store).0,
  advance_in-less r.phase r.paths r.entries store,
)

-- A request that takes at least twice as many steps as it has keys, and four more, comes to its end,
-- whatever the store is at each of its steps: it never waits for another request.
pub advance_at-ended :
    (stores : List Store) (paths : List String)
    → 2 * length paths + 4 ≤ length stores
    → (refused : Bool) × ((advance_at stores (arrive paths)).phase ≡ ended refused)
unfolding steps_left
advance_at-ended stores paths enough =
    none_left-ended _ (advance_at stores (arrive paths)).paths
      (omega (arith, enough, advance_at-left stores (arrive paths)))
