-- ===== src/Locks.antt =====
-- reana_server/workspace_mutations.py: the table of locks of one process, and what one request does
-- with it. Each function here runs under the guard of the table, or is one operation of a lock, so
-- that no other request comes between.
pub mod Keys
pub mod Requests
pub mod Consistent
pub mod Keeping
pub mod System
pub mod Exclusion
pub mod Ending
pub mod Database
mod Tests
use reana_server.Prelude.{
  ℕ, suc, ◌+◌, ◌-◌, String, Bool, true, false, Option, none, some, if◌then◌else◌, ◌==◌, List, [],
  ◌∷◌, Dict, lookup, insert, erase,
}

-- `{"lock": threading.Lock(), "references": 0}`
pub record Entry : Type 0 where
  pub locked : Bool
  pub references : ℕ

-- `_local_locks` maps a path to an entry. Entries are shared objects: `heap` gives the object for
-- its number, and `fresh` is the number of the next one.
pub record Store : Type 0 where
  pub table : Dict ℕ
  pub heap : ℕ → Entry
  pub fresh : ℕ

abbrev pub put : ℕ → Entry → (ℕ → Entry) → ℕ → Entry
put id entry heap other = if id == other then entry else heap other

-- `entries`: each path with its entry
abbrev pub Entries : Type 0
Entries = List (String × ℕ)

-- `entry = _local_locks.get(path)`, or a new entry that is stored
abbrev get_or_create : String → Option ℕ → Store → ℕ × Store
get_or_create path (some id) store = (id, store)
get_or_create path none store = (
  store.fresh,
  record {
    table = insert path store.fresh store.table;
    heap = put store.fresh record { locked = false; references = 0 } store.heap;
    fresh = suc store.fresh;
  },
)

-- `entry["references"] += 1`
abbrev refer : ℕ → Store → Store
refer id store = record {
  table = store.table;
  heap =
      put id record { locked = (store.heap id).locked; references = (store.heap id).references + 1 }
        store.heap;
  fresh = store.fresh;
}

-- The body of the first loop of `_local_process_locks`.
unfoldable pub enter_path : String → Store → ℕ × Store
enter_path path store =
    let (id, created) = get_or_create path (lookup path store.table) store in (id, refer id created)

-- The first loop of `_local_process_locks`.
unfoldable pub enter : List String → Store → Entries × Store
enter [] store = ([], store)
enter (path ∷ paths) store =
    let (id, entered) = enter_path path store in
    let (entries, last) = enter paths entered in ((path, id) ∷ entries, last)

-- `lock.acquire(blocking=False)` of a free lock, and `lock.release()`
unfoldable pub set_lock : Bool → ℕ → Store → Store
set_lock b id store = record {
  table = store.table;
  heap = put id record { locked = b; references = (store.heap id).references } store.heap;
  fresh = store.fresh;
}

-- The body of the last loop of `_local_process_locks`.
unfoldable pub leave_path : String → ℕ → Store → Store
leave_path path id store =
    let left = (store.heap id).references - 1 in
    record {
      table = if left == 0 then erase path store.table else store.table;
      heap = put id record { locked = (store.heap id).locked; references = left } store.heap;
      fresh = store.fresh;
    }

-- The last loop of `_local_process_locks`.
unfoldable pub leave : Entries → Store → Store
leave [] store = store
leave ((path, id) ∷ entries) store = leave entries (leave_path path id store)
