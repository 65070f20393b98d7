-- ===== src/Locks/Requests.antt =====
-- reana_server/workspace_mutations.py, `_local_process_locks`: where a request stands in it, and its
-- next step. Between two steps other requests may take theirs.
use reana_server.Prelude.{ℕ, String, Bool, true, false, if◌then◌else◌, List, [], ◌∷◌}
use reana_server.Locks.{Store, Entries, enter, leave, set_lock}

-- `acquired` holds the last lock first, since locks are released in the reverse order.
pub data Phase : Type 0 where
  entering : Phase
  acquiring : (acquired : List ℕ) → (todo : Entries) → Phase
  -- the `yield`: the caller mutates the workspaces
  holding : (acquired : List ℕ) → Phase
  -- `finally`; `refused` says that it ends with WorkspaceMutationConflict
  releasing : (refused : Bool) → (acquired : List ℕ) → Phase
  ended : (refused : Bool) → Phase

pub record LockRequest : Type 0 where
  pub paths : List String
  pub entries : Entries
  pub phase : Phase

-- A request that calls `_local_process_locks(paths)`.
abbrev pub arrive : List String → LockRequest
arrive paths = record { paths = paths; entries = []; phase = entering }

abbrev in_phase : LockRequest → Phase → LockRequest
in_phase r phase = record { paths = r.paths; entries = r.entries; phase = phase }

-- One round of the second loop.
abbrev pub try_lock : LockRequest → List ℕ → ℕ → Entries → Store → LockRequest × Store
try_lock r acquired id todo store =
    if (store.heap id).locked
    then (in_phase r (releasing true acquired), store)
    else (in_phase r (acquiring (id ∷ acquired) todo), set_lock true id store)

unfoldable pub advance_in : Phase → LockRequest → Store → LockRequest × Store
advance_in entering r store =
    let (entries, entered) = enter r.paths store in
    (record { paths = r.paths; entries = entries; phase = acquiring [] entries }, entered)
advance_in (acquiring acquired []) r store = (in_phase r (holding acquired), store)
advance_in (acquiring acquired ((path, id) ∷ todo)) r store = try_lock r acquired id todo store
advance_in (holding acquired) r store = (in_phase r (releasing false acquired), store)
advance_in (releasing refused (id ∷ acquired)) r store =
    (in_phase r (releasing refused acquired), set_lock false id store)
advance_in (releasing refused []) r store =
    (record { paths = r.paths; entries = []; phase = ended refused }, leave r.entries store)
advance_in (ended refused) r store = (r, store)

-- The next step of a request.
unfoldable pub advance : LockRequest → Store → LockRequest × Store
advance r store = advance_in r.phase r store
