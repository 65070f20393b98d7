-- ===== src/Locks/Database.antt =====
-- reana_server/workspace_mutations.py: the same locks on a PostgreSQL database, as transaction-scoped
-- advisory locks. The calls to the database are written to a log, the last first; `answer` says of
-- each call, after what was called before, how it ends.
use reana_server.Prelude.{
  ℤ, pos, negsuc, ℕ, zero, suc, ◌+◌, ◌-◌, ◌*◌, ◌≤◌, ◌<◌, String, ◌≡◌, refl, Bool, true, false,
  if◌then◌else◌, ltb, List, [], ◌∷◌, take, All, arith,
}

-- `int.from_bytes(bytes, byteorder="big")`, after the value of earlier bytes
unfoldable pub from_bytes : ℕ → List ℕ → ℕ
from_bytes value [] = value
from_bytes value (byte ∷ bytes) = from_bytes (value * 256 + byte) bytes

abbrev IsByte : ℕ → Type 0
IsByte b = b < 256

-- `n` times 256 to the power of `k`
abbrev scale : ℕ → ℕ → ℕ
scale n zero = n
scale n (suc k) = scale (n * 256) k

le-scale : (n k : ℕ) → n ≤ scale n k
le-scale n zero = omega arith
le-scale n (suc k) = omega (arith, le-scale (n * 256) k)

from_bytes-lt :
    (bytes : List ℕ) (value n k : ℕ)
    → All IsByte bytes
    → value < n
    → from_bytes value (take k bytes) < scale n k
unfolding from_bytes
from_bytes-lt bytes value n zero h lt = lt
from_bytes-lt [] value n (suc k) h lt = omega (arith, lt, le-scale n (suc k))
from_bytes-lt (byte ∷ bytes) value n (suc k) (small, h) lt =
    from_bytes-lt bytes (value * 256 + byte) (n * 256) k h (omega (arith, small, lt))

-- the same eight bytes with `signed=True`
abbrev signed : ℕ → ℤ
signed n = if ltb n 9223372036854775808 then pos n else negsuc (18446744073709551615 - n)

-- `digest` is the SHA-256 of a text.
module _ (digest : String → List ℕ) where
  -- `_advisory_key`
  unfoldable pub advisory_key : String → ℤ
  advisory_key path = signed (from_bytes 0 (take 8 (digest path)))

  -- A `bigint` of PostgreSQL.
  abbrev pub IsBigint : ℤ → Type 0
  IsBigint (pos n) = n < 9223372036854775808
  IsBigint (negsuc n) = n < 9223372036854775808

  signed-IsBigint : (n : ℕ) → n < 18446744073709551616 → IsBigint (signed n)
  signed-IsBigint n h = ground arith

  -- The key of a path is a signed integer of 64 bits, if the digest of the path consists of bytes.
  pub advisory_key-IsBigint :
      (path : String) → All IsByte (digest path) → IsBigint (advisory_key path)
  unfolding advisory_key
  advisory_key-IsBigint path h =
      signed-IsBigint _ (from_bytes-lt (digest path) 0 1 8 h (omega arith))

pub data Op : Type 0 where
  connect : Op
  begin : Op
  try_lock : ℤ → Op
  -- the `yield`
  mutate : Op
  rollback : Op
  invalidate : Op
  close : Op

-- How often the caller's mutation ran.
abbrev pub mutations : List Op → ℕ
mutations [] = 0
mutations (mutate ∷ log) = suc (mutations log)
mutations (connect ∷ log) = mutations log
mutations (begin ∷ log) = mutations log
mutations (try_lock key ∷ log) = mutations log
mutations (rollback ∷ log) = mutations log
mutations (invalidate ∷ log) = mutations log
mutations (close ∷ log) = mutations log

-- How a call ends.
pub data CallEnd : Type 0 where
  granted : CallEnd
  -- `pg_try_advisory_xact_lock` returns false; for another call it is a normal end
  denied : CallEnd
  raised : CallEnd

pub data Ending : Type 0 where
  returned : Ending
  -- WorkspaceMutationConflict and WorkspaceMutationUnavailable
  conflict : Ending
  unavailable : Ending

module _ (answer : Op → List Op → CallEnd) (active : List Op → Bool) (key : String → ℤ) where
  abbrev after_rollback : CallEnd → List Op → List Op
  after_rollback raised log = invalidate ∷ log
  after_rollback granted log = log
  after_rollback denied log = log

  abbrev end_transaction : Bool → List Op → List Op
  end_transaction false log = log
  end_transaction true log =
      if active log then after_rollback (answer rollback log) (rollback ∷ log) else log

  -- `_release_postgresql_locks` with a connection; `begun` says that there is a transaction.
  unfoldable pub release_postgresql_locks : Bool → List Op → List Op
  release_postgresql_locks begun log = close ∷ end_transaction begun log

  -- The loop over the paths.
  abbrev acquire : List String → List Op → Ending × List Op
  acquire [] log = (returned, log)
  acquire (path ∷ paths) log =
      let later = acquire paths (try_lock (key path) ∷ log) in
      elim (answer (try_lock (key path)) log) [
        | granted ↦ later
        | denied ↦ (conflict, try_lock (key path) ∷ log)
        | raised ↦ (unavailable, try_lock (key path) ∷ log)
      ]

  abbrev guarded : Ending × List Op → Ending × List Op
  guarded (returned, log) = (returned, release_postgresql_locks true (mutate ∷ log))
  guarded (conflict, log) = (conflict, release_postgresql_locks true log)
  guarded (unavailable, log) = (unavailable, release_postgresql_locks true log)

  abbrev connected : List String → List Op → CallEnd → Ending × List Op
  connected paths log raised = (unavailable, release_postgresql_locks false (begin ∷ log))
  connected paths log granted = guarded (acquire paths (begin ∷ log))
  connected paths log denied = guarded (acquire paths (begin ∷ log))

  -- `_postgresql_locks`: without a connection there is nothing to release.
  unfoldable pub postgresql_locks : List String → List Op → Ending × List Op
  postgresql_locks paths log = elim (answer connect log) [
    | raised ↦ (unavailable, connect ∷ log)
    | granted ↦ connected paths (connect ∷ log) (answer begin (connect ∷ log))
    | denied ↦ connected paths (connect ∷ log) (answer begin (connect ∷ log))
  ]

  -- The calls of one mutation that ran.
  abbrev pub tried : List String → List Op → List Op
  tried [] log = log
  tried (path ∷ paths) log = tried paths (try_lock (key path) ∷ log)

  acquire-returned :
      (paths : List String) (log : List Op)
      → (acquire paths log).0 ≡ returned
      → (acquire paths log).1 ≡ tried paths log
  acquire-returned [] log h = refl
  acquire-returned (path ∷ paths) log h =
      ground (arith, acquire-returned paths (try_lock (key path) ∷ log), h)

  acquire-mutations :
      (paths : List String) (log : List Op) → mutations (acquire paths log).1 ≡ mutations log
  acquire-mutations [] log = refl
  acquire-mutations (path ∷ paths) log =
      ground (arith, acquire-mutations paths (try_lock (key path) ∷ log))

  -- A number for an outcome: 1 if there was no error.
  abbrev pub ran : Ending → ℕ
  ran returned = 1
  ran conflict = 0
  ran unavailable = 0

  -- However the calls of the database end: the mutation runs once, if the outcome is no error, and does
  -- not run, if the outcome is a conflict or that the database is unavailable.
  pub postgresql_locks-mutations :
      (paths : List String) (log : List Op)
      → mutations (postgresql_locks paths log).1
        ≡ ran (postgresql_locks paths log).0 + mutations log
  unfolding postgresql_locks release_postgresql_locks
  postgresql_locks-mutations paths log =
      ground (arith, acquire-mutations paths (begin ∷ connect ∷ log))

  -- If the outcome is no error, then the calls of the database were these, in order: the connection,
  -- the transaction, a request for each key, the mutation, the rollback if the transaction was still
  -- active, and the end of the connection.
  pub postgresql_locks-returned :
      (paths : List String) (log : List Op)
      → (postgresql_locks paths log).0 ≡ returned
      → (postgresql_locks paths log).1
        ≡ release_postgresql_locks true (mutate ∷ tried paths (begin ∷ connect ∷ log))
  unfolding postgresql_locks
  postgresql_locks-returned paths log h =
      ground (arith, acquire-returned paths (begin ∷ connect ∷ log), h)
