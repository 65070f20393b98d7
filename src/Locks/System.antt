-- ===== src/Locks/System.antt =====
-- reana_server/workspace_mutations.py: requests that mutate workspaces at the same time, in one
-- process. An event is the arrival of a request, or the next step of one that is there.
use reana_server.Prelude.{
  count, sorted_set, count-sorted_set, ℕ, zero, suc, ◌+◌, ◌≤◌, String, refl, false, List, [], ◌∷◌,
  All, lookup, arith,
}
use reana_server.Locks.{Store}
use reana_server.Locks.Consistent.{Consistent, uses, held}
use reana_server.Locks.Keys.{Call, keys_of}
use reana_server.Locks.Requests.{LockRequest, arrive, advance}
use reana_server.Locks.Keeping.{Consistent-agree, Fit, uses_by, held_by, advance-Agrees}

pub record System : Type 0 where
  pub store : Store
  pub requests : List LockRequest

-- No request has come yet.
abbrev pub nobody : System
nobody = record {
  store = record { table = []; heap = λ i. record { locked = false; references = 0 }; fresh = 0 };
  requests = [];
}

pub data Event : Type 0 where
  calls : Call → Event
  -- the request of a number takes its next step
  steps : ℕ → Event

-- The request of a number takes its next step, and the others stay.
abbrev step_of : ℕ → Store → List LockRequest → List LockRequest × Store
step_of i store [] = ([], store)
step_of zero store (r ∷ rs) = let (next, after) = advance r store in (next ∷ rs, after)
step_of (suc i) store (r ∷ rs) = let (later, after) = step_of i store rs in (r ∷ later, after)

-- `_mutation_locks`: without keys nothing is locked.
abbrev mutation_locks : List String → List LockRequest → List LockRequest
mutation_locks [] requests = requests
mutation_locks (key ∷ keys) requests = arrive (key ∷ keys) ∷ requests

module _ (abspath hexdigest : String → String) where
  unfoldable pub perform : Event → System → System
  perform (calls call) s = record {
    store = s.store;
    requests = mutation_locks (sorted_set (keys_of abspath hexdigest call)) s.requests;
  }
  perform (steps i) s =
      let (requests, store) = step_of i s.store s.requests in
      record { store = store; requests = requests }

  unfoldable pub run : List Event → System → System
  run [] s = s
  run (event ∷ events) s = run events (perform event s)

-- A sum over the requests.
abbrev pub total : (LockRequest → ℕ) → List LockRequest → ℕ
total w [] = 0
total w (r ∷ rs) = w r + total w rs

-- The store fits the requests.
abbrev pub Sound : Store → List LockRequest → Type 0
Sound store rs =
    Consistent store (λ p i. total (uses_by p i) rs) (λ i. total (held_by i) rs) × All Fit rs

-- With others outside the list.
step-Sound :
    (i : ℕ) (rs : List LockRequest) (store : Store) (U : String → ℕ → ℕ) (H : ℕ → ℕ)
    → Consistent store (λ p j. total (uses_by p j) rs + U p j) (λ j. total (held_by j) rs + H j)
    → All Fit rs
    → Consistent
        (step_of i store rs).1
        (λ p j. total (uses_by p j) (step_of i store rs).0 + U p j)
        (λ j. total (held_by j) (step_of i store rs).0 + H j)
      × All Fit (step_of i store rs).0
step-Sound i [] store U H k fit = (k, fit)
step-Sound zero (r ∷ rs) store U H k (f, fit) =
    let (k2, f2) =
      advance-Agrees (λ p j. total (uses_by p j) rs + U p j) (λ j. total (held_by j) rs + H j) r
        store (Consistent-agree _ _ _ _ _ (λ p j. omega arith) (λ j. omega arith) k, f) in
    (Consistent-agree _ _ _ _ _ (λ p j. omega arith) (λ j. omega arith) k2, (f2, fit))
step-Sound (suc i) (r ∷ rs) store U H k (f, fit) =
    let (k2, fit2) =
      step-Sound i rs store (λ p j. uses_by p j r + U p j) (λ j. held_by j r + H j)
        (Consistent-agree _ _ _ _ _ (λ p j. omega arith) (λ j. omega arith) k) fit in
    (Consistent-agree _ _ _ _ _ (λ p j. omega arith) (λ j. omega arith) k2, (f, fit2))

mutation_locks-Sound :
    (keys : List String)
    → ((p : String) → count p keys ≤ 1)
    → (store : Store) (rs : List LockRequest) → Sound store rs
    → Sound store (mutation_locks keys rs)
unfolding uses_by held_by uses held
mutation_locks-Sound [] once store rs h = h
mutation_locks-Sound (key ∷ keys) once store rs (k, fit) =
    (Consistent-agree _ _ _ _ _ (λ p j. omega arith) (λ j. omega arith) k, ((refl, once), fit))

sorted_set-once : (keys : List String) (p : String) → count p (sorted_set keys) ≤ 1
sorted_set-once keys p = ground (arith, count-sorted_set p keys)

nobody-Sound : Sound nobody.store nobody.requests
unfolding lookup
nobody-Sound = (
  record {
    tabled = λ p i. ground arith;
    counted = λ p i h. ground (arith, h);
    separate = λ p q i h h2. ground (arith, h);
    born = λ p i h. ground (arith, h);
    locking = λ i. refl;
    unborn = λ i h. refl;
  },
  tt,
)

module _ (abspath hexdigest : String → String) where
  perform-Sound :
      (event : Event) (s : System)
      → Sound s.store s.requests
      → Sound (perform abspath hexdigest event s).store (perform abspath hexdigest event s).requests
  unfolding perform
  perform-Sound (calls call) s h =
      mutation_locks-Sound _ (sorted_set-once (keys_of abspath hexdigest call)) s.store s.requests h
  perform-Sound (steps i) s (k, fit) =
      let (k2, fit2) =
        step-Sound i s.requests s.store (λ p j. 0) (λ j. 0)
          (Consistent-agree _ _ _ _ _ (λ p j. omega arith) (λ j. omega arith) k) fit in
      (Consistent-agree _ _ _ _ _ (λ p j. omega arith) (λ j. omega arith) k2, fit2)

  run_from-Sound :
      (events : List Event) (s : System)
      → Sound s.store s.requests
      → Sound (run abspath hexdigest events s).store (run abspath hexdigest events s).requests
  unfolding run
  run_from-Sound [] s h = h
  run_from-Sound (event ∷ events) s h = run_from-Sound events _ (perform-Sound event s h)

  -- Whatever the order of the steps, the store fits the requests.
  pub run-Sound :
      (events : List Event)
      → Sound
          (run abspath hexdigest events nobody).store
          (run abspath hexdigest events nobody).requests
  run-Sound events = run_from-Sound events nobody nobody-Sound
