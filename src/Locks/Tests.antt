-- ===== src/Locks/Tests.antt =====
-- Two workspaces and a few orders of steps.
use reana_server.Prelude.{
  ℤ, pos, negsuc, sorted_set, if◌then◌else◌, str_eq, ◌==◌, ℕ, String, ◌≡◌, refl, Bool, true, false,
  List, [], ◌∷◌, contains, lookup, insert, erase, arith, ◌++◌, All,
}
use reana_server.Locks.{Store, enter_path, enter, leave_path, leave, set_lock}
use reana_server.Locks.Keys.{workspaces, creation, keys_of, normalise_paths, workflow_family_key}
use reana_server.Locks.Requests.{
  acquiring, holding, releasing, ended, LockRequest, advance_in, advance, arrive,
}
use reana_server.Locks.System.{nobody, Event, calls, steps, run, perform}
use reana_server.Locks.Exclusion.{exclusion, no_leak, refused-by_another}
use reana_server.Locks.Ending.{advance_at, advance_at-ended}
use reana_server.Locks.Database.{
  Op, connect, begin, try_lock, mutate, rollback, invalidate, close, CallEnd, granted, denied,
  postgresql_locks, returned, conflict, release_postgresql_locks,
}

abbrev unchanged : String → String
unchanged path = path

abbrev six_steps : ℕ → List Event
six_steps i = steps i ∷ steps i ∷ steps i ∷ steps i ∷ steps i ∷ steps i ∷ []

abbrev two_apart : List Event
two_apart =
    calls (workspaces ("/a" ∷ []))
    ∷ calls (workspaces ("/b" ∷ []))
    ∷ steps 0
    ∷ steps 1
    ∷ steps 0
    ∷ steps 1
    ∷ steps 0
    ∷ steps 1
    ∷ []

abbrev b_holds : LockRequest
b_holds = record { paths = "/b" ∷ []; entries = ("/b", 0) ∷ []; phase = holding (0 ∷ []) }

abbrev a_holds : LockRequest
a_holds = record { paths = "/a" ∷ []; entries = ("/a", 1) ∷ []; phase = holding (1 ∷ []) }

two_apart-both : (run unchanged unchanged two_apart nobody).requests ≡ b_holds ∷ a_holds ∷ []
unfolding run perform advance advance_in enter enter_path set_lock keys_of normalise_paths
    sorted_set lookup insert
two_apart-both = refl

exclusion_example : contains ("/a" ∷ []) "/b" ≡ false
exclusion_example =
    exclusion unchanged unchanged two_apart [] [] [] b_holds a_holds "/b" two_apart-both
      (0 ∷ [], refl) (1 ∷ [], refl) refl

abbrev one_by_one : List Event
one_by_one =
    calls (creation "owner" "name" "/a") ∷ calls (workspaces ("/a" ∷ "/a" ∷ [])) ∷ six_steps 0
    ++ six_steps 1
    ++ six_steps 1

abbrev Over : LockRequest → Type 0
Over r = (refused : Bool) × (r.phase ≡ ended refused)

one_by_one-Over : All Over (run unchanged unchanged one_by_one nobody).requests
unfolding run perform advance advance_in enter enter_path leave leave_path set_lock keys_of
    normalise_paths workflow_family_key sorted_set lookup insert erase
one_by_one-Over = ((false, refl), ((false, refl), tt))

no_leak_example : (run unchanged unchanged one_by_one nobody).store.table ≡ []
no_leak_example = no_leak unchanged unchanged one_by_one one_by_one-Over

abbrev two_alike : List Event
two_alike =
    calls (workspaces ("/a" ∷ []))
    ∷ calls (workspaces ("/a" ∷ []))
    ∷ steps 0
    ∷ steps 1
    ∷ steps 0
    ∷ []

abbrev first_locks : LockRequest
first_locks = record { paths = "/a" ∷ []; entries = ("/a", 0) ∷ []; phase = acquiring (0 ∷ []) [] }

abbrev second_tries : LockRequest
second_tries = record {
  paths = "/a" ∷ [];
  entries = ("/a", 0) ∷ [];
  phase = acquiring [] (("/a", 0) ∷ []);
}

two_alike-now :
    (run unchanged unchanged two_alike nobody).requests ≡ (first_locks ∷ []) ++ second_tries ∷ []
unfolding run perform advance advance_in enter enter_path set_lock keys_of normalise_paths
    sorted_set lookup insert
two_alike-now = refl

two_alike-refused :
    (advance second_tries (run unchanged unchanged two_alike nobody).store).0.phase
    ≡ releasing true []
unfolding run perform advance advance_in enter enter_path set_lock keys_of normalise_paths
    sorted_set lookup insert
two_alike-refused = refl

refused-by_another_example :
    (before : List LockRequest) × (after : List LockRequest) × (u : LockRequest) × ((first_locks
          ∷ [])
        ++ []
      ≡ before ++ u ∷ after)
    × (contains u.paths "/a" ≡ true)
refused-by_another_example =
    refused-by_another unchanged unchanged two_alike (first_locks ∷ []) [] second_tries [] "/a" 0 []
      two_alike-now refl two_alike-refused

abbrev empty : Store
empty = nobody.store

advance_at-ended_example :
    (refused : Bool) × ((advance_at
        (empty ∷ empty ∷ empty ∷ empty ∷ empty ∷ empty ∷ [])
        (arrive ("/a" ∷ []))).phase
      ≡ ended refused)
advance_at-ended_example =
    advance_at-ended (empty ∷ empty ∷ empty ∷ empty ∷ empty ∷ empty ∷ []) ("/a" ∷ []) (omega arith)

abbrev digest : String → List ℕ
digest path = 255 ∷ 1 ∷ 2 ∷ 3 ∷ 4 ∷ 5 ∷ 6 ∷ 7 ∷ 8 ∷ []

abbrev b_denied : Op → List Op → CallEnd
b_denied (try_lock (pos n)) log = if n == 2 then denied else granted
b_denied (try_lock (negsuc n)) log = granted
b_denied connect log = granted
b_denied begin log = granted
b_denied mutate log = granted
b_denied rollback log = granted
b_denied invalidate log = granted
b_denied close log = granted

abbrev always : List Op → Bool
always log = true

abbrev numbered : String → ℤ
numbered path = pos (if str_eq path "/a" then 1 else 2)

b_denied-conflict :
    postgresql_locks b_denied always numbered ("/a" ∷ "/b" ∷ []) []
    ≡ (conflict, close ∷ rollback ∷ try_lock (pos 2) ∷ try_lock (pos 1) ∷ begin ∷ connect ∷ [])
unfolding postgresql_locks release_postgresql_locks
b_denied-conflict = refl

abbrev all_granted : Op → List Op → CallEnd
all_granted op log = granted

all_granted-returned :
    (postgresql_locks all_granted always numbered ("/a" ∷ "/b" ∷ []) []).0 ≡ returned
unfolding postgresql_locks
all_granted-returned = refl
