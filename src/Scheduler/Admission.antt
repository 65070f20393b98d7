-- ===== src/Scheduler/Admission.antt =====
-- When the checks of `reana_ready` let a workflow start, stated without the loops.
use reana_server.Prelude.{
  ℕ, zero, suc, ◌≤◌, ◌<◌, String, ◌≡◌, ◌↔◌, ◌⊎◌, Bool, Option, none, some, List, [], ◌∷◌, arith,
  or_default, Dict, lookup, All,
}
use reana_server.Scheduler.{
  Config, World, Readiness, no_checks, concurrent, memory, all_checks, max_of,
  check_memory_availability, first_exceeded, resources_of, check_concurrent_workflows_limit,
  reana_ready,
}

abbrev AnyNode : ℕ → List ℕ → Type 0
AnyNode need [] = ⊥
AnyNode need (n ∷ ns) = (need ≤ n) ⊎ AnyNode need ns

-- Some node has the memory that the smallest initial job wants. Nothing is asked where no node is
-- listed, or where the memory of the job is unknown or 0.
abbrev pub MemoryFits : List ℕ → Option ℕ → Type 0
MemoryFits nodes none = Unit
MemoryFits nodes (some zero) = Unit
MemoryFits [] (some (suc m)) = Unit
MemoryFits (n ∷ ns) (some (suc m)) = AnyNode (suc m) (n ∷ ns)

abbrev running_of : Dict ℕ → String → ℕ
running_of counts resource = or_default (lookup resource counts) 0

-- Every resource that the workflow takes is below its cap, and the counts are known.
abbrev pub BelowCaps : (String → ℕ) → Option (Dict ℕ) → Option (List String) → Bool → Type 0
BelowCaps cap none backends uses_dask = ⊥
BelowCaps cap (some counts) backends uses_dask =
    All (λ r. running_of counts r < cap r) (resources_of backends uses_dask)

abbrev pub IsReady : Readiness → Config → World → Option ℕ → Option (List String) → Bool → Type 0
IsReady no_checks config world job_memory backends uses_dask = Unit
IsReady concurrent config world job_memory backends uses_dask =
    BelowCaps config.cap world.running_counts backends uses_dask
IsReady memory config world job_memory backends uses_dask = MemoryFits world.nodes job_memory
IsReady all_checks config world job_memory backends uses_dask =
    BelowCaps config.cap world.running_counts backends uses_dask × MemoryFits world.nodes job_memory

le-max_of : (need best : ℕ) (ns : List ℕ) → (need ≤ max_of best ns) ↔ AnyNode need (best ∷ ns)
le-max_of need best [] = ground arith
le-max_of need best (n ∷ ns) = ground (arith, le-max_of need n ns, le-max_of need best ns)

check_memory_iff :
    (nodes : List ℕ) (job_memory : Option ℕ)
    → (check_memory_availability nodes job_memory ≡ none) ↔ MemoryFits nodes job_memory
unfolding check_memory_availability
check_memory_iff nodes none = ground arith
check_memory_iff nodes (some zero) = ground arith
check_memory_iff [] (some (suc m)) = ground arith
check_memory_iff (n ∷ ns) (some (suc m)) = ground (arith, le-max_of (suc m) n ns)

first_exceeded_iff :
    (cap : String → ℕ) (counts : Dict ℕ) (rs : List String)
    → (first_exceeded cap counts rs ≡ none) ↔ All (λ r. running_of counts r < cap r) rs
unfolding first_exceeded
first_exceeded_iff cap counts [] = ground arith
first_exceeded_iff cap counts (r ∷ rs) = ground (arith, first_exceeded_iff cap counts rs)

check_concurrent_iff :
    (cap : String → ℕ) (counts : Option (Dict ℕ)) (backends : Option (List String))
    (uses_dask : Bool)
    → (check_concurrent_workflows_limit cap counts backends uses_dask ≡ none)
      ↔ BelowCaps cap counts backends uses_dask
unfolding check_concurrent_workflows_limit
check_concurrent_iff cap none backends uses_dask = ground arith
check_concurrent_iff cap (some counts) backends uses_dask =
    first_exceeded_iff cap counts (resources_of backends uses_dask)

-- `reana_ready` reports no error exactly when the checks that the readiness level names hold: the
-- counts are known and each resource is below its cap, and some node has the memory of the smallest
-- initial job, unless that memory is unknown or 0, or no node is listed.
pub reana_ready-eq-none_iff :
    (config : Config) (world : World) (job_memory : Option ℕ) (backends : Option (List String))
    (uses_dask : Bool)
    → (reana_ready config world job_memory backends uses_dask ≡ none)
      ↔ IsReady config.readiness config world job_memory backends uses_dask
unfolding reana_ready
reana_ready-eq-none_iff config world job_memory backends uses_dask = ground (
  arith,
  check_memory_iff world.nodes job_memory,
  check_concurrent_iff config.cap world.running_counts backends uses_dask,
)
