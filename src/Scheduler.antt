-- ===== src/Scheduler.antt =====
-- reana_server/scheduler.py: the readiness checks, and the consumer of the `workflow-submission`
-- queue. A message handler is a function from what it reads of its surroundings to the calls that
-- it makes, in order. Texts with values put in are data: one constructor for each f-string.
pub mod Admission
pub mod Consumer
mod Tests
use reana_server.Prelude.{
  ℕ, zero, suc, String, Bool, Option, none, some, List, [], ◌∷◌, ◌++◌, ltb, leb, if◌then◌else◌,
  or_default, Dict, lookup,
}

-- Why a workflow is not started, or why it has failed.
pub data Reason : Type 0 where
  memory_short : (required available : ℕ) → Reason
  cap_reached : (running : ℕ) (resource : String) (maximum : ℕ) → Reason
  query_failed bad_gateway call_failed : Reason

-- REANA_WORKFLOW_SCHEDULING_READINESS_CHECK_VALUE
pub data Readiness : Type 0 where
  no_checks concurrent memory all_checks : Readiness

pub record Config : Type 0 where
  pub requeue_count : ℕ
  pub readiness : Readiness
  -- `get_concurrent_workflows_cap` of reana_commons
  pub cap : String → ℕ

-- How reana-workflow-controller answers `set_workflow_status`.
pub data Answer : Type 0 where
  started http_bad_gateway http_not_found http_conflict other_error : Answer
  http_bad_request : String → Answer

-- What one message handler reads: `NodesStatus().get_available_memory()`,
-- `Workflow.count_active_per_backend()` (`none` is an SQLAlchemyError) and the controller's answer.
pub record World : Type 0 where
  pub nodes : List ℕ
  pub running_counts : Option (Dict ℕ)
  pub answer : Answer

-- A decoded message. `none` is a missing key; `some none` is a null memory requirement.
pub record Submission : Type 0 where
  pub workflow_id_or_name : String
  pub user : Option String
  pub parameters : Option (Dict String)
  pub priority : Option ℕ
  pub min_job_memory : Option (Option ℕ)
  pub compute_backends : Option (List String)
  pub uses_dask : Option Bool
  pub retry_count : Option ℕ

abbrev max_of : ℕ → List ℕ → ℕ
max_of best [] = best
max_of best (n ∷ ns) = if ltb best n then max_of n ns else max_of best ns

-- Zero and null memory skip the check, as an empty list of nodes does.
unfoldable pub check_memory_availability : List ℕ → Option ℕ → Option Reason
check_memory_availability nodes none = none
check_memory_availability nodes (some zero) = none
check_memory_availability [] (some (suc m)) = none
check_memory_availability (n ∷ ns) (some (suc m)) =
    if leb (suc m) (max_of n ns) then none else some (memory_short (suc m) (max_of n ns))

-- The loop over the resources stops at the first one that is at its cap.
unfoldable pub first_exceeded : (String → ℕ) → Dict ℕ → List String → Option Reason
first_exceeded cap counts [] = none
first_exceeded cap counts (resource ∷ rest) =
    if leb (cap resource) (or_default (lookup resource counts) 0)
    then some (cap_reached (or_default (lookup resource counts) 0) resource (cap resource))
    else first_exceeded cap counts rest

-- The backends of the workflow, Kubernetes by default, and Dask where it is used.
unfoldable pub resources_of : Option (List String) → Bool → List String
resources_of backends uses_dask =
    or_default backends ("kubernetes" ∷ []) ++ (if uses_dask then "dask" ∷ [] else [])

unfoldable pub check_concurrent_workflows_limit :
    (String → ℕ) → Option (Dict ℕ) → Option (List String) → Bool → Option Reason
unfolding resources_of
check_concurrent_workflows_limit cap none backends uses_dask = some query_failed
check_concurrent_workflows_limit cap (some counts) backends uses_dask =
    first_exceeded cap counts (resources_of backends uses_dask)

-- The checks run in order, and the first error is the answer.
abbrev then_check : Option Reason → Option Reason → Option Reason
then_check none next = next
then_check (some e) next = some e

unfoldable pub reana_ready : Config → World → Option ℕ → Option (List String) → Bool → Option Reason
reana_ready config world job_memory backends uses_dask =
    let check_memory = check_memory_availability world.nodes job_memory in
    let check_concurrent =
      check_concurrent_workflows_limit config.cap world.running_counts backends uses_dask in
    elim (config.readiness) [
      | no_checks ↦ none
      | concurrent ↦ check_concurrent
      | memory ↦ check_memory
      | all_checks ↦ then_check check_concurrent check_memory
    ]
