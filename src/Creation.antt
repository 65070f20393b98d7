-- ===== src/Creation.antt =====
-- reana_server/workflow_creation.py: the controller is asked to create a workflow, and what it has
-- created is undone if its answer is lost.
pub mod Reconciling
mod Tests
use reana_server.Prelude.{
  ℕ, String, Bool, true, false, Option, none, some, leb, if◌then◌else◌, str_eq, List, [], ◌∷◌,
}

-- An exception of the call: an HTTPError with its status, or any other.
pub data CreationError : Type 0 where
  http_error : ℕ → CreationError
  other_error : CreationError

pub data Created (R : Type 0) : Type 0 where
  created : R → Created R
  failed : CreationError → Created R

-- What the module calls: the request to the controller, the query for the row after a rollback
-- (`none` is an exception), the caller's compensation (`false` is an exception), `os.path.abspath`.
pub record Site : Type 1 where
  pub State : Type 0
  pub Response : Type 0
  pub Workflow : Type 0
  pub create : State → Created Response × State
  pub find_created_workflow : State → Option (Option Workflow) × State
  pub workspace_path : Workflow → String
  pub abspath : String → String
  pub compensate : Workflow → State → Bool × State
  pub rollback : State → State

-- How a reconciliation ends: what it returns, or an exception.
pub data Verdict : Type 0 where
  compensated unresolved raised : Verdict

module _ (site : Site) where
  open site use {
    State, Response, Workflow, create, find_created_workflow, workspace_path, abspath, compensate,
    rollback,
  }

  abbrev of_compensation : Bool × State → Verdict × State
  of_compensation (true, s) = (compensated, s)
  of_compensation (false, s) = (raised, s)

  -- A look at the database; `again` follows where no row is seen.
  abbrev looked :
      String → (State → Verdict × State) → Option (Option Workflow) × State → Verdict × State
  looked path again (none, s) = (raised, s)
  looked path again (some none, s) = again s
  looked path again (some (some workflow), s) =
      if str_eq (abspath (workspace_path workflow)) (abspath path)
      then of_compensation (compensate workflow s)
      else (unresolved, s)

  -- `_reconcile_failed_creation`: one entry for each sleep that the deadline leaves, with what others
  -- do to the database meanwhile; none where the commit is not waited for.
  unfoldable pub reconcile_failed_creation : List (State → State) → String → State → Verdict × State
  reconcile_failed_creation [] path s = looked path (λ t. (unresolved, t)) (find_created_workflow s)
  reconcile_failed_creation (slept ∷ turns) path s =
      let again = reconcile_failed_creation turns path in
      looked path (λ t. again (slept t)) (find_created_workflow s)

  -- `except Exception: Session.rollback()` around it.
  abbrev settled : Verdict × State → State
  settled (raised, s) = rollback s
  settled (compensated, s) = s
  settled (unresolved, s) = s

  abbrev after_failure : List (State → State) → String → CreationError → State → State
  after_failure turns path (http_error status) s =
      let end = settled (reconcile_failed_creation [] path s) in if leb 500 status then end else s
  after_failure turns path other_error s = settled (reconcile_failed_creation turns path s)

  abbrev answered :
      List (State → State) → String → Created Response × State → Created Response × State
  answered turns path (created r, s) = (created r, s)
  answered turns path (failed e, s) = (failed e, after_failure turns path e s)

  -- `create_workflow_on_controller`
  unfoldable pub create_workflow_on_controller :
      List (State → State) → String → State → Created Response × State
  create_workflow_on_controller turns path s = answered turns path (create s)
