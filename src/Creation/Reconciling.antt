-- ===== src/Creation/Reconciling.antt =====
-- reana_server/workflow_creation.py: what a lost answer leaves behind.
use reana_server.Prelude.{
  ℕ, String, ◌≡◌, refl, ◌⊎◌, inl, inr, ◌≤◌, true, none, some, leb, leb→le, List, [], ◌∷◌, arith,
  eq_iff, Bool-cases,
}
use reana_server.Creation.{
  CreationError, http_error, other_error, Created, created, failed, Site, of_compensation,
  reconcile_failed_creation, create_workflow_on_controller,
}

module _ (site : Site) where
  open site use {
    State, Response, Workflow, create, find_created_workflow, workspace_path, abspath, compensate,
    rollback,
  }

  answer-cases :
      (a : Created Response)
      → ((r : Response) × (a ≡ created r))
        ⊎ ((a ≡ failed other_error) ⊎ ((status : ℕ) × (a ≡ failed (http_error status))))
  answer-cases (created r) = inl (r, refl)
  answer-cases (failed other_error) = inr (inl refl)
  answer-cases (failed (http_error status)) = inr (inr (status, refl))

  -- The caller sees the answer of the controller, error or not, whatever the reconciliation does; and
  -- where the answer is a success or a refusal of the request (an HTTP status below 500), nothing
  -- is looked up or undone.
  pub create_workflow_on_controller-answer :
      (turns : List (State → State)) (path : String) (s : State)
      → ((create_workflow_on_controller site turns path s).0 ≡ (create s).0)
        × (((create_workflow_on_controller site turns path s).1 ≡ (create s).1)
            ⊎ ((create s).0 ≡ failed other_error)
            ⊎ ((status : ℕ) × ((create s).0 ≡ failed (http_error status)) × (500 ≤ status)))
  unfolding create_workflow_on_controller
  create_workflow_on_controller-answer turns path s = elim (answer-cases (create s).0) [
    | inl (r, e) ↦ ground (arith, e)
    | inr (inl e) ↦ (ground (arith, e), inr (inl e))
    | inr (inr (status, e)) ↦ elim (Bool-cases (leb 500 status)) [
      | inl wrong ↦ (ground (arith, e), inr (inr (status, e, leb→le 500 status wrong)))
      | inr refused ↦ ground (arith, e, refused)
    ]
  ]

  -- The row of the workflow is visible at the first look, or after some of the sleeps, when the
  -- query answers and has seen nothing before.
  abbrev pub Appears : List (State → State) → Workflow → State → State → Type 0
  Appears [] workflow s t = find_created_workflow s ≡ (some (some workflow), t)
  Appears (slept ∷ turns) workflow s t =
      (find_created_workflow s ≡ (some (some workflow), t))
      ⊎ (((find_created_workflow s).0 ≡ some none)
          × Appears turns workflow (slept (find_created_workflow s).1) t)

  reconcile-Appears :
      (turns : List (State → State)) (path : String) (workflow : Workflow) (s t : State)
      → Appears turns workflow s t
      → abspath (workspace_path workflow) ≡ abspath path
      → reconcile_failed_creation site turns path s ≡ of_compensation site (compensate workflow t)
  unfolding reconcile_failed_creation
  reconcile-Appears [] path workflow s t h e =
      rw h (ground (arith, eq_iff (abspath (workspace_path workflow)) (abspath path), e))
  reconcile-Appears (slept ∷ turns) path workflow s t (inl now) e =
      rw now (ground (arith, eq_iff (abspath (workspace_path workflow)) (abspath path), e))
  reconcile-Appears (slept ∷ turns) path workflow s t (inr (nothing, later)) e =
      let again =
        reconcile-Appears turns path workflow (slept (find_created_workflow s).1) t later e in
      ground (arith, nothing, again)

  -- The sleeps that an error leaves: none after an HTTP error.
  abbrev pub sleeps : CreationError → List (State → State) → List (State → State)
  sleeps (http_error status) turns = []
  sleeps other_error turns = turns

  abbrev pub IsAmbiguous : CreationError → Type 0
  IsAmbiguous (http_error status) = 500 ≤ status
  IsAmbiguous other_error = Unit

  -- A workflow that the controller has created although its answer was an HTTP error from 500 on, or
  -- did not come, is undone: if its row appears, at once after an HTTP error and during the wait
  -- else, with the workspace that was asked for, then the compensation runs on it, and its
  -- success leaves the state that it made. The caller gets the error.
  pub create_workflow_on_controller-compensates :
      (turns : List (State → State)) (path : String) (s : State) (e : CreationError)
      (workflow : Workflow) (u t v : State)
      → create s ≡ (failed e, u)
      → IsAmbiguous e
      → Appears (sleeps e turns) workflow u t
      → abspath (workspace_path workflow) ≡ abspath path
      → compensate workflow t ≡ (true, v)
      → create_workflow_on_controller site turns path s ≡ (failed e, v)
  unfolding create_workflow_on_controller
  create_workflow_on_controller-compensates turns path s (http_error status) workflow u t v c a seen
        same undone =
      let r = reconcile-Appears [] path workflow u t seen same in
      rw c (rw r (rw undone (ground (arith, a))))
  create_workflow_on_controller-compensates turns path s other_error workflow u t v c a seen same
        undone =
      let r = reconcile-Appears turns path workflow u t seen same in rw c (rw r (rw undone refl))
