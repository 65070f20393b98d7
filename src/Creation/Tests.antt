-- ===== src/Creation/Tests.antt =====
-- reana_server/workflow_creation.py where the controller commits late.
use reana_server.Prelude.{
  ℕ, String, ◌≡◌, refl, inr, Bool, true, false, Option, none, some, List, [], ◌∷◌,
}
use reana_server.Creation.{
  CreationError, http_error, other_error, Created, failed, Site, reconcile_failed_creation,
  create_workflow_on_controller,
}
use reana_server.Creation.Reconciling.{create_workflow_on_controller-compensates}

-- The state says whether the row is there.
abbrev row : Bool → Option (Option String)
row true = some (some "/w")
row false = some none

abbrev site : CreationError → Site
site e = record {
  State = Bool;
  Response = ℕ;
  Workflow = String;
  create = λ s. (failed e, s);
  find_created_workflow = λ s. (row s, s);
  workspace_path = λ w. w;
  abspath = λ p. p;
  compensate = λ w s. (true, false);
  rollback = λ s. s;
}

abbrev late : List (Bool → Bool)
late = (λ s. s) ∷ (λ s. true) ∷ []

creation_tests :
    (reconcile_failed_creation (site other_error) late "/w" false
      ≡ reconcile_failed_creation (site other_error) [] "/w" true)
    × ((create_workflow_on_controller (site (http_error 502)) late "/other" true).1 ≡ true)
unfolding reconcile_failed_creation create_workflow_on_controller
creation_tests = (refl, refl)

abbrev lost : CreationError → Created ℕ
lost e = failed e

create_workflow_on_controller-compensates_example :
    create_workflow_on_controller (site other_error) late "/w" false ≡ (failed other_error, false)
create_workflow_on_controller-compensates_example =
    create_workflow_on_controller-compensates (site other_error) late "/w" false other_error "/w"
      false true false refl tt (inr (refl, inr (refl, refl))) refl refl
