-- ===== src/Submission/Tests.antt =====
-- A restart with a replacement specification that fails at the end, one that succeeds, and a first start.
use reana_server.Prelude.{◌≡◌, refl, Bool, true, false, Option, none, some, [], ◌∷◌, one_if, ◌+◌}
use reana_server.Submission.{Status, created, queued, finished, Raised, any_other, Work}
use reana_server.Submission.Publishing.{Publication, publish_workflow_submission}
use reana_server.Submission.Submitting.{
  Replacement, Request, attempt, refused, is_submitted, submit_workflow_locked,
}
use reana_server.Submission.Undone.{IsUndone, submit_workflow_locked-IsUndone}
use reana_server.Submission.Once.{submit_workflow_locked-once}

abbrev publication : Option Raised → Publication
publication publisher = record {
  scheduling_policy = "balanced";
  scheduling_policies = "fifo" ∷ "balanced" ∷ [];
  supported_backends = "kubernetes" ∷ [];
  compute_backends = "kubernetes" ∷ [];
  commit = none;
  estimate = none;
  memory_limits = none;
  publisher = publisher;
}

abbrev replacement : Replacement
replacement = record {
  content = 8;
  stage = none;
  load = none;
  is_filled = true;
  constraints = none;
  load_and_validate = none;
  promote = none;
}

abbrev request : Bool → Option Raised → Request
request restart publisher = record {
  restart = restart;
  replacement = some replacement;
  operational_options = none;
  has_pending_rules = false;
  rule_states = none;
  clone_workflow = none;
  cloned_rules = 3;
  validate = none;
  input_parameters = none;
  commit = none;
  dask_service = none;
  recalculate = none;
  publication = publication publisher;
  rolls_back = true;
  compensates = true;
}

abbrev work : Status → Work
work status = record {
  specification = some 7;
  status = status;
  clone = none;
  rules = 2;
  published = 5;
  staged = false;
  promotion = none;
  saved_rules = none;
}

restart_fails :
    (submit_workflow_locked (request true (some any_other)) (work finished)).0 ≡ refused 500
unfolding submit_workflow_locked attempt publish_workflow_submission
restart_fails = refl

restart_succeeds :
    (submit_workflow_locked (request true none) (work finished)).1.specification ≡ some 8
unfolding submit_workflow_locked attempt publish_workflow_submission
restart_succeeds = refl

start_fails :
    (submit_workflow_locked (request false (some any_other)) (work created)).1.status ≡ queued
unfolding submit_workflow_locked attempt publish_workflow_submission
start_fails = refl

submit_workflow_locked-IsUndone_example :
    IsUndone
      (work finished)
      (submit_workflow_locked (request true (some any_other)) (work finished)).1
unfolding submit_workflow_locked attempt publish_workflow_submission
submit_workflow_locked-IsUndone_example =
    submit_workflow_locked-IsUndone (request true (some any_other)) (work finished) refl refl refl
      refl refl refl

submit_workflow_locked-once_example :
    (submit_workflow_locked (request true none) (work finished)).1.published
    ≡ one_if (is_submitted (submit_workflow_locked (request true none) (work finished)).0) + 5
submit_workflow_locked-once_example =
    submit_workflow_locked-once (request true none) (work finished)
