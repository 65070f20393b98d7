-- ===== src/Submission/Submitting.antt =====
-- reana_server/rest/workflows.py: `_submit_workflow_locked`.
use reana_server.Prelude.{ℕ, Bool, true, false, not, Option, none, some, if◌then◌else◌}
use reana_server.Submission.{
  Status, created, queued, finished, failed, deleted, other_status, Raised, http_error,
  validation_error, value_error, any_other, Work, Step, Stop, raising, answering, completing, ◌>>◌,
  call, answer_if, raise_if,
}
use reana_server.Submission.Publishing.{Publication, publish_workflow_submission}

-- The replacement specification of a restart, and how the calls that read it end.
pub record Replacement : Type 0 where
  pub content : ℕ
  pub stage : Option Raised
  pub load : Option Raised
  -- whether the mapping is not empty
  pub is_filled : Bool
  -- `_enforce_restart_spec_constraints`
  pub constraints : Option Raised
  pub load_and_validate : Option Raised
  -- `_promote_restart_specification`, which removes its files when it raises
  pub promote : Option Raised

-- How the other calls end.
pub record Request : Type 0 where
  pub restart : Bool
  pub replacement : Option Replacement
  pub operational_options : Option Raised
  pub has_pending_rules : Bool
  pub rule_states : Option Raised
  -- `clone_workflow`, which rolls back when it raises, and the retention rules after it
  pub clone_workflow : Option Raised
  pub cloned_rules : ℕ
  -- the validation of the specification that is to run
  pub validate : Option Raised
  pub input_parameters : Option Raised
  pub commit : Option Raised
  pub dask_service : Option Raised
  pub recalculate : Option Raised
  pub publication : Publication
  -- whether the rollback of the promotion and the compensation in the database succeed
  pub rolls_back : Bool
  pub compensates : Bool

abbrev pub is_over : Status → Bool
is_over created = false
is_over queued = false
is_over finished = true
is_over failed = true
is_over deleted = false
is_over other_status = false

abbrev pub is_created : Status → Bool
is_created created = true
is_created queued = false
is_created finished = false
is_created failed = false
is_created deleted = false
is_created other_status = false

-- `retention_rule_states = ...`
abbrev pub save_rules : Option Raised → Step
save_rules (some e) w = call (some e) w
save_rules none w = (
  none,
  record {
    specification = w.specification;
    status = w.status;
    clone = w.clone;
    rules = w.rules;
    published = w.published;
    staged = w.staged;
    promotion = w.promotion;
    saved_rules = some w.rules;
  },
)

abbrev pub set_staged : Bool → Work → Work
set_staged b w = record {
  specification = w.specification;
  status = w.status;
  clone = w.clone;
  rules = w.rules;
  published = w.published;
  staged = b;
  promotion = w.promotion;
  saved_rules = w.saved_rules;
}

abbrev pub stage_snapshot : Option Raised → Step
stage_snapshot (some e) w = call (some e) w
stage_snapshot none w = (none, set_staged true w)

-- The new row is live, and its rules stand in place of those of the old one.
abbrev pub clone_row : Option Raised → ℕ → Step
clone_row (some e) rules w = call (some e) w
clone_row none rules w = (
  none,
  record {
    specification = w.specification;
    status = w.status;
    clone = some created;
    rules = rules;
    published = w.published;
    staged = w.staged;
    promotion = w.promotion;
    saved_rules = w.saved_rules;
  },
)

abbrev pub prepare_replacement : Request → Option Replacement → Step
prepare_replacement q none =
    save_rules q.rule_states >> clone_row q.clone_workflow q.cloned_rules >> call q.validate
prepare_replacement q (some r) =
    save_rules q.rule_states
    >> stage_snapshot r.stage
    >> call r.load
    >> raise_if (not r.is_filled) validation_error
    >> call r.constraints
    >> call r.load_and_validate
    >> clone_row q.clone_workflow q.cloned_rules

-- The branches up to the validation of the specification, that included.
abbrev pub prepare : Request → Step
prepare q w =
    let again =
      (answer_if (not (is_over w.status)) 409
          >> answer_if q.has_pending_rules 409
          >> prepare_replacement q q.replacement)
        w in
    let first = (answer_if (not (is_created w.status)) 409 >> call q.validate) w in
    if q.restart then again else first

abbrev pub install : Option Raised → ℕ → Step
install (some e) content w = call (some e) w
install none content w = (
  none,
  record {
    specification = some content;
    status = w.status;
    clone = w.clone;
    rules = w.rules;
    published = w.published;
    staged = w.staged;
    promotion = some w.specification;
    saved_rules = w.saved_rules;
  },
)

-- `if staged_restart_directory: ...`
abbrev pub when_staged : Bool → Step → Step
when_staged true k w = k w
when_staged false k w = (none, w)

abbrev pub promote_if_staged : Option Replacement → Step
promote_if_staged none w = (none, w)
promote_if_staged (some r) w = when_staged w.staged (install r.promote r.content) w

-- `if cloned_restart_workflow: ...`
abbrev pub when_cloned : Option Status → Option Raised → Step
when_cloned none e w = (none, w)
when_cloned (some s) e w = call e w

abbrev pub recalculate_if_cloned : Option Raised → Step
recalculate_if_cloned e w = when_cloned w.clone e w

-- The end of the `try` block: the backup is discarded, and the answer is 200.
abbrev pub complete : Step
complete w = (
  some completing,
  record {
    specification = w.specification;
    status = w.status;
    clone = w.clone;
    rules = w.rules;
    published = w.published;
    staged = w.staged;
    promotion = none;
    saved_rules = w.saved_rules;
  },
)

-- The `try` block up to the submission, and the whole of it.
abbrev pub before_sending : Request → Step
before_sending q =
    call q.operational_options
    >> prepare q
    >> call q.input_parameters
    >> call q.commit
    >> call q.dask_service
    >> promote_if_staged q.replacement
    >> recalculate_if_cloned q.recalculate

unfoldable pub attempt : Request → Step
attempt q = before_sending q >> publish_workflow_submission q.publication >> complete

-- The handlers.
abbrev pub code_of : Raised → ℕ
code_of (http_error code) = code
code_of validation_error = 400
code_of value_error = 400
code_of any_other = 500

-- The answer: "Workflow submitted." with 200, or a message with another status.
pub data Answer : Type 0 where
  submitted : Answer
  refused : ℕ → Answer

abbrev pub answer_of : Option Stop → Answer
answer_of none = submitted
answer_of (some completing) = submitted
answer_of (some (raising e)) = refused (code_of e)
answer_of (some (answering code)) = refused code

abbrev pub is_submitted : Answer → Bool
is_submitted submitted = true
is_submitted (refused code) = false

abbrev pub with_specification : Option ℕ → Work → Work
with_specification content w = record {
  specification = content;
  status = w.status;
  clone = w.clone;
  rules = w.rules;
  published = w.published;
  staged = w.staged;
  promotion = w.promotion;
  saved_rules = w.saved_rules;
}

-- `_rollback_restart_specification`
abbrev pub roll_back : Option (Option ℕ) → Bool → Work → Work
roll_back none succeeds w = w
roll_back (some backup) true w = with_specification backup w
roll_back (some backup) false w = w

abbrev pub or_same : Option ℕ → ℕ → ℕ
or_same none rules = rules
or_same (some saved) rules = saved

-- `_compensate_failed_restart`
abbrev pub compensate : Bool → Work → Work
compensate false w = w
compensate true w = record {
  specification = w.specification;
  status = w.status;
  clone = some deleted;
  rules = or_same w.saved_rules w.rules;
  published = w.published;
  staged = w.staged;
  promotion = w.promotion;
  saved_rules = w.saved_rules;
}

-- `if cloned_restart_workflow and not restart_completed: ...`
abbrev pub compensate_if_failed : Option Status → Bool → Bool → Work → Work
compensate_if_failed none completed succeeds w = w
compensate_if_failed (some clone) true succeeds w = w
compensate_if_failed (some clone) false succeeds w = compensate succeeds w

-- The `finally` block.
abbrev pub clean_up : Request → Option Stop × Work → Answer × Work
clean_up q (stop, w) =
    let answer = answer_of stop in
    (
      answer,
      set_staged false (
          compensate_if_failed w.clone (is_submitted answer) q.compensates
            (roll_back w.promotion q.rolls_back w)),
    )

-- `_submit_workflow_locked`: the answer, and what is there afterwards.
unfoldable pub submit_workflow_locked : Request → Work → Answer × Work
submit_workflow_locked q w = clean_up q (attempt q w)
