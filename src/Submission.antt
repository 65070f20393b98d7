-- ===== src/Submission.antt =====
-- reana_server/rest/workflows.py and reana_server/utils.py: what a submission of a workflow works on,
-- and steps that change it and may stop.
pub mod Publishing
pub mod Submitting
pub mod Sending
pub mod Restarts
pub mod Undone
pub mod Silent
pub mod Once
mod Tests
use reana_server.Prelude.{ℕ, ◌≡◌, Bool, true, false, Option, none, some}

-- `RunStatus`, as far as a submission tells the states apart.
pub data Status : Type 0 where
  created : Status
  queued : Status
  finished : Status
  failed : Status
  deleted : Status
  other_status : Status

-- The exceptions that the handlers of `_submit_workflow_locked` tell apart.
pub data Raised : Type 0 where
  -- an HTTPError with the status of the controller's answer
  http_error : ℕ → Raised
  validation_error : Raised
  value_error : Raised
  any_other : Raised

-- What is stored, and the local variables of `_submit_workflow_locked` that its `finally` reads.
pub record Work : Type 0 where
  -- the content of reana.yaml in the workspace
  pub specification : Option ℕ
  -- the status of the workflow that the request names
  pub status : Status
  -- the status of the row that is cloned for a restart
  pub clone : Option Status
  -- the states of the retention rules of all runs that share the workspace
  pub rules : ℕ
  -- the messages on the queue
  pub published : ℕ
  -- `staged_restart_directory`, which is also a directory
  pub staged : Bool
  -- `restart_promotion`, with the content that its backup holds
  pub promotion : Option (Option ℕ)
  -- `retention_rule_states`
  pub saved_rules : Option ℕ

-- How a step stops the work: an exception, an early answer, or the end of the `try` block, where
-- `restart_completed` is set.
pub data Stop : Type 0 where
  raising : Raised → Stop
  answering : ℕ → Stop
  completing : Stop

-- A step goes on with `none`.
abbrev pub Step : Type 0
Step = Work → Option Stop × Work

abbrev pub after : Step → Option Stop × Work → Option Stop × Work
after k (none, w) = k w
after k (some stop, w) = (some stop, w)

infixl 10 ◌>>◌
abbrev pub ◌>>◌ : Step → Step → Step
◌>>◌ m k w = after k (m w)

-- A call that may raise, and has no effect on what is modelled.
abbrev pub call : Option Raised → Step
call none w = (none, w)
call (some e) w = (some (raising e), w)

abbrev pub answer_if : Bool → ℕ → Step
answer_if true code w = (some (answering code), w)
answer_if false code w = (none, w)

abbrev pub raise_if : Bool → Raised → Step
raise_if true e w = (some (raising e), w)
raise_if false e w = (none, w)
