-- ===== src/Scheduler/Consumer.antt =====
-- reana_server/scheduler.py: `WorkflowExecutionScheduler`, and the queue that brings a retried
-- submission back to it. `sleep` takes no argument here: the pause has one length.
pub mod Settling
pub mod Retries
use reana_server.Prelude.{
  ℕ, suc, ◌+◌, String, Bool, true, false, Option, none, some, List, [], ◌∷◌, ◌++◌, leb, not, ◌&&◌,
  if◌then◌else◌, or_default, Dict,
}
use reana_server.Scheduler.{
  Reason, bad_gateway, call_failed, Config, Answer, started, http_bad_gateway, http_not_found,
  http_conflict, other_error, http_bad_request, World, Submission, reana_ready,
}

-- The log that a failed workflow is given.
pub data FailureLog : Type 0 where
  gave_up : (workflow : String) (retries : ℕ) → Option Reason → FailureLog
  rejected_request : String → FailureLog

-- The calls of a handler. `set_workflow_status` shows the keys that are left after the `pop`s.
pub data Effect : Type 0 where
  set_workflow_status : String → Option String → Option (Dict String) → Effect
  publish_failed : String → FailureLog → Effect
  publish_submission : Submission → Effect
  sleep reject ack raise_key_error : Effect

infixl 5 ◌>>=◌
abbrev ◌>>=◌ {ℓ κ} : {A : Type ℓ} {B : Type κ} → Option A → (A → Option B) → Option B
none >>= k = none
some a >>= k = k a

-- The keyword arguments of `publish_workflow_submission`; `none` is a KeyError. What the broker
-- then delivers has every key.
unfoldable pub resubmission : Submission → Option Submission
resubmission s = do
  user ← s.user
  parameters ← s.parameters
  priority ← s.priority
  min_job_memory ← s.min_job_memory
  some (record {
    workflow_id_or_name = s.workflow_id_or_name;
    user = some user;
    parameters = some parameters;
    priority = some priority;
    min_job_memory = some min_job_memory;
    compute_backends = s.compute_backends;
    uses_dask = some (or_default s.uses_dask false);
    retry_count = some (or_default s.retry_count 0 + 1);
  })

abbrev publish : Option Submission → List Effect
publish none = raise_key_error ∷ []
publish (some s) = publish_submission s ∷ []

unfoldable pub retry_submission : Config → Submission → Option Reason → List Effect
unfolding resubmission
retry_submission config s reason =
    if leb config.requeue_count (or_default s.retry_count 0)
    then publish_failed s.workflow_id_or_name
        (gave_up s.workflow_id_or_name (or_default s.retry_count 0) reason)
      ∷ []
    else publish (resubmission s)

-- What the `try` block leaves for its `finally`: the flags, the error, and the calls made.
pub record Attempt : Type 0 where
  pub has_started : Bool
  pub may_retry : Bool
  pub error : Option Reason
  pub calls : List Effect

unfoldable pub attempt : String → Answer → Attempt
attempt id started = record { has_started = true; may_retry = true; error = none; calls = [] }
attempt id http_bad_gateway = record {
  has_started = false;
  may_retry = true;
  error = some bad_gateway;
  calls = [];
}
attempt id http_not_found = record {
  has_started = false;
  may_retry = false;
  error = none;
  calls = [];
}
attempt id http_conflict = record {
  has_started = false;
  may_retry = false;
  error = none;
  calls = [];
}
attempt id (http_bad_request message) = record {
  has_started = false;
  may_retry = false;
  error = none;
  calls = publish_failed id (rejected_request message) ∷ [];
}
attempt id other_error = record {
  has_started = false;
  may_retry = true;
  error = some call_failed;
  calls = [];
}

-- The `finally` block.
unfoldable pub finish : Config → Submission → Attempt → List Effect
unfolding retry_submission
finish config s a =
    sleep
    ∷ (if not a.has_started && a.may_retry
        then reject ∷ retry_submission config s a.error
        else ack ∷ [])

-- The answer to a body that `reana_ready` has looked at.
unfoldable pub submit : Config → World → Submission → Option Reason → List Effect
unfolding attempt finish
submit config world s none =
    let a = attempt s.workflow_id_or_name world.answer in
    set_workflow_status s.workflow_id_or_name s.user s.parameters ∷ (a.calls ++ finish config s a)
submit config world s (some error) = sleep ∷ reject ∷ retry_submission config s (some error)

-- `reana_ready` as `on_message` calls it, with the defaults of its `pop`s.
unfoldable pub readiness_of : Config → World → Submission → Option Reason
readiness_of config world s =
    reana_ready config world (or_default s.min_job_memory (some 0)) s.compute_backends
      (or_default s.uses_dask false)

unfoldable pub on_message : Config → World → Submission → List Effect
unfolding submit readiness_of
on_message config world s = submit config world s (readiness_of config world s)

-- The submission that a handler puts back on the queue.
unfoldable pub requeued : List Effect → Option Submission
requeued [] = none
requeued (publish_submission s ∷ rest) = some s
requeued (_ ∷ rest) = requeued rest

-- One submission through the queue: each delivery meets the next of the worlds.
unfoldable pub deliveries : Config → List World → Submission → List (List Effect)
unfolding requeued
deliveries config [] s = []
deliveries config (world ∷ worlds) s =
    let calls = on_message config world s in
    calls ∷ (elim (requeued calls) [ none ↦ [] | some next ↦ deliveries config worlds next ])
