-- ===== src/Scheduler/Consumer/Settling.antt =====
-- What one delivery does: how the message is settled, and what is published for it.
use reana_server.Prelude.{
  ℕ, ◌+◌, ◌≤◌, ◌<◌, ◌≡◌, ◌≢◌, ◌↔◌, ◌⊎◌, false, none, some, List, [], ◌∷◌, arith, or_default,
}
use reana_server.Scheduler.{Config, Answer, http_bad_gateway, other_error, World, Submission}
use reana_server.Scheduler.Consumer.{
  Effect, gave_up, set_workflow_status, publish_failed, publish_submission, reject, ack,
  raise_key_error, resubmission, readiness_of, on_message, requeued,
}

abbrev pub count_of : (Effect → ℕ) → List Effect → ℕ
count_of weight [] = 0
count_of weight (e ∷ es) = weight e + count_of weight es

abbrev pub is_ack : Effect → ℕ
is_ack ack = 1
is_ack _ = 0

abbrev pub is_reject : Effect → ℕ
is_reject reject = 1
is_reject _ = 0

abbrev pub is_start : Effect → ℕ
is_start (set_workflow_status _ _ _) = 1
is_start _ = 0

abbrev pub is_submission : Effect → ℕ
is_submission (publish_submission _) = 1
is_submission _ = 0

abbrev pub is_give_up : Effect → ℕ
is_give_up (publish_failed _ (gave_up _ _ _)) = 1
is_give_up _ = 0

abbrev pub is_key_error : Effect → ℕ
is_key_error raise_key_error = 1
is_key_error _ = 0

-- The controller failed in a way that may pass.
abbrev pub IsTransient : Answer → Type 0
IsTransient http_bad_gateway = Unit
IsTransient other_error = Unit
IsTransient _ = ⊥

-- The workflow cannot start now, and another attempt may help.
abbrev pub Blocks : Config → Submission → World → Type 0
Blocks config s world = (readiness_of config world s ≢ none) ⊎ IsTransient world.answer

abbrev pub retries : Submission → ℕ
retries s = or_default s.retry_count 0

-- All but the retry count is as it was; a missing Dask flag has become its default.
pub record SamePayload (s t : Submission) : Type 0 where
  pub workflow : t.workflow_id_or_name ≡ s.workflow_id_or_name
  pub user : t.user ≡ s.user
  pub parameters : t.parameters ≡ s.parameters
  pub priority : t.priority ≡ s.priority
  pub job_memory : t.min_job_memory ≡ s.min_job_memory
  pub backends : t.compute_backends ≡ s.compute_backends
  pub dask : t.uses_dask ≡ some (or_default s.uses_dask false)

resubmission_lem :
    (s t : Submission) → resubmission s ≡ some t → SamePayload s t × (retries t ≡ retries s + 1)
unfolding resubmission
resubmission_lem s t h = ground arith

module _ (config : Config) (world : World) (s : Submission) where
  -- Every delivery is acknowledged or rejected, once, and never both.
  pub on_message_settles :
      count_of is_ack (on_message config world s) + count_of is_reject (on_message config world s)
      ≡ 1
  unfolding on_message
  on_message_settles = ground arith

  -- The controller is asked to start the workflow at most once, and exactly if `reana_ready`
  -- reports no error.
  pub on_message-start_iff :
      (count_of is_start (on_message config world s) ≤ 1)
      × ((count_of is_start (on_message config world s) ≡ 1) ↔ (readiness_of config world s ≡ none))
  unfolding on_message
  on_message-start_iff = ground arith

  -- A delivery is rejected exactly if REANA is not ready or the controller failed in a way that
  -- may pass; all else, a refused request included, is acknowledged.
  pub on_message-reject_iff :
      (count_of is_reject (on_message config world s) ≡ 1) ↔ Blocks config s world
  unfolding on_message
  on_message-reject_iff = ground arith

  -- A rejected delivery is put back on the queue, or given up, or stops with a KeyError: one of
  -- the three, once. An acknowledged one is none of them.
  pub on_message_conserves :
      count_of is_submission (on_message config world s)
        + count_of is_give_up (on_message config world s)
        + count_of is_key_error (on_message config world s)
      ≡ count_of is_reject (on_message config world s)
  unfolding on_message
  on_message_conserves = ground arith

  -- What goes back on the queue is the same submission, its retry count one higher, and only while
  -- the count is below REANA_SCHEDULER_REQUEUE_COUNT.
  pub on_message-requeued :
      (t : Submission)
      → requeued (on_message config world s) ≡ some t
      → SamePayload s t
        × (retries t ≡ retries s + 1)
        × (retries s < config.requeue_count)
        × Blocks config s world
  unfolding on_message requeued
  on_message-requeued t h = ground (arith, resubmission_lem s t)
