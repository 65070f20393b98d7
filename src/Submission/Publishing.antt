-- ===== src/Submission/Publishing.antt =====
-- reana_server/utils.py: `publish_workflow_submission`.
use reana_server.Prelude.{
  suc, String, Bool, false, ◌||◌, not, Option, none, some, if◌then◌else◌, str_eq, contains, List,
  [], ◌∷◌,
}
use reana_server.Submission.{
  Status, queued, Raised, validation_error, value_error, Work, Step, ◌>>◌, call, raise_if,
}

-- What is read of the configuration and of the workflow, and how the calls end.
pub record Publication : Type 0 where
  pub scheduling_policy : String
  pub scheduling_policies : List String
  pub supported_backends : List String
  pub compute_backends : List String
  -- the commit of the status
  pub commit : Option Raised
  -- the memory of the cluster, the estimate and the priority
  pub estimate : Option Raised
  -- `validate_job_memory_limits`
  pub memory_limits : Option Raised
  pub publisher : Option Raised

abbrev pub any_disabled : List String → List String → Bool
any_disabled supported [] = false
any_disabled supported (b ∷ bs) = not (contains supported b) || any_disabled supported bs

-- Without a list of supported backends, all are enabled.
abbrev pub is_disabled : List String → List String → Bool
is_disabled [] used = false
is_disabled (b ∷ bs) used = any_disabled (b ∷ bs) used

-- The workflow that is submitted is the clone, for a restart.
abbrev pub named_status : Option Status → Status → Status
named_status none status = queued
named_status (some clone) status = status

abbrev pub clone_status : Option Status → Option Status
clone_status none = none
clone_status (some clone) = some queued

abbrev pub queue_target : Work → Work
queue_target w = record {
  specification = w.specification;
  status = named_status w.clone w.status;
  clone = clone_status w.clone;
  rules = w.rules;
  published = w.published;
  staged = w.staged;
  promotion = w.promotion;
  saved_rules = w.saved_rules;
}

abbrev pub set_queued : Option Raised → Step
set_queued none w = (none, queue_target w)
set_queued (some e) w = call (some e) w

abbrev pub add_message : Work → Work
add_message w = record {
  specification = w.specification;
  status = w.status;
  clone = w.clone;
  rules = w.rules;
  published = suc w.published;
  staged = w.staged;
  promotion = w.promotion;
  saved_rules = w.saved_rules;
}

abbrev pub send : Option Raised → Step
send none w = (none, add_message w)
send (some e) w = call (some e) w

-- With "fifo" nothing is estimated.
abbrev pub estimates : Publication → Step
estimates p w =
    let estimated = (call p.estimate >> call p.memory_limits) w in
    if str_eq p.scheduling_policy "fifo" then (none, w) else estimated

abbrev pub queueing : Publication → Step
queueing p =
    raise_if (not (contains p.scheduling_policies p.scheduling_policy)) value_error
    >> raise_if (is_disabled p.supported_backends p.compute_backends) validation_error
    >> set_queued p.commit
    >> estimates p

unfoldable pub publish_workflow_submission : Publication → Step
publish_workflow_submission p = queueing p >> send p.publisher
