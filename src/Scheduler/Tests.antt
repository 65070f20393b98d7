-- ===== src/Scheduler/Tests.antt =====
-- Runs of the scheduler at concrete messages, and the theorems at those runs.
use reana_server.Prelude.{◌≡◌, refl, ◌↔◌, true, none, some, [], ◌∷◌, arith, inr, length, lookup}
use reana_server.Scheduler.{
  Config, World, Submission, memory_short, cap_reached, all_checks, started, http_bad_gateway,
  reana_ready, check_concurrent_workflows_limit, first_exceeded, check_memory_availability,
}
use reana_server.Scheduler.Admission.{IsReady, reana_ready-eq-none_iff}
use reana_server.Scheduler.Consumer.{
  on_message, requeued, deliveries, set_workflow_status, publish_submission, publish_failed,
  gave_up, sleep, ack, reject,
}
use reana_server.Scheduler.Consumer.Settling.{Blocks}
use reana_server.Scheduler.Consumer.Retries.{IsComplete, ReportsAtEnd, deliveries-give_up}

abbrev config : Config
config = record { requeue_count = 2; readiness = all_checks; cap = λ r. 3 }

abbrev idle : World
idle = record {
  nodes = 4 ∷ 8 ∷ [];
  running_counts = some (("kubernetes", 2) ∷ []);
  answer = started;
}

abbrev busy : World
busy = record {
  nodes = 8 ∷ [];
  running_counts = some (("dask", 5) ∷ ("kubernetes", 2) ∷ []);
  answer = started;
}

abbrev broken : World
broken = record idle { answer = http_bad_gateway }

abbrev submission : Submission
submission = record {
  workflow_id_or_name = "w";
  user = some "u";
  parameters = some [];
  priority = some 1;
  min_job_memory = some (some 6);
  compute_backends = none;
  uses_dask = some true;
  retry_count = none;
}

abbrev retried : Submission
retried = record submission { retry_count = some 1 }

scheduler : Unit {0}
unfolding on_message requeued reana_ready check_concurrent_workflows_limit first_exceeded lookup
    check_memory_availability
scheduler = tt

readiness_tests :
    (reana_ready config idle (some 6) none true ≡ none)
    × (reana_ready config idle (some 9) none true ≡ some (memory_short 9 8))
    × (reana_ready config busy (some 6) none true ≡ some (cap_reached 5 "dask" 3))
unfolding scheduler
readiness_tests = (refl, refl, refl)

on_message_tests :
    (on_message config idle submission
      ≡ set_workflow_status "w" (some "u") (some []) ∷ sleep ∷ ack ∷ [])
    × (on_message config broken submission
        ≡ set_workflow_status "w" (some "u") (some [])
          ∷ sleep
          ∷ reject
          ∷ publish_submission retried
          ∷ [])
    × (on_message config busy (record submission { retry_count = some 2 })
        ≡ sleep ∷ reject ∷ publish_failed "w" (gave_up "w" 2 (some (cap_reached 5 "dask" 3))) ∷ [])
unfolding scheduler
on_message_tests = (refl, refl, refl)

reana_ready-eq-none_iff_example :
    (reana_ready config idle (some 6) none true ≡ none)
    ↔ IsReady all_checks config idle (some 6) none true
reana_ready-eq-none_iff_example = reana_ready-eq-none_iff config idle (some 6) none true

submission-IsComplete : IsComplete submission
submission-IsComplete = ground arith

broken-Blocks : Blocks config submission broken
broken-Blocks = inr tt

deliveries-give_up_example :
    (length (deliveries config (broken ∷ broken ∷ broken ∷ []) submission) ≡ 3)
    × ReportsAtEnd "w" (deliveries config (broken ∷ broken ∷ broken ∷ []) submission)
deliveries-give_up_example =
    deliveries-give_up config (broken ∷ broken ∷ broken ∷ []) submission submission-IsComplete
      (broken-Blocks, (broken-Blocks, (broken-Blocks, tt))) (omega arith)
