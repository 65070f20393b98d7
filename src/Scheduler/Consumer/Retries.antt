-- ===== src/Scheduler/Consumer/Retries.antt =====
-- One submission through the queue: how often it comes back, and how that ends.
use reana_server.Prelude.{
  ℕ, suc, ◌+◌, ◌-◌, ◌≤◌, ◌<◌, ◌≡◌, refl, sym, ap, ◌∙◌, ◌++◌, String, str_eq, eq_refl, one_if, ◌≢◌,
  inl, inr, none, some, List, [], ◌∷◌, arith, leb, leb→le, Bool-cases, Option-cases, length, All,
}
use reana_server.Scheduler.{Config, World, Submission}
use reana_server.Scheduler.Consumer.{
  Effect, set_workflow_status, publish_failed, gave_up, rejected_request, publish_submission, sleep,
  reject, ack, raise_key_error, resubmission, readiness_of, on_message, requeued, deliveries,
}
use reana_server.Scheduler.Consumer.Settling.{
  count_of, Blocks, retries, SamePayload, on_message-requeued,
}

-- The keys that `publish_workflow_submission` reads with no default are there.
pub record IsComplete (s : Submission) : Type 0 where
  pub user : s.user ≢ none
  pub parameters : s.parameters ≢ none
  pub priority : s.priority ≢ none
  pub job_memory : s.min_job_memory ≢ none

abbrev pub total : (Effect → ℕ) → List (List Effect) → ℕ
total weight [] = 0
total weight (calls ∷ rest) = count_of weight calls + total weight rest

-- The calls that report a workflow failed.
abbrev pub is_report : Effect → ℕ
is_report (set_workflow_status id user parameters) = 0
is_report (publish_failed id log) = 1
is_report (publish_submission s) = 0
is_report sleep = 0
is_report reject = 0
is_report ack = 0
is_report raise_key_error = 0

-- A call that reports this workflow as given up.
abbrev pub gives_up : String → Effect → ℕ
gives_up id (publish_failed workflow (gave_up named tries reason)) = one_if (str_eq workflow id)
gives_up id (publish_failed workflow (rejected_request message)) = 0
gives_up id (set_workflow_status workflow user parameters) = 0
gives_up id (publish_submission s) = 0
gives_up id sleep = 0
gives_up id reject = 0
gives_up id ack = 0
gives_up id raise_key_error = 0

-- No delivery but the last reports a failure, and that one does so once, as giving up.
abbrev pub ReportsAtEnd : String → List (List Effect) → Type 0
ReportsAtEnd id runs =
    (earlier : List (List Effect)) × (final : List Effect) × (runs ≡ earlier ++ (final ∷ []))
    × (total is_report earlier ≡ 0)
    × (count_of is_report final ≡ 1)
    × (count_of (gives_up id) final ≡ 1)

module _ (config : Config) where
  readiness_of-SamePayload :
      (world : World) (s t : Submission)
      → SamePayload s t
      → readiness_of config world t ≡ readiness_of config world s
  unfolding readiness_of
  readiness_of-SamePayload world s t h = rw (h.job_memory, h.backends, h.dask)

  Blocks-SamePayload :
      (s t : Submission) (worlds : List World)
      → SamePayload s t
      → All (Blocks config s) worlds
      → All (Blocks config t) worlds
  Blocks-SamePayload s t [] h b = tt
  Blocks-SamePayload s t (w ∷ ws) h b =
      (rw (readiness_of-SamePayload w s t h) b.0, Blocks-SamePayload s t ws h b.1)

  last_delivery :
      (world : World) (s : Submission)
      → Blocks config s world
      → config.requeue_count ≤ retries s
      → (requeued (on_message config world s) ≡ none)
        × (count_of is_report (on_message config world s) ≡ 1)
        × (count_of (gives_up s.workflow_id_or_name) (on_message config world s) ≡ 1)
  unfolding on_message requeued
  last_delivery world s b h = ground (arith, eq_refl s.workflow_id_or_name)

  other_delivery :
      (world : World) (s t : Submission)
      → Blocks config s world
      → retries s < config.requeue_count
      → resubmission s ≡ some t
      → (requeued (on_message config world s) ≡ some t)
        × (count_of is_report (on_message config world s) ≡ 0)
  unfolding on_message requeued
  other_delivery world s t b h e = ground arith

resubmission_total : (s : Submission) → IsComplete s → resubmission s ≢ none
unfolding resubmission
resubmission_total s c = ground arith

resubmission-IsComplete : (s t : Submission) → resubmission s ≡ some t → IsComplete t
unfolding resubmission
resubmission-IsComplete s t e = ground arith

module _ (config : Config) where
  -- A submission is delivered at most once more than the retries that its count leaves it.
  pub length-deliveries :
      (worlds : List World) (s : Submission)
      → length (deliveries config worlds s) ≤ suc (config.requeue_count - retries s)
  unfolding deliveries
  length-deliveries [] s = omega arith
  length-deliveries (w ∷ ws) s = elim (Option-cases (requeued (on_message config w s))) [
    | inl e ↦ rw e (omega arith)
    | inr (t, e) ↦
        let (payload, counted, room, blocked) = on_message-requeued config w s t e in
        rw e (omega (arith, length-deliveries ws t))
  ]

  -- If nothing lets the workflow start, a complete submission is delivered exactly as often as its
  -- retry count allows. No delivery but the last reports the workflow failed, and the last one reports
  -- it once, as given up.
  pub deliveries-give_up :
      (worlds : List World) (s : Submission)
      → IsComplete s
      → All (Blocks config s) worlds
      → config.requeue_count - retries s < length worlds
      → (length (deliveries config worlds s) ≡ suc (config.requeue_count - retries s))
        × ReportsAtEnd s.workflow_id_or_name (deliveries config worlds s)
  unfolding deliveries
  deliveries-give_up [] s c b h = absurd (omega arith)
  deliveries-give_up (w ∷ ws) s c b h = elim (Bool-cases (leb config.requeue_count (retries s))) [
    | inl spent ↦
        let full : config.requeue_count ≤ retries s = leb→le _ _ spent in
        let (nothing, reported, once) = last_delivery config w s b.0 full in
        rw nothing (omega arith, ([], on_message config w s, refl, refl, reported, once))
    | inr left ↦ elim (Option-cases (resubmission s)) [
      | inl e ↦ absurd (resubmission_total s c e)
      | inr (t, e) ↦
          let room : retries s < config.requeue_count = ground arith in
          let (next, silent) = other_delivery config w s t b.0 room e in
          let (payload, counted, _, _) = on_message-requeued config w s t next in
          let later =
            deliveries-give_up ws t (resubmission-IsComplete s t e)
              (Blocks-SamePayload config s t ws payload b.1) (omega arith) in
          let (earlier, final, split, quiet, reported, once) = later.1 in
          rw next (
            omega (arith, later.0),
            (
              on_message config w s ∷ earlier,
              final,
              ap (λ runs. on_message config w s ∷ runs) split,
              omega (arith, quiet, silent),
              reported,
              ap (λ id. count_of (gives_up id) final) (sym payload.workflow) ∙ once,
            ),
          )
    ]
  ]
