-- ===== src/Submission/Undone.antt =====
-- reana_server/rest/workflows.py: a restart that fails leaves everything as it was.
use reana_server.Prelude.{
  ℕ, ◌≡◌, refl, sym, subst, ap, ◌∙◌, Bool, true, false, Option, none, some, is_some, arith, inl,
  ◌⊎◌,
}
use reana_server.Submission.{
  Status, created, queued, finished, failed, other_status, deleted, Raised, value_error,
  validation_error, Work, Stop, after, ◌>>◌,
}
use reana_server.Submission.Publishing.{Publication, send, queueing}
use reana_server.Submission.Submitting.{
  Request, complete, before_sending, attempt, answer_of, is_submitted, roll_back, or_same,
  set_staged, compensate_if_failed, clean_up, submit_workflow_locked,
}
use reana_server.Submission.Sending.{attempt-split}
use reana_server.Submission.Restarts.{
  Next, IsKept, Kept, Uncloned, Cloned, Live, then-Next, call-Next, raise_if-Next, again-Next,
  promote_if_staged-Next, when_cloned-Next, set_queued-Next, estimates-Next, when_live,
}

module _ (w0 : Work) where
  queueing-Next : (p : Publication) → Next (Kept w0) (Live w0) (Live w0) (queueing p)
  queueing-Next p =
      then-Next (Kept w0) (Live w0) (Live w0) (Live w0) _ _
        (then-Next (Kept w0) (Live w0) (Live w0) (Live w0) _ _
          (then-Next (Kept w0) (Live w0) (Live w0) (Live w0) _ _
            (raise_if-Next (Kept w0) (Live w0) _ value_error)
            (raise_if-Next (Kept w0) (Live w0) _ validation_error))
          (set_queued-Next w0 p.commit))
        (estimates-Next w0 p)

  before_sending-Next :
      (q : Request) → q.restart ≡ true → Next (Kept w0) (Uncloned w0) (Live w0) (before_sending q)
  before_sending-Next q restarts =
      then-Next (Kept w0) (Uncloned w0) (Live w0) (Live w0) _ _
        (then-Next (Kept w0) (Uncloned w0) (Cloned w0) (Live w0) _ _
          (then-Next (Kept w0) (Uncloned w0) (Cloned w0) (Cloned w0) _ _
            (then-Next (Kept w0) (Uncloned w0) (Cloned w0) (Cloned w0) _ _
              (then-Next (Kept w0) (Uncloned w0) (Cloned w0) (Cloned w0) _ _
                (then-Next (Kept w0) (Uncloned w0) (Uncloned w0) (Cloned w0) _ _
                  (call-Next (Kept w0) (Uncloned w0) q.operational_options)
                  (λ w p c. again-Next w0 q w p c restarts))
                (call-Next (Kept w0) (Cloned w0) q.input_parameters))
              (call-Next (Kept w0) (Cloned w0) q.commit))
            (call-Next (Kept w0) (Cloned w0) q.dask_service))
          (promote_if_staged-Next w0 q.replacement))
        (λ w. when_cloned-Next w0 w.clone q.recalculate w)

  before_message-Next :
      (q : Request)
      → q.restart ≡ true
      → Next (Kept w0) (Uncloned w0) (Live w0) (before_sending q >> queueing q.publication)
  before_message-Next q restarts =
      then-Next (Kept w0) (Uncloned w0) (Live w0) (Live w0) _ _ (before_sending-Next q restarts)
        (queueing-Next q.publication)

  -- Nothing can fail after the message is sent.
  last-Kept :
      (e : Option Raised) (x : Option Stop × Work)
      → Kept w0 x.1
      → is_submitted (answer_of (after (send e >> complete) x).0) ≡ false
      → Kept w0 (after (send e >> complete) x).1
  last-Kept (some e) (none, w) p h = p
  last-Kept none (none, w) p h = ground (arith, h)
  last-Kept e (some stop, w) p h = p

attempt-IsKept :
    (q : Request) (w : Work)
    → q.restart ≡ true
    → w.clone ≡ none
    → w.promotion ≡ none
    → is_submitted (answer_of (attempt q w).0) ≡ false
    → IsKept w (attempt q w).1
attempt-IsKept q w restarts c n h =
    let (p, live) = before_message-Next w q restarts w start (c, n) in
    subst (λ x. IsKept w x.1) (sym (attempt-split q w))
      (last-Kept w q.publication.publisher ((before_sending q >> queueing q.publication) w) p
        (ap (λ x. is_submitted (answer_of x.0)) (sym (attempt-split q w)) ∙ h))
  where
    start : IsKept w w
    start = record {
      plain = λ e. refl;
      backed = λ b e. ground (arith, e, n);
      rules_kept = λ e. refl;
      saved = inl c;
      status_kept = refl;
      published_kept = refl;
    }

-- No workflow is there that was not there before, or it is deleted.
abbrev pub is_gone : Option Status → Bool
is_gone none = true
is_gone (some created) = false
is_gone (some queued) = false
is_gone (some finished) = false
is_gone (some failed) = false
is_gone (some deleted) = true
is_gone (some other_status) = false

pub record IsUndone (before now : Work) : Type 0 where
  pub same_specification : now.specification ≡ before.specification
  pub same_rules : now.rules ≡ before.rules
  pub same_status : now.status ≡ before.status
  pub same_queue : now.published ≡ before.published
  pub gone : is_gone now.clone ≡ true
  pub nothing_staged : now.staged ≡ false

record IsBack (w0 w : Work) : Type 0 where
  content : w.specification ≡ w0.specification
  rules_kept : w.clone ≡ none → w.rules ≡ w0.rules
  saved : (w.clone ≡ none) ⊎ (w.saved_rules ≡ some w0.rules)
  status_kept : w.status ≡ w0.status
  published_kept : w.published ≡ w0.published

roll_back-IsBack :
    (o : Option (Option ℕ)) (w0 w : Work)
    → w.promotion ≡ o
    → IsKept w0 w
    → IsBack w0 (roll_back o true w)
roll_back-IsBack none w0 w e k = record {
  content = k.plain e;
  rules_kept = k.rules_kept;
  saved = k.saved;
  status_kept = k.status_kept;
  published_kept = k.published_kept;
}
roll_back-IsBack (some b) w0 w e k = record {
  content = k.backed b e;
  rules_kept = k.rules_kept;
  saved = k.saved;
  status_kept = k.status_kept;
  published_kept = k.published_kept;
}

or_same-saved : (o : Option ℕ) (n m : ℕ) → o ≡ some n → or_same o m ≡ n
or_same-saved none n m e = ground (arith, e)
or_same-saved (some k) n m e = ground (arith, e)

compensate_if_failed-IsUndone :
    (o : Option Status) (w0 v : Work)
    → v.clone ≡ o
    → IsBack w0 v
    → IsUndone w0 (set_staged false (compensate_if_failed o false true v))
compensate_if_failed-IsUndone none w0 v e k = record {
  same_specification = k.content;
  same_rules = k.rules_kept e;
  same_status = k.status_kept;
  same_queue = k.published_kept;
  gone = rw e refl;
  nothing_staged = refl;
}
compensate_if_failed-IsUndone (some s) w0 v e k = record {
  same_specification = k.content;
  same_rules =
      or_same-saved v.saved_rules w0.rules v.rules (when_live v.clone k.saved (ap is_some e));
  same_status = k.status_kept;
  same_queue = k.published_kept;
  gone = refl;
  nothing_staged = refl;
}

roll_back-clone : (o : Option (Option ℕ)) (b : Bool) (w : Work) → (roll_back o b w).clone ≡ w.clone
roll_back-clone none b w = refl
roll_back-clone (some s) true w = refl
roll_back-clone (some s) false w = refl

clean_up-IsUndone :
    (q : Request) (w0 : Work) (x : Option Stop × Work)
    → q.rolls_back ≡ true
    → q.compensates ≡ true
    → is_submitted (answer_of x.0) ≡ false
    → IsKept w0 x.1
    → IsUndone w0 (clean_up q x).1
clean_up-IsUndone q w0 (stop, w) r c h k =
    rw (r, c, h)
      (compensate_if_failed-IsUndone w.clone w0 (roll_back w.promotion true w)
        (roll_back-clone w.promotion true w) (roll_back-IsBack w.promotion w0 w refl k))

-- Let a restart come when no restart is under way: no clone, no promotion, and nothing staged. When the
-- answer is not that the workflow is submitted, and the rollback and the compensation succeed, then the
-- specification in the workspace, the retention rules, the status of the workflow and the queue are
-- those of before, the workflow that was cloned is deleted, and no staged directory is left.
pub submit_workflow_locked-IsUndone :
    (q : Request) (w : Work)
    → q.restart ≡ true
    → q.rolls_back ≡ true
    → q.compensates ≡ true
    → w.clone ≡ none
    → w.promotion ≡ none
    → is_submitted (submit_workflow_locked q w).0 ≡ false
    → IsUndone w (submit_workflow_locked q w).1
unfolding submit_workflow_locked
submit_workflow_locked-IsUndone q w restarts r c clone promotion h =
    clean_up-IsUndone q w (attempt q w) r c h (attempt-IsKept q w restarts clone promotion h)
