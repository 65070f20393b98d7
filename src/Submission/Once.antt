-- ===== src/Submission/Once.antt =====
-- reana_server/rest/workflows.py and reana_server/utils.py: how often a submission is put on the queue.
use reana_server.Prelude.{
  ℕ, ◌+◌, ◌≡◌, refl, sym, subst, ◌∙◌, Bool, true, false, Option, none, some, arith, one_if,
}
use reana_server.Submission.{
  Status, Raised, Work, Stop, raising, answering, completing, after, ◌>>◌,
}
use reana_server.Submission.Publishing.{send, queueing}
use reana_server.Submission.Submitting.{
  Request, complete, before_sending, attempt, answer_of, is_submitted, roll_back,
  compensate_if_failed, clean_up, submit_workflow_locked,
}
use reana_server.Submission.Silent.{
  is_completing, then-IsSilent, before_sending-IsSilent, queueing-IsSilent,
}
use reana_server.Submission.Sending.{attempt-split}

-- After the message only the end of the work is left.
last-once :
    (e : Option Raised) (x : Option Stop × Work) (n : ℕ)
    → x.1.published ≡ n
    → is_completing x.0 ≡ false
    → (after (send e >> complete) x).1.published
      ≡ one_if (is_submitted (answer_of (after (send e >> complete) x).0)) + n
last-once none (none, w) n h u = ground (arith, h)
last-once (some e) (none, w) n h u = ground (arith, h)
last-once e (some (raising f), w) n h u = ground (arith, h)
last-once e (some (answering code), w) n h u = ground (arith, h)
last-once e (some completing, w) n h u = ground (arith, u)

attempt-once :
    (q : Request) (w : Work)
    → (attempt q w).1.published ≡ one_if (is_submitted (answer_of (attempt q w).0)) + w.published
attempt-once q w =
    let s = then-IsSilent (before_sending-IsSilent q) (queueing-IsSilent q.publication) in
    subst (λ x. x.1.published ≡ one_if (is_submitted (answer_of x.0)) + w.published)
      (sym (attempt-split q w))
      (last-once q.publication.publisher ((before_sending q >> queueing q.publication) w)
        w.published (s.silent w) (s.unfinished w))

roll_back-published :
    (o : Option (Option ℕ)) (b : Bool) (w : Work) → (roll_back o b w).published ≡ w.published
roll_back-published none b w = refl
roll_back-published (some s) true w = refl
roll_back-published (some s) false w = refl

compensate_if_failed-published :
    (o : Option Status) (b c : Bool) (w : Work)
    → (compensate_if_failed o b c w).published ≡ w.published
compensate_if_failed-published none b c w = refl
compensate_if_failed-published (some s) true c w = refl
compensate_if_failed-published (some s) false true w = refl
compensate_if_failed-published (some s) false false w = refl

clean_up-published :
    (q : Request) (x : Option Stop × Work) → (clean_up q x).1.published ≡ x.1.published
clean_up-published q (stop, w) =
    compensate_if_failed-published w.clone (is_submitted (answer_of stop)) q.compensates
      (roll_back w.promotion q.rolls_back w)
    ∙ roll_back-published w.promotion q.rolls_back w

-- A request to start or to restart a workflow puts one message on the queue if the answer is that the
-- workflow is submitted, and none if it is anything else.
pub submit_workflow_locked-once :
    (q : Request) (w : Work)
    → (submit_workflow_locked q w).1.published
      ≡ one_if (is_submitted (submit_workflow_locked q w).0) + w.published
unfolding submit_workflow_locked
submit_workflow_locked-once q w = clean_up-published q (attempt q w) ∙ attempt-once q w
