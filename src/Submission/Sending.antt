-- ===== src/Submission/Sending.antt =====
-- reana_server/rest/workflows.py: the message is sent last.
use reana_server.Prelude.{◌≡◌, refl, sym, ap, ◌∙◌, Option, none, some}
use reana_server.Submission.{Work, Step, Stop, after, ◌>>◌}
use reana_server.Submission.Publishing.{send, queueing, publish_workflow_submission}
use reana_server.Submission.Submitting.{Request, before_sending, complete, attempt}

after_assoc : (k l : Step) (x : Option Stop × Work) → after l (after k x) ≡ after (k >> l) x
after_assoc k l (none, w) = refl
after_assoc k l (some stop, w) = refl

then_assoc : (m k l : Step) (w : Work) → ((m >> k) >> l) w ≡ (m >> (k >> l)) w
then_assoc m k l w = after_assoc k l (m w)

pub attempt-split :
    (q : Request) (w : Work)
    → attempt q w
      ≡ after
          (send q.publication.publisher >> complete)
          ((before_sending q >> queueing q.publication) w)
unfolding attempt publish_workflow_submission
attempt-split q w =
    let p = q.publication in
    ap (after complete) (sym (then_assoc (before_sending q) (queueing p) (send p.publisher) w))
    ∙ after_assoc (send p.publisher) complete ((before_sending q >> queueing p) w)
