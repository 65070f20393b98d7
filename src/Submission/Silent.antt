-- ===== src/Submission/Silent.antt =====
-- reana_server/rest/workflows.py and reana_server/utils.py: the steps that put nothing on the queue.
use reana_server.Prelude.{
  ℕ, ◌≡◌, refl, ◌∙◌, Bool, true, false, not, Option, none, some, contains, str_eq, Bool-cases, inl,
  inr,
}
use reana_server.Submission.{
  Status, Raised, value_error, validation_error, Work, Step, Stop, raising, answering, completing,
  after, ◌>>◌, call, answer_if, raise_if,
}
use reana_server.Submission.Publishing.{Publication, is_disabled, set_queued, estimates, queueing}
use reana_server.Submission.Submitting.{
  Replacement, Request, is_over, is_created, save_rules, stage_snapshot, clone_row,
  prepare_replacement, prepare, install, promote_if_staged, when_staged, recalculate_if_cloned,
  when_cloned, before_sending,
}

abbrev pub is_completing : Option Stop → Bool
is_completing none = false
is_completing (some (raising e)) = false
is_completing (some (answering code)) = false
is_completing (some completing) = true

-- A step that puts nothing on the queue and does not end the work as a success.
pub record IsSilent (k : Step) : Type 0 where
  pub silent : (w : Work) → (k w).1.published ≡ w.published
  pub unfinished : (w : Work) → is_completing (k w).0 ≡ false

after-IsSilent :
    (k : Step) (x : Option Stop × Work) (n : ℕ)
    → IsSilent k
    → x.1.published ≡ n
    → (after k x).1.published ≡ n
after-IsSilent k (none, w) n s e = s.silent w ∙ e
after-IsSilent k (some stop, w) n s e = e

after-unfinished :
    (k : Step) (x : Option Stop × Work)
    → IsSilent k
    → is_completing x.0 ≡ false
    → is_completing (after k x).0 ≡ false
after-unfinished k (none, w) s e = s.unfinished w
after-unfinished k (some stop, w) s e = e

pub then-IsSilent : {m k : Step} → IsSilent m → IsSilent k → IsSilent (m >> k)
then-IsSilent {m} {k} first next = record {
  silent = λ w. after-IsSilent k (m w) w.published next (first.silent w);
  unfinished = λ w. after-unfinished k (m w) next (first.unfinished w);
}

call-IsSilent : (e : Option Raised) → IsSilent (call e)
call-IsSilent none = record { silent = λ w. refl; unfinished = λ w. refl }
call-IsSilent (some e) = record { silent = λ w. refl; unfinished = λ w. refl }

answer_if-IsSilent : (b : Bool) (code : ℕ) → IsSilent (answer_if b code)
answer_if-IsSilent true code = record { silent = λ w. refl; unfinished = λ w. refl }
answer_if-IsSilent false code = record { silent = λ w. refl; unfinished = λ w. refl }

raise_if-IsSilent : (b : Bool) (e : Raised) → IsSilent (raise_if b e)
raise_if-IsSilent true e = record { silent = λ w. refl; unfinished = λ w. refl }
raise_if-IsSilent false e = record { silent = λ w. refl; unfinished = λ w. refl }

save_rules-IsSilent : (e : Option Raised) → IsSilent (save_rules e)
save_rules-IsSilent none = record { silent = λ w. refl; unfinished = λ w. refl }
save_rules-IsSilent (some e) = record { silent = λ w. refl; unfinished = λ w. refl }

stage_snapshot-IsSilent : (e : Option Raised) → IsSilent (stage_snapshot e)
stage_snapshot-IsSilent none = record { silent = λ w. refl; unfinished = λ w. refl }
stage_snapshot-IsSilent (some e) = record { silent = λ w. refl; unfinished = λ w. refl }

clone_row-IsSilent : (e : Option Raised) (rules : ℕ) → IsSilent (clone_row e rules)
clone_row-IsSilent none rules = record { silent = λ w. refl; unfinished = λ w. refl }
clone_row-IsSilent (some e) rules = record { silent = λ w. refl; unfinished = λ w. refl }

install-IsSilent :
    (b : Bool) (e : Option Raised) (content : ℕ) → IsSilent (when_staged b (install e content))
install-IsSilent true none content = record { silent = λ w. refl; unfinished = λ w. refl }
install-IsSilent true (some e) content = record { silent = λ w. refl; unfinished = λ w. refl }
install-IsSilent false e content = record { silent = λ w. refl; unfinished = λ w. refl }

when_cloned-IsSilent : (o : Option Status) (e : Option Raised) → IsSilent (when_cloned o e)
when_cloned-IsSilent none e = record { silent = λ w. refl; unfinished = λ w. refl }
when_cloned-IsSilent (some s) e = call-IsSilent e

recalculate_if_cloned-IsSilent : (e : Option Raised) → IsSilent (recalculate_if_cloned e)
recalculate_if_cloned-IsSilent e = record {
  silent = λ w. (when_cloned-IsSilent w.clone e).silent w;
  unfinished = λ w. (when_cloned-IsSilent w.clone e).unfinished w;
}

promote_if_staged-IsSilent : (r : Option Replacement) → IsSilent (promote_if_staged r)
promote_if_staged-IsSilent none = record { silent = λ w. refl; unfinished = λ w. refl }
promote_if_staged-IsSilent (some r) = record {
  silent = λ w. (install-IsSilent w.staged r.promote r.content).silent w;
  unfinished = λ w. (install-IsSilent w.staged r.promote r.content).unfinished w;
}

set_queued-IsSilent : (e : Option Raised) → IsSilent (set_queued e)
set_queued-IsSilent none = record { silent = λ w. refl; unfinished = λ w. refl }
set_queued-IsSilent (some e) = record { silent = λ w. refl; unfinished = λ w. refl }

estimates-IsSilent : (p : Publication) → IsSilent (estimates p)
estimates-IsSilent p = record {
  silent = λ w. elim (Bool-cases (str_eq p.scheduling_policy "fifo")) [
    | inl e ↦ rw e refl
    | inr e ↦
        rw e ((then-IsSilent (call-IsSilent p.estimate) (call-IsSilent p.memory_limits)).silent w)
  ];
  unfinished = λ w. elim (Bool-cases (str_eq p.scheduling_policy "fifo")) [
    | inl e ↦ rw e refl
    | inr e ↦
        rw e
          ((then-IsSilent (call-IsSilent p.estimate) (call-IsSilent p.memory_limits)).unfinished w)
  ];
}

clone_saved-IsSilent :
    (q : Request)
    → IsSilent
        (save_rules q.rule_states >> clone_row q.clone_workflow q.cloned_rules >> call q.validate)
clone_saved-IsSilent q =
    then-IsSilent
      (then-IsSilent (save_rules-IsSilent q.rule_states)
        (clone_row-IsSilent q.clone_workflow q.cloned_rules))
      (call-IsSilent q.validate)

replace-IsSilent : (q : Request) (r : Replacement) → IsSilent (prepare_replacement q (some r))
replace-IsSilent q r =
    then-IsSilent
      (then-IsSilent
        (then-IsSilent
          (then-IsSilent
            (then-IsSilent
              (then-IsSilent (save_rules-IsSilent q.rule_states) (stage_snapshot-IsSilent r.stage))
              (call-IsSilent r.load))
            (raise_if-IsSilent (not r.is_filled) validation_error))
          (call-IsSilent r.constraints))
        (call-IsSilent r.load_and_validate))
      (clone_row-IsSilent q.clone_workflow q.cloned_rules)

prepare_replacement-IsSilent :
    (q : Request) (r : Option Replacement) → IsSilent (prepare_replacement q r)
prepare_replacement-IsSilent q none = clone_saved-IsSilent q
prepare_replacement-IsSilent q (some r) = replace-IsSilent q r

prepare-IsSilent : (q : Request) → IsSilent (prepare q)
prepare-IsSilent q = record {
  silent = λ w. elim (Bool-cases q.restart) [
    | inl e ↦ rw e (
        (then-IsSilent
            (then-IsSilent (answer_if-IsSilent (not (is_over w.status)) 409)
              (answer_if-IsSilent q.has_pending_rules 409))
            (prepare_replacement-IsSilent q q.replacement)).silent
          w)
    | inr e ↦ rw e (
        (then-IsSilent (answer_if-IsSilent (not (is_created w.status)) 409)
            (call-IsSilent q.validate)).silent
          w)
  ];
  unfinished = λ w. elim (Bool-cases q.restart) [
    | inl e ↦ rw e (
        (then-IsSilent
            (then-IsSilent (answer_if-IsSilent (not (is_over w.status)) 409)
              (answer_if-IsSilent q.has_pending_rules 409))
            (prepare_replacement-IsSilent q q.replacement)).unfinished
          w)
    | inr e ↦ rw e (
        (then-IsSilent (answer_if-IsSilent (not (is_created w.status)) 409)
            (call-IsSilent q.validate)).unfinished
          w)
  ];
}

pub before_sending-IsSilent : (q : Request) → IsSilent (before_sending q)
before_sending-IsSilent q =
    then-IsSilent
      (then-IsSilent
        (then-IsSilent
          (then-IsSilent
            (then-IsSilent
              (then-IsSilent (call-IsSilent q.operational_options) (prepare-IsSilent q))
              (call-IsSilent q.input_parameters))
            (call-IsSilent q.commit))
          (call-IsSilent q.dask_service))
        (promote_if_staged-IsSilent q.replacement))
      (recalculate_if_cloned-IsSilent q.recalculate)

pub queueing-IsSilent : (p : Publication) → IsSilent (queueing p)
queueing-IsSilent p =
    then-IsSilent
      (then-IsSilent
        (then-IsSilent
          (raise_if-IsSilent (not (contains p.scheduling_policies p.scheduling_policy)) value_error)
          (raise_if-IsSilent (is_disabled p.supported_backends p.compute_backends)
            validation_error))
        (set_queued-IsSilent p.commit))
      (estimates-IsSilent p)
