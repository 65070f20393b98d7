-- ===== src/Submission/Restarts.antt =====
-- reana_server/rest/workflows.py and reana_server/utils.py: what each step of a restart keeps.
use reana_server.Prelude.{
  ℕ, ◌≡◌, refl, ap, ◌∙◌, Bool, true, false, not, Option, none, some, is_some, str_eq, arith,
  Bool-cases, inl, inr, ◌⊎◌,
}
use reana_server.Submission.{
  Status, Raised, validation_error, Work, Step, Stop, after, ◌>>◌, call, answer_if, raise_if,
}
use reana_server.Submission.Publishing.{
  Publication, set_queued, estimates, named_status, clone_status,
}
use reana_server.Submission.Submitting.{
  Replacement, Request, is_over, save_rules, stage_snapshot, clone_row, prepare_replacement,
  prepare, install, promote_if_staged, when_staged, when_cloned,
}

-- From a state with two properties a step keeps the first, and if it goes on, then a third is true.
abbrev pub Next : (P C D : Work → Type 0) → Step → Type 0
Next P C D k = (w : Work) → P w → C w → P (k w).1 × ((k w).0 ≡ none → D (k w).1)

module _ (P : Work → Type 0) where
  after-Next :
      (C D : Work → Type 0) (k : Step) (x : Option Stop × Work)
      → Next P C D k
      → P x.1
      → (x.0 ≡ none → C x.1)
      → P (after k x).1 × ((after k x).0 ≡ none → D (after k x).1)
  after-Next C D k (none, w) next p c = next w p (c refl)
  after-Next C D k (some stop, w) next p c = (p, λ e. ground (arith, e))

  pub then-Next :
      (B C D : Work → Type 0) (m k : Step) → Next P B C m → Next P C D k → Next P B D (m >> k)
  then-Next B C D m k first next w p b =
      let (p2, c) = first w p b in after-Next C D k (m w) next p2 c

  pub call-Next : (C : Work → Type 0) (e : Option Raised) → Next P C C (call e)
  call-Next C none w p c = (p, λ e. c)
  call-Next C (some e) w p c = (p, λ h. c)

  pub raise_if-Next : (C : Work → Type 0) (b : Bool) (e : Raised) → Next P C C (raise_if b e)
  raise_if-Next C true e w p c = (p, λ h. c)
  raise_if-Next C false e w p c = (p, λ h. c)

  answer_if-Next : (C : Work → Type 0) (b : Bool) (code : ℕ) → Next P C C (answer_if b code)
  answer_if-Next C true code w p c = (p, λ h. c)
  answer_if-Next C false code w p c = (p, λ h. c)

-- What can still be put back: the specification, the retention rules, the status and the queue of before.
pub record IsKept (w0 w : Work) : Type 0 where
  pub plain : w.promotion ≡ none → w.specification ≡ w0.specification
  pub backed : (b : Option ℕ) → w.promotion ≡ some b → b ≡ w0.specification
  pub rules_kept : w.clone ≡ none → w.rules ≡ w0.rules
  pub saved : (w.clone ≡ none) ⊎ (w.saved_rules ≡ some w0.rules)
  pub status_kept : w.status ≡ w0.status
  pub published_kept : w.published ≡ w0.published

clone_status-live : (o : Option Status) → is_some o ≡ true → is_some (clone_status o) ≡ true
clone_status-live none e = e
clone_status-live (some s) e = refl

named_status-live : (o : Option Status) (s : Status) → is_some o ≡ true → named_status o s ≡ s
named_status-live none s e = ground (arith, e)
named_status-live (some c) s e = refl

pub when_live : {A : Type 0} (o : Option Status) → (o ≡ none) ⊎ A → is_some o ≡ true → A
when_live o (inl n) e = ground (arith, n, e)
when_live o (inr a) e = a

module _ (w0 : Work) where
  abbrev pub Kept : Work → Type 0
  Kept w = IsKept w0 w

  abbrev pub Uncloned : Work → Type 0
  Uncloned w = (w.clone ≡ none) × (w.promotion ≡ none)

  abbrev Saved : Work → Type 0
  Saved w = (w.saved_rules ≡ some w0.rules) × (w.promotion ≡ none)

  abbrev pub Cloned : Work → Type 0
  Cloned w = (is_some w.clone ≡ true) × (w.promotion ≡ none)

  abbrev pub Live : Work → Type 0
  Live w = is_some w.clone ≡ true

  save_rules-Next : (e : Option Raised) → Next Kept Uncloned Saved (save_rules e)
  save_rules-Next (some e) w p c = (p, λ h. ground (arith, h))
  save_rules-Next none w p (c, n) = (
    record {
      plain = p.plain;
      backed = p.backed;
      rules_kept = p.rules_kept;
      saved = inl c;
      status_kept = p.status_kept;
      published_kept = p.published_kept;
    },
    λ h. (ap some (p.rules_kept c), n),
  )

  stage_snapshot-Next : (e : Option Raised) → Next Kept Saved Saved (stage_snapshot e)
  stage_snapshot-Next (some e) w p c = (p, λ h. c)
  stage_snapshot-Next none w p c = (
    record {
      plain = p.plain;
      backed = p.backed;
      rules_kept = p.rules_kept;
      saved = p.saved;
      status_kept = p.status_kept;
      published_kept = p.published_kept;
    },
    λ h. c,
  )

  clone_row-Next : (e : Option Raised) (rules : ℕ) → Next Kept Saved Cloned (clone_row e rules)
  clone_row-Next (some e) rules w p c = (p, λ h. ground (arith, h))
  clone_row-Next none rules w p (c, n) = (
    record {
      plain = p.plain;
      backed = p.backed;
      rules_kept = λ e. ground (arith, e);
      saved = inr c;
      status_kept = p.status_kept;
      published_kept = p.published_kept;
    },
    λ h. (refl, n),
  )

  prepare_replacement-Next :
      (q : Request) (r : Option Replacement) → Next Kept Uncloned Cloned (prepare_replacement q r)
  prepare_replacement-Next q none =
      then-Next Kept Uncloned Cloned Cloned _ _
        (then-Next Kept Uncloned Saved Cloned _ _ (save_rules-Next q.rule_states)
          (clone_row-Next q.clone_workflow q.cloned_rules))
        (call-Next Kept Cloned q.validate)
  prepare_replacement-Next q (some r) =
      then-Next Kept Uncloned Saved Cloned _ _
        (then-Next Kept Uncloned Saved Saved _ _
          (then-Next Kept Uncloned Saved Saved _ _
            (then-Next Kept Uncloned Saved Saved _ _
              (then-Next Kept Uncloned Saved Saved _ _
                (then-Next Kept Uncloned Saved Saved _ _ (save_rules-Next q.rule_states)
                  (stage_snapshot-Next r.stage))
                (call-Next Kept Saved r.load))
              (raise_if-Next Kept Saved (not r.is_filled) validation_error))
            (call-Next Kept Saved r.constraints))
          (call-Next Kept Saved r.load_and_validate))
        (clone_row-Next q.clone_workflow q.cloned_rules)

  pub again-Next :
      (q : Request) (w : Work)
      → Kept w
      → Uncloned w
      → q.restart ≡ true
      → Kept (prepare q w).1 × ((prepare q w).0 ≡ none → Cloned (prepare q w).1)
  again-Next q w p c restarts = rw restarts (
      then-Next Kept Uncloned Uncloned Cloned _ _
        (then-Next Kept Uncloned Uncloned Uncloned _ _
          (answer_if-Next Kept Uncloned (not (is_over w.status)) 409)
          (answer_if-Next Kept Uncloned q.has_pending_rules 409))
        (prepare_replacement-Next q q.replacement) w p c)

  install-Next : (e : Option Raised) (content : ℕ) → Next Kept Cloned Live (install e content)
  install-Next (some e) content w p (c, n) = (p, λ h. c)
  install-Next none content w p (c, n) = (
    record {
      plain = λ h. ground (arith, h);
      backed = λ b h. ground (arith, h, p.plain n);
      rules_kept = p.rules_kept;
      saved = p.saved;
      status_kept = p.status_kept;
      published_kept = p.published_kept;
    },
    λ h. c,
  )

  when_staged-Next :
      (b : Bool) (e : Option Raised) (content : ℕ)
      → Next Kept Cloned Live (when_staged b (install e content))
  when_staged-Next true e content w p c = install-Next e content w p c
  when_staged-Next false e content w p (c, n) = (p, λ h. c)

  pub promote_if_staged-Next :
      (r : Option Replacement) → Next Kept Cloned Live (promote_if_staged r)
  promote_if_staged-Next none w p (c, n) = (p, λ h. c)
  promote_if_staged-Next (some r) w p c = when_staged-Next w.staged r.promote r.content w p c

  pub when_cloned-Next :
      (o : Option Status) (e : Option Raised) → Next Kept Live Live (when_cloned o e)
  when_cloned-Next none e w p c = (p, λ h. c)
  when_cloned-Next (some s) e w p c = call-Next Kept Live e w p c

  pub set_queued-Next : (e : Option Raised) → Next Kept Live Live (set_queued e)
  set_queued-Next (some e) w p c = (p, λ h. c)
  set_queued-Next none w p c = (
    record {
      plain = p.plain;
      backed = p.backed;
      rules_kept = λ h. ground (arith, h, clone_status-live w.clone c);
      saved = inr (when_live w.clone p.saved c);
      status_kept = named_status-live w.clone w.status c ∙ p.status_kept;
      published_kept = p.published_kept;
    },
    λ h. clone_status-live w.clone c,
  )

  pub estimates-Next : (p : Publication) → Next Kept Live Live (estimates p)
  estimates-Next p w k c = elim (Bool-cases (str_eq p.scheduling_policy "fifo")) [
    | inl e ↦ rw e (k, λ h. c)
    | inr e ↦ rw e (
        then-Next Kept Live Live Live _ _ (call-Next Kept Live p.estimate)
          (call-Next Kept Live p.memory_limits) w k c)
  ]
