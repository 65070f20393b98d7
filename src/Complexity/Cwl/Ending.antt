-- ===== src/Complexity/Cwl/Ending.antt =====
-- reana_server/complexity.py: collecting the compute backends of a CWL workflow comes to its end,
-- also when workflows run each other in a circle.
use reana_server.Prelude.{
  ℕ, zero, suc, ◌+◌, ◌≤◌, ◌<◌, String, ◌≡◌, ◌≢◌, refl, true, false, Option, none, some,
  if◌then◌else◌, List, [], ◌∷◌, ◌++◌, Dict, lookup, length, arith, inl, inr, Bool-cases,
  Option-cases,
}
use reana_server.Complexity.Hints.{Hint}
use reana_server.Complexity.Cwl.{
  Process, process, Steps, done, named, inline, bare, info_of, among, Found, collect_steps, collect,
  compute_backends, Specification, specification_backends, processes_of, main_of, of_process,
  of_known, or_kubernetes, is_kind, tool_backends, union, is_workflow,
}

-- The numbers of a process, and of all processes that stand inside it, are in a list.
unfoldable mutual
  pub Within : List ℕ → Process → Type 0
  Within all (process info steps) = (among info.number all ≡ true) × StepsWithin all steps

  pub StepsWithin : List ℕ → Steps → Type 0
  StepsWithin all done = Unit
  StepsWithin all (named step run steps) = StepsWithin all steps
  StepsWithin all (inline step p steps) = Within all p × StepsWithin all steps
  StepsWithin all (bare step steps) = StepsWithin all steps

-- How many of the numbers are not among the ancestors.
unfoldable left : List ℕ → List ℕ → ℕ
left [] ancestors = 0
left (n ∷ all) ancestors = (if among n ancestors then 0 else 1) + left all ancestors

left-less : (n : ℕ) (all ancestors : List ℕ) → left all (n ∷ ancestors) ≤ left all ancestors
unfolding left
left-less n [] ancestors = omega arith
left-less n (m ∷ all) ancestors = ground (arith, left-less n all ancestors)

left-fewer :
    (n : ℕ) (all ancestors : List ℕ)
    → among n all ≡ true
    → among n ancestors ≡ false
    → left all (n ∷ ancestors) < left all ancestors
unfolding left
left-fewer n [] ancestors h new = ground (arith, h)
left-fewer n (m ∷ all) ancestors h new =
    ground (arith, left-less n all ancestors, left-fewer n all ancestors, h, new)

left-length : (all ancestors : List ℕ) → left all ancestors ≤ length all
unfolding left
left-length [] ancestors = omega arith
left-length (n ∷ all) ancestors = ground (arith, left-length all ancestors)

tool_backends-some : (kind : Option String) (hints : List Hint) → tool_backends kind hints ≢ none
tool_backends-some none hints = λ e. ground (arith, e)
tool_backends-some (some kind) hints = λ e. ground (arith, e)

union-some : (a b : Found) → a ≢ none → b ≢ none → union a b ≢ none
union-some none b h k = absurd (h refl)
union-some (some x) none h k = absurd (k refl)
union-some (some x) (some y) h k = λ e. ground (arith, e)

or_kubernetes-some :
    (processes : Dict Process) (found : Found) → found ≢ none → or_kubernetes processes found ≢ none
or_kubernetes-some processes none h = absurd (h refl)
or_kubernetes-some processes (some []) h = λ e. ground (arith, e)
or_kubernetes-some processes (some (b ∷ bs)) h = λ e. ground (arith, e)

module _ (processes : Dict Process) (all : List ℕ)
    (known : (name : String) (p : Process) → lookup name processes ≡ some p → Within all p) where
  abbrev Collects : (Process → List Hint → List ℕ → Found) → ℕ → Type 0
  Collects collect n =
      (p : Process) (hints : List Hint) (ancestors : List ℕ)
      → Within all p
      → left all ancestors < n
      → collect p hints ancestors ≢ none

  of_process-some :
      (n : ℕ)
      → Collects (collect processes n) n
      → (ancestors : List ℕ) → left all ancestors ≤ n
      → (hints : List Hint) (p : Process) → Within all p
      → of_process processes (collect processes n) ancestors hints p ≢ none
  unfolding Within
  of_process-some n ih ancestors small hints (process info steps) w =
      elim (Bool-cases (is_workflow (process info steps))) [
        | inl wf ↦ elim (Bool-cases (among info.number ancestors)) [
          | inl seen ↦ rw wf (rw seen (λ e. ground (arith, e)))
          | inr new ↦ rw wf (
              rw new (
                ih (process info steps) _ _ w
                  (omega (arith, small, left-fewer info.number all ancestors w.0 new))))
        ]
        | inr tool ↦ rw tool (tool_backends-some info.kind (hints ++ info.hints))
      ]

  of_known-some :
      (n : ℕ)
      → Collects (collect processes n) n
      → (ancestors : List ℕ) → left all ancestors ≤ n
      → (hints : List Hint) (name : String)
      → of_known processes (collect processes n) ancestors hints (lookup name processes) ≢ none
  of_known-some n ih ancestors small hints name = elim (Option-cases (lookup name processes)) [
    | inl missing ↦ rw missing (tool_backends-some none hints)
    | inr (p, found) ↦ rw found (of_process-some n ih ancestors small hints p (known name p found))
  ]

  collect_steps-some :
      (n : ℕ)
      → Collects (collect processes n) n
      → (ancestors : List ℕ) → left all ancestors ≤ n
      → (steps : Steps) (hints : List Hint) → StepsWithin all steps
      → collect_steps processes (collect processes n) steps hints ancestors ≢ none
  unfolding collect_steps StepsWithin
  collect_steps-some n ih ancestors small done hints w = λ e. ground (arith, e)
  collect_steps-some n ih ancestors small (named step run steps) hints w =
      union-some _ _ (of_known-some n ih ancestors small (hints ++ step.hints) run)
        (collect_steps-some n ih ancestors small steps hints w)
  collect_steps-some n ih ancestors small (inline step p steps) hints w =
      union-some _ _ (of_process-some n ih ancestors small (hints ++ step.hints) p w.0)
        (collect_steps-some n ih ancestors small steps hints w.1)
  collect_steps-some n ih ancestors small (bare step steps) hints w =
      union-some _ _ (tool_backends-some none (hints ++ step.hints))
        (collect_steps-some n ih ancestors small steps hints w)

  collect-some : (n : ℕ) → Collects (collect processes n) n
  unfolding collect Within
  collect-some zero p hints ancestors w small = absurd (omega (arith, small))
  collect-some (suc n) (process info steps) hints ancestors w small =
      collect_steps-some n (collect-some n) ancestors (omega (arith, small)) steps hints w.1

-- Collecting the backends of a CWL specification comes to its end, though a workflow may run itself: if
-- the numbers of all processes, of the graph and of those inside them, are in a list, then calls that nest one deeper than the list is
-- long are enough.
pub specification_backends-ends :
    (specification : Specification) (all : List ℕ)
    → Within all (main_of specification)
    → ((name : String) (p : Process)
        → lookup name (processes_of specification) ≡ some p
        → Within all p)
    → specification_backends (suc (length all)) specification ≢ none
unfolding specification_backends compute_backends
specification_backends-ends specification all w known =
    let main = main_of specification in
    let found =
      collect-some (processes_of specification) all known (suc (length all)) main
        (info_of main).hints ((info_of main).number ∷ []) w
        (omega (arith, left-length all ((info_of main).number ∷ []))) in
    elim (Bool-cases (is_kind "CommandLineTool" (info_of main).kind)) [
      | inl tool ↦ rw tool (λ e. ground (arith, e))
      | inr workflow ↦ rw workflow (or_kubernetes-some (processes_of specification) _ found)
    ]
