-- ===== src/Complexity/Cwl.antt =====
-- reana_server/complexity.py: the compute backends of a CWL workflow.
pub mod Ending
pub mod Texts
pub mod Tree
pub mod Parse
pub mod Estimate
pub mod Bounds
pub mod Limits
use reana_server.Prelude.{
  ℕ, zero, suc, String, Bool, true, false, ◌||◌, Option, none, some, if◌then◌else◌, str_eq, ◌==◌,
  List, [], ◌∷◌, ◌++◌, Dict, lookup, insert,
}
use reana_server.Complexity.Hints.{Hint, get_step_hints, to_step}
use reana_server.Complexity.Serial.{get_step_backend}

-- The `source` of an input: none or an empty list, a text, or a list.
pub data Source : Type 0 where
  missing : Source
  text : String → Source
  several : Source

pub record Input : Type 0 where
  pub id : String
  pub source : Source

-- What a step has beside its `run`.
pub record StepInfo : Type 0 where
  pub id : String
  pub hints : List Hint
  pub scatter : Option String
  pub inputs : List Input

-- What a process has beside its steps. The number tells objects apart, as `id` of Python does.
pub record ProcessInfo : Type 0 where
  pub number : ℕ
  pub id : Option String
  pub kind : Option String
  pub hints : List Hint

mutual
  pub data Process : Type 0 where
    process : ProcessInfo → Steps → Process

  -- The steps, by what their `run` is: a text, an object, or anything else.
  pub data Steps : Type 0 where
    done : Steps
    named : StepInfo → String → Steps → Steps
    inline : StepInfo → Process → Steps → Steps
    bare : StepInfo → Steps → Steps

abbrev pub info_of : Process → ProcessInfo
info_of (process info steps) = info

abbrev pub steps_of : Process → Steps
steps_of (process info steps) = steps

abbrev pub has_steps : Steps → Bool
has_steps done = false
has_steps (named step run steps) = true
has_steps (inline step run steps) = true
has_steps (bare step steps) = true

abbrev pub is_kind : String → Option String → Bool
is_kind kind none = false
is_kind kind (some k) = str_eq k kind

-- `run.get("class") == "Workflow" or run.get("steps")`
unfoldable pub is_workflow : Process → Bool
is_workflow p = is_kind "Workflow" (info_of p).kind || has_steps (steps_of p)

abbrev pub among : ℕ → List ℕ → Bool
among n [] = false
among n (m ∷ ms) = m == n || among n ms

-- A set of backends, or `none` when the recursion has not come to its end.
abbrev pub Found : Type 0
Found = Option (List String)

abbrev pub union : Found → Found → Found
union none later = none
union (some found) none = none
union (some found) (some later) = some (found ++ later)

-- `backends.add(self._get_step_backend(resolved))` of a process that runs a tool
abbrev pub tool_backends : Option String → List Hint → Found
tool_backends none hints = some (get_step_backend (to_step (get_step_hints hints)) ∷ [])
tool_backends (some kind) hints =
    if str_eq kind "CommandLineTool"
    then some (get_step_backend (to_step (get_step_hints hints)) ∷ [])
    else some []

module _ (processes : Dict Process) where
  -- What a step runs, with the hints before those of the process; `collect` is the recursive call
  -- for a workflow.
  abbrev pub of_process :
      (Process → List Hint → List ℕ → Found) → List ℕ → List Hint → Process → Found
  of_process collect ancestors hints p =
      let nested = collect p (hints ++ (info_of p).hints) ((info_of p).number ∷ ancestors) in
      if is_workflow p
      then (if among (info_of p).number ancestors then some [] else nested)
      else tool_backends (info_of p).kind (hints ++ (info_of p).hints)

  -- A step whose process is not known has `run = {}`.
  abbrev pub of_known :
      (Process → List Hint → List ℕ → Found) → List ℕ → List Hint → Option Process → Found
  of_known collect ancestors hints none = tool_backends none hints
  of_known collect ancestors hints (some p) = of_process collect ancestors hints p

  -- The loop of `_collect_steps`.
  unfoldable pub collect_steps :
      (Process → List Hint → List ℕ → Found) → Steps → List Hint → List ℕ → Found
  collect_steps collect done inherited ancestors = some []
  collect_steps collect (named step run steps) inherited ancestors =
      union (of_known collect ancestors (inherited ++ step.hints) (lookup run processes))
        (collect_steps collect steps inherited ancestors)
  collect_steps collect (inline step p steps) inherited ancestors =
      union (of_process collect ancestors (inherited ++ step.hints) p)
        (collect_steps collect steps inherited ancestors)
  collect_steps collect (bare step steps) inherited ancestors =
      union (tool_backends none (inherited ++ step.hints))
        (collect_steps collect steps inherited ancestors)

  -- `_collect_steps`, with a bound on how deeply it calls itself.
  unfoldable pub collect : ℕ → Process → List Hint → List ℕ → Found
  collect zero p inherited ancestors = none
  collect (suc n) p inherited ancestors = collect_steps (collect n) (steps_of p) inherited ancestors

  abbrev pub or_kubernetes : Found → Found
  or_kubernetes none = none
  or_kubernetes (some []) = some ("kubernetes" ∷ [])
  or_kubernetes (some (b ∷ bs)) = some (b ∷ bs)

  -- `compute_backends` of a workflow or a tool, the main process
  unfoldable pub compute_backends : ℕ → Process → Found
  compute_backends n main =
      let found =
        or_kubernetes (collect n main (info_of main).hints ((info_of main).number ∷ [])) in
      if is_kind "CommandLineTool" (info_of main).kind
      then some (get_step_backend (to_step (get_step_hints (info_of main).hints)) ∷ [])
      else found

-- A specification has a `$graph`, a list whose objects are processes, or is one process itself.
pub data Specification : Type 0 where
  graph : List (Option Process) → Specification
  single : Process → Specification

-- `p.get("id")` of a process that has one; the others are never looked up.
abbrev insert_process : Process → Option String → Dict Process → Dict Process
insert_process p none processes = processes
insert_process p (some id) processes = insert id p processes

-- `{p.get("id"): p for p in graph if isinstance(p, dict)}`, after the processes before
unfoldable pub by_id : Dict Process → List (Option Process) → Dict Process
by_id processes [] = processes
by_id processes (none ∷ ps) = by_id processes ps
by_id processes (some p ∷ ps) = by_id (insert_process p (info_of p).id processes) ps

-- `{}` in place of a main process
abbrev no_process : Process
no_process = process record { number = 0; id = none; kind = none; hints = [] } done

abbrev or_nothing : Option Process → Process
or_nothing none = no_process
or_nothing (some p) = p

abbrev pub processes_of : Specification → Dict Process
processes_of (graph ps) = by_id [] ps
processes_of (single main) = []

abbrev pub main_of : Specification → Process
main_of (graph ps) = or_nothing (lookup "#main" (by_id [] ps))
main_of (single main) = main

-- `compute_backends`
unfoldable pub specification_backends : ℕ → Specification → Found
specification_backends n specification =
    compute_backends (processes_of specification) n (main_of specification)
