-- ===== src/Complexity/Workflows.antt =====
-- reana_server/complexity.py on concrete CWL, Yadage and Snakemake workflows.
use reana_server.Prelude.{
  ℕ, suc, Bool-cases, inl, inr, subst, String, ◌≡◌, ◌≢◌, refl, true, Option, none, some,
  if◌then◌else◌, str_eq, List, [], ◌∷◌, Dict, lookup, insert, All, arith, length, count, one_if,
  sorted_set,
}
use reana_server.Complexity.{validate_job_memory_limits}
use reana_server.Complexity.Hints.{Hint, get_step_hints}
use reana_server.Complexity.Serial.{Step, get_memory_limit, get_number_of_jobs, get_step_backend}
use reana_server.Complexity.Cwl.{
  text, StepInfo, Process, process, done, named, inline, Specification, graph, single, by_id,
  specification_backends, processes_of, main_of, compute_backends, collect, collect_steps,
  is_workflow,
}
use reana_server.Complexity.Cwl.Ending.{Within, specification_backends-ends}
use reana_server.Complexity.Cwl.Limits.{AllowedIn, Allowed as AllowedProcess, estimate_cwl-accepted}
use reana_server.Complexity.Cwl.Estimate.{estimate_cwl, scattered, populate}
use reana_server.Complexity.Cwl.Parse.{parse, parse_workflow}
use reana_server.Complexity.Cwl.Texts.{removed, split}
use reana_server.Complexity.Cwl.Tree.{put_node, filter_initial_steps, calculate_complexity}
use reana_server.Complexity.Yadage.{
  output, scalar, StageInfo, Stages, stage, done as no_stages, estimate_yadage, collect_stages,
  get_stage_compute_backend, yadage_backends, is_initial_stage, parse_stages, put_stage,
  populate_parameters, parse_params, populate_complexity, multiplied,
  calculate_complexity as stages_complexity,
}
use reana_server.Complexity.Yadage.Limits.{Allowed, estimate_yadage-accepted}
use reana_server.Complexity.Snakemake.{
  estimate_snakemake, filter_repeated_dependencies, subjob_deps, difference, items, calculate_item,
  count_jobs, largest,
}
use reana_server.Complexity.Snakemake.External.{IsExternal}
use reana_server.Complexity.Backends.{
  yadage, backends_of, workflow_compute_backends, runs_on, workflow_compute_backends-yadage,
}

abbrev to_bytes : String → Option ℕ
to_bytes t = if str_eq t "1Gi" then some 1073741824 else none

abbrev slurm : Hint
slurm = some (("compute_backend", some "slurmcern") ∷ [])

abbrev resources : Hint
resources = some (("ramMin", none) ∷ ("compute_backend", some "htcondorcern") ∷ [])

abbrev step_info : String → Option String → StepInfo
step_info id scatter = record {
  id = id;
  hints = slurm ∷ [];
  scatter = scatter;
  inputs = record { id = "in"; source = text "#main/files" } ∷ [];
}

abbrev numbers : List ℕ
numbers = 7 ∷ []

-- A workflow whose only step runs the workflow itself.
abbrev circle : Process
circle =
    process record { number = 7; id = some "#main"; kind = some "Workflow"; hints = [] }
      (named (step_info "again" none) "#main" done)

circle-known :
    (name : String) (p : Process)
    → lookup name (processes_of (graph (some circle ∷ []))) ≡ some p
    → Within numbers p
unfolding Within lookup by_id insert
circle-known name p h = elim (Bool-cases (str_eq "#main" name)) [
  | inl same ↦
      let here : circle ≡ p = ground (arith, h, same) in subst (Within numbers) here (refl, tt)
  | inr other ↦ ground (arith, h, other)
]

circle-Within : Within numbers (main_of (graph (some circle ∷ [])))
unfolding Within lookup by_id insert
circle-Within = (refl, tt)

specification_backends-ends_example :
    specification_backends (suc (length numbers)) (graph (some circle ∷ [])) ≢ none
specification_backends-ends_example =
    specification_backends-ends (graph (some circle ∷ [])) numbers circle-Within circle-known

circle-backends : specification_backends 2 (graph (some circle ∷ [])) ≡ some ("kubernetes" ∷ [])
unfolding specification_backends compute_backends collect collect_steps by_id lookup insert
    is_workflow
circle-backends = refl

abbrev leaf_process : Process
leaf_process =
    process record { number = 2; id = none; kind = some "CommandLineTool"; hints = [] } done

-- A step that is scattered over three files.
abbrev flat : Specification
flat = single (
    process record { number = 1; id = some "#main"; kind = some "Workflow"; hints = [] }
      (inline
        (record {
          id = "scan";
          hints = [];
          scatter = some "in";
          inputs = record { id = "in"; source = text "#main/files" } ∷ [];
        })
        leaf_process done))

flat-estimate : estimate_cwl to_bytes "1Gi" (("files", some 3) ∷ []) flat ≡ (3, 1073741824) ∷ []
unfolding estimate_cwl parse_workflow parse populate put_node filter_initial_steps
    calculate_complexity scattered split removed lookup get_step_hints get_memory_limit
    get_number_of_jobs get_step_backend
flat-estimate = refl

abbrev limit : ℕ
limit = 2147483648

-- The hints of the test processes ask for the default memory.
flat-AllowedIn : AllowedIn limit to_bytes "1Gi" flat
unfolding AllowedProcess get_memory_limit get_step_hints
flat-AllowedIn = ((λ mem e p. ground (arith, e)), tt, tt)

estimate_cwl-accepted_example :
    validate_job_memory_limits limit (estimate_cwl to_bytes "1Gi" (("files", some 3) ∷ []) flat)
    ≡ true
estimate_cwl-accepted_example =
    estimate_cwl-accepted limit to_bytes "1Gi" (("files", some 3) ∷ []) flat flat-AllowedIn

-- A stage whose last declared backend is Kubernetes.
abbrev map_stage : StageInfo
map_stage = record {
  name = "map";
  dependencies = "init" ∷ [];
  parameters = ("file", output "files") ∷ ("mode", scalar) ∷ [];
  resources =
      some (("compute_backend", some "slurmcern") ∷ [])
      ∷ none
      ∷ some (("compute_backend", some "kubernetes") ∷ ("kubernetes_memory_limit", some "1Gi") ∷ [])
      ∷ [];
  scatter = "file" ∷ [];
}

abbrev reduce_stage : StageInfo
reduce_stage = record {
  name = "reduce";
  dependencies = "map" ∷ [];
  parameters = [];
  resources = some (("compute_backend", some "htcondorcern") ∷ []) ∷ [];
  scatter = [];
}

abbrev two_stages : Stages
two_stages = stage map_stage no_stages (stage reduce_stage no_stages no_stages)

two_stages-estimate :
    estimate_yadage to_bytes "2Gi" (("files", some 4) ∷ []) two_stages ≡ (4, 1073741824) ∷ []
unfolding estimate_yadage parse_stages is_initial_stage put_stage get_stage_compute_backend
    get_memory_limit get_number_of_jobs get_step_backend lookup insert populate_parameters
    parse_params populate_complexity multiplied stages_complexity
two_stages-estimate = refl

abbrev map_only : Stages
map_only = stage map_stage no_stages no_stages

map_only-Allowed : Allowed limit to_bytes "1Gi" map_only
unfolding get_memory_limit lookup
map_only-Allowed = ((λ mem e p. ground (arith, e)), tt, tt)

estimate_yadage-accepted_example :
    validate_job_memory_limits limit
      (estimate_yadage to_bytes "1Gi" (("files", some 4) ∷ []) map_only)
    ≡ true
estimate_yadage-accepted_example =
    estimate_yadage-accepted limit to_bytes "1Gi" (("files", some 4) ∷ []) map_only map_only-Allowed

two_stages-backends :
    workflow_compute_backends 0 (yadage two_stages) ≡ some ("htcondorcern" ∷ "kubernetes" ∷ [])
unfolding workflow_compute_backends backends_of yadage_backends collect_stages
    get_stage_compute_backend get_step_backend lookup sorted_set
two_stages-backends = refl

workflow_compute_backends-yadage_example :
    count "htcondorcern" ("htcondorcern" ∷ "kubernetes" ∷ [])
    ≡ one_if (runs_on "htcondorcern" two_stages)
workflow_compute_backends-yadage_example =
    workflow_compute_backends-yadage 0 "htcondorcern" map_stage no_stages
      (stage reduce_stage no_stages no_stages) ("htcondorcern" ∷ "kubernetes" ∷ [])
      two_stages-backends

abbrev condor_step : Step
condor_step = record { compute_backend = some "htcondorcern"; kubernetes_memory_limit = none }

abbrev kube_step : Step
kube_step = record { compute_backend = none; kubernetes_memory_limit = none }

abbrev jobs : Dict (List String)
jobs = ("all", "fit" ∷ "plot" ∷ []) ∷ ("plot", "fit" ∷ []) ∷ ("fit", []) ∷ []

jobs-groups : filter_repeated_dependencies jobs jobs ≡ some (("plot" ∷ []) ∷ ("fit" ∷ []) ∷ [] ∷ [])
unfolding filter_repeated_dependencies subjob_deps difference lookup
jobs-groups = refl

jobs-estimate :
    estimate_snakemake to_bytes "1Gi" (("fit", kube_step) ∷ ("plot", condor_step) ∷ []) jobs
    ≡ record { jobs = 1; total = 1073741824; parts = 1 } ∷ []
unfolding estimate_snakemake filter_repeated_dependencies subjob_deps difference lookup items
    calculate_item count_jobs largest get_number_of_jobs get_memory_limit get_step_backend
jobs-estimate = refl

condor_steps-IsExternal : All IsExternal (("fit", condor_step) ∷ ("plot", condor_step) ∷ [])
unfolding get_number_of_jobs get_step_backend
condor_steps-IsExternal = (refl, (refl, tt))
