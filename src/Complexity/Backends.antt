-- ===== src/Complexity/Backends.antt =====
-- reana_server/complexity.py: the compute backends of a workflow, by its type.
use reana_server.Prelude.{
  contains-append, ℕ, ◌≡◌, ◌≢◌, refl, String, Bool, false, ◌||◌, Option, none, some, str_eq, List,
  [], ◌∷◌, ◌++◌, map, contains, count, one_if, sorted_set, count-sorted_set, arith,
}
use reana_server.Complexity.Serial.{Step, get_step_backend}
use reana_server.Complexity.Yadage.{
  Stages, done, stage, StageInfo, get_stage_compute_backend, collect_stages, yadage_backends,
}
use reana_server.Complexity.Cwl.{Specification, specification_backends}

-- A workflow, by its type.
pub data Workflow : Type 0 where
  serial : List Step → Workflow
  snakemake : List Step → Workflow
  yadage : Stages → Workflow
  cwl : Specification → Workflow
  -- a type without an estimator, or a specification that raises an exception
  unsupported : Workflow

-- `compute_backends` of a serial and of a Snakemake workflow
unfoldable pub steps_backends : List Step → List String
steps_backends [] = "kubernetes" ∷ []
steps_backends (step ∷ steps) = map get_step_backend (step ∷ steps)

-- `compute_backends`; `none` when the bound on nested calls is too small.
unfoldable pub backends_of : ℕ → Workflow → Option (List String)
backends_of n (serial steps) = some (steps_backends steps)
backends_of n (snakemake steps) = some (steps_backends steps)
backends_of n (yadage stages) = some (yadage_backends stages)
backends_of n (cwl specification) = specification_backends n specification
backends_of n unsupported = some []

abbrev or_kubernetes : List String → List String
or_kubernetes [] = "kubernetes" ∷ []
or_kubernetes (b ∷ bs) = sorted_set (b ∷ bs)

abbrev pub backends_or_kubernetes : Option (List String) → Option (List String)
backends_or_kubernetes none = none
backends_or_kubernetes (some bs) = some (or_kubernetes bs)

-- `workflow_compute_backends`
unfoldable pub workflow_compute_backends : ℕ → Workflow → Option (List String)
workflow_compute_backends n workflow = backends_or_kubernetes (backends_of n workflow)

-- Some stage without nested stages, at any depth, runs on the backend.
unfoldable pub runs_on : String → Stages → Bool
runs_on backend done = false
runs_on backend (stage s done stages) =
    str_eq (get_step_backend (get_stage_compute_backend s)) backend || runs_on backend stages
runs_on backend (stage s (stage t inner others) stages) =
    runs_on backend (stage t inner others) || runs_on backend stages

contains-collect_stages :
    (backend : String) (stages : Stages)
    → contains (collect_stages stages) backend ≡ runs_on backend stages
unfolding collect_stages runs_on
contains-collect_stages backend done = refl
contains-collect_stages backend (stage s done stages) =
    ground (arith, contains-collect_stages backend stages)
contains-collect_stages backend (stage s (stage t inner others) stages) = ground (
  arith,
  contains-append (collect_stages (stage t inner others)) (collect_stages stages) backend,
  contains-collect_stages backend (stage t inner others),
  contains-collect_stages backend stages,
)

append-none : (xs ys : List String) → xs ≢ [] → xs ++ ys ≢ []
append-none [] ys h e = h refl
append-none (x ∷ xs) ys h e = ground (arith, e)

collect_stages-none :
    (s : StageInfo) (nested stages : Stages) → collect_stages (stage s nested stages) ≢ []
unfolding collect_stages
collect_stages-none s done stages = λ e. ground (arith, e)
collect_stages-none s (stage t inner others) stages =
    append-none (collect_stages (stage t inner others)) (collect_stages stages)
      (collect_stages-none t inner others)

count-or_kubernetes :
    (backend : String) (found : List String)
    → found ≢ []
    → count backend (or_kubernetes found) ≡ one_if (contains found backend)
count-or_kubernetes backend [] h = absurd (h refl)
count-or_kubernetes backend (b ∷ bs) h = count-sorted_set backend (b ∷ bs)

-- A Yadage workflow with stages is classified with each backend on which some stage without nested
-- stages runs, at any depth, once, and with no other.
pub workflow_compute_backends-yadage :
    (n : ℕ) (backend : String) (s : StageInfo) (nested stages : Stages) (found : List String)
    → workflow_compute_backends n (yadage (stage s nested stages)) ≡ some found
    → count backend found ≡ one_if (runs_on backend (stage s nested stages))
unfolding workflow_compute_backends backends_of yadage_backends
workflow_compute_backends-yadage n backend s nested stages found h = ground (
  arith,
  h,
  contains-collect_stages backend (stage s nested stages),
  count-or_kubernetes backend (collect_stages (stage s nested stages))
      (collect_stages-none s nested stages),
)
