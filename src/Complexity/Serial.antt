-- ===== src/Complexity/Serial.antt =====
-- reana_server/complexity.py: the estimate of a serial workflow.
use reana_server.Prelude.{
  ℕ, String, ◌≡◌, refl, inl, inr, ◌≢◌, Option, none, some, if◌then◌else◌, str_eq, List, [], ◌∷◌,
  All, arith, Option-cases,
}
use reana_server.Complexity.{Complexity, get_workflow_min_job_memory}

-- The fields of a step that are read.
pub record Step : Type 0 where
  pub compute_backend : Option String
  pub kubernetes_memory_limit : Option String

-- `value or default` of a text
abbrev filled_or : Option String → String → String
filled_or none default = default
filled_or (some t) default = if str_eq t "" then default else t

-- `_get_step_backend`
unfoldable pub get_step_backend : Step → String
get_step_backend step = filled_or step.compute_backend "kubernetes"

-- `_get_number_of_jobs`
unfoldable pub get_number_of_jobs : Step → ℕ
get_number_of_jobs step = if str_eq (get_step_backend step) "kubernetes" then 1 else 0

-- `to_bytes` is `kubernetes_memory_to_bytes` of reana-commons, where `none` is an exception;
-- `default` is the configured limit.
module _ (to_bytes : String → Option ℕ) (default : String) where
  -- `_get_memory_limit`
  unfoldable pub get_memory_limit : Step → Option ℕ
  get_memory_limit step = to_bytes (filled_or step.kubernetes_memory_limit default)

  abbrev with_step : Step → Option ℕ → Option (List Complexity) → Option (List Complexity)
  with_step step none tree = none
  with_step step (some mem) none = none
  with_step step (some mem) (some tree) = some (((get_number_of_jobs step, mem) ∷ []) ∷ tree)

  -- `_parse_steps` of a serial workflow, without the names
  unfoldable pub parse_steps : List Step → Option (List Complexity)
  parse_steps [] = some []
  parse_steps (step ∷ steps) = with_step step (get_memory_limit step) (parse_steps steps)

  -- `parse_specification("init")`, then `_calculate_complexity`: the first step
  abbrev first : List Complexity → Complexity
  first [] = []
  first (c ∷ tree) = c

  -- `estimate_complexity`: any exception gives the empty complexity.
  unfoldable pub estimate_serial : List Step → Complexity
  estimate_serial steps = elim (parse_steps steps) [ none ↦ [] | some tree ↦ first tree ]

  -- The memory limit of a step can be read.
  abbrev pub IsReadable : Step → Type 0
  IsReadable step = get_memory_limit step ≢ none

  parse_steps-some :
      (steps : List Step)
      → All IsReadable steps
      → (tree : List Complexity) × (parse_steps steps ≡ some tree)
  unfolding parse_steps
  parse_steps-some [] h = ([], refl)
  parse_steps-some (step ∷ steps) (r, h) =
      let (tree, e) = parse_steps-some steps h in
      elim (Option-cases (get_memory_limit step)) [
        | inl bad ↦ absurd (r bad)
        | inr (mem, good) ↦ (((get_number_of_jobs step, mem) ∷ []) ∷ tree, ground (arith, e, good))
      ]

  -- Admission of a serial workflow asks for the memory of its first step: if the limits of all
  -- steps can be read, the least memory of its complexity is the limit of the first step, where that
  -- runs on Kubernetes, and 0, where it runs on another backend.
  pub estimate_serial-min_job_memory :
      (step : Step) (steps : List Step) (mem : ℕ)
      → All IsReadable steps
      → get_memory_limit step ≡ some mem
      → get_workflow_min_job_memory (estimate_serial (step ∷ steps))
        ≡ (if str_eq (get_step_backend step) "kubernetes" then mem else 0)
  unfolding estimate_serial parse_steps get_workflow_min_job_memory get_number_of_jobs
  estimate_serial-min_job_memory step steps mem h good =
      let (tree, e) = parse_steps-some steps h in ground (arith, e, good)
