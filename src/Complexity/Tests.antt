-- ===== src/Complexity/Tests.antt =====
-- reana_server/complexity.py on concrete workflows.
use reana_server.Prelude.{ℕ, String, ◌≡◌, refl, Option, none, some, if◌then◌else◌, str_eq, [], ◌∷◌}
use reana_server.Complexity.{Complexity, get_workflow_min_job_memory}
use reana_server.Complexity.Serial.{
  Step, get_memory_limit, get_number_of_jobs, parse_steps, get_step_backend, estimate_serial,
}

abbrev complexity : Complexity
complexity = (8, 40) ∷ (0, 10) ∷ (5, 20) ∷ []

abbrev limit : ℕ
limit = 30

abbrev to_bytes : String → Option ℕ
to_bytes t = if str_eq t "1Gi" then some 1073741824 else none

abbrev step : Option String → Step
step backend = record { compute_backend = backend; kubernetes_memory_limit = none }

abbrev slurm : Step
slurm = step (some "slurm")

complexity_tests :
    (get_workflow_min_job_memory complexity ≡ 20)
    × (get_workflow_min_job_memory (estimate_serial to_bytes "1Gi" (slurm ∷ [])) ≡ 0)
    × (estimate_serial to_bytes "1Gi" (step none ∷ slurm ∷ []) ≡ (1, 1073741824) ∷ [])
unfolding get_workflow_min_job_memory estimate_serial parse_steps get_memory_limit
    get_number_of_jobs get_step_backend
complexity_tests = (refl, refl, refl)
