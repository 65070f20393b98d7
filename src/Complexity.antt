-- ===== src/Complexity.antt =====
-- reana_server/complexity.py: what a complexity says of the memory of the first jobs, and the
-- estimate of serial workflows. A memory is a number of bytes.
pub mod Serial
pub mod Memory
pub mod Hints
pub mod Cwl
pub mod Yadage
pub mod Snakemake
pub mod Backends
mod Tests
mod Workflows
use reana_server.Prelude.{
  ℕ, String, ◌≡◌, Bool, true, false, Option, none, some, ◌&&◌, ltb, leb, if◌then◌else◌, List, [],
  ◌∷◌, ◌==◌,
}

-- For each first step: its number of Kubernetes jobs and the memory of each.
abbrev pub Complexity : Type 0
Complexity = List (ℕ × ℕ)

-- `[mem for jobs, mem in complexity if jobs > 0]`
abbrev pub k8s_memories : Complexity → List ℕ
k8s_memories [] = []
k8s_memories ((jobs, mem) ∷ complexity) =
    let others = k8s_memories complexity in if ltb 0 jobs then mem ∷ others else others

-- `max` and `min` of a list, from its first entry on
abbrev pub max_of : ℕ → List ℕ → ℕ
max_of best [] = best
max_of best (n ∷ ns) = if ltb best n then max_of n ns else max_of best ns

abbrev pub min_of : ℕ → List ℕ → ℕ
min_of best [] = best
min_of best (n ∷ ns) = if ltb n best then min_of n ns else min_of best ns

abbrev within : ℕ → List ℕ → Bool
within limit [] = true
within limit (n ∷ ns) = if ltb 0 limit && ltb limit (max_of n ns) then false else true

-- `validate_job_memory_limits`: `false` is REANAKubernetesMemoryLimitExceeded; a limit that is not set
-- is 0.
unfoldable pub validate_job_memory_limits : ℕ → Complexity → Bool
validate_job_memory_limits limit complexity = within limit (k8s_memories complexity)

abbrev min_or_zero : List ℕ → ℕ
min_or_zero [] = 0
min_or_zero (n ∷ ns) = min_of n ns

-- `get_workflow_min_job_memory`
unfoldable pub get_workflow_min_job_memory : Complexity → ℕ
get_workflow_min_job_memory complexity = min_or_zero (k8s_memories complexity)
