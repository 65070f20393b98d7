-- ===== src/Complexity/Memory.antt =====
-- reana_server/complexity.py: the limits on memory, read entry by entry.
use reana_server.Prelude.{
  ℕ, ◌≡◌, refl, ◌↔◌, ◌⊎◌, inl, inr, ◌≤◌, ◌<◌, true, List, [], ◌∷◌, All, arith,
}
use reana_server.Complexity.{
  Complexity, k8s_memories, max_of, min_of, validate_job_memory_limits, get_workflow_min_job_memory,
}

-- An entry that stands for jobs on Kubernetes has at most this memory.
abbrev pub Below : ℕ → ℕ × ℕ → Type 0
Below limit (jobs, mem) = 0 < jobs → mem ≤ limit

-- Some entry stands for jobs on Kubernetes with this memory.
abbrev pub Needs : ℕ → Complexity → Type 0
Needs mem [] = ⊥
Needs mem ((jobs, m) ∷ complexity) = ((0 < jobs) × (m ≡ mem)) ⊎ Needs mem complexity

abbrev AtMost : ℕ → ℕ → Type 0
AtMost limit n = n ≤ limit

List-cases : (ns : List ℕ) → (ns ≡ []) ⊎ ((m : ℕ) × (ms : List ℕ) × (ns ≡ m ∷ ms))
List-cases [] = inl refl
List-cases (n ∷ ns) = inr (n, ns, refl)

max_of_iff :
    (limit best : ℕ) (ns : List ℕ)
    → (max_of best ns ≤ limit) ↔ ((best ≤ limit) × All (AtMost limit) ns)
max_of_iff limit best [] = ground arith
max_of_iff limit best (n ∷ ns) = ground (arith, max_of_iff limit n ns, max_of_iff limit best ns)

k8s_memories-Below :
    (limit : ℕ) (complexity : Complexity)
    → All (AtMost limit) (k8s_memories complexity) ↔ All (Below limit) complexity
k8s_memories-Below limit [] = ground arith
k8s_memories-Below limit ((jobs, mem) ∷ complexity) =
    ground (arith, k8s_memories-Below limit complexity)

-- The memory of the jobs passes exactly when there is no limit (it is 0), or every entry
-- that stands for jobs on Kubernetes has at most the limit.
pub validate_job_memory_limits_iff :
    (limit : ℕ) (complexity : Complexity)
    → (validate_job_memory_limits limit complexity ≡ true)
      ↔ ((limit ≡ 0) ⊎ All (Below limit) complexity)
unfolding validate_job_memory_limits
validate_job_memory_limits_iff limit complexity = elim (List-cases (k8s_memories complexity)) [
  | inl empty ↦ ground (arith, empty, k8s_memories-Below limit complexity)
  | inr (n, ns, e) ↦ ground (arith, e, max_of_iff limit n ns, k8s_memories-Below limit complexity)
]

abbrev In : ℕ → List ℕ → Type 0
In n [] = ⊥
In n (m ∷ ns) = (m ≡ n) ⊎ In n ns

min_of-least : (best : ℕ) (ns : List ℕ) → (n : ℕ) → (n ≡ best) ⊎ In n ns → min_of best ns ≤ n
min_of-least best [] n h = ground arith
min_of-least best (m ∷ ns) n h = ground (
  arith,
  min_of-least m ns n,
  min_of-least best ns n,
  min_of-least m ns m (inl refl),
  min_of-least best ns best (inl refl),
)

min_of-In : (best : ℕ) (ns : List ℕ) → (min_of best ns ≡ best) ⊎ In (min_of best ns) ns
min_of-In best [] = inl refl
min_of-In best (n ∷ ns) = ground (arith, min_of-In n ns, min_of-In best ns)

k8s_memories_iff :
    (mem : ℕ) (complexity : Complexity) → In mem (k8s_memories complexity) ↔ Needs mem complexity
k8s_memories_iff mem [] = ground arith
k8s_memories_iff mem ((jobs, m) ∷ complexity) = ground (arith, k8s_memories_iff mem complexity)

-- The memory that admission asks for is that of one of the entries that stand for jobs on
-- Kubernetes and the least among them; it is 0 when there is none.
pub get_workflow_min_job_memory_lem :
    (complexity : Complexity)
    → ((get_workflow_min_job_memory complexity ≡ 0) × ((mem : ℕ) → Needs mem complexity → ⊥))
      ⊎ (Needs (get_workflow_min_job_memory complexity) complexity
          × ((mem : ℕ) → Needs mem complexity → get_workflow_min_job_memory complexity ≤ mem))
unfolding get_workflow_min_job_memory
get_workflow_min_job_memory_lem complexity = elim (List-cases (k8s_memories complexity)) [
  | inl empty ↦
      inl
        (ground (arith, empty), λ mem h. ground (arith, empty, k8s_memories_iff mem complexity, h))
  | inr (n, ns, e) ↦
      let least : get_workflow_min_job_memory complexity ≡ min_of n ns = ground (arith, e) in
      inr (
        ground (arith, e, least, min_of-In n ns, k8s_memories_iff (min_of n ns) complexity),
        λ mem h.
            ground (arith, e, least, h, k8s_memories_iff mem complexity, min_of-least n ns mem),
      )
]
