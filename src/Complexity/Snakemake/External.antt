-- ===== src/Complexity/Snakemake/External.antt =====
-- reana_server/complexity.py: Snakemake workflows on external backends.
use reana_server.Prelude.{
  ℕ, zero, suc, ◌≡◌, refl, String, Option, none, some, str_eq, List, [], ◌∷◌, Dict, All, arith, inl,
  inr, Bool-cases,
}
use reana_server.Complexity.Serial.{Step, get_memory_limit, get_number_of_jobs}
use reana_server.Complexity.Snakemake.{
  Item, step_named, count_jobs, count_step, count_when, item_from, calculate_item,
  filter_repeated_dependencies, less, largest, max_or_none, add_item, items, items_of,
  estimate_snakemake,
}

abbrev pub IsExternal : String × Step → Type 0
IsExternal (name, step) = get_number_of_jobs step ≡ 0

-- No jobs on Kubernetes, and no memory.
abbrev pub IsZero : Item → Type 0
IsZero item = (item.jobs ≡ 0) × (item.total ≡ 0)

abbrev AllIn : {A : Type 0} → (A → Type 0) → Option A → Type 0
AllIn P none = Unit
AllIn P (some a) = P a

abbrev Nothing : ℕ × ℕ → Type 0
Nothing (jobs, total) = (jobs ≡ 0) × (total ≡ 0)

abbrev NoJobs : Step → Type 0
NoJobs step = get_number_of_jobs step ≡ 0

step_named-NoJobs :
    (name : String) (steps : List (String × Step))
    → All IsExternal steps
    → AllIn NoJobs (step_named name steps)
step_named-NoJobs name [] h = tt
step_named-NoJobs name ((n, step) ∷ steps) (e, h) = elim (Bool-cases (str_eq n name)) [
  | inl here ↦ rw here e
  | inr later ↦ rw later (step_named-NoJobs name steps h)
]

module _ (to_bytes : String → Option ℕ) (default : String) (steps : List (String × Step))
    (external : All IsExternal steps) where
  count_when-Nothing :
      (n : ℕ) (mem : Option ℕ) (jobs total : ℕ)
      → n ≡ 0
      → Nothing (jobs, total)
      → AllIn Nothing (count_when n mem jobs total)
  count_when-Nothing zero mem jobs total e h = h
  count_when-Nothing (suc n) mem jobs total e h = absurd (omega (arith, e))

  count_step-Nothing :
      (step : Option Step) (jobs total : ℕ)
      → AllIn NoJobs step
      → Nothing (jobs, total)
      → AllIn Nothing (count_step to_bytes default step jobs total)
  count_step-Nothing none jobs total e h = tt
  count_step-Nothing (some step) jobs total e h =
      count_when-Nothing (get_number_of_jobs step) (get_memory_limit to_bytes default step) jobs
        total e h

  count_jobs-Nothing :
      (deps : List String) (counted : Option (ℕ × ℕ))
      → AllIn Nothing counted
      → AllIn Nothing (count_jobs to_bytes default steps deps counted)
  unfolding count_jobs
  count_jobs-Nothing [] none h = tt
  count_jobs-Nothing (dep ∷ deps) none h = tt
  count_jobs-Nothing [] (some counted) h = h
  count_jobs-Nothing (dep ∷ deps) (some (jobs, total)) h = count_jobs-Nothing deps _ (
      count_step-Nothing (step_named dep steps) jobs total (step_named-NoJobs dep steps external) h)

  item_from-IsZero :
      (counted : Option (ℕ × ℕ))
      → AllIn Nothing counted
      → AllIn IsZero (item_from to_bytes default counted)
  item_from-IsZero none h = tt
  item_from-IsZero (some (zero, total)) h = (refl, refl)
  item_from-IsZero (some (suc n, total)) h = h

  calculate_item-IsZero :
      (deps : List String) → AllIn IsZero (calculate_item to_bytes default steps deps)
  unfolding calculate_item
  calculate_item-IsZero deps =
      item_from-IsZero _ (count_jobs-Nothing deps (some (0, 0)) (refl, refl))

  add_item-IsZero :
      (item : Option Item) (later : Option (List Item))
      → AllIn IsZero item
      → AllIn (All IsZero) later
      → AllIn (All IsZero) (add_item item later)
  add_item-IsZero none later h k = tt
  add_item-IsZero (some item) none h k = tt
  add_item-IsZero (some item) (some later) h k = (h, k)

  items-IsZero :
      (groups : List (List String)) → AllIn (All IsZero) (items to_bytes default steps groups)
  unfolding items
  items-IsZero [] = tt
  items-IsZero ([] ∷ groups) = items-IsZero groups
  items-IsZero ((dep ∷ deps) ∷ groups) =
      add_item-IsZero _ _ (calculate_item-IsZero (dep ∷ deps)) (items-IsZero groups)

  items_of-IsZero :
      (groups : Option (List (List String)))
      → AllIn (All IsZero) (items_of to_bytes default steps groups)
  items_of-IsZero none = tt
  items_of-IsZero (some groups) = items-IsZero groups

  largest-IsZero :
      (best : Item) (rest : List Item) → IsZero best → All IsZero rest → IsZero (largest best rest)
  unfolding largest
  largest-IsZero best [] h k = h
  largest-IsZero best (item ∷ rest) h (z, k) = elim (Bool-cases (less best item)) [
    | inl more ↦ rw more (largest-IsZero item rest z k)
    | inr not_more ↦ rw not_more (largest-IsZero best rest h k)
  ]

  max_or_none-IsZero :
      (found : Option (List Item)) → AllIn (All IsZero) found → All IsZero (max_or_none found)
  max_or_none-IsZero none h = tt
  max_or_none-IsZero (some []) h = tt
  max_or_none-IsZero (some (item ∷ rest)) (z, h) = (largest-IsZero item rest z h, tt)

  -- A Snakemake workflow whose steps all run on external backends needs no jobs and no memory on
  -- Kubernetes.
  pub estimate_snakemake-external :
      (jobs : Dict (List String)) → All IsZero (estimate_snakemake to_bytes default steps jobs)
  unfolding estimate_snakemake
  estimate_snakemake-external jobs =
      max_or_none-IsZero _ (items_of-IsZero (filter_repeated_dependencies jobs jobs))
