-- ===== src/Complexity/Snakemake.antt =====
-- reana_server/complexity.py: the estimate of Snakemake workflows. A memory that is divided is an
-- exact fraction here, and a floating-point number there. A result `none` is an exception.
pub mod External
use reana_server.Prelude.{
  ℕ, zero, suc, ◌+◌, ◌*◌, ◌≤◌, ◌<◌, ◌≡◌, ◌⊎◌, inl, inr, refl, String, Bool, true, false, ◌||◌, not,
  Option, none, some, if◌then◌else◌, str_eq, ◌==◌, ltb, List, [], ◌∷◌, ◌++◌, Dict, lookup, contains,
  to_set, arith,
}
use reana_server.Complexity.Serial.{Step, get_number_of_jobs, get_memory_limit}

-- The number of jobs and the memory, which is `total / parts`.
pub record Item : Type 0 where
  pub jobs : ℕ
  pub total : ℕ
  pub parts : ℕ

-- `memory_limit / jobs_count if jobs_count else 0`
abbrev pub item_of : ℕ → ℕ → Item
item_of zero total = record { jobs = 0; total = 0; parts = 1 }
item_of (suc n) total = record { jobs = suc n; total = total; parts = suc n }

-- `next(filter(lambda step: step["name"] == dep, spec_steps))`
abbrev pub step_named : String → List (String × Step) → Option Step
step_named name [] = none
step_named name ((n, step) ∷ steps) = if str_eq n name then some step else step_named name steps

-- The counts after a step with a number of jobs; its memory is only asked for when there are some.
abbrev pub count_when : ℕ → Option ℕ → ℕ → ℕ → Option (ℕ × ℕ)
count_when zero mem jobs total = some (jobs, total)
count_when (suc n) none jobs total = none
count_when (suc n) (some mem) jobs total = some (jobs + suc n, total + mem)

module _ (to_bytes : String → Option ℕ) (default : String) where
  -- The loop of `_calculate_complexity`, from the jobs and the memory so far.
  abbrev pub count_step : Option Step → ℕ → ℕ → Option (ℕ × ℕ)
  count_step none jobs total = none
  count_step (some step) jobs total =
      count_when (get_number_of_jobs step) (get_memory_limit to_bytes default step) jobs total

  unfoldable pub count_jobs : List (String × Step) → List String → Option (ℕ × ℕ) → Option (ℕ × ℕ)
  count_jobs steps deps none = none
  count_jobs steps [] (some counted) = some counted
  count_jobs steps (dep ∷ deps) (some (jobs, total)) =
      count_jobs steps deps (count_step (step_named dep steps) jobs total)

  abbrev pub item_from : Option (ℕ × ℕ) → Option Item
  item_from none = none
  item_from (some (jobs, total)) = some (item_of jobs total)

  -- `_calculate_complexity`
  unfoldable pub calculate_item : List (String × Step) → List String → Option Item
  calculate_item steps deps = item_from (count_jobs steps deps (some (0, 0)))

-- `set(deps).difference(...)`
unfoldable pub difference : List String → List String → List String
difference [] removed = []
difference (key ∷ keys) removed =
    let others = difference keys removed in if contains removed key then others else key ∷ others

abbrev both : Option (List String) → Option (List String) → Option (List String)
both none later = none
both (some xs) none = none
both (some xs) (some ys) = some (xs ++ ys)

-- The dependencies of the dependencies of a job; a job that is not known is a KeyError.
unfoldable pub subjob_deps : Dict (List String) → List String → Option (List String)
subjob_deps jobs [] = some []
subjob_deps jobs (dep ∷ deps) = both (lookup dep jobs) (subjob_deps jobs deps)

abbrev differ : List String → Option (List String) → Option (List String)
differ deps none = none
differ deps (some removed) = some (difference (to_set deps) removed)

abbrev add_deps : Option (List String) → Option (List (List String)) → Option (List (List String))
add_deps none later = none
add_deps (some deps) none = none
add_deps (some deps) (some later) = some (deps ∷ later)

-- `_filter_repeated_dependencies`, of some entries of the jobs
unfoldable pub filter_repeated_dependencies :
    Dict (List String) → Dict (List String) → Option (List (List String))
filter_repeated_dependencies jobs [] = some []
filter_repeated_dependencies jobs ((name, deps) ∷ entries) =
    add_deps (differ deps (subjob_deps jobs deps)) (filter_repeated_dependencies jobs entries)

-- `item[0] * item[1]` of one item is less than that of another
abbrev pub less : Item → Item → Bool
less a b = ltb (a.jobs * a.total * b.parts) (b.jobs * b.total * a.parts)

-- `max(complexity, key=...)`: the first of the largest items
unfoldable pub largest : Item → List Item → Item
largest best [] = best
largest best (item ∷ items) = if less best item then largest item items else largest best items

-- `_get_max_complexity`, where no items are a ValueError
abbrev pub max_complexity : List Item → List Item
max_complexity [] = []
max_complexity (item ∷ items) = largest item items ∷ []

abbrev pub max_or_none : Option (List Item) → List Item
max_or_none none = []
max_or_none (some items) = max_complexity items

abbrev pub add_item : Option Item → Option (List Item) → Option (List Item)
add_item none later = none
add_item (some item) none = none
add_item (some item) (some items) = some (item ∷ items)

module _ (to_bytes : String → Option ℕ) (default : String) (steps : List (String × Step)) where
  -- The loop of `estimate_complexity`.
  unfoldable pub items : List (List String) → Option (List Item)
  items [] = some []
  items ([] ∷ groups) = items groups
  items ((dep ∷ deps) ∷ groups) =
      add_item (calculate_item to_bytes default steps (dep ∷ deps)) (items groups)

  abbrev pub items_of : Option (List (List String)) → Option (List Item)
  items_of none = none
  items_of (some groups) = items groups

  -- `estimate_complexity`: an exception gives the empty complexity.
  unfoldable pub estimate_snakemake : Dict (List String) → List Item
  estimate_snakemake jobs = max_or_none (items_of (filter_repeated_dependencies jobs jobs))
