-- ===== src/Complexity/Yadage/Limits.antt =====
-- reana_server/complexity.py: a Yadage workflow whose stages stay below the limit on memory is accepted.
use reana_server.Prelude.{
  ℕ, String, true, ◌≡◌, refl, Option, none, some, str_eq, List, [], ◌∷◌, lookup, All, All-append,
  inl, inr, Bool-cases,
}
use reana_server.Complexity.{Complexity, validate_job_memory_limits}
use reana_server.Complexity.Memory.{Below, validate_job_memory_limits_iff}
use reana_server.Complexity.Serial.{get_number_of_jobs, get_memory_limit}
use reana_server.Complexity.Cwl.Bounds.{IfSome, left_positive}
use reana_server.Complexity.Yadage.{
  Value, StageInfo, Stages, done, stage, get_stage_compute_backend, memory_resource,
  is_initial_stage, Tree, nothing, entry, put_stage, Parsed, put_parsed, parse_stages, Lengths,
  or_zero, parse_params, populate_parameters, calculate_complexity, multiplied, nested_complexity,
  times_option, over_scatter, entry_with, over_nested, populate_complexity, populated, calculated,
  estimate_yadage,
}

module _ (limit : ℕ) where
  TreeBelow : {P : Type 0} → Tree P → Type 0
  TreeBelow nothing = Unit
  TreeBelow (entry name params complexity scatter nested tree) =
      All (Below limit) complexity × TreeBelow nested × TreeBelow tree

  put_stage-Below :
      {P : Type 0} (name : String) (params : P) (complexity : Complexity) (scatter : List String)
      (nested tree : Tree P)
      → All (Below limit) complexity
      → TreeBelow nested
      → TreeBelow tree
      → TreeBelow (put_stage name params complexity scatter nested tree)
  unfolding TreeBelow put_stage
  put_stage-Below name params complexity scatter nested nothing b n h = (b, n, h)
  put_stage-Below name params complexity scatter nested (entry n2 p c s old tree) b n (c2, o, h) =
      elim (Bool-cases (str_eq n2 name)) [
        | inl here ↦ rw here (b, n, h)
        | inr later ↦
            rw later (c2, o, put_stage-Below name params complexity scatter nested tree b n h)
      ]

  populate_parameters-Below :
      (parent : Lengths) (tree : Tree (List (String × Value)))
      → TreeBelow tree
      → TreeBelow (populate_parameters parent tree)
  unfolding TreeBelow populate_parameters
  populate_parameters-Below parent nothing h = tt
  populate_parameters-Below parent (entry name params complexity scatter nested tree) (b, n, h) = (
    b,
    populate_parameters-Below (parse_params parent params) nested n,
    populate_parameters-Below parent tree h,
  )

  calculate-Below :
      {P : Type 0} (tree : Tree P) → TreeBelow tree → All (Below limit) (calculate_complexity tree)
  unfolding TreeBelow calculate_complexity
  calculate-Below nothing h = tt
  calculate-Below (entry name params complexity scatter nested tree) (b, n, h) =
      All-append (Below limit) complexity _ b (calculate-Below tree h)

  multiplied-Below :
      (n : ℕ) (complexity : Complexity)
      → All (Below limit) complexity
      → All (Below limit) (multiplied n complexity)
  unfolding multiplied
  multiplied-Below n [] h = tt
  multiplied-Below n ((jobs, mem) ∷ complexity) (b, h) =
      (λ p. b (left_positive jobs n p), multiplied-Below n complexity h)

  times_option-Below :
      (n : Option ℕ) (complexity : Complexity)
      → All (Below limit) complexity
      → IfSome (All (Below limit)) (times_option n complexity)
  times_option-Below none complexity h = tt
  times_option-Below (some n) complexity h = multiplied-Below n complexity h

  over_scatter-Below :
      (params : Lengths) (scatter : List String) (complexity : Complexity)
      → All (Below limit) complexity
      → IfSome (All (Below limit)) (over_scatter params scatter complexity)
  over_scatter-Below params [] complexity h = h
  over_scatter-Below params (first ∷ others) complexity h =
      times_option-Below (or_zero (lookup first params)) complexity h

  nested-Below :
      (own : Complexity) (tree : Tree Lengths)
      → All (Below limit) own
      → TreeBelow tree
      → All (Below limit) (nested_complexity own tree)
  nested-Below own nothing h k = h
  nested-Below own (entry name params complexity scatter nested tree) h k =
      calculate-Below (entry name params complexity scatter nested tree) k

  entry_with-Below :
      (name : String) (params : Lengths) (scatter : List String) (c : Option Complexity)
      (nested : Tree Lengths) (later : Option (Tree Lengths))
      → IfSome (All (Below limit)) c
      → TreeBelow nested
      → IfSome TreeBelow later
      → IfSome TreeBelow (entry_with name params scatter c nested later)
  unfolding TreeBelow
  entry_with-Below name params scatter none nested later b n h = tt
  entry_with-Below name params scatter (some c) nested none b n h = tt
  entry_with-Below name params scatter (some c) nested (some later) b n h = (b, n, h)

  over_nested-Below :
      (name : String) (params : Lengths) (own : Complexity) (scatter : List String)
      (nested later : Option (Tree Lengths))
      → All (Below limit) own
      → IfSome TreeBelow nested
      → IfSome TreeBelow later
      → IfSome TreeBelow (over_nested name params own scatter nested later)
  over_nested-Below name params own scatter none later b n h = tt
  over_nested-Below name params own scatter (some nested) later b n h =
      entry_with-Below name params scatter
        (over_scatter params scatter (nested_complexity own nested)) nested later
        (over_scatter-Below params scatter _ (nested-Below own nested b n)) n h

  populate_complexity-Below :
      (tree : Tree Lengths) → TreeBelow tree → IfSome TreeBelow (populate_complexity tree)
  unfolding TreeBelow populate_complexity
  populate_complexity-Below nothing h = tt
  populate_complexity-Below (entry name params complexity scatter nested tree) (b, n, h) =
      over_nested-Below name params complexity scatter _ _ b (populate_complexity-Below nested n)
        (populate_complexity-Below tree h)

  module _ (to_bytes : String → Option ℕ) (default : String) where
    -- A stage on Kubernetes asks for at most the limit.
    abbrev pub Allows : StageInfo → Type 0
    Allows s =
        (mem : ℕ)
        → get_memory_limit to_bytes default (memory_resource s) ≡ some mem
        → Below limit (get_number_of_jobs (get_stage_compute_backend s), mem)

    abbrev pub Allowed : Stages → Type 0
    Allowed done = Unit
    Allowed (stage s nested stages) = Allows s × Allowed nested × Allowed stages

    put_parsed-Below :
        (s : StageInfo) (mem : Option ℕ) (nested : Parsed) (tree : Tree (List (String × Value)))
        → ((m : ℕ)
            → mem ≡ some m
            → Below limit (get_number_of_jobs (get_stage_compute_backend s), m))
        → IfSome TreeBelow nested
        → TreeBelow tree
        → IfSome TreeBelow (put_parsed s mem nested tree)
    put_parsed-Below s none nested tree a n h = tt
    put_parsed-Below s (some mem) none tree a n h = tt
    put_parsed-Below s (some mem) (some nested) tree a n h =
        put_stage-Below _ _ _ _ nested tree (a mem refl, tt) n h

    parse_stages-Below :
        (step : String) (stages : Stages) (tree : Parsed)
        → Allowed stages
        → IfSome TreeBelow tree
        → IfSome TreeBelow (parse_stages to_bytes default step stages tree)
    unfolding parse_stages TreeBelow
    parse_stages-Below step done none a h = tt
    parse_stages-Below step (stage s nested stages) none a h = tt
    parse_stages-Below step done (some tree) a h = h
    parse_stages-Below step (stage s nested stages) (some tree) (b, n, a) h =
        elim (Bool-cases (is_initial_stage step s)) [
          | inl initial ↦ rw initial (
              parse_stages-Below step stages _ a (
                put_parsed-Below s _ _ tree b (parse_stages-Below step nested (some nothing) n tt)
                  h))
          | inr later ↦ rw later (parse_stages-Below step stages (some tree) a h)
        ]

    calculated-Below :
        (tree : Option (Tree Lengths)) → IfSome TreeBelow tree → All (Below limit) (calculated tree)
    calculated-Below none h = tt
    calculated-Below (some tree) h = calculate-Below tree h

    populated-Below :
        (lengths : Lengths) (tree : Parsed)
        → IfSome TreeBelow tree
        → IfSome TreeBelow (populated lengths tree)
    populated-Below lengths none h = tt
    populated-Below lengths (some tree) h =
        populate_complexity-Below _ (populate_parameters-Below lengths tree h)

    -- A Yadage workflow is not refused for its memory, however its stages are nested and scattered, if
    -- each of its stages that runs on Kubernetes asks for at most the limit.
    pub estimate_yadage-accepted :
        (lengths : Lengths) (stages : Stages)
        → Allowed stages
        → validate_job_memory_limits limit (estimate_yadage to_bytes default lengths stages) ≡ true
    unfolding estimate_yadage TreeBelow
    estimate_yadage-accepted lengths stages a = (validate_job_memory_limits_iff limit _).1 (
        inr (
          calculated-Below _
            (populated-Below lengths _ (parse_stages-Below "init" stages (some nothing) a tt))))
