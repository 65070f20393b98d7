-- ===== src/Complexity/Yadage.antt =====
-- reana_server/complexity.py: the estimate of Yadage workflows and their compute backends. A result
-- `none` is an exception.
pub mod Limits
use reana_server.Prelude.{
  ℕ, zero, suc, ◌*◌, String, Bool, true, false, ◌||◌, ◌&&◌, not, Option, none, some, if◌then◌else◌,
  str_eq, ◌==◌, List, [], ◌∷◌, ◌++◌, Dict, lookup, insert, is_some,
}
use reana_server.Complexity.{Complexity}
use reana_server.Complexity.Hints.{to_step}
use reana_server.Complexity.Serial.{Step, get_step_backend, get_number_of_jobs, get_memory_limit}

-- What is read of the value of a parameter: the length of a list, the `output` of a step or "", or
-- any other value.
pub data Value : Type 0 where
  values : ℕ → Value
  output : String → Value
  scalar : Value

-- What a stage has beside its nested stages. Resources that are no object are `none`; a scatter with a
-- method other than `zip` is like none.
pub record StageInfo : Type 0 where
  pub name : String
  pub dependencies : List String
  pub parameters : List (String × Value)
  pub resources : List (Option (Dict (Option String)))
  pub scatter : List String

-- A list of stages: the first, the stages nested in it, and the rest.
pub data Stages : Type 0 where
  done : Stages
  stage : StageInfo → Stages → Stages → Stages

abbrev declares : String → Dict (Option String) → Bool
declares key resource = is_some (lookup key resource)

abbrev is_given : Option (Option String) → Bool
is_given none = false
is_given (some none) = false
is_given (some (some t)) = true

-- `next(filter(...), {})` of the resources in their order, and of the reversed ones
abbrev first_resource :
    (Dict (Option String) → Bool) → List (Option (Dict (Option String))) → Dict (Option String)
first_resource test [] = []
first_resource test (none ∷ rs) = first_resource test rs
first_resource test (some r ∷ rs) = if test r then r else first_resource test rs

abbrev last_resource :
    (Dict (Option String) → Bool)
    → Dict (Option String)
    → List (Option (Dict (Option String)))
    → Dict (Option String)
last_resource test found [] = found
last_resource test found (none ∷ rs) = last_resource test found rs
last_resource test found (some r ∷ rs) = last_resource test (if test r then r else found) rs

-- `_get_stage_compute_backend`
unfoldable pub get_stage_compute_backend : StageInfo → Step
get_stage_compute_backend s =
    to_step (last_resource (λ r. is_given (lookup "compute_backend" r)) [] s.resources)

-- The resource whose memory limit is read.
abbrev pub memory_resource : StageInfo → Step
memory_resource s = to_step (first_resource (declares "kubernetes_memory_limit") s.resources)

abbrev is_only : List String → String → Bool
is_only [] step = false
is_only (d ∷ []) step = str_eq d step
is_only (d ∷ e ∷ ds) step = false

abbrev is_empty : List String → Bool
is_empty [] = true
is_empty (d ∷ ds) = false

-- `_is_initial_stage`
unfoldable pub is_initial_stage : String → StageInfo → Bool
is_initial_stage step s =
    is_only s.dependencies step || (str_eq step "init" && is_empty s.dependencies)

-- A dict of parsed stages: the name of the first, its parameters, complexity and scatter, its nested
-- stages, and the rest.
pub data Tree (P : Type 0) : Type 0 where
  nothing : Tree P
  entry : String → P → Complexity → List String → Tree P → Tree P → Tree P

-- `tree[name] = ...`
unfoldable pub put_stage :
    {P : Type 0} → String → P → Complexity → List String → Tree P → Tree P → Tree P
put_stage name params complexity scatter nested nothing =
    entry name params complexity scatter nested nothing
put_stage name params complexity scatter nested (entry n p c s old tree) =
    let later = put_stage name params complexity scatter nested tree in
    if str_eq n name then entry n params complexity scatter nested tree else entry n p c s old later

abbrev pub Parsed : Type 0
Parsed = Option (Tree (List (String × Value)))

abbrev pub put_parsed : StageInfo → Option ℕ → Parsed → Tree (List (String × Value)) → Parsed
put_parsed s none nested tree = none
put_parsed s (some mem) none tree = none
put_parsed s (some mem) (some nested) tree = some (
    put_stage s.name s.parameters ((get_number_of_jobs (get_stage_compute_backend s), mem) ∷ [])
      s.scatter nested tree)

module _ (to_bytes : String → Option ℕ) (default : String) where
  -- `_parse_stages` of `_parse_steps`, after the stages before
  unfoldable pub parse_stages : String → Stages → Parsed → Parsed
  parse_stages step stages none = none
  parse_stages step done (some tree) = some tree
  parse_stages step (stage s nested stages) (some tree) =
      let skipped = parse_stages step stages (some tree) in
      let parsed = parse_stages step stages (
        put_parsed s (get_memory_limit to_bytes default (memory_resource s))
          (parse_stages step nested (some nothing)) tree) in
      if is_initial_stage step s then parsed else skipped

-- The lengths of the values of parameters; `none` is a value that has no length.
abbrev pub Lengths : Type 0
Lengths = Dict (Option ℕ)

abbrev pub or_zero : Option (Option ℕ) → Option ℕ
or_zero none = some 0
or_zero (some n) = n

abbrev length_of : Lengths → Value → Option ℕ
length_of parent (values n) = some n
length_of parent (output name) = or_zero (lookup name parent)
length_of parent scalar = some 1

-- `_parse_params`
unfoldable pub parse_params : Lengths → List (String × Value) → Lengths
parse_params parent [] = parent
parse_params parent ((key, value) ∷ params) =
    parse_params (insert key (length_of parent value) parent) params

-- `_populate_parameters`
unfoldable pub populate_parameters : Lengths → Tree (List (String × Value)) → Tree Lengths
populate_parameters parent nothing = nothing
populate_parameters parent (entry name params complexity scatter nested tree) =
    let own = parse_params parent params in
    entry name own complexity scatter (populate_parameters own nested)
      (populate_parameters parent tree)

-- `_calculate_complexity`
unfoldable pub calculate_complexity : {P : Type 0} → Tree P → Complexity
calculate_complexity nothing = []
calculate_complexity (entry name params complexity scatter nested tree) =
    complexity ++ calculate_complexity tree

unfoldable pub multiplied : ℕ → Complexity → Complexity
multiplied n [] = []
multiplied n ((jobs, mem) ∷ complexity) = (jobs * n, mem) ∷ multiplied n complexity

abbrev pub nested_complexity : Complexity → Tree Lengths → Complexity
nested_complexity own nothing = own
nested_complexity own (entry name params complexity scatter nested tree) =
    calculate_complexity (entry name params complexity scatter nested tree)

abbrev pub times_option : Option ℕ → Complexity → Option Complexity
times_option none complexity = none
times_option (some n) complexity = some (multiplied n complexity)

-- The complexity of a stage after the scatter.
abbrev pub over_scatter : Lengths → List String → Complexity → Option Complexity
over_scatter params [] complexity = some complexity
over_scatter params (first ∷ others) complexity =
    times_option (or_zero (lookup first params)) complexity

abbrev pub entry_with :
    String
    → Lengths
    → List String
    → Option Complexity
    → Tree Lengths
    → Option (Tree Lengths)
    → Option (Tree Lengths)
entry_with name params scatter none nested later = none
entry_with name params scatter (some complexity) nested none = none
entry_with name params scatter (some complexity) nested (some later) =
    some (entry name params complexity scatter nested later)

abbrev pub over_nested :
    String
    → Lengths
    → Complexity
    → List String
    → Option (Tree Lengths)
    → Option (Tree Lengths)
    → Option (Tree Lengths)
over_nested name params own scatter none later = none
over_nested name params own scatter (some nested) later =
    entry_with name params scatter (over_scatter params scatter (nested_complexity own nested))
      nested later

-- `_populate_complexity`
unfoldable pub populate_complexity : Tree Lengths → Option (Tree Lengths)
populate_complexity nothing = some nothing
populate_complexity (entry name params complexity scatter nested tree) =
    over_nested name params complexity scatter (populate_complexity nested)
      (populate_complexity tree)

abbrev pub populated : Lengths → Parsed → Option (Tree Lengths)
populated lengths none = none
populated lengths (some tree) = populate_complexity (populate_parameters lengths tree)

abbrev pub calculated : Option (Tree Lengths) → Complexity
calculated none = []
calculated (some tree) = calculate_complexity tree

-- `estimate_complexity`: an exception gives the empty complexity.
unfoldable pub estimate_yadage : (String → Option ℕ) → String → Lengths → Stages → Complexity
estimate_yadage to_bytes default lengths stages =
    calculated (populated lengths (parse_stages to_bytes default "init" stages (some nothing)))

abbrev pub has_stages : Stages → Bool
has_stages done = false
has_stages (stage s nested stages) = true

-- `_collect_stages`
unfoldable pub collect_stages : Stages → List String
collect_stages done = []
collect_stages (stage s nested stages) =
    let inner = collect_stages nested in
    let later = collect_stages stages in
    (if has_stages nested then inner else get_step_backend (get_stage_compute_backend s) ∷ [])
    ++ later

-- `compute_backends`
unfoldable pub yadage_backends : Stages → List String
yadage_backends stages =
    let found = collect_stages stages in if has_stages stages then found else "kubernetes" ∷ []
