-- ===== src/Complexity/Cwl/Estimate.antt =====
-- reana_server/complexity.py: the estimate of CWL workflows. A result `none` is an exception.
use reana_server.Prelude.{
  ℕ, zero, suc, ◌*◌, String, Option, none, some, if◌then◌else◌, str_eq, List, [], ◌∷◌, Dict, lookup,
}
use reana_server.Complexity.{Complexity}
use reana_server.Complexity.Cwl.{Specification}
use reana_server.Complexity.Cwl.Parse.{parse_workflow}
use reana_server.Complexity.Cwl.Tree.{
  Node, leaf, outer, Tree, nothing, entry, filter_initial_steps, calculate_complexity,
}

-- `[(item[0] * param_len, item[1]) for item in complexity]`
unfoldable pub scattered : ℕ → Complexity → Complexity
scattered n [] = []
scattered n ((jobs, mem) ∷ complexity) = (jobs * n, mem) ∷ scattered n complexity

-- The complexity of a step after the scatter: without values of the parameter it stays `own`, what it
-- was at first.
abbrev pub with_scatter : Complexity → Complexity → Option ℕ → Option Complexity
with_scatter own complexity none = none
with_scatter own complexity (some zero) = some own
with_scatter own complexity (some (suc n)) = some (scattered (suc n) complexity)

abbrev pub leaf_with : Option Complexity → List String → Option String → Option Node
leaf_with none deps scatter = none
leaf_with (some complexity) deps scatter = some (leaf complexity deps scatter)

abbrev pub outer_with : Option Complexity → List String → Option String → Tree → Option Node
outer_with none deps scatter tree = none
outer_with (some complexity) deps scatter tree = some (outer complexity deps scatter tree)

abbrev pub nested_complexity : Complexity → Tree → Complexity
nested_complexity own nothing = own
nested_complexity own (entry name node tree) =
    calculate_complexity (filter_initial_steps "init" (entry name node tree))

abbrev pub entry_with : String → Option Node → Option Tree → Option Tree
entry_with name none later = none
entry_with name (some node) none = none
entry_with name (some node) (some later) = some (entry name node later)

-- The lengths of the values of the input parameters; `none` is a value that has no length.
module _ (lengths : Dict (Option ℕ)) where
  -- `len(self.input_params.get(name, []))`
  abbrev pub length_of : Option (Option ℕ) → Option ℕ
  length_of none = some 0
  length_of (some n) = n

  abbrev pub scatter_over : Option String → Complexity → Complexity → Option Complexity
  scatter_over none own complexity = some complexity
  scatter_over (some p) own complexity =
      if str_eq p ""
      then some complexity
      else with_scatter own complexity (length_of (lookup p lengths))

  abbrev pub outer_over : Complexity → List String → Option String → Option Tree → Option Node
  outer_over own deps scatter none = none
  outer_over own deps scatter (some tree) =
      outer_with (scatter_over scatter own (nested_complexity own tree)) deps scatter tree

  -- `_populate_complexity`
  unfoldable mutual
    pub populate_node : Node → Option Node
    populate_node (leaf own deps scatter) = leaf_with (scatter_over scatter own own) deps scatter
    populate_node (outer own deps scatter tree) = outer_over own deps scatter (populate tree)

    pub populate : Tree → Option Tree
    populate nothing = some nothing
    populate (entry name node tree) = entry_with name (populate_node node) (populate tree)

abbrev pub filtered : Option Tree → Complexity
filtered none = []
filtered (some tree) = calculate_complexity (filter_initial_steps "init" tree)

abbrev pub populated : Dict (Option ℕ) → Option Tree → Option Tree
populated lengths none = none
populated lengths (some tree) = populate lengths tree

-- `estimate_complexity`: an exception gives the empty complexity. `_populate_dependencies` changes
-- nothing, since no parsed step keeps the text of its `run`.
unfoldable pub estimate_cwl :
    (String → Option ℕ) → String → Dict (Option ℕ) → Specification → Complexity
estimate_cwl to_bytes default lengths specification =
    filtered (populated lengths (parse_workflow to_bytes default specification))
