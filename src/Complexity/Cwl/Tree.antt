-- ===== src/Complexity/Cwl/Tree.antt =====
-- reana_server/complexity.py: the parsed steps of a CWL workflow.
use reana_server.Prelude.{
  String, Bool, true, false, ◌||◌, Option, if◌then◌else◌, str_eq, List, [], ◌∷◌, ◌++◌,
}
use reana_server.Complexity.{Complexity}

mutual
  -- A step of the parsed tree, without its parameters: the last is its nested workflow, if it has one.
  pub data Node : Type 0 where
    leaf : Complexity → List String → Option String → Node
    outer : Complexity → List String → Option String → Tree → Node

  -- A dict of steps.
  pub data Tree : Type 0 where
    nothing : Tree
    entry : String → Node → Tree → Tree

-- `tree[name] = node`
unfoldable pub put_node : String → Node → Tree → Tree
put_node name node nothing = entry name node nothing
put_node name node (entry n old tree) =
    let later = put_node name node tree in
    if str_eq n name then entry n node tree else entry n old later

-- `tree.update(other)`
unfoldable pub update_tree : Tree → Tree → Tree
update_tree tree nothing = tree
update_tree tree (entry name node other) = update_tree (put_node name node tree) other

abbrev pub complexity_of : Node → Complexity
complexity_of (leaf complexity dependencies scatter) = complexity
complexity_of (outer complexity dependencies scatter tree) = complexity

abbrev pub dependencies_of : Node → List String
dependencies_of (leaf complexity dependencies scatter) = dependencies
dependencies_of (outer complexity dependencies scatter tree) = dependencies

-- `dependencies == [initial_step]`
abbrev pub only : List String → String → Bool
only [] step = false
only (d ∷ []) step = str_eq d step
only (d ∷ e ∷ ds) step = false

abbrev pub is_nil : List String → Bool
is_nil [] = true
is_nil (d ∷ ds) = false

-- `_filter_initial_steps`
unfoldable pub filter_initial_steps : String → Tree → Tree
filter_initial_steps step nothing = nothing
filter_initial_steps step (entry name node tree) =
    let later = filter_initial_steps step tree in
    if only (dependencies_of node) step
      || (if str_eq step "init" then is_nil (dependencies_of node) else false)
    then entry name node later
    else later

-- `_calculate_complexity`
unfoldable pub calculate_complexity : Tree → Complexity
calculate_complexity nothing = []
calculate_complexity (entry name node tree) = complexity_of node ++ calculate_complexity tree
