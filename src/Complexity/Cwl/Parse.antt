-- ===== src/Complexity/Cwl/Parse.antt =====
-- reana_server/complexity.py: parsing a CWL workflow. A result `none` is an exception.
use Prim.Native.String.{◌++◌ as append}
use reana_server.Prelude.{
  ℕ, String, Option, none, some, if◌then◌else◌, str_eq, List, [], ◌∷◌, ◌++◌, to_set,
}
use reana_server.Complexity.Hints.{get_step_hints, to_step}
use reana_server.Complexity.Serial.{get_number_of_jobs, get_memory_limit}
use reana_server.Complexity.Cwl.{
  Source, missing, text, several, Input, StepInfo, Process, process, Steps, done, named, inline,
  bare, Specification, graph, single,
}
use reana_server.Complexity.Cwl.Texts.{removed, split, but_last, last_of}
use reana_server.Complexity.Cwl.Tree.{Node, leaf, outer, Tree, nothing, put_node, update_tree}

-- `next(filter(lambda p: p["id"] == scatter, inputs), {}).get("source")`
abbrev pub source_of : String → List Input → Source
source_of scatter [] = missing
source_of scatter (i ∷ inputs) = if str_eq i.id scatter then i.source else source_of scatter inputs

abbrev pub last_part : Source → Option (Option String)
last_part missing = none
last_part several = none
last_part (text source) = some (some (last_of (split source)))

-- The parameter over which a step is scattered.
abbrev pub scatter_params : Option String → List Input → Option (Option String)
scatter_params none inputs = some none
scatter_params (some scatter) inputs =
    if str_eq scatter "" then some none else last_part (source_of scatter inputs)

-- The names of the steps in one source, where the workflow has an id.
abbrev pub parts_of : Option String → Source → Option (List String)
parts_of wid missing = some []
parts_of wid several = none
parts_of none (text source) = if str_eq source "" then some [] else none
parts_of (some id) (text source) =
    if str_eq source "" then some [] else some (but_last (split (removed 0 (append id "/") source)))

abbrev pub joined_parts : Option (List String) → Option (List String) → Option (List String)
joined_parts none later = none
joined_parts (some parts) none = none
joined_parts (some parts) (some later) = some (parts ++ later)

abbrev pub all_parts : Option String → List Input → Option (List String)
all_parts wid [] = some []
all_parts wid (i ∷ inputs) = joined_parts (parts_of wid i.source) (all_parts wid inputs)

-- `list(dependencies)`; its order is of no account
abbrev pub dependencies : Option (List String) → Option (List String)
dependencies none = none
dependencies (some parts) = some (to_set parts)

-- The nested workflow of a step: none, an exception, or a tree.
pub data Nested : Type 0 where
  absent : Nested
  wrong : Nested
  subtree : Tree → Nested

abbrev pub nested_of : Option Tree → Nested
nested_of none = wrong
nested_of (some t) = subtree t

abbrev pub node_of :
    Option ℕ → ℕ → Option (List String) → Option (Option String) → Nested → Option Node
node_of none jobs deps scatter nested = none
node_of (some mem) jobs none scatter nested = none
node_of (some mem) jobs (some deps) none nested = none
node_of (some mem) jobs (some deps) (some scatter) absent =
    some (leaf ((jobs, mem) ∷ []) deps scatter)
node_of (some mem) jobs (some deps) (some scatter) wrong = none
node_of (some mem) jobs (some deps) (some scatter) (subtree t) =
    some (outer ((jobs, mem) ∷ []) deps scatter t)

abbrev pub add_node : String → Option Node → Tree → Option Tree
add_node name none tree = none
add_node name (some node) tree = some (put_node name node tree)

abbrev pub updated : Option Tree → Tree → Option Tree
updated none tree = none
updated (some other) tree = some (update_tree tree other)

module _ (to_bytes : String → Option ℕ) (default : String) where
  -- One round of the loop of `_parse_steps`.
  abbrev pub parse_step : Option String → StepInfo → Nested → Tree → Option Tree
  parse_step wid step nested tree =
      let own = to_step (get_step_hints step.hints) in
      add_node step.id
        (node_of (get_memory_limit to_bytes default own) (get_number_of_jobs own)
          (dependencies (all_parts wid step.inputs)) (scatter_params step.scatter step.inputs)
          nested)
        tree

  unfoldable mutual
    -- `_parse_steps`
    pub parse : Process → Option Tree
    parse (process info steps) = parse_steps info.id steps (some nothing)

    -- The loop, after the steps before.
    pub parse_steps : Option String → Steps → Option Tree → Option Tree
    parse_steps wid steps none = none
    parse_steps wid done (some tree) = some tree
    parse_steps wid (named step run steps) (some tree) =
        parse_steps wid steps (parse_step wid step absent tree)
    parse_steps wid (inline step p steps) (some tree) =
        parse_steps wid steps (parse_step wid step (nested_of (parse p)) tree)
    parse_steps wid (bare step steps) (some tree) =
        parse_steps wid steps (parse_step wid step absent tree)

  -- `_parse_workflow`: an entry of the graph that is no object has no `get`.
  abbrev pub parse_graph : List (Option Process) → Option Tree → Option Tree
  parse_graph ps none = none
  parse_graph [] (some tree) = some tree
  parse_graph (none ∷ ps) (some tree) = none
  parse_graph (some p ∷ ps) (some tree) = parse_graph ps (updated (parse p) tree)

  unfoldable pub parse_workflow : Specification → Option Tree
  parse_workflow (graph ps) = parse_graph ps (some nothing)
  parse_workflow (single p) = parse p
