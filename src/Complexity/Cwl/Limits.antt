-- ===== src/Complexity/Cwl/Limits.antt =====
-- reana_server/complexity.py: a CWL workflow whose steps stay below the limit on memory is accepted.
use reana_server.Prelude.{
  ℕ, String, true, ◌≡◌, refl, Option, none, some, List, [], ◌∷◌, Dict, All, inr,
}
use reana_server.Complexity.{validate_job_memory_limits}
use reana_server.Complexity.Memory.{Below, validate_job_memory_limits_iff}
use reana_server.Complexity.Hints.{get_step_hints, to_step}
use reana_server.Complexity.Serial.{get_number_of_jobs, get_memory_limit}
use reana_server.Complexity.Cwl.{
  Process, process, StepInfo, Steps, done, named, inline, bare, Specification, graph, single,
}
use reana_server.Complexity.Cwl.Tree.{Node, Tree, nothing}
use reana_server.Complexity.Cwl.Parse.{
  parse, parse_steps, parse_step, parse_graph, parse_workflow, Nested, absent, wrong, subtree,
  nested_of, node_of, add_node, updated,
}
use reana_server.Complexity.Cwl.Estimate.{estimate_cwl, filtered, populated}
use reana_server.Complexity.Cwl.Bounds.{
  IfSome, NodeBelow, TreeBelow, put_node-Below, update_tree-Below, filter-Below, calculate-Below,
  populate-Below,
}

module _ (limit : ℕ) (to_bytes : String → Option ℕ) (default : String) where
  -- A step of a tool on Kubernetes asks for at most the limit.
  abbrev pub Allows : StepInfo → Type 0
  Allows step =
      let own = to_step (get_step_hints step.hints) in
      (mem : ℕ)
      → get_memory_limit to_bytes default own ≡ some mem
      → Below limit (get_number_of_jobs own, mem)

  unfoldable mutual
    pub Allowed : Process → Type 0
    Allowed (process info steps) = AllowedSteps steps

    pub AllowedSteps : Steps → Type 0
    AllowedSteps done = Unit
    AllowedSteps (named step run steps) = Allows step × AllowedSteps steps
    AllowedSteps (inline step p steps) = Allows step × Allowed p × AllowedSteps steps
    AllowedSteps (bare step steps) = Allows step × AllowedSteps steps

  abbrev NestedBelow : Nested → Type 0
  NestedBelow absent = Unit
  NestedBelow wrong = Unit
  NestedBelow (subtree tree) = TreeBelow limit tree

  nested_of-Below :
      (tree : Option Tree) → IfSome (TreeBelow limit) tree → NestedBelow (nested_of tree)
  nested_of-Below none h = tt
  nested_of-Below (some tree) h = h

  node_of-Below :
      (mem : Option ℕ) (jobs : ℕ) (deps : Option (List String)) (scatter : Option (Option String))
      (nested : Nested)
      → ((m : ℕ) → mem ≡ some m → Below limit (jobs, m))
      → NestedBelow nested
      → IfSome (NodeBelow limit) (node_of mem jobs deps scatter nested)
  unfolding NodeBelow
  node_of-Below none jobs deps scatter nested h k = tt
  node_of-Below (some mem) jobs none scatter nested h k = tt
  node_of-Below (some mem) jobs (some deps) none nested h k = tt
  node_of-Below (some mem) jobs (some deps) (some scatter) absent h k = (h mem refl, tt)
  node_of-Below (some mem) jobs (some deps) (some scatter) wrong h k = tt
  node_of-Below (some mem) jobs (some deps) (some scatter) (subtree tree) h k =
      ((h mem refl, tt), k)

  add_node-Below :
      (name : String) (node : Option Node) (tree : Tree)
      → IfSome (NodeBelow limit) node
      → TreeBelow limit tree
      → IfSome (TreeBelow limit) (add_node name node tree)
  add_node-Below name none tree h k = tt
  add_node-Below name (some node) tree h k = put_node-Below limit name node tree h k

  parse_step-Below :
      (wid : Option String) (step : StepInfo) (nested : Nested) (tree : Tree)
      → Allows step
      → NestedBelow nested
      → TreeBelow limit tree
      → IfSome (TreeBelow limit) (parse_step to_bytes default wid step nested tree)
  parse_step-Below wid step nested tree a n h =
      add_node-Below step.id _ tree (node_of-Below _ _ _ _ nested a n) h

  mutual
    unfolding Allowed parse TreeBelow

    parse-Below : (p : Process) → Allowed p → IfSome (TreeBelow limit) (parse to_bytes default p)
    parse-Below (process info steps) a = parse_steps-Below info.id steps (some nothing) a tt

    parse_steps-Below :
        (wid : Option String) (steps : Steps) (tree : Option Tree)
        → AllowedSteps steps
        → IfSome (TreeBelow limit) tree
        → IfSome (TreeBelow limit) (parse_steps to_bytes default wid steps tree)
    parse_steps-Below wid done none a h = tt
    parse_steps-Below wid done (some tree) a h = h
    parse_steps-Below wid (named step run steps) none a h = tt
    parse_steps-Below wid (named step run steps) (some tree) (b, a) h =
        parse_steps-Below wid steps _ a (parse_step-Below wid step absent tree b tt h)
    parse_steps-Below wid (inline step p steps) none a h = tt
    parse_steps-Below wid (inline step p steps) (some tree) (b, c, a) h =
        parse_steps-Below wid steps _ a
          (parse_step-Below wid step _ tree b (nested_of-Below _ (parse-Below p c)) h)
    parse_steps-Below wid (bare step steps) none a h = tt
    parse_steps-Below wid (bare step steps) (some tree) (b, a) h =
        parse_steps-Below wid steps _ a (parse_step-Below wid step absent tree b tt h)

  abbrev pub AllowedEntry : Option Process → Type 0
  AllowedEntry none = Unit
  AllowedEntry (some p) = Allowed p

  -- The steps of all processes of a specification.
  abbrev pub AllowedIn : Specification → Type 0
  AllowedIn (graph ps) = All AllowedEntry ps
  AllowedIn (single p) = Allowed p

  updated-Below :
      (other : Option Tree) (tree : Tree)
      → IfSome (TreeBelow limit) other
      → TreeBelow limit tree
      → IfSome (TreeBelow limit) (updated other tree)
  updated-Below none tree h k = tt
  updated-Below (some other) tree h k = update_tree-Below limit tree other k h

  parse_graph-Below :
      (ps : List (Option Process)) (tree : Option Tree)
      → All AllowedEntry ps
      → IfSome (TreeBelow limit) tree
      → IfSome (TreeBelow limit) (parse_graph to_bytes default ps tree)
  parse_graph-Below [] none a h = tt
  parse_graph-Below (p ∷ ps) none a h = tt
  parse_graph-Below [] (some tree) a h = h
  parse_graph-Below (none ∷ ps) (some tree) a h = tt
  parse_graph-Below (some p ∷ ps) (some tree) (b, a) h =
      parse_graph-Below ps _ a (updated-Below _ tree (parse-Below p b) h)

  parse_workflow-Below :
      (specification : Specification)
      → AllowedIn specification
      → IfSome (TreeBelow limit) (parse_workflow to_bytes default specification)
  unfolding parse_workflow TreeBelow
  parse_workflow-Below (graph ps) a = parse_graph-Below ps (some nothing) a tt
  parse_workflow-Below (single p) a = parse-Below p a

  filtered-Below :
      (tree : Option Tree) → IfSome (TreeBelow limit) tree → All (Below limit) (filtered tree)
  filtered-Below none h = tt
  filtered-Below (some tree) h = calculate-Below limit _ (filter-Below limit "init" tree h)

  populated-Below :
      (lengths : Dict (Option ℕ)) (tree : Option Tree)
      → IfSome (TreeBelow limit) tree
      → IfSome (TreeBelow limit) (populated lengths tree)
  populated-Below lengths none h = tt
  populated-Below lengths (some tree) h = populate-Below limit lengths tree h

  -- A CWL workflow is not refused for its memory, however its steps are nested and scattered, if each of its steps
  -- that runs on Kubernetes asks for at most the limit, in bytes.
  pub estimate_cwl-accepted :
      (lengths : Dict (Option ℕ)) (specification : Specification)
      → AllowedIn specification
      → validate_job_memory_limits limit (estimate_cwl to_bytes default lengths specification)
        ≡ true
  unfolding estimate_cwl
  estimate_cwl-accepted lengths specification a =
      (validate_job_memory_limits_iff limit _).1
        (inr (filtered-Below _ (populated-Below lengths _ (parse_workflow-Below specification a))))
