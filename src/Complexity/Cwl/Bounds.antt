-- ===== src/Complexity/Cwl/Bounds.antt =====
-- reana_server/complexity.py: no memory in the complexity of a CWL workflow is larger than what its
-- steps ask for, whatever the nesting and the scatter.
use reana_server.Prelude.{
  ℕ, zero, suc, ◌*◌, ◌<◌, String, Bool, true, false, Option, none, some, if◌then◌else◌, str_eq,
  List, [], ◌∷◌, Dict, All, All-append, arith, inl, inr, Bool-cases,
}
use reana_server.Complexity.{Complexity}
use reana_server.Complexity.Memory.{Below}
use reana_server.Complexity.Cwl.Tree.{
  Node, leaf, outer, Tree, nothing, entry, put_node, update_tree, filter_initial_steps,
  calculate_complexity, complexity_of,
}
use reana_server.Complexity.Cwl.Estimate.{
  scattered, populate_node, populate, with_scatter, scatter_over, nested_complexity, leaf_with,
  outer_with, outer_over, entry_with,
}

pub left_positive : (m n : ℕ) → 0 < m * n → 0 < m
left_positive zero n h = omega (arith, h)
left_positive (suc m) n h = omega arith

abbrev pub IfSome : {A : Type 0} → (A → Type 0) → Option A → Type 0
IfSome P none = Unit
IfSome P (some a) = P a

module _ (limit : ℕ) where
  unfoldable mutual
    pub NodeBelow : Node → Type 0
    NodeBelow (leaf complexity deps scatter) = All (Below limit) complexity
    NodeBelow (outer complexity deps scatter tree) = All (Below limit) complexity × TreeBelow tree

    pub TreeBelow : Tree → Type 0
    TreeBelow nothing = Unit
    TreeBelow (entry name node tree) = NodeBelow node × TreeBelow tree

  own-Below : (node : Node) → NodeBelow node → All (Below limit) (complexity_of node)
  unfolding NodeBelow
  own-Below (leaf complexity deps scatter) h = h
  own-Below (outer complexity deps scatter tree) h = h.0

  pub put_node-Below :
      (name : String) (node : Node) (tree : Tree)
      → NodeBelow node
      → TreeBelow tree
      → TreeBelow (put_node name node tree)
  unfolding TreeBelow put_node
  put_node-Below name node nothing b h = (b, h)
  put_node-Below name node (entry n old tree) b (o, h) = elim (Bool-cases (str_eq n name)) [
    | inl here ↦ rw here (b, h)
    | inr later ↦ rw later (o, put_node-Below name node tree b h)
  ]

  pub update_tree-Below :
      (tree other : Tree) → TreeBelow tree → TreeBelow other → TreeBelow (update_tree tree other)
  unfolding TreeBelow update_tree
  update_tree-Below tree nothing h k = h
  update_tree-Below tree (entry name node other) h (b, k) =
      update_tree-Below (put_node name node tree) other (put_node-Below name node tree b h) k

  if-Below : (b : Bool) (t u : Tree) → TreeBelow t → TreeBelow u → TreeBelow (if b then t else u)
  if-Below true t u h k = h
  if-Below false t u h k = k

  pub filter-Below :
      (step : String) (tree : Tree) → TreeBelow tree → TreeBelow (filter_initial_steps step tree)
  unfolding TreeBelow filter_initial_steps
  filter-Below step nothing h = h
  filter-Below step (entry name node tree) (b, h) =
      if-Below _ (entry name node (filter_initial_steps step tree)) (filter_initial_steps step tree)
        (b, filter-Below step tree h) (filter-Below step tree h)

  pub calculate-Below :
      (tree : Tree) → TreeBelow tree → All (Below limit) (calculate_complexity tree)
  unfolding TreeBelow calculate_complexity
  calculate-Below nothing h = tt
  calculate-Below (entry name node tree) (b, h) =
      All-append (Below limit) (complexity_of node) (calculate_complexity tree) (own-Below node b)
        (calculate-Below tree h)

  scattered-Below :
      (n : ℕ) (complexity : Complexity)
      → All (Below limit) complexity
      → All (Below limit) (scattered n complexity)
  unfolding scattered
  scattered-Below n [] h = tt
  scattered-Below n ((jobs, mem) ∷ complexity) (b, h) =
      (λ p. b (left_positive jobs n p), scattered-Below n complexity h)

  with_scatter-Below :
      (own complexity : Complexity) (n : Option ℕ)
      → All (Below limit) own
      → All (Below limit) complexity
      → IfSome (All (Below limit)) (with_scatter own complexity n)
  with_scatter-Below own complexity none h k = tt
  with_scatter-Below own complexity (some zero) h k = h
  with_scatter-Below own complexity (some (suc n)) h k = scattered-Below (suc n) complexity k

  nested-Below :
      (own : Complexity) (tree : Tree)
      → All (Below limit) own
      → TreeBelow tree
      → All (Below limit) (nested_complexity own tree)
  nested-Below own nothing h k = h
  nested-Below own (entry name node tree) h k =
      calculate-Below _ (filter-Below "init" (entry name node tree) k)

  module _ (lengths : Dict (Option ℕ)) where
    scatter_over-Below :
        (scatter : Option String) (own complexity : Complexity)
        → All (Below limit) own
        → All (Below limit) complexity
        → IfSome (All (Below limit)) (scatter_over lengths scatter own complexity)
    scatter_over-Below none own complexity h k = k
    scatter_over-Below (some p) own complexity h k = elim (Bool-cases (str_eq p "")) [
      | inl empty ↦ rw empty k
      | inr name ↦ rw name (with_scatter-Below own complexity _ h k)
    ]

    leaf_with-Below :
        (c : Option Complexity) (deps : List String) (scatter : Option String)
        → IfSome (All (Below limit)) c
        → IfSome NodeBelow (leaf_with c deps scatter)
    unfolding NodeBelow
    leaf_with-Below none deps scatter h = tt
    leaf_with-Below (some c) deps scatter h = h

    outer_with-Below :
        (c : Option Complexity) (deps : List String) (scatter : Option String) (tree : Tree)
        → IfSome (All (Below limit)) c
        → TreeBelow tree
        → IfSome NodeBelow (outer_with c deps scatter tree)
    unfolding NodeBelow
    outer_with-Below none deps scatter tree h k = tt
    outer_with-Below (some c) deps scatter tree h k = (h, k)

    outer_over-Below :
        (own : Complexity) (deps : List String) (scatter : Option String) (tree : Option Tree)
        → All (Below limit) own
        → IfSome TreeBelow tree
        → IfSome NodeBelow (outer_over lengths own deps scatter tree)
    outer_over-Below own deps scatter none h k = tt
    outer_over-Below own deps scatter (some tree) h k =
        outer_with-Below (scatter_over lengths scatter own (nested_complexity own tree)) deps
          scatter tree (scatter_over-Below scatter own _ h (nested-Below own tree h k)) k

    entry_with-Below :
        (name : String) (node : Option Node) (tree : Option Tree)
        → IfSome NodeBelow node
        → IfSome TreeBelow tree
        → IfSome TreeBelow (entry_with name node tree)
    unfolding TreeBelow
    entry_with-Below name none tree h k = tt
    entry_with-Below name (some node) none h k = tt
    entry_with-Below name (some node) (some tree) h k = (h, k)

    mutual
      unfolding NodeBelow populate

      populate_node-Below :
          (node : Node) → NodeBelow node → IfSome NodeBelow (populate_node lengths node)
      populate_node-Below (leaf own deps scatter) h =
          leaf_with-Below _ deps scatter (scatter_over-Below scatter own own h h)
      populate_node-Below (outer own deps scatter tree) (h, k) =
          outer_over-Below own deps scatter _ h (populate-Below tree k)

      pub populate-Below : (tree : Tree) → TreeBelow tree → IfSome TreeBelow (populate lengths tree)
      populate-Below nothing h = tt
      populate-Below (entry name node tree) (b, h) =
          entry_with-Below name _ _ (populate_node-Below node b) (populate-Below tree h)
