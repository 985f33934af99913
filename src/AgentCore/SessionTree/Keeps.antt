-- ===== src/AgentCore/SessionTree/Keeps.antt =====
-- Every operation of packages/agent-core/src/tree.ts keeps the tree valid.
pub mod Inserting
use Prim.Native.String.{String}
use text.Mathlib.Text.{◌==◌ as str_eq}
use text.Mathlib.TextPositions.{eq_refl}
use inkpi.Base.{
  ℕ, ◌+◌, ◌≡◌, refl, sym, ap, ◌∙◌, subst, inl, inr, Bool, true, false, Option, none, some, List, [],
  ◌∷◌, ◌++◌, map, if◌then◌else◌, Bool-cases, All, append-nil, Result, ok, err, arith,
}
use inkpi.Base.Texts.{is_blank, str_eq→eq, eq→str_eq}
use inkpi.AgentCore.SessionTree.{
  AgentMessage, SessionTreeNode, SessionTree, TreeError, find_node, has_node, is_empty, push_child,
  link_child, new_node, insert_node, root_or, is_orphan, parent_or, id_for, count_id, add_message,
  move_leaf, select_leaf, navigate, clear, empty_tree, add_branch_marker, leaf_node, marker_message,
}
use inkpi.AgentCore.SessionTree.Climb.{ParentIn}
use inkpi.AgentCore.SessionTree.Valid.{
  is_child, children_of, ChildrenOk, IsValid, has_node-link, is_some-none, NodesOk-link,
  children_of-fresh, children_of-link,
}
use inkpi.AgentCore.SessionTree.Keeps.Inserting.{insert_node-IsValid}

-- A call of an operation that changes the tree.
pub data TreeCall : Type 0 where
  adds : AgentMessage → Option (Option String) → Option String → ℕ → TreeCall
  marks : String → Option String → ℕ → TreeCall
  selects navigates : String → TreeCall
  clears : TreeCall

move_leaf-IsValid :
    (t : SessionTree) (id : String)
    → has_node id t.nodes ≡ true
    → IsValid t
    → IsValid (move_leaf t id)
unfolding move_leaf
move_leaf-IsValid t id there v =
    moved (elim t.current_leaf_id [ none ↦ false | some leaf ↦ str_eq leaf id ])
  where
    moved :
        (b : Bool)
        → IsValid
            (if b then t else record t { current_leaf_id = some id; revision = t.revision + 1 })
    moved true = v
    moved false = record {
      nodes_ok = v.nodes_ok;
      leaf_in = there;
      root_in = v.root_in;
      children_ok = v.children_ok;
    }

leaf_node-state : (out : SessionTree × Result TreeError String) → (leaf_node out).0 ≡ out.0
unfolding leaf_node
leaf_node-state (t, ok id) = refl
leaf_node-state (t, err e) = refl

select_leaf-IsValid : (t : SessionTree) (id : String) → IsValid t → IsValid (select_leaf t id).0
unfolding select_leaf
select_leaf-IsValid t id v = elim (Bool-cases (has_node id t.nodes)) [
  | inl e ↦ rw e (move_leaf-IsValid t id e v)
  | inr e ↦ rw e v
]

navigate-IsValid : (t : SessionTree) (id : String) → IsValid t → IsValid (navigate t id).0
unfolding navigate
navigate-IsValid t id v = elim (Bool-cases (has_node id t.nodes)) [
  | inl e ↦ rw e (move_leaf-IsValid t id e v)
  | inr e ↦ rw e v
]

module _ (id_generator : ℕ → String) where
  unfoldable pub step : SessionTree → TreeCall → SessionTree
  step t (adds m parent metadata now) = (add_message id_generator t m parent metadata now).0
  step t (marks name hypothesis now) = (add_branch_marker id_generator t name hypothesis now).0
  step t (selects id) = (select_leaf t id).0
  step t (navigates id) = (navigate t id).0
  step t clears = clear t

  unfoldable pub run : SessionTree → List TreeCall → SessionTree
  unfolding step
  run t [] = t
  run t (c ∷ cs) = run (step t c) cs

  pub add_message-IsValid :
      (t : SessionTree) (m : AgentMessage) (parent : Option (Option String))
      (metadata : Option String) (now : ℕ)
      → IsValid t
      → IsValid (add_message id_generator t m parent metadata now).0
  unfolding add_message
  add_message-IsValid t m parent metadata now v =
      let id = id_for id_generator t m in
      let effective = parent_or parent t.current_leaf_id in
      let counted : IsValid (count_id id_generator t m) = record {
        nodes_ok = v.nodes_ok;
        leaf_in = v.leaf_in;
        root_in = v.root_in;
        children_ok = v.children_ok;
      } in
      elim (Bool-cases (has_node id t.nodes)) [
        | inl e ↦ rw e counted
        | inr e ↦ elim (Bool-cases (is_orphan effective t.nodes)) [
          | inl o ↦ rw (e, o) counted
          | inr o ↦
              rw (e, o)
                (insert_node-IsValid id effective m now metadata (count_id id_generator t m) e o
                  counted)
        ]
      ]

  add_branch_marker-IsValid :
      (t : SessionTree) (name : String) (hypothesis : Option String) (now : ℕ)
      → IsValid t
      → IsValid (add_branch_marker id_generator t name hypothesis now).0
  unfolding add_branch_marker
  add_branch_marker-IsValid t name hypothesis now v = elim (Bool-cases (is_blank name)) [
    | inl e ↦ rw e v
    | inr e ↦ rw e (
        subst IsValid
          (sym (
            leaf_node-state
              (add_message id_generator t (marker_message name hypothesis) none none now)))
          (add_message-IsValid t (marker_message name hypothesis) none none now v))
  ]

  step-IsValid : (t : SessionTree) (c : TreeCall) → IsValid t → IsValid (step t c)
  unfolding step clear
  step-IsValid t (adds m parent metadata now) v = add_message-IsValid t m parent metadata now v
  step-IsValid t (marks name hypothesis now) v = add_branch_marker-IsValid t name hypothesis now v
  step-IsValid t (selects id) v = select_leaf-IsValid t id v
  step-IsValid t (navigates id) v = navigate-IsValid t id v
  step-IsValid t clears v = record { nodes_ok = tt; leaf_in = tt; root_in = tt; children_ok = tt }

  -- After any sequence of calls on a valid tree: identifiers are unique, every parent is an older
  -- node, the active leaf and the root are nodes, and the children listed in a node are the nodes
  -- whose parent it is, in the order of their insertion.
  pub run-IsValid : (t : SessionTree) (cs : List TreeCall) → IsValid t → IsValid (run t cs)
  unfolding run
  run-IsValid t [] v = v
  run-IsValid t (c ∷ cs) v = run-IsValid (step t c) cs (step-IsValid t c v)
