-- ===== src/AgentCore/SessionTree/Keeps/Inserting.antt =====
-- A node that is inserted into a tree of packages/agent-core/src/tree.ts.
use Prim.Native.String.{String}
use text.Mathlib.TextPositions.{eq_refl}
use inkpi.Base.{
  ℕ, ◌≡◌, refl, sym, ap, ◌∙◌, subst, inl, inr, true, false, Option, none, some, List, [], ◌∷◌, ◌++◌,
  map, if◌then◌else◌, Bool-cases, All, append-nil, arith,
}
use inkpi.Base.Texts.{str_eq→eq, eq→str_eq}
use inkpi.AgentCore.SessionTree.{
  AgentMessage, SessionTreeNode, SessionTree, find_node, has_node, is_empty, push_child, link_child,
  new_node, insert_node, root_or, is_orphan, empty_tree,
}
use inkpi.AgentCore.SessionTree.Climb.{ParentIn}
use inkpi.AgentCore.SessionTree.Valid.{
  is_child, children_of, ChildrenOk, IsValid, has_node-link, is_some-none, NodesOk-link,
  children_of-fresh, children_of-link,
}

pub empty_tree-IsValid : IsValid empty_tree
empty_tree-IsValid = record { nodes_ok = tt; leaf_in = tt; root_in = tt; children_ok = tt }

module _ (id : String) (parent : Option String) (m : AgentMessage) (now : ℕ)
    (md : Option String) where
  abbrev added : List SessionTreeNode → List SessionTreeNode
  added ns = new_node id parent m now md ∷ link_child parent id ns

  children_of-added :
      (q : String) (ns : List SessionTreeNode)
      → children_of q (added ns) ≡ children_of q ns ++ (if is_child q parent then id ∷ [] else [])
  unfolding children_of
  children_of-added q ns =
      ap (λ xs. xs ++ (if is_child q parent then id ∷ [] else [])) (children_of-link q parent id ns)

  -- A node that stays as it is has no new child.
  stays :
      (all : List SessionTreeNode) (n : SessionTreeNode)
      → is_child n.id parent ≡ false
      → ChildrenOk all n
      → ChildrenOk (added all) n
  stays all n other h =
      h ∙ sym (children_of-added n.id all ∙ (rw other (append-nil (children_of n.id all))))

  All-stays :
      (all ns : List SessionTreeNode)
      → ((q : String) → is_child q parent ≡ false)
      → All (ChildrenOk all) ns
      → All (ChildrenOk (added all)) ns
  All-stays all [] other h = tt
  All-stays all (n ∷ ns) other h = (stays all n (other n.id) h.0, All-stays all ns other h.1)

module _ (id p : String) (m : AgentMessage) (now : ℕ) (md : Option String) where
  pushed :
      (all : List SessionTreeNode) (n : SessionTreeNode)
      → is_empty p ≡ false
      → ChildrenOk all n
      → ChildrenOk (added id (some p) m now md all) (push_child p id n)
  pushed all n truthy h = ground (
    arith,
    children_of-added id (some p) m now md n.id all,
    str_eq→eq n.id p,
    eq→str_eq p n.id,
    str_eq→eq p n.id,
    append-nil (children_of n.id all),
  )

  All-pushed :
      (all ns : List SessionTreeNode)
      → is_empty p ≡ false
      → All (ChildrenOk all) ns
      → All (ChildrenOk (added id (some p) m now md all)) (map (push_child p id) ns)
  All-pushed all [] truthy h = tt
  All-pushed all (n ∷ ns) truthy h = (pushed all n truthy h.0, All-pushed all ns truthy h.1)

module _ (id : String) (m : AgentMessage) (now : ℕ) (md : Option String) where
  All-link :
      (parent : Option String) (all : List SessionTreeNode)
      → All (ChildrenOk all) all
      → All (ChildrenOk (added id parent m now md all)) (link_child parent id all)
  unfolding link_child
  All-link none all h = All-stays id none m now md all all (λ q. refl) h
  All-link (some p) all h = elim (Bool-cases (is_empty p)) [
    | inl e ↦
        subst
          (λ b.
            All (ChildrenOk (added id (some p) m now md all))
              (if b then all else map (push_child p id) all))
          (sym e) (All-stays id (some p) m now md all all (λ q. rw e refl) h)
    | inr e ↦
        subst
          (λ b.
            All (ChildrenOk (added id (some p) m now md all))
              (if b then all else map (push_child p id) all))
          (sym e) (All-pushed id p m now md all all e h)
  ]

has_node-added :
    (id : String) (parent : Option String) (m : AgentMessage) (now : ℕ) (md : Option String)
    (q : String) (ns : List SessionTreeNode)
    → has_node q ns ≡ true
    → has_node q (added id parent m now md ns) ≡ true
unfolding find_node
has_node-added id parent m now md q ns h = ground (arith, has_node-link q parent id ns)

ParentIn-link :
    (id : String) (parent : Option String) (ns : List SessionTreeNode)
    → is_orphan parent ns ≡ false
    → ParentIn (link_child parent id ns) parent
unfolding is_orphan
ParentIn-link id none ns h = tt
ParentIn-link id (some p) ns h = ground (arith, has_node-link p (some p) id ns)

is_child-new :
    (id : String) (ns : List SessionTreeNode) (parent : Option String)
    → has_node id ns ≡ false
    → is_orphan parent ns ≡ false
    → is_child id parent ≡ false
unfolding is_orphan
is_child-new id ns none new h = refl
is_child-new id ns (some p) new h = ground (arith, str_eq→eq p id)

ParentIn-root :
    (root : Option String) (id : String) (ns ns' : List SessionTreeNode)
    → ((q : String) → has_node q ns ≡ true → has_node q ns' ≡ true)
    → has_node id ns' ≡ true
    → ParentIn ns root
    → ParentIn ns' (root_or root id)
ParentIn-root none id ns ns' grows there h = there
ParentIn-root (some r) id ns ns' grows there h = elim (Bool-cases (is_empty r)) [
  | inl e ↦ subst (λ b. ParentIn ns' (if b then some id else some r)) (sym e) there
  | inr e ↦ subst (λ b. ParentIn ns' (if b then some id else some r)) (sym e) (grows r h)
]

module _ (id : String) (parent : Option String) (m : AgentMessage) (now : ℕ)
    (md : Option String) where
  pub insert_node-IsValid :
      (t : SessionTree)
      → has_node id t.nodes ≡ false
      → is_orphan parent t.nodes ≡ false
      → IsValid t
      → IsValid (insert_node t id parent m now md)
  unfolding insert_node children_of find_node
  insert_node-IsValid t new reachable v =
      let fresh = is_some-none (find_node id t.nodes) new in
      let fresh' =
        is_some-none (find_node id (link_child parent id t.nodes))
          (has_node-link id parent id t.nodes ∙ new) in
      let there : has_node id (added id parent m now md t.nodes) ≡ true =
        ground (arith, eq_refl id) in
      let own : [] ≡ children_of id (added id parent m now md t.nodes) = sym (
        children_of-added id parent m now md id t.nodes
        ∙ (rw
            (
              children_of-fresh id t.nodes v.nodes_ok fresh,
              is_child-new id t.nodes parent new reachable,
            )
            refl)) in
      record {
        nodes_ok = (
          fresh',
          ParentIn-link id parent t.nodes reachable,
          NodesOk-link parent id t.nodes v.nodes_ok,
        );
        leaf_in = there;
        root_in =
            ParentIn-root t.root_id id t.nodes (added id parent m now md t.nodes)
              (λ q. has_node-added id parent m now md q t.nodes) there v.root_in;
        children_ok = (own, All-link id m now md parent t.nodes v.children_ok);
      }
