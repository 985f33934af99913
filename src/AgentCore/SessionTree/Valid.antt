-- ===== src/AgentCore/SessionTree/Valid.antt =====
-- What the operations of packages/agent-core/src/tree.ts keep of the tree.
use Prim.Native.String.{String}
use text.Mathlib.Text.{◌==◌ as str_eq}
use inkpi.Base.{
  ◌≡◌, refl, sym, ap, ◌∙◌, subst, inl, inr, Bool, false, not, ◌&&◌, Option, none, some, List, [],
  ◌∷◌, ◌++◌, map, if◌then◌else◌, Bool-cases, All, arith,
}
use inkpi.Base.Texts.{str_eq→eq}
use inkpi.AgentCore.SessionTree.{
  SessionTreeNode, SessionTree, find_node, has_node, is_empty, is_some, push_child, link_child,
}
use inkpi.AgentCore.SessionTree.Climb.{ParentIn, NodesOk}

abbrev pub is_child : String → Option String → Bool
is_child p none = false
is_child p (some q) = not (is_empty q) && str_eq q p

-- The nodes whose parent is `p`, in the order of their insertion.
unfoldable pub children_of : String → List SessionTreeNode → List String
children_of p [] = []
children_of p (n ∷ ns) = children_of p ns ++ (if is_child p n.parent_id then n.id ∷ [] else [])

abbrev pub ChildrenOk : List SessionTreeNode → SessionTreeNode → Type 0
ChildrenOk all n = n.children_ids ≡ children_of n.id all

pub record IsValid (t : SessionTree) : Type 0 where
  pub nodes_ok : NodesOk t.nodes
  pub leaf_in : ParentIn t.nodes t.current_leaf_id
  pub root_in : ParentIn t.nodes t.root_id
  pub children_ok : All (ChildrenOk t.nodes) t.nodes

has_node-map :
    (q p id : String) (ns : List SessionTreeNode)
    → is_some (find_node q (map (push_child p id) ns)) ≡ is_some (find_node q ns)
unfolding find_node
has_node-map q p id [] = refl
has_node-map q p id (n ∷ ns) = ground (arith, has_node-map q p id ns)

-- A link to a child changes neither the identifiers nor the parents.
pub has_node-link :
    (q : String) (p : Option String) (id : String) (ns : List SessionTreeNode)
    → has_node q (link_child p id ns) ≡ has_node q ns
unfolding link_child
has_node-link q none id ns = refl
has_node-link q (some p) id ns = elim (Bool-cases (is_empty p)) [
  | inl e ↦ rw e refl
  | inr e ↦ rw e (has_node-map q p id ns)
]

pub is_some-none : {A : Type 0} (o : Option A) → is_some o ≡ false → o ≡ none
is_some-none none h = refl
is_some-none (some a) h = cc

pub find_node-map-none :
    (q p id : String) (ns : List SessionTreeNode)
    → find_node q ns ≡ none
    → find_node q (map (push_child p id) ns) ≡ none
find_node-map-none q p id ns h = is_some-none _ (has_node-map q p id ns ∙ ap is_some h)

ParentIn-map :
    (p id : String) (ns : List SessionTreeNode) (o : Option String)
    → ParentIn ns o
    → ParentIn (map (push_child p id) ns) o
ParentIn-map p id ns none h = tt
ParentIn-map p id ns (some q) h = has_node-map q p id ns ∙ h

NodesOk-map :
    (p id : String) (ns : List SessionTreeNode) → NodesOk ns → NodesOk (map (push_child p id) ns)
NodesOk-map p id [] v = tt
NodesOk-map p id (n ∷ ns) (fresh, parent, v) = (
  find_node-map-none n.id p id ns fresh,
  ParentIn-map p id ns n.parent_id parent,
  NodesOk-map p id ns v,
)

pub NodesOk-link :
    (p : Option String) (id : String) (ns : List SessionTreeNode)
    → NodesOk ns
    → NodesOk (link_child p id ns)
unfolding link_child
NodesOk-link none id ns v = v
NodesOk-link (some p) id ns v = elim (Bool-cases (is_empty p)) [
  | inl e ↦ subst (λ b. NodesOk (if b then ns else map (push_child p id) ns)) (sym e) v
  | inr e ↦
      subst (λ b. NodesOk (if b then ns else map (push_child p id) ns)) (sym e)
        (NodesOk-map p id ns v)
]

children_of-map :
    (q p id : String) (ns : List SessionTreeNode)
    → children_of q (map (push_child p id) ns) ≡ children_of q ns
unfolding children_of
children_of-map q p id [] = refl
children_of-map q p id (n ∷ ns) =
    ap (λ xs. xs ++ (if is_child q n.parent_id then n.id ∷ [] else [])) (children_of-map q p id ns)

-- Nobody is a child of an identifier that is not there.
pub children_of-fresh :
    (q : String) (ns : List SessionTreeNode)
    → NodesOk ns
    → find_node q ns ≡ none
    → children_of q ns ≡ []
unfolding children_of find_node
children_of-fresh q [] v h = refl
children_of-fresh q (n ∷ ns) (fresh, parent, v) h =
    let older : find_node q ns ≡ none = ground arith in
    rw (children_of-fresh q ns v older, not_child n.parent_id parent older) refl
  where
    not_child : (o : Option String) → ParentIn ns o → find_node q ns ≡ none → is_child q o ≡ false
    not_child none h older = refl
    not_child (some p) h older = ground (arith, str_eq→eq p q)

pub children_of-link :
    (q : String) (p : Option String) (id : String) (ns : List SessionTreeNode)
    → children_of q (link_child p id ns) ≡ children_of q ns
unfolding link_child
children_of-link q none id ns = refl
children_of-link q (some p) id ns = elim (Bool-cases (is_empty p)) [
  | inl e ↦ rw e refl
  | inr e ↦ rw e (children_of-map q p id ns)
]
