-- ===== src/AgentCore/SessionTree/Ancestors.antt =====
-- `findCommonAncestor` of packages/agent-core/src/tree.ts finds the lowest common ancestor.
use Prim.Native.String.{String}
use text.Mathlib.Text.{◌==◌ as str_eq}
use text.Mathlib.TextPositions.{eq_refl}
use inkpi.Base.{
  ℕ, zero, suc, ◌≡◌, refl, sym, ap, ◌∙◌, subst, inl, inr, true, false, Option, none, some, List, [],
  ◌∷◌, map, length, if◌then◌else◌, Bool-cases, arith,
}
use inkpi.Base.Texts.{str_eq→eq, eq→str_eq}
use inkpi.AgentCore.SessionTree.{SessionTreeNode, SessionTree, find_node, has_node, is_some}
use inkpi.AgentCore.SessionTree.Views.{
  parent_node, get_path_to_root, contains, ancestor_loop, find_common_ancestor,
}
use inkpi.AgentCore.SessionTree.Climb.{
  NodesOk, from_parent, from_parent-elim, trace, climb, climb-trace, path_loop-climb,
}
use inkpi.AgentCore.SessionTree.Valid.{IsValid}

abbrev ids : List SessionTreeNode → List String
ids ns = map (λ n. n.id) ns

get_path_to_root-trace :
    (t : SessionTree) (id : String) → IsValid t → get_path_to_root t id ≡ ids (trace t.nodes id)
unfolding get_path_to_root
get_path_to_root-trace t id v =
    path_loop-climb (length t.nodes) t.nodes (find_node id t.nodes)
    ∙ ap (map (λ n. n.id)) (climb-trace (length t.nodes) t.nodes id v.nodes_ok (omega arith))

-- The first of the nodes that stands in the path.
first_in : List String → List SessionTreeNode → Option String
first_in path [] = none
first_in path (n ∷ ns) =
    let rest = first_in path ns in if contains n.id path then some n.id else rest

ancestor_loop-climb :
    (fuel : ℕ) (ns : List SessionTreeNode) (path : List String) (curr : Option SessionTreeNode)
    → ancestor_loop fuel ns path curr ≡ first_in path (climb fuel ns curr)
unfolding ancestor_loop first_in climb
ancestor_loop-climb zero ns path curr = refl
ancestor_loop-climb (suc fuel) ns path none = refl
ancestor_loop-climb (suc fuel) ns path (some n) =
    rw (ancestor_loop-climb fuel ns path (parent_node ns n.parent_id)) refl

first_in-contains :
    (path : List String) (ns : List SessionTreeNode) (c : String)
    → first_in path ns ≡ some c
    → (contains c path ≡ true) × (contains c (ids ns) ≡ true)
unfolding first_in contains
first_in-contains path [] c h = absurd (ground arith)
first_in-contains path (n ∷ ns) c h = elim (Bool-cases (contains n.id path)) [
  | inl e ↦ ground (arith, eq_refl c)
  | inr e ↦
      let rest : first_in path ns ≡ some c = ground arith in
      let (p, q) = first_in-contains path ns c rest in (p, ground arith)
]

first_in-none :
    (path : List String) (ns : List SessionTreeNode) (x : String)
    → first_in path ns ≡ none
    → contains x (ids ns) ≡ true
    → contains x path ≡ false
unfolding first_in contains
first_in-none path [] x h there = absurd (ground arith)
first_in-none path (n ∷ ns) x h there = elim (Bool-cases (contains n.id path)) [
  | inl e ↦ absurd (ground arith)
  | inr e ↦ elim (Bool-cases (str_eq n.id x)) [
    | inl s ↦ subst (λ y. contains y path ≡ false) (str_eq→eq n.id x s) e
    | inr s ↦ first_in-none path ns x (ground arith) (ground arith)
  ]
]

-- What stands on a trace is a node.
trace-has_node :
    (ns : List SessionTreeNode) (id x : String)
    → contains x (ids (trace ns id)) ≡ true
    → has_node x ns ≡ true
unfolding trace find_node contains
trace-has_node [] id x = λ h. absurd (ground arith)
trace-has_node (n ∷ ns) id x = elim (Bool-cases (str_eq n.id x)) [
  | inl s ↦ rw s (λ h. refl)
  | inr s ↦ elim (Bool-cases (str_eq n.id id)) [
    | inl e ↦
        let on : contains x (ids (from_parent (trace ns) n.parent_id)) ≡ true
            → has_node x ns ≡ true =
          from_parent-elim (λ l. contains x (ids l) ≡ true → has_node x ns ≡ true) (trace ns)
            n.parent_id (λ h. absurd (ground arith)) (λ q _. trace-has_node ns q x) in
        rw (s, e, s) (λ h. on h)
    | inr e ↦ rw (s, e) (λ h. trace-has_node ns id x h)
  ]
]

abbrev Lowest : List SessionTreeNode → List String → String → String → List SessionTreeNode → Type 0
Lowest ns path c x l =
    first_in path l ≡ some c
    → contains x (ids l) ≡ true
    → contains x path ≡ true
    → contains x (ids (trace ns c)) ≡ true

-- The first node of a trace that stands in a path has every other such node among its ancestors.
first_in-Lowest :
    (path : List String) (ns : List SessionTreeNode) (b c x : String)
    → NodesOk ns
    → Lowest ns path c x (trace ns b)
unfolding trace first_in contains
first_in-Lowest path [] b c x v = λ h there on. absurd (ground arith)
first_in-Lowest path (n ∷ ns) b c x (fresh, parent, v) = elim (Bool-cases (str_eq n.id b)) [
  | inl e ↦ elim (Bool-cases (contains n.id path)) [
    | inl p ↦ rw (e, p) (λ h there on. rw (eq→str_eq n.id c (ground arith)) there)
    | inr p ↦
        rw (e, p)
          (λ h there on.
            let apart : str_eq n.id x ≡ false = ground (arith, str_eq→eq n.id x) in
            let inside = (first_in-contains path (from_parent (trace ns) n.parent_id) c h).0 in
            let apart' : str_eq n.id c ≡ false = ground (arith, str_eq→eq n.id c) in
            rw apart' (
              from_parent-elim (Lowest ns path c x) (trace ns) n.parent_id
                (λ h' there' on'. absurd (ground arith)) (λ q _. first_in-Lowest path ns q c x v) h
                (ground arith) on))
  ]
  | inr e ↦ rw e (λ h there on.
      let inside = trace-has_node ns b c (first_in-contains path (trace ns b) c h).1 in
      let apart : str_eq n.id c ≡ false = ground (arith, str_eq→eq n.id c) in
      rw apart (first_in-Lowest path ns b c x v h there on))
]

trace_self :
    (ns : List SessionTreeNode) (id : String)
    → has_node id ns ≡ true
    → contains id (ids (trace ns id)) ≡ true
unfolding trace find_node contains
trace_self [] id = λ h. absurd (ground arith)
trace_self (n ∷ ns) id = elim (Bool-cases (str_eq n.id id)) [
  | inl e ↦ rw (e, e) (λ h. refl)
  | inr e ↦ rw e (trace_self ns id)
]

find_common_ancestor_lem :
    (t : SessionTree) (a b : String)
    → IsValid t
    → has_node a t.nodes ≡ true
    → has_node b t.nodes ≡ true
    → find_common_ancestor t a b
      ≡ (if str_eq a b then some a else first_in (get_path_to_root t a) (trace t.nodes b))
unfolding find_common_ancestor
find_common_ancestor_lem t a b v ha hb =
    let looped =
      ancestor_loop-climb (length t.nodes) t.nodes (get_path_to_root t a) (find_node b t.nodes) in
    let passed = climb-trace (length t.nodes) t.nodes b v.nodes_ok (omega arith) in
    rw (ha, hb, looped, passed) refl

-- Of two nodes of a valid tree `findCommonAncestor` gives the lowest common ancestor, where a node counts
-- among its own ancestors: one that is on both paths to the root and whose own path has every other
-- such node; and it gives none only where there is no common ancestor.
pub find_common_ancestor-lowest :
    (t : SessionTree) (a b : String)
    → IsValid t
    → has_node a t.nodes ≡ true
    → has_node b t.nodes ≡ true
    → ((c : String)
        → find_common_ancestor t a b ≡ some c
        → (contains c (get_path_to_root t a) ≡ true)
          × (contains c (get_path_to_root t b) ≡ true)
          × ((x : String)
              → contains x (get_path_to_root t a) ≡ true
              → contains x (get_path_to_root t b) ≡ true
              → contains x (get_path_to_root t c) ≡ true))
      × (find_common_ancestor t a b ≡ none
          → (x : String) → contains x (get_path_to_root t b) ≡ true
          → contains x (get_path_to_root t a) ≡ false)
find_common_ancestor-lowest t a b v ha hb =
    let step = find_common_ancestor_lem t a b v ha hb in
    let pa = get_path_to_root-trace t a v in
    let pb = get_path_to_root-trace t b v in
    let path = get_path_to_root t a in
    elim (Bool-cases (str_eq a b)) [
      | inl e ↦
          let same = str_eq→eq a b e in
          (
            λ c h.
                let found : a ≡ c = ground (arith, ap is_some h) in
                (
                  rw (← found, pa) (trace_self t.nodes a ha),
                  rw (← found, pb, ← same) (trace_self t.nodes a ha),
                  λ x xa xb. rw (← found) xa,
                ),
            λ h. absurd (ground arith),
          )
      | inr e ↦ (
        λ c h.
            let found : first_in path (trace t.nodes b) ≡ some c = ground (arith, sym step ∙ h) in
            let (on, inside) = first_in-contains path (trace t.nodes b) c found in
            (
              on,
              rw pb inside,
              λ x xa xb.
                  rw (get_path_to_root-trace t c v)
                    (first_in-Lowest path t.nodes b c x v.nodes_ok found (rw pb at xb) xa),
            ),
        λ h x xb.
            let missing : first_in path (trace t.nodes b) ≡ none = ground (arith, sym step ∙ h) in
            first_in-none path (trace t.nodes b) x missing (rw pb at xb),
      )
    ]
