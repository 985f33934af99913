-- ===== src/AgentCore/SessionTree/Histories.antt =====
-- The histories that packages/agent-core/src/tree.ts gives: by the trace of a node, what a delta adds
-- to them, and what an insertion does to them.
use Prim.Native.String.{String}
use text.Mathlib.Text.{◌==◌ as str_eq}
use inkpi.Base.{
  ℕ, zero, suc, ◌≡◌, refl, sym, ap, ◌∙◌, subst, inl, inr, Bool, true, false, Option, none, some,
  List, [], ◌∷◌, ◌++◌, map, length, reverse, if◌then◌else◌, Bool-cases, arith,
}
use mathlib.Core.List.{reverse-append}
use inkpi.Base.Texts.{str_eq→eq}
use inkpi.AgentCore.SessionTree.{AgentMessage, SessionTreeNode, SessionTree, find_node, is_empty}
use inkpi.AgentCore.SessionTree.Views.{
  parent_node, target_of, start_node, get_history, SessionHistoryDelta, is_head, delta_loop,
  delta_from, get_history_delta,
}
use inkpi.AgentCore.SessionTree.Climb.{
  NodesOk, from_parent, from_parent-elim, trace, climb, climb-trace, climb-from_parent,
  climb_nothing, history_loop-climb,
}
use inkpi.AgentCore.SessionTree.Valid.{IsValid}

-- The messages from the root to a node.
unfoldable pub messages_to : List SessionTreeNode → Option String → List AgentMessage
messages_to ns o = reverse (map (λ n. n.message) (from_parent (trace ns) o))

-- On a valid tree `getHistory` ends, and gives the messages of the target and of all its ancestors, the root first.
pub get_history-trace :
    (t : SessionTree) (leaf : Option String)
    → IsValid t
    → get_history t leaf ≡ messages_to t.nodes (target_of t leaf)
unfolding get_history messages_to
get_history-trace t leaf v = ap reverse (
    history_loop-climb (length t.nodes) t.nodes (start_node t leaf)
    ∙ ap (map (λ n. n.message)) (
        climb-from_parent (length t.nodes) t.nodes (target_of t leaf)
          (λ q. climb-trace (length t.nodes) t.nodes q v.nodes_ok (omega arith))))

-- The delta's loop over the nodes that it passes.
delta_list : Option String → List SessionTreeNode → List AgentMessage × Bool
delta_list prev [] = ([], false)
delta_list prev (n ∷ ns) =
    let rest = delta_list prev ns in
    if is_head prev n.id then ([], true) else (n.message ∷ rest.0, rest.1)

delta_loop-climb :
    (fuel : ℕ) (ns : List SessionTreeNode) (prev : Option String) (curr : Option SessionTreeNode)
    → delta_loop fuel ns prev curr ≡ delta_list prev (climb fuel ns curr)
unfolding delta_loop delta_list climb
delta_loop-climb zero ns prev curr = refl
delta_loop-climb (suc fuel) ns prev none = refl
delta_loop-climb (suc fuel) ns prev (some n) =
    rw (delta_loop-climb fuel ns prev (parent_node ns n.parent_id)) refl

delta_list-none : (ns : List SessionTreeNode) → (delta_list none ns).1 ≡ false
unfolding delta_list
delta_list-none [] = refl
delta_list-none (n ∷ ns) = delta_list-none ns

delta_list-not_found :
    (prev : Option String) (ns : List SessionTreeNode)
    → (delta_list prev ns).1 ≡ false
    → (delta_list prev ns).0 ≡ map (λ n. n.message) ns
unfolding delta_list
delta_list-not_found prev [] h = refl
delta_list-not_found prev (n ∷ ns) h = ground (arith, delta_list-not_found prev ns)

delta_list-fresh :
    (ns : List SessionTreeNode) (h id : String)
    → find_node h ns ≡ none
    → (delta_list (some h) (trace ns id)).1 ≡ false
unfolding delta_list trace find_node
delta_list-fresh [] h id fresh = refl
delta_list-fresh (n ∷ ns) h id fresh =
    let older : find_node h ns ≡ none = ground arith in
    let other : str_eq n.id h ≡ false = ground arith in
    elim (Bool-cases (str_eq n.id id)) [
      | inl e ↦
          rw (e, other)
            (from_parent-elim (λ l. (delta_list (some h) l).1 ≡ false) (trace ns) n.parent_id refl
              (λ q _. delta_list-fresh ns h q older))
      | inr e ↦ rw e (delta_list-fresh ns h id older)
    ]

-- A trace passes no node with an empty identifier.
delta_list-empty :
    (ns : List SessionTreeNode) (h id : String)
    → is_empty h ≡ true
    → is_empty id ≡ false
    → (delta_list (some h) (trace ns id)).1 ≡ false
unfolding delta_list trace
delta_list-empty [] h id eh ei = refl
delta_list-empty (n ∷ ns) h id eh ei = elim (Bool-cases (str_eq n.id id)) [
  | inl e ↦
      let other : str_eq n.id h ≡ false = ground (arith, str_eq→eq n.id id e, str_eq→eq n.id h) in
      rw (e, other)
        (from_parent-elim (λ l. (delta_list (some h) l).1 ≡ false) (trace ns) n.parent_id refl
          (λ q eq. delta_list-empty ns h q eh eq))
  | inr e ↦ rw e (delta_list-empty ns h id eh ei)
]

abbrev Rest : List SessionTreeNode → String → List SessionTreeNode → Type 0
Rest ns h l =
    (delta_list (some h) l).1 ≡ true
    → (delta_list (some h) l).0 ++ map (λ n. n.message) (trace ns h) ≡ map (λ n. n.message) l

-- The trace of a node that stands on a trace is the rest of that trace.
delta_list-trace :
    (ns : List SessionTreeNode) (h id : String) → NodesOk ns → Rest ns h (trace ns id)
unfolding delta_list trace find_node
delta_list-trace [] h id v = λ found. absurd (ground arith)
delta_list-trace (n ∷ ns) h id (fresh, parent, v) = elim (Bool-cases (str_eq n.id h)) [
  | inl eh ↦ elim (Bool-cases (str_eq n.id id)) [
    | inl e ↦ rw (e, eh) (λ found. refl)
    | inr e ↦
        let gone : (delta_list (some h) (trace ns id)).1 ≡ false =
          delta_list-fresh ns h id
            (subst (λ s. find_node s ns ≡ none) (str_eq→eq n.id h eh) fresh) in
        rw (e, eh) (λ found. absurd (ground arith))
  ]
  | inr eh ↦ elim (Bool-cases (str_eq n.id id)) [
    | inl e ↦
        let rest : Rest ns h (from_parent (trace ns) n.parent_id) =
          from_parent-elim (Rest ns h) (trace ns) n.parent_id (λ found. absurd (ground arith))
            (λ q _. delta_list-trace ns h q v) in
        rw (e, eh) (λ found. ap (n.message ∷◌) (rest found))
    | inr e ↦ rw (e, eh) (delta_list-trace ns h id v)
  ]
]

-- What a caller makes of its view of the history with a delta.
abbrev pub apply_delta : List AgentMessage → SessionHistoryDelta → List AgentMessage
apply_delta old d = if d.reset then d.messages else old ++ d.messages

-- The view of a caller whose last head was `prev`.
abbrev pub view_of : SessionTree → Option String → List AgentMessage
view_of t none = []
view_of t (some h) = get_history t (some h)

-- On a path that ends at the head's own path, what the loop pushed goes before the head's messages.
found_rest :
    (ns : List SessionTreeNode) (h : String) (o : Option String)
    → NodesOk ns
    → (delta_list (some h) (from_parent (trace ns) o)).1 ≡ true
    → (delta_list (some h) (from_parent (trace ns) o)).0
        ++ map (λ n. n.message) (from_parent (trace ns) (some h))
      ≡ map (λ n. n.message) (from_parent (trace ns) o)
unfolding delta_list
found_rest ns h o v found = elim (Bool-cases (is_empty h)) [
  | inl e ↦
      let never : (delta_list (some h) (from_parent (trace ns) o)).1 ≡ false =
        from_parent-elim (λ l. (delta_list (some h) l).1 ≡ false) (trace ns) o refl
          (λ q eq. delta_list-empty ns h q e eq) in
      absurd (ground arith)
  | inr e ↦ rw e (
      from_parent-elim (Rest ns h) (trace ns) o (λ f. absurd (ground arith))
        (λ q _. delta_list-trace ns h q v) found)
]

delta_from-view :
    (t : SessionTree) (prev target o : Option String) (curr : Option SessionTreeNode)
    → IsValid t
    → climb (length t.nodes) t.nodes curr ≡ from_parent (trace t.nodes) o
    → apply_delta (view_of t prev) (delta_from t prev target curr) ≡ messages_to t.nodes o
unfolding delta_from messages_to
delta_from-view t none target o none v climbed =
    rw (← climbed, climb_nothing (length t.nodes) t.nodes) refl
delta_from-view t (some h) target o none v climbed =
    rw (← climbed, climb_nothing (length t.nodes) t.nodes) refl
delta_from-view t none target o (some n) v climbed =
    let path = from_parent (trace t.nodes) o in
    rw
      (
        delta_loop-climb (length t.nodes) t.nodes none (some n),
        climbed,
        delta_list-none path,
        delta_list-not_found none path (delta_list-none path),
      )
      refl
delta_from-view t (some h) target o (some n) v climbed =
    let path = from_parent (trace t.nodes) o in
    let pushed = (delta_list (some h) path).0 in
    let looped = delta_loop-climb (length t.nodes) t.nodes (some h) (some n) in
    elim (Bool-cases (delta_list (some h) path).1) [
      | inl e ↦
          rw (looped, climbed, e)
            (ap (λ old. old ++ reverse pushed) (get_history-trace t (some h) v)
              ∙ sym (
                  reverse-append pushed
                    (map (λ n. n.message) (from_parent (trace t.nodes) (some h))))
              ∙ ap reverse (found_rest t.nodes h o v.nodes_ok e))
      | inr e ↦ rw (looped, climbed, e, delta_list-not_found (some h) path e) refl
    ]

-- On a valid tree, the delta from any earlier head, applied to the view of that head, gives the history of the
-- target: where the head is on the target's branch, the view is extended; where it is not, it is
-- replaced.
pub get_history_delta-get_history :
    (t : SessionTree) (prev leaf : Option String)
    → IsValid t
    → apply_delta (view_of t prev) (get_history_delta t prev leaf) ≡ get_history t leaf
unfolding get_history_delta
get_history_delta-get_history t prev leaf v =
    let climbed =
      climb-from_parent (length t.nodes) t.nodes (target_of t leaf)
        (λ q. climb-trace (length t.nodes) t.nodes q v.nodes_ok (omega arith)) in
    delta_from-view t prev (target_of t leaf) (target_of t leaf) (start_node t leaf) v climbed
    ∙ sym (get_history-trace t leaf v)
