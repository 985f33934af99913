-- ===== src/AgentCore/SessionTree/Branching.antt =====
-- What `addMessage` of packages/agent-core/src/tree.ts does to the histories.
use Prim.Native.String.{String}
use text.Mathlib.Text.{◌==◌ as str_eq}
use text.Mathlib.TextPositions.{eq_refl}
use inkpi.Base.{
  ℕ, ◌≡◌, refl, sym, ap, ◌∙◌, subst, inl, inr, true, false, Option, none, some, List, [], ◌∷◌, ◌++◌,
  map, reverse, Bool-cases, Option-cases, ok, arith,
}
use mathlib.Core.List.{reverse-cons}
use inkpi.Base.Texts.{str_eq→eq}
use inkpi.AgentCore.SessionTree.{
  AgentMessage, SessionTreeNode, SessionTree, find_node, has_node, is_empty, push_child, link_child,
  add_message, id_for, parent_or, count_id, insert_node, is_orphan, new_node,
}
use inkpi.AgentCore.SessionTree.Views.{get_history}
use inkpi.AgentCore.SessionTree.Climb.{from_parent, trace}
use inkpi.AgentCore.SessionTree.Valid.{IsValid}
use inkpi.AgentCore.SessionTree.Keeps.{add_message-IsValid}
use inkpi.AgentCore.SessionTree.Histories.{get_history-trace, messages_to, view_of}

module _ (p id : String) where
  from_parent-map :
      (ns : List SessionTreeNode) (o : Option String)
      → ((q : String) → trace (map (push_child p id) ns) q ≡ map (push_child p id) (trace ns q))
      → from_parent (trace (map (push_child p id) ns)) o
        ≡ map (push_child p id) (from_parent (trace ns) o)
  from_parent-map ns none rec = refl
  from_parent-map ns (some r) rec = elim (Bool-cases (is_empty r)) [
    | inl e ↦ rw e refl
    | inr e ↦ rw e (rec r)
  ]

  trace-map :
      (ns : List SessionTreeNode) (q : String)
      → trace (map (push_child p id) ns) q ≡ map (push_child p id) (trace ns q)
  unfolding trace
  trace-map [] q = refl
  trace-map (n ∷ ns) q = elim (Bool-cases (str_eq n.id q)) [
    | inl e ↦
        rw e (ap (push_child p id n ∷◌) (from_parent-map ns n.parent_id (λ r. trace-map ns r)))
    | inr e ↦ rw e (trace-map ns q)
  ]

  messages-push :
      (ns : List SessionTreeNode)
      → map (λ n. n.message) (map (push_child p id) ns) ≡ map (λ n. n.message) ns
  messages-push [] = refl
  messages-push (n ∷ ns) = ap (n.message ∷◌) (messages-push ns)

messages-link :
    (parent : Option String) (id : String) (ns : List SessionTreeNode) (q : String)
    → map (λ n. n.message) (trace (link_child parent id ns) q) ≡ map (λ n. n.message) (trace ns q)
unfolding link_child
messages-link none id ns q = refl
messages-link (some p) id ns q = elim (Bool-cases (is_empty p)) [
  | inl e ↦ rw e refl
  | inr e ↦ rw e (ap (map (λ n. n.message)) (trace-map p id ns q) ∙ messages-push p id (trace ns q))
]

messages_to-link :
    (parent : Option String) (id : String) (ns : List SessionTreeNode) (o : Option String)
    → map (λ n. n.message) (from_parent (trace (link_child parent id ns)) o)
      ≡ map (λ n. n.message) (from_parent (trace ns) o)
messages_to-link parent id ns none = refl
messages_to-link parent id ns (some r) = elim (Bool-cases (is_empty r)) [
  | inl e ↦ rw e refl
  | inr e ↦ rw e (messages-link parent id ns r)
]

module _ (id : String) (parent : Option String) (m : AgentMessage) (now : ℕ)
    (md : Option String) where
  abbrev grown : List SessionTreeNode → List SessionTreeNode
  grown ns = new_node id parent m now md ∷ link_child parent id ns

  messages_to-new :
      (ns : List SessionTreeNode)
      → is_empty id ≡ false
      → messages_to (grown ns) (some id) ≡ messages_to ns parent ++ (record m { id = id } ∷ [])
  unfolding messages_to trace
  messages_to-new ns truthy =
      rw (truthy, eq_refl id)
        (reverse-cons (record m { id = id })
            (map (λ n. n.message) (from_parent (trace (link_child parent id ns)) parent))
          ∙ ap (λ l. reverse l ++ (record m { id = id } ∷ []))
              (messages_to-link parent id ns parent))

  messages_to-old :
      (ns : List SessionTreeNode) (q : String)
      → find_node id ns ≡ none
      → has_node q ns ≡ true
      → messages_to (grown ns) (some q) ≡ messages_to ns (some q)
  unfolding messages_to trace
  messages_to-old ns q fresh there =
      let other : str_eq id q ≡ false = ground (arith, str_eq→eq id q) in
      elim (Bool-cases (is_empty q)) [
        | inl e ↦ rw e refl
        | inr e ↦ rw (e, other) (ap reverse (messages-link parent id ns q))
      ]

-- What `addMessage` did when it succeeded.
add_message_lem :
    (id_generator : ℕ → String) (t : SessionTree) (m : AgentMessage)
    (parent : Option (Option String)) (metadata : Option String) (now : ℕ) (t' : SessionTree)
    (id : String)
    → add_message id_generator t m parent metadata now ≡ (t', ok id)
    → (has_node id t.nodes ≡ false)
      × (t'
          ≡ insert_node
              (count_id id_generator t m)
              id
              (parent_or parent t.current_leaf_id)
              m
              now
              metadata)
unfolding add_message
add_message_lem id_generator t m parent metadata now t' id h =
    let i = id_for id_generator t m in
    let effective = parent_or parent t.current_leaf_id in
    elim (Bool-cases (has_node i t.nodes)) [
      | inl e ↦ absurd (ground arith)
      | inr e ↦ elim (Bool-cases (is_orphan effective t.nodes)) [
        | inl o ↦ absurd (ground arith)
        | inr o ↦ ground arith
      ]
    ]

messages_to-view_of :
    (t : SessionTree) (o : Option String) → IsValid t → messages_to t.nodes o ≡ view_of t o
unfolding messages_to
messages_to-view_of t none v = refl
messages_to-view_of t (some h) v = sym (get_history-trace t (some h) v)

-- A message that was added to a valid tree, under an identifier that is not empty: it is the active leaf; its history
-- is that of its parent with the message behind it; and the history of each node that was there is
-- as before, whatever branch it is on.
pub add_message-get_history :
    (id_generator : ℕ → String) (t : SessionTree) (m : AgentMessage)
    (parent : Option (Option String)) (metadata : Option String) (now : ℕ) (t' : SessionTree)
    (id : String)
    → IsValid t
    → add_message id_generator t m parent metadata now ≡ (t', ok id)
    → is_empty id ≡ false
    → (t'.current_leaf_id ≡ some id)
      × (get_history t' none
          ≡ view_of t (parent_or parent t.current_leaf_id) ++ (record m { id = id } ∷ []))
      × ((q : String)
          → has_node q t.nodes ≡ true
          → get_history t' (some q) ≡ get_history t (some q))
unfolding insert_node
add_message-get_history id_generator t m parent metadata now t' id v done truthy =
    let (fresh, same) = add_message_lem id_generator t m parent metadata now t' id done in
    let effective = parent_or parent t.current_leaf_id in
    let v' : IsValid t' =
      subst (λ o. IsValid o.0) done (add_message-IsValid id_generator t m parent metadata now v) in
    let grew : t'.nodes ≡ grown id effective m now metadata t.nodes = ap (λ s. s.nodes) same in
    let leaf : t'.current_leaf_id ≡ some id = ap (λ s. s.current_leaf_id) same in
    let gone : find_node id t.nodes ≡ none = ground (arith, Option-cases (find_node id t.nodes)) in
    (
      leaf,
      get_history-trace t' none v'
          ∙ (rw (grew, leaf) (messages_to-new id effective m now metadata t.nodes truthy))
          ∙ ap (λ old. old ++ (record m { id = id } ∷ [])) (messages_to-view_of t effective v),
      λ q there.
          get_history-trace t' (some q) v'
          ∙ (rw grew (messages_to-old id effective m now metadata t.nodes q gone there))
          ∙ sym (get_history-trace t (some q) v),
    )
