-- ===== src/AgentCore/SessionTree/Climb.antt =====
-- What a loop towards the root of packages/agent-core/src/tree.ts passes, without fuel: a recursion
-- on the nodes, the newest first, since a parent is always older than its children.
use Prim.Native.String.{String}
use text.Mathlib.Text.{◌==◌ as str_eq}
use inkpi.Base.{
  ℕ, zero, suc, ◌≤◌, ◌≡◌, refl, sym, ap, ◌∙◌, subst, inl, inr, true, false, Option, none, some,
  List, [], ◌∷◌, map, length, if◌then◌else◌, Bool-cases, arith,
}
use inkpi.Base.Texts.{str_eq→eq}
use inkpi.AgentCore.SessionTree.{SessionTreeNode, find_node, has_node, is_empty}
use inkpi.AgentCore.SessionTree.Views.{parent_node, history_loop, path_loop}

-- The parent of a node is in the map.
abbrev pub ParentIn : List SessionTreeNode → Option String → Type 0
ParentIn ns none = Unit
ParentIn ns (some p) = has_node p ns ≡ true

-- Identifiers are unique, and a parent is older than its child.
abbrev pub NodesOk : List SessionTreeNode → Type 0
NodesOk [] = Unit
NodesOk (n ∷ ns) = (find_node n.id ns ≡ none) × ParentIn ns n.parent_id × NodesOk ns

abbrev pub from_parent : (String → List SessionTreeNode) → Option String → List SessionTreeNode
from_parent f none = []
from_parent f (some p) = if is_empty p then [] else f p

pub from_parent-elim :
    (P : List SessionTreeNode → Type 0) (f : String → List SessionTreeNode) (o : Option String)
    → P []
    → ((q : String) → is_empty q ≡ false → P (f q))
    → P (from_parent f o)
from_parent-elim P f none base each = base
from_parent-elim P f (some p) base each = elim (Bool-cases (is_empty p)) [
  | inl e ↦ subst (λ b. P (if b then [] else f p)) (sym e) base
  | inr e ↦ subst (λ b. P (if b then [] else f p)) (sym e) (each p e)
]

-- A node and its ancestors, the root last.
unfoldable pub trace : List SessionTreeNode → String → List SessionTreeNode
trace [] id = []
trace (n ∷ ns) id = if str_eq n.id id then n ∷ from_parent (trace ns) n.parent_id else trace ns id

pub find_node-id :
    (id : String) (ns : List SessionTreeNode) {n : SessionTreeNode}
    → find_node id ns ≡ some n
    → n.id ≡ id
unfolding find_node
find_node-id id [] h = cc
find_node-id id (m ∷ ns) {n} h = ground (arith, find_node-id id ns {n = n}, str_eq→eq m.id id)

has_node-skip :
    (p : String) (m : SessionTreeNode) (ns : List SessionTreeNode)
    → find_node m.id ns ≡ none
    → has_node p ns ≡ true
    → find_node p (m ∷ ns) ≡ find_node p ns
unfolding find_node
has_node-skip p m ns fresh h = elim (Bool-cases (str_eq m.id p)) [
  | inl e ↦ absurd (ground (arith, str_eq→eq m.id p e))
  | inr e ↦ rw e refl
]

ParentIn-cons :
    (m : SessionTreeNode) (ns : List SessionTreeNode) (p : Option String)
    → ParentIn ns p
    → ParentIn (m ∷ ns) p
unfolding find_node
ParentIn-cons m ns none h = tt
ParentIn-cons m ns (some p) h = ground arith

pub find_node-ParentIn :
    (id : String) (ns : List SessionTreeNode) {n : SessionTreeNode}
    → NodesOk ns
    → find_node id ns ≡ some n
    → ParentIn ns n.parent_id
unfolding find_node
find_node-ParentIn id [] v h = absurd (ground arith)
find_node-ParentIn id (m ∷ ns) {n} (fresh, parent, v) h = elim (Bool-cases (str_eq m.id id)) [
  | inl e ↦
      let same : m ≡ n = ground arith in
      subst (λ k. ParentIn (m ∷ ns) k.parent_id) same (ParentIn-cons m ns m.parent_id parent)
  | inr e ↦
      let older : find_node id ns ≡ some n = ground arith in
      ParentIn-cons m ns n.parent_id (find_node-ParentIn id ns {n = n} v older)
]

-- The nodes that a loop passes from `curr` on.
unfoldable pub climb : ℕ → List SessionTreeNode → Option SessionTreeNode → List SessionTreeNode
climb zero ns curr = []
climb (suc fuel) ns none = []
climb (suc fuel) ns (some n) = n ∷ climb fuel ns (parent_node ns n.parent_id)

abbrev CurrIn : List SessionTreeNode → Option SessionTreeNode → Type 0
CurrIn ns none = Unit
CurrIn ns (some n) = ParentIn ns n.parent_id

find_node-CurrIn :
    (id : String) (ns : List SessionTreeNode) (o : Option SessionTreeNode)
    → NodesOk ns
    → find_node id ns ≡ o
    → CurrIn ns o
find_node-CurrIn id ns none v e = tt
find_node-CurrIn id ns (some n) v e = find_node-ParentIn id ns {n = n} v e

parent_node-CurrIn :
    (ns : List SessionTreeNode) (p : Option String) → NodesOk ns → CurrIn ns (parent_node ns p)
unfolding parent_node
parent_node-CurrIn ns none v = tt
parent_node-CurrIn ns (some p) v = elim (Bool-cases (is_empty p)) [
  | inl e ↦ subst (λ b. CurrIn ns (if b then none else find_node p ns)) (sym e) tt
  | inr e ↦
      subst (λ b. CurrIn ns (if b then none else find_node p ns)) (sym e)
        (find_node-CurrIn p ns (find_node p ns) v refl)
]

parent_node-skip :
    (m : SessionTreeNode) (ns : List SessionTreeNode) (p : Option String)
    → find_node m.id ns ≡ none
    → ParentIn ns p
    → parent_node (m ∷ ns) p ≡ parent_node ns p
unfolding parent_node
parent_node-skip m ns none fresh h = refl
parent_node-skip m ns (some p) fresh h = ground (arith, has_node-skip p m ns fresh h)

climb-skip :
    (fuel : ℕ) (m : SessionTreeNode) (ns : List SessionTreeNode) (curr : Option SessionTreeNode)
    → NodesOk (m ∷ ns)
    → CurrIn ns curr
    → climb fuel (m ∷ ns) curr ≡ climb fuel ns curr
unfolding climb
climb-skip zero m ns curr v h = refl
climb-skip (suc fuel) m ns none v h = refl
climb-skip (suc fuel) m ns (some n) (fresh, parent, v) h =
    rw (parent_node-skip m ns n.parent_id fresh h) (
      ap (n ∷◌) (
        climb-skip fuel m ns (parent_node ns n.parent_id) (fresh, parent, v)
          (parent_node-CurrIn ns n.parent_id v)))

pub climb_nothing : (fuel : ℕ) (ns : List SessionTreeNode) → climb fuel ns none ≡ []
unfolding climb
climb_nothing zero ns = refl
climb_nothing (suc fuel) ns = refl

pub climb-from_parent :
    (fuel : ℕ) (ns : List SessionTreeNode) (p : Option String)
    → ((q : String) → climb fuel ns (find_node q ns) ≡ trace ns q)
    → climb fuel ns (parent_node ns p) ≡ from_parent (trace ns) p
unfolding parent_node
climb-from_parent fuel ns none rec = climb_nothing fuel ns
climb-from_parent fuel ns (some p) rec = elim (Bool-cases (is_empty p)) [
  | inl e ↦ rw e (climb_nothing fuel ns)
  | inr e ↦ rw e (rec p)
]

-- With fuel for every node, a loop passes a node and all of its ancestors.
pub climb-trace :
    (fuel : ℕ) (ns : List SessionTreeNode) (id : String)
    → NodesOk ns
    → length ns ≤ fuel
    → climb fuel ns (find_node id ns) ≡ trace ns id
unfolding climb find_node trace
climb-trace zero [] id v enough = refl
climb-trace (suc fuel) [] id v enough = refl
climb-trace zero (m ∷ ns) id v enough = absurd (omega arith)
climb-trace (suc fuel) (m ∷ ns) id (fresh, parent, v) enough = elim (Bool-cases (str_eq m.id id)) [
  | inl e ↦
      rw (e, parent_node-skip m ns m.parent_id fresh parent)
        (ap (m ∷◌) (
          climb-skip fuel m ns (parent_node ns m.parent_id) (fresh, parent, v)
            (parent_node-CurrIn ns m.parent_id v)
          ∙ climb-from_parent fuel ns m.parent_id (λ q. climb-trace fuel ns q v (omega arith))))
  | inr e ↦ rw e (
      climb-skip (suc fuel) m ns (find_node id ns) (fresh, parent, v)
        (find_node-CurrIn id ns (find_node id ns) v refl)
      ∙ climb-trace (suc fuel) ns id v (omega arith))
]

pub history_loop-climb :
    (fuel : ℕ) (ns : List SessionTreeNode) (curr : Option SessionTreeNode)
    → history_loop fuel ns curr ≡ map (λ n. n.message) (climb fuel ns curr)
unfolding history_loop climb
history_loop-climb zero ns curr = refl
history_loop-climb (suc fuel) ns none = refl
history_loop-climb (suc fuel) ns (some n) =
    ap (n.message ∷◌) (history_loop-climb fuel ns (parent_node ns n.parent_id))

pub path_loop-climb :
    (fuel : ℕ) (ns : List SessionTreeNode) (curr : Option SessionTreeNode)
    → path_loop fuel ns curr ≡ map (λ n. n.id) (climb fuel ns curr)
unfolding path_loop climb
path_loop-climb zero ns curr = refl
path_loop-climb (suc fuel) ns none = refl
path_loop-climb (suc fuel) ns (some n) =
    ap (n.id ∷◌) (path_loop-climb fuel ns (parent_node ns n.parent_id))
