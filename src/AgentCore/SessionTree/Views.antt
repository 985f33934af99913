-- ===== src/AgentCore/SessionTree/Views.antt =====
-- The methods of packages/agent-core/src/tree.ts that read the tree. A loop towards the root takes
-- fuel, the number of nodes.
use Prim.Native.String.{String}
use text.Mathlib.Text.{◌==◌ as str_eq}
use inkpi.Base.{
  ℕ, zero, suc, Bool, true, false, not, ◌&&◌, ◌||◌, Option, none, some, List, [], ◌∷◌, ◌++◌,
  reverse, length, if◌then◌else◌,
}
use inkpi.AgentCore.SessionTree.{
  AgentMessage, SessionTreeNode, SessionTree, find_node, has_node, is_empty, is_some,
}

-- `curr.parentId ? this.nodes.get(curr.parentId) : undefined`
unfoldable pub parent_node : List SessionTreeNode → Option String → Option SessionTreeNode
parent_node ns none = none
parent_node ns (some p) = if is_empty p then none else find_node p ns

-- `leafId ?? this.currentLeafId`
abbrev pub target_of : SessionTree → Option String → Option String
target_of t none = t.current_leaf_id
target_of t (some id) = some id

-- The node where `getHistory` starts; none where it returns at once.
abbrev pub start_node : SessionTree → Option String → Option SessionTreeNode
start_node t leaf = parent_node t.nodes (target_of t leaf)

unfoldable pub history_loop : ℕ → List SessionTreeNode → Option SessionTreeNode → List AgentMessage
history_loop zero ns curr = []
history_loop (suc fuel) ns none = []
history_loop (suc fuel) ns (some n) = n.message ∷ history_loop fuel ns (parent_node ns n.parent_id)

unfoldable pub get_history : SessionTree → Option String → List AgentMessage
get_history t leaf = reverse (history_loop (length t.nodes) t.nodes (start_node t leaf))

pub record SessionHistoryDelta : Type 0 where
  pub head_id : Option String
  pub messages : List AgentMessage
  pub reset : Bool

-- `current.id === previousHeadId`
abbrev pub is_head : Option String → String → Bool
is_head none id = false
is_head (some h) id = str_eq id h

-- What the loop pushed, and whether it returned at the previous head.
unfoldable pub delta_loop :
    ℕ → List SessionTreeNode → Option String → Option SessionTreeNode → List AgentMessage × Bool
delta_loop zero ns prev curr = ([], false)
delta_loop (suc fuel) ns prev none = ([], false)
delta_loop (suc fuel) ns prev (some n) =
    let rest = delta_loop fuel ns prev (parent_node ns n.parent_id) in
    if is_head prev n.id then ([], true) else (n.message ∷ rest.0, rest.1)

unfoldable pub delta_from :
    SessionTree → Option String → Option String → Option SessionTreeNode → SessionHistoryDelta
delta_from t prev target none = record { head_id = none; messages = []; reset = is_some prev }
delta_from t prev target (some n) =
    let out = delta_loop (length t.nodes) t.nodes prev (some n) in
    record { head_id = target; messages = reverse out.0; reset = not out.1 && is_some prev }

unfoldable pub get_history_delta : SessionTree → Option String → Option String → SessionHistoryDelta
unfolding delta_from
get_history_delta t prev leaf = delta_from t prev (target_of t leaf) (start_node t leaf)

unfoldable pub path_loop : ℕ → List SessionTreeNode → Option SessionTreeNode → List String
path_loop zero ns curr = []
path_loop (suc fuel) ns none = []
path_loop (suc fuel) ns (some n) = n.id ∷ path_loop fuel ns (parent_node ns n.parent_id)

unfoldable pub get_path_to_root : SessionTree → String → List String
get_path_to_root t id = path_loop (length t.nodes) t.nodes (find_node id t.nodes)

unfoldable pub contains : String → List String → Bool
contains id [] = false
contains id (x ∷ xs) = str_eq x id || contains id xs

unfoldable pub ancestor_loop :
    ℕ → List SessionTreeNode → List String → Option SessionTreeNode → Option String
ancestor_loop zero ns path curr = none
ancestor_loop (suc fuel) ns path none = none
ancestor_loop (suc fuel) ns path (some n) =
    let rest = ancestor_loop fuel ns path (parent_node ns n.parent_id) in
    if contains n.id path then some n.id else rest

unfoldable pub find_common_ancestor : SessionTree → String → String → Option String
find_common_ancestor t a b =
    if not (has_node a t.nodes) || not (has_node b t.nodes)
    then none
    else if str_eq a b
    then some a
    else ancestor_loop (length t.nodes) t.nodes (get_path_to_root t a) (find_node b t.nodes)

pub record Branch : Type 0 where
  pub leaf_id : String
  pub length_ : ℕ
  pub last_message : AgentMessage

abbrev is_leaf : List String → Bool
is_leaf [] = true
is_leaf (x ∷ xs) = false

branches_of : SessionTree → List SessionTreeNode → List Branch
branches_of t [] = []
branches_of t (n ∷ ns) =
    let rest = branches_of t ns in
    if is_leaf n.children_ids
    then record {
      leaf_id = n.id;
      length_ = length (get_history t (some n.id));
      last_message = n.message;
    }
      ∷ rest
    else rest

unfoldable pub get_branches : SessionTree → List Branch
unfolding branches_of
get_branches t = branches_of t (reverse t.nodes)

abbrev pub is_label : AgentMessage → Bool
is_label m = str_eq m.role "custom" && str_eq m.custom_type "branch"

-- `replacementByLabelId.get(origBoundary) ?? origBoundary`
unfoldable pub map_boundary : List (String × String) → String → String
map_boundary [] b = b
map_boundary ((label, id) ∷ rs) b = if str_eq label b then id else map_boundary rs b

-- `for (const labelId of pendingLabelIds) replacementByLabelId.set(labelId, msg.id)`
unfoldable pub replace_pending :
    List String → String → List (String × String) → List (String × String)
replace_pending [] id rs = rs
replace_pending (l ∷ ls) id rs = replace_pending ls id ((l, id) ∷ rs)

abbrev pub with_boundary : List (String × String) → AgentMessage → AgentMessage
with_boundary rs m =
    if is_empty m.first_kept_entry_id
    then m
    else record m { first_kept_entry_id = map_boundary rs m.first_kept_entry_id }

unfoldable pub clean_loop :
    List (String × String) → List String → List AgentMessage → List AgentMessage
clean_loop rs pending [] = []
clean_loop rs pending (m ∷ ms) =
    let rs' = if is_empty m.id then rs else replace_pending pending m.id rs in
    let label = clean_loop rs (if is_empty m.id then pending else pending ++ (m.id ∷ [])) ms in
    let kept = with_boundary rs' m ∷ clean_loop rs' (if is_empty m.id then pending else []) ms in
    if is_label m then label else kept

unfoldable pub get_clean_history_path : SessionTree → Option String → List AgentMessage
unfolding clean_loop
get_clean_history_path t leaf = clean_loop [] [] (get_history t leaf)
