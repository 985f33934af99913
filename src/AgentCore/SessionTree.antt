-- ===== src/AgentCore/SessionTree.antt =====
-- packages/agent-core/src/tree.ts: the tree of messages of a session. The clock is an argument of
-- each call; the generator of identifiers is a function of how often it was called.
pub mod Views
pub mod Climb
pub mod Valid
pub mod Keeps
pub mod Histories
pub mod Ancestors
mod Examples
pub mod Branching
use Prim.Native.String.{String}
use text.Mathlib.Text.{◌==◌ as str_eq}
use inkpi.Base.{
  ℕ, zero, suc, ◌+◌, ◌≡◌, Bool, true, false, not, ◌&&◌, Option, none, some, List, [], ◌∷◌, ◌++◌,
  reverse, map, length, if◌then◌else◌, Result, ok, err,
}
use inkpi.Base.Texts.{is_blank}

-- The content of a message: that of a marker, or any other as JSON text.
pub data MessageContent : Type 0 where
  json : String → MessageContent
  marker : String → Option String → MessageContent

-- The fields of a message that the tree reads; `content` is the rest. A missing text is the empty
-- one: the code tests both alike.
pub record AgentMessage : Type 0 where
  pub id : String
  pub role : String
  pub custom_type : String
  pub first_kept_entry_id : String
  pub content : MessageContent

pub record SessionTreeNode : Type 0 where
  pub id : String
  pub parent_id : Option String
  pub message : AgentMessage
  pub children_ids : List String
  pub created_at : ℕ
  pub metadata : Option String

-- The map `nodes` in the order of insertion, the newest first; each node stands under its own `id`.
pub record SessionTree : Type 0 where
  pub nodes : List SessionTreeNode
  pub root_id : Option String
  pub current_leaf_id : Option String
  pub generated_id : ℕ
  pub revision : ℕ

pub data TreeError : Type 0 where
  node_exists parent_not_found node_not_found : String → TreeError
  empty_label : TreeError

abbrev pub empty_tree : SessionTree
empty_tree = record {
  nodes = [];
  root_id = none;
  current_leaf_id = none;
  generated_id = 0;
  revision = 0;
}

-- `!s` of a text.
abbrev pub is_empty : String → Bool
is_empty String.[] = true
is_empty (String.◌∷◌ c s) = false

-- `nodes.get`
unfoldable pub find_node : String → List SessionTreeNode → Option SessionTreeNode
find_node id [] = none
find_node id (n ∷ ns) = if str_eq n.id id then some n else find_node id ns

abbrev pub is_some {ℓ} : {A : Type ℓ} → Option A → Bool
is_some none = false
is_some (some a) = true

-- `nodes.has`
abbrev pub has_node : String → List SessionTreeNode → Bool
has_node id ns = is_some (find_node id ns)

-- `parent.childrenIds.push(id)` on the node `parent`, which the map shares.
abbrev pub push_child : String → String → SessionTreeNode → SessionTreeNode
push_child parent id n = record n {
  children_ids = if str_eq n.id parent then n.children_ids ++ (id ∷ []) else n.children_ids;
}

unfoldable pub link_child : Option String → String → List SessionTreeNode → List SessionTreeNode
link_child none id ns = ns
link_child (some p) id ns = if is_empty p then ns else map (push_child p id) ns

-- `parentId !== null && !nodes.has(parentId)`
unfoldable pub is_orphan : Option String → List SessionTreeNode → Bool
is_orphan none ns = false
is_orphan (some p) ns = not (has_node p ns)

abbrev pub text_of : Option String → String
text_of none = ""
text_of (some s) = s

-- `parentId !== undefined ? parentId : currentLeafId`
abbrev pub parent_or : Option (Option String) → Option String → Option String
parent_or none leaf = leaf
parent_or (some p) leaf = p

-- `if (!this.rootId) this.rootId = id`
abbrev pub root_or : Option String → String → Option String
root_or none id = some id
root_or (some r) id = if is_empty r then some id else some r

abbrev pub new_node : String → Option String → AgentMessage → ℕ → Option String → SessionTreeNode
new_node id parent message now metadata = record {
  id = id;
  parent_id = parent;
  message = record message { id = id };
  children_ids = [];
  created_at = now;
  metadata = metadata;
}

-- The part of `addMessage` behind its two checks.
unfoldable pub insert_node :
    SessionTree → String → Option String → AgentMessage → ℕ → Option String → SessionTree
insert_node t id parent message now metadata = record t {
  nodes = new_node id parent message now metadata ∷ link_child parent id t.nodes;
  root_id = root_or t.root_id id;
  current_leaf_id = some id;
  revision = t.revision + 1;
}

abbrev pub marker_message : String → Option String → AgentMessage
marker_message name hypothesis = record {
  id = "";
  role = "custom";
  custom_type = "branch";
  first_kept_entry_id = "";
  content = marker name hypothesis;
}

-- `this.nodes.get(this.currentLeafId!)!`, behind a call of `addMessage` that may have thrown.
unfoldable pub leaf_node :
    SessionTree × Result TreeError String → SessionTree × Result TreeError (Option SessionTreeNode)
leaf_node (t, ok id) = (t, ok (find_node (text_of t.current_leaf_id) t.nodes))
leaf_node (t, err e) = (t, err e)

module _ (id_generator : ℕ → String) where
  -- `message.id || this.idGenerator()`, and the tree that the call of the generator leaves.
  abbrev pub id_for : SessionTree → AgentMessage → String
  id_for t message = if is_empty message.id then id_generator (t.generated_id + 1) else message.id

  abbrev pub count_id : SessionTree → AgentMessage → SessionTree
  count_id t message = record t {
    generated_id = if is_empty message.id then t.generated_id + 1 else t.generated_id;
  }

  unfoldable pub add_message :
      SessionTree
      → AgentMessage
      → Option (Option String)
      → Option String
      → ℕ
      → SessionTree × Result TreeError String
  unfolding is_orphan
  add_message t message parent metadata now =
      let id = id_for t message in
      let effective = parent_or parent t.current_leaf_id in
      if has_node id t.nodes
      then (count_id t message, err (node_exists id))
      else if is_orphan effective t.nodes
      then (count_id t message, err (parent_not_found (text_of effective)))
      else (insert_node (count_id t message) id effective message now metadata, ok id)

  -- The loop of the constructor over messages, each with the time of its call.
  unfoldable pub add_all : SessionTree → List (AgentMessage × ℕ) → Result TreeError SessionTree
  add_all t [] = ok t
  add_all t ((m, now) ∷ ms) =
      let out = add_message t m none none now in
      elim out.1 [ ok id ↦ add_all out.0 ms | err e ↦ err e ]

  unfoldable pub create : List (AgentMessage × ℕ) → Result TreeError SessionTree
  create ms = add_all empty_tree ms

  unfoldable pub add_branch_marker :
      SessionTree
      → String
      → Option String
      → ℕ
      → SessionTree × Result TreeError (Option SessionTreeNode)
  unfolding leaf_node
  add_branch_marker t name hypothesis now =
      if is_blank name
      then (t, err empty_label)
      else leaf_node (add_message t (marker_message name hypothesis) none none now)

-- The body that `selectLeaf` and `navigate` share.
unfoldable pub move_leaf : SessionTree → String → SessionTree
move_leaf t id =
    if elim t.current_leaf_id [ none ↦ false | some leaf ↦ str_eq leaf id ]
    then t
    else record t { current_leaf_id = some id; revision = t.revision + 1 }

unfoldable pub select_leaf : SessionTree → String → SessionTree × Result TreeError String
select_leaf t id =
    if has_node id t.nodes then (move_leaf t id, ok id) else (t, err (node_not_found id))

unfoldable pub navigate : SessionTree → String → SessionTree × Bool
navigate t id = if has_node id t.nodes then (move_leaf t id, true) else (t, false)

unfoldable pub clear : SessionTree → SessionTree
clear t = record t { nodes = []; root_id = none; current_leaf_id = none; revision = t.revision + 1 }

abbrev pub size : SessionTree → ℕ
size t = length t.nodes

abbrev pub get_all_nodes : SessionTree → List SessionTreeNode
get_all_nodes t = reverse t.nodes
