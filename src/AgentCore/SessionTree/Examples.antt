-- ===== src/AgentCore/SessionTree/Examples.antt =====
-- A small tree with two branches, and the theorems at concrete inputs.
use Prim.Native.String.{String}
use inkpi.Base.{ℕ, ◌≡◌, refl, true, false, none, some, List, [], ◌∷◌, ◌++◌}
use inkpi.Base.Texts.{is_blank}
use inkpi.AgentCore.SessionTree.{
  AgentMessage, json, marker, leaf_node, SessionTree, empty_tree, find_node, has_node, link_child,
  is_orphan, insert_node, add_message, add_branch_marker, move_leaf, select_leaf,
}
use inkpi.AgentCore.SessionTree.Views.{
  parent_node, get_history, delta_loop, delta_from, get_history_delta, get_path_to_root, path_loop,
  contains, find_common_ancestor, ancestor_loop, clean_loop, map_boundary, replace_pending,
}
use inkpi.AgentCore.SessionTree.Valid.{IsValid}
use inkpi.AgentCore.SessionTree.Keeps.{TreeCall, adds, marks, selects, step, run, run-IsValid}
use inkpi.AgentCore.SessionTree.Keeps.Inserting.{empty_tree-IsValid}
use inkpi.AgentCore.SessionTree.Histories.{
  apply_delta, view_of, get_history-trace, messages_to, get_history_delta-get_history,
}
use inkpi.AgentCore.SessionTree.Branching.{add_message-get_history}
use inkpi.AgentCore.SessionTree.Ancestors.{find_common_ancestor-lowest}

abbrev say : String → AgentMessage
say id = record {
  id = id;
  role = "user";
  custom_type = "";
  first_kept_entry_id = "";
  content = json "";
}

abbrev generator : ℕ → String
generator n = "made"

abbrev calls : List TreeCall
calls =
    adds (say "a") none none 1
    ∷ adds (say "b") none none 2
    ∷ selects "a"
    ∷ adds (say "c") none none 3
    ∷ marks "what if" none 4
    ∷ []

abbrev tree : SessionTree
tree = run generator empty_tree calls

tree-IsValid : IsValid tree
tree-IsValid = run-IsValid generator empty_tree calls empty_tree-IsValid

run-IsValid_example : IsValid (run generator empty_tree calls)
run-IsValid_example = run-IsValid generator empty_tree calls empty_tree-IsValid

path_run : get_path_to_root tree "made" ≡ "made" ∷ "c" ∷ "a" ∷ []
unfolding run step add_message add_branch_marker leaf_node is_blank is_orphan insert_node find_node
    link_child select_leaf move_leaf get_path_to_root path_loop parent_node
path_run = refl

get_history-trace_example : get_history tree (some "b") ≡ messages_to tree.nodes (some "b")
get_history-trace_example = get_history-trace tree (some "b") tree-IsValid

-- From the head on the other branch the delta is a whole new history.
reset_run : (get_history_delta tree (some "b") none).reset ≡ true
unfolding run step add_message add_branch_marker leaf_node is_blank is_orphan insert_node find_node
    link_child select_leaf move_leaf get_history_delta delta_from delta_loop parent_node
reset_run = refl

get_history_delta-get_history_example :
    apply_delta (view_of tree (some "a")) (get_history_delta tree (some "a") none)
    ≡ get_history tree none
get_history_delta-get_history_example =
    get_history_delta-get_history tree (some "a") none tree-IsValid

abbrev longer : SessionTree
longer = (add_message generator tree (say "d") (some (some "b")) none 5).0

add_message-get_history_example :
    (longer.current_leaf_id ≡ some "d")
    × (get_history longer none ≡ view_of tree (some "b") ++ (say "d" ∷ []))
    × ((q : String)
        → has_node q tree.nodes ≡ true
        → get_history longer (some q) ≡ get_history tree (some q))
unfolding run step add_message add_branch_marker leaf_node is_blank is_orphan insert_node find_node
    link_child select_leaf move_leaf
add_message-get_history_example =
    add_message-get_history generator tree (say "d") (some (some "b")) none 5 longer "d"
      tree-IsValid refl refl

find_common_ancestor-lowest_example :
    ((c : String)
      → find_common_ancestor tree "b" "made" ≡ some c
      → (contains c (get_path_to_root tree "b") ≡ true)
        × (contains c (get_path_to_root tree "made") ≡ true)
        × ((x : String)
            → contains x (get_path_to_root tree "b") ≡ true
            → contains x (get_path_to_root tree "made") ≡ true
            → contains x (get_path_to_root tree c) ≡ true))
    × (find_common_ancestor tree "b" "made" ≡ none
        → (x : String) → contains x (get_path_to_root tree "made") ≡ true
        → contains x (get_path_to_root tree "b") ≡ false)
unfolding run step add_message add_branch_marker leaf_node is_blank is_orphan insert_node find_node
    link_child select_leaf move_leaf
find_common_ancestor-lowest_example =
    find_common_ancestor-lowest tree "b" "made" tree-IsValid refl refl

ancestor_run : find_common_ancestor tree "b" "made" ≡ some "a"
unfolding run step add_message add_branch_marker leaf_node is_blank is_orphan insert_node find_node
    link_child select_leaf move_leaf find_common_ancestor get_path_to_root path_loop parent_node
    contains ancestor_loop
ancestor_run = refl

-- A boundary that names a marker moves to the first message behind the marker.
clean_run :
    clean_loop [] [] (
      record {
        id = "m";
        role = "custom";
        custom_type = "branch";
        first_kept_entry_id = "";
        content = marker "what if" none;
      }
      ∷ say "x"
      ∷ record (say "y") { first_kept_entry_id = "m" }
      ∷ [])
    ≡ say "x" ∷ record (say "y") { first_kept_entry_id = "x" } ∷ []
unfolding clean_loop map_boundary replace_pending
clean_run = refl
