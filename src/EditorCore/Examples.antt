-- ===== src/EditorCore/Examples.antt =====
-- Runs of the editor and of the suggestions, and the theorems at concrete inputs.
use inkpi.Base.{◌≡◌, refl, true, List, [], ◌∷◌, ◌++◌, take, drop, arith}
use inkpi.Base.Texts.{is_space}
use inkpi.EditorCore.State.{
  Text, HeadlessEditorState, split_lines, join_lines, join_texts, doc_of, get_text, create,
  insert_text, delete_range, set_content, undo, redo, is_blank_text, count_chinese, count_words,
  count_text, get_word_count, replace_range,
}
use inkpi.EditorCore.Texts.{get_text-edit}
use inkpi.EditorCore.Undo.{
  EditorCall, inserts, deletes, replaces, undoes, step, run, SameHistory, undo-redo,
}
use inkpi.EditorCore.WordCount.{get_word_count-count_text}
use inkpi.EditorCore.GhostText.{
  GhostTextSuggestion, accept_ghost_text, accept_word, accept_line, run_of, word_of,
}
use inkpi.EditorCore.Acceptance.{showing, accept_ghost_text-parts}

-- "a b", a line break, and a Chinese character
abbrev text : Text
text = 97 ∷ 32 ∷ 98 ∷ 10 ∷ 0x4e2d ∷ []

abbrev editor : HeadlessEditorState
editor = create text

abbrev calls : List EditorCall
calls = inserts 1 (120 ∷ 10 ∷ []) 5 ∷ deletes 0 2 6 ∷ undoes ∷ []

-- One undo takes back the deletion, and leaves the insertion.
text_run : get_text (run editor calls) ≡ 97 ∷ 120 ∷ 10 ∷ 32 ∷ 98 ∷ 10 ∷ 0x4e2d ∷ []
unfolding create run step insert_text delete_range undo get_text split_lines join_lines join_texts
    doc_of
text_run = refl

-- A replacement is two transactions: one undo takes back its insertion only.
replace_run : get_text (run editor (replaces 0 3 (120 ∷ []) 5 ∷ undoes ∷ [])) ≡ 10 ∷ 0x4e2d ∷ []
unfolding create run step replace_range insert_text delete_range undo get_text split_lines
    join_lines join_texts doc_of
replace_run = refl

count_run : (get_word_count editor).1 ≡ 3
unfolding create get_word_count count_text is_space is_blank_text count_chinese count_words get_text
    split_lines join_lines join_texts doc_of
count_run = refl

get_text-edit_example :
    (get_text (insert_text editor 1 (120 ∷ []) 5)
      ≡ take 1 (get_text editor) ++ ((120 ∷ []) ++ drop 1 (get_text editor)))
    × (get_text (delete_range editor 1 3 5) ≡ take 1 (get_text editor) ++ drop 3 (get_text editor))
    × (get_text (set_content editor (120 ∷ [])) ≡ 120 ∷ [])
get_text-edit_example = get_text-edit editor 1 3 (120 ∷ []) 5

undo-redo_example :
    ((undo (run (create text) calls)).1 ≡ true
      → SameHistory (run (create text) calls) (redo (undo (run (create text) calls)).0).0)
    × ((redo (run (create text) calls)).1 ≡ true
        → SameHistory (run (create text) calls) (undo (redo (run (create text) calls)).0).0)
undo-redo_example = undo-redo text calls

get_word_count-count_text_example :
    (get_word_count (run (create text) calls)).1 ≡ count_text (get_text (run (create text) calls))
get_word_count-count_text_example = get_word_count-count_text text calls

-- "go on", a line break and "x", behind the first character
abbrev suggestion : GhostTextSuggestion
suggestion = record {
  id = "gt_1";
  pos = 1;
  text = 103 ∷ 111 ∷ 32 ∷ 111 ∷ 110 ∷ 10 ∷ 120 ∷ [];
  source = "ai-stream";
  created_at = 4;
}

word_run : word_of suggestion.text ≡ 103 ∷ 111 ∷ []
unfolding word_of is_space run_of
word_run = refl

accept_ghost_text-parts_example :
    (get_text (accept_ghost_text (showing editor suggestion) 5).0.editor
      ≡ take 1 (get_text editor) ++ (suggestion.text ++ drop 1 (get_text editor)))
    × (get_text (accept_ghost_text (accept_word (showing editor suggestion) 5).0 6).0.editor
        ≡ get_text (accept_ghost_text (showing editor suggestion) 6).0.editor)
    × (get_text (accept_ghost_text (accept_line (showing editor suggestion) 5).0 6).0.editor
        ≡ get_text (accept_ghost_text (showing editor suggestion) 6).0.editor)
unfolding create get_text split_lines join_lines join_texts doc_of
accept_ghost_text-parts_example = accept_ghost_text-parts editor suggestion 5 6 (omega arith) refl
