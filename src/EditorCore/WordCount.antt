-- ===== src/EditorCore/WordCount.antt =====
-- The word count of packages/editor-core/src/state.ts, which is kept with the version of the text.
use inkpi.Base.{◌<◌, ◌≤◌, ◌≡◌, refl, inl, inr, List, [], ◌∷◌, Bool-cases, ◌==◌, ==→eq, arith}
use inkpi.EditorCore.State.{
  Text, EditorTransaction, HeadlessEditorState, get_text, create, set_selection, insert_text,
  insert, delete_range, replace_range, undo, undo_in, redo, redo_in, clear_history, set_content,
  count_text, get_word_count,
}
use inkpi.EditorCore.Undo.{
  EditorCall, selects, inserts, inserts_here, deletes, replaces, undoes, redoes, clears, counts,
  sets, step, run,
}

-- A count of an earlier version, or the count of the text.
IsCounted : HeadlessEditorState → Type 0
IsCounted e =
    (e.cached_word_count_version ≤ e.version)
    × (e.cached_word_count_version ≡ e.version → e.cached_word_count ≡ count_text (get_text e))

-- A new version: the count that is kept is of an earlier one.
later_IsCounted :
    (e e' : HeadlessEditorState)
    → IsCounted e
    → e'.cached_word_count_version ≡ e.cached_word_count_version
    → e.version < e'.version
    → IsCounted e'
unfolding IsCounted
later_IsCounted e e' v same later = (omega arith, λ now. absurd (omega arith))

undo_in-IsCounted :
    (trs : List EditorTransaction) (e : HeadlessEditorState)
    → IsCounted e
    → IsCounted (undo_in trs e).0
undo_in-IsCounted [] e v = v
undo_in-IsCounted (tr ∷ trs) e v = later_IsCounted e _ v refl (omega arith)

redo_in-IsCounted :
    (trs : List EditorTransaction) (e : HeadlessEditorState)
    → IsCounted e
    → IsCounted (redo_in trs e).0
redo_in-IsCounted [] e v = v
redo_in-IsCounted (tr ∷ trs) e v = later_IsCounted e _ v refl (omega arith)

get_word_count-IsCounted : (e : HeadlessEditorState) → IsCounted e → IsCounted (get_word_count e).0
unfolding IsCounted get_word_count get_text
get_word_count-IsCounted e v = elim (Bool-cases (e.cached_word_count_version == e.version)) [
  | inl h ↦ rw h v
  | inr h ↦ rw h (omega arith, λ now. refl)
]

step-IsCounted : (e : HeadlessEditorState) (c : EditorCall) → IsCounted e → IsCounted (step e c)
unfolding step set_selection insert_text insert delete_range replace_range undo redo clear_history
    set_content
step-IsCounted e (selects from to) v = unfold IsCounted get_text in (v.0, v.1)
step-IsCounted e (inserts pos text now) v = later_IsCounted e _ v refl (omega arith)
step-IsCounted e (inserts_here text now) v = later_IsCounted e _ v refl (omega arith)
step-IsCounted e (deletes from to now) v = later_IsCounted e _ v refl (omega arith)
step-IsCounted e (replaces start end text now) v = later_IsCounted e _ v refl (omega arith)
step-IsCounted e undoes v = undo_in-IsCounted e.undo_stack e v
step-IsCounted e redoes v = redo_in-IsCounted e.redo_stack e v
step-IsCounted e clears v = unfold IsCounted get_text in (v.0, v.1)
step-IsCounted e counts v = get_word_count-IsCounted e v
step-IsCounted e (sets text) v = later_IsCounted e _ v refl (omega arith)

run-IsCounted :
    (e : HeadlessEditorState) (cs : List EditorCall) → IsCounted e → IsCounted (run e cs)
unfolding run
run-IsCounted e [] v = v
run-IsCounted e (c ∷ cs) v = run-IsCounted (step e c) cs (step-IsCounted e c v)

create-IsCounted : (text : Text) → IsCounted (create text)
unfolding create IsCounted
create-IsCounted text = (omega arith, λ now. absurd (omega arith))

-- In whatever state calls have brought a new editor, `getWordCount` gives the count of the text that
-- it shows: a count that is kept is never that of another text.
pub get_word_count-count_text :
    (text : Text) (cs : List EditorCall)
    → (get_word_count (run (create text) cs)).1 ≡ count_text (get_text (run (create text) cs))
unfolding get_word_count IsCounted
get_word_count-count_text text cs =
    let e = run (create text) cs in
    let v = run-IsCounted (create text) cs (create-IsCounted text) in
    elim (Bool-cases (e.cached_word_count_version == e.version)) [
      | inl h ↦ rw h (v.1 (==→eq _ _ h))
      | inr h ↦ rw h refl
    ]
