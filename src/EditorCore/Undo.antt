-- ===== src/EditorCore/Undo.antt =====
-- The two stacks of packages/editor-core/src/state.ts.
use inkpi.Base.{ℕ, ◌≡◌, refl, sym, subst, inl, inr, true, List, [], ◌∷◌, Bool-cases, ◌==◌, arith}
use inkpi.EditorCore.State.{
  Text, DocumentNode, EditorTransaction, HeadlessEditorState, create, set_selection, insert_text,
  insert, delete_range, replace_range, undo, undo_in, redo, redo_in, clear_history, set_content,
  get_word_count,
}

-- The newest transaction of the undo stack led to the document, the next to what it started from,
-- and so on.
abbrev pub UndoLinked : DocumentNode → List EditorTransaction → Type 0
UndoLinked d [] = Unit
UndoLinked d (tr ∷ trs) = (tr.doc_after ≡ d) × UndoLinked tr.doc_before trs

-- The other way round for the redo stack.
abbrev pub RedoLinked : DocumentNode → List EditorTransaction → Type 0
RedoLinked d [] = Unit
RedoLinked d (tr ∷ trs) = (tr.doc_before ≡ d) × RedoLinked tr.doc_after trs

pub record IsLinked (e : HeadlessEditorState) : Type 0 where
  pub undo_linked : UndoLinked e.doc e.undo_stack
  pub redo_linked : RedoLinked e.doc e.redo_stack

-- A call of an operation that can change the editor.
pub data EditorCall : Type 0 where
  selects : ℕ → ℕ → EditorCall
  inserts : ℕ → Text → ℕ → EditorCall
  inserts_here : Text → ℕ → EditorCall
  deletes : ℕ → ℕ → ℕ → EditorCall
  replaces : ℕ → ℕ → Text → ℕ → EditorCall
  undoes redoes clears counts : EditorCall
  sets : Text → EditorCall

unfoldable pub step : HeadlessEditorState → EditorCall → HeadlessEditorState
step e (selects from to) = set_selection e from to
step e (inserts pos text now) = insert_text e pos text now
step e (inserts_here text now) = insert e text now
step e (deletes from to now) = delete_range e from to now
step e (replaces start end text now) = replace_range e start end text now
step e undoes = (undo e).0
step e redoes = (redo e).0
step e clears = clear_history e
step e counts = (get_word_count e).0
step e (sets text) = set_content e text

unfoldable pub run : HeadlessEditorState → List EditorCall → HeadlessEditorState
run e [] = e
run e (c ∷ cs) = run (step e c) cs

insert_text-IsLinked :
    (e : HeadlessEditorState) (pos : ℕ) (text : Text) (now : ℕ)
    → IsLinked e
    → IsLinked (insert_text e pos text now)
unfolding insert_text
insert_text-IsLinked e pos text now v = record {
  undo_linked = (refl, v.undo_linked);
  redo_linked = tt;
}

delete_range-IsLinked :
    (e : HeadlessEditorState) (from to now : ℕ) → IsLinked e → IsLinked (delete_range e from to now)
unfolding delete_range
delete_range-IsLinked e from to now v = record {
  undo_linked = (refl, v.undo_linked);
  redo_linked = tt;
}

undo_in-IsLinked :
    (trs : List EditorTransaction) (e : HeadlessEditorState)
    → IsLinked e
    → UndoLinked e.doc trs
    → IsLinked (undo_in trs e).0
undo_in-IsLinked [] e v h = v
undo_in-IsLinked (tr ∷ trs) e v h = record {
  undo_linked = h.1;
  redo_linked = (refl, subst (λ d. RedoLinked d e.redo_stack) (sym h.0) v.redo_linked);
}

redo_in-IsLinked :
    (trs : List EditorTransaction) (e : HeadlessEditorState)
    → IsLinked e
    → RedoLinked e.doc trs
    → IsLinked (redo_in trs e).0
redo_in-IsLinked [] e v h = v
redo_in-IsLinked (tr ∷ trs) e v h = record {
  undo_linked = (refl, subst (λ d. UndoLinked d e.undo_stack) (sym h.0) v.undo_linked);
  redo_linked = h.1;
}

get_word_count-IsLinked : (e : HeadlessEditorState) → IsLinked e → IsLinked (get_word_count e).0
unfolding get_word_count
get_word_count-IsLinked e v = elim (Bool-cases (e.cached_word_count_version == e.version)) [
  | inl h ↦ rw h v
  | inr h ↦ rw h (record { undo_linked = v.undo_linked; redo_linked = v.redo_linked })
]

step-IsLinked : (e : HeadlessEditorState) (c : EditorCall) → IsLinked e → IsLinked (step e c)
unfolding step set_selection insert replace_range undo redo clear_history set_content
step-IsLinked e (selects from to) v = record {
  undo_linked = v.undo_linked;
  redo_linked = v.redo_linked;
}
step-IsLinked e (inserts pos text now) v = insert_text-IsLinked e pos text now v
step-IsLinked e (inserts_here text now) v = insert_text-IsLinked e e.selection.to text now v
step-IsLinked e (deletes from to now) v = delete_range-IsLinked e from to now v
step-IsLinked e (replaces start end text now) v =
    insert_text-IsLinked (delete_range e start end now) start text now
      (delete_range-IsLinked e start end now v)
step-IsLinked e undoes v = undo_in-IsLinked e.undo_stack e v v.undo_linked
step-IsLinked e redoes v = redo_in-IsLinked e.redo_stack e v v.redo_linked
step-IsLinked e clears v = record { undo_linked = tt; redo_linked = tt }
step-IsLinked e counts v = get_word_count-IsLinked e v
step-IsLinked e (sets text) v = record { undo_linked = tt; redo_linked = tt }

run-IsLinked : (e : HeadlessEditorState) (cs : List EditorCall) → IsLinked e → IsLinked (run e cs)
unfolding run
run-IsLinked e [] v = v
run-IsLinked e (c ∷ cs) v = run-IsLinked (step e c) cs (step-IsLinked e c v)

create-IsLinked : (text : Text) → IsLinked (create text)
unfolding create
create-IsLinked text = record { undo_linked = tt; redo_linked = tt }

-- The same document and the same two stacks.
abbrev pub SameHistory : HeadlessEditorState → HeadlessEditorState → Type 0
SameHistory e e' =
    (e'.doc ≡ e.doc) × (e'.undo_stack ≡ e.undo_stack) × (e'.redo_stack ≡ e.redo_stack)

redo_undone :
    (trs : List EditorTransaction) (e : HeadlessEditorState)
    → e.undo_stack ≡ trs
    → UndoLinked e.doc trs
    → (undo_in trs e).1 ≡ true
    → SameHistory e (redo (undo_in trs e).0).0
unfolding redo
redo_undone [] e same h done = absurd (ground arith)
redo_undone (tr ∷ trs) e same h done = (h.0, sym same, refl)

undo_redone :
    (trs : List EditorTransaction) (e : HeadlessEditorState)
    → e.redo_stack ≡ trs
    → RedoLinked e.doc trs
    → (redo_in trs e).1 ≡ true
    → SameHistory e (undo (redo_in trs e).0).0
unfolding undo
undo_redone [] e same h done = absurd (ground arith)
undo_redone (tr ∷ trs) e same h done = (h.0, refl, sym same)

-- In whatever state calls have brought a new editor: after an undo that succeeds a redo restores the
-- document and both stacks, and after a redo that succeeds an undo does.
pub undo-redo :
    (text : Text) (cs : List EditorCall)
    → ((undo (run (create text) cs)).1 ≡ true
        → SameHistory (run (create text) cs) (redo (undo (run (create text) cs)).0).0)
      × ((redo (run (create text) cs)).1 ≡ true
          → SameHistory (run (create text) cs) (undo (redo (run (create text) cs)).0).0)
unfolding undo redo
undo-redo text cs =
    let e = run (create text) cs in
    let v = run-IsLinked (create text) cs (create-IsLinked text) in
    (
      λ done. redo_undone e.undo_stack e refl v.undo_linked done,
      λ done. undo_redone e.redo_stack e refl v.redo_linked done,
    )
