-- ===== src/EditorCore/Texts.antt =====
-- The text of the editor of packages/editor-core/src/state.ts after each operation.
use inkpi.Base.{
  ℕ, ◌≡◌, refl, sym, ap, ◌∙◌, inl, inr, List, [], ◌∷◌, ◌++◌, map, take, drop, append-nil, ◌==◌,
  ==→eq, Bool-cases,
}
use inkpi.EditorCore.State.{
  Text, HeadlessEditorState, onto_first, split_lines, join_lines, join_texts, paragraph_of, doc_of,
  get_text, create, insert_text, delete_range, set_content,
}

join_texts-paragraph_of : (l : Text) → join_texts (paragraph_of l) ≡ l
unfolding join_texts
join_texts-paragraph_of [] = refl
join_texts-paragraph_of (c ∷ cs) = append-nil (c ∷ cs)

map-paragraph_of : (ls : List Text) → map join_texts (map paragraph_of ls) ≡ ls
map-paragraph_of [] = refl
map-paragraph_of (l ∷ ls) = rw (join_texts-paragraph_of l, map-paragraph_of ls) refl

-- A text is split into one line at least.
split_lines-some : (t : Text) → (l : Text) × (ls : List Text) × (split_lines t ≡ l ∷ ls)
unfolding split_lines
split_lines-some [] = ([], [], refl)
split_lines-some (c ∷ cs) =
    let (l, ls, e) = split_lines-some cs in
    elim (Bool-cases (c == 10)) [
      | inl h ↦ rw h ([], split_lines cs, refl)
      | inr h ↦ rw (h, e) (c ∷ l, ls, refl)
    ]

join_lines-onto_first :
    (c : ℕ) (l : Text) (ls : List Text)
    → join_lines (onto_first c (l ∷ ls)) ≡ c ∷ join_lines (l ∷ ls)
unfolding join_lines
join_lines-onto_first c l [] = refl
join_lines-onto_first c l (m ∷ ls) = refl

join_lines-one : (l : Text) → join_lines (l ∷ []) ≡ l
unfolding join_lines
join_lines-one l = refl

join_lines-newline :
    (rest : List Text) (l : Text) (ls : List Text)
    → rest ≡ l ∷ ls
    → join_lines ([] ∷ rest) ≡ 10 ∷ join_lines rest
unfolding join_lines
join_lines-newline rest l ls e = rw e refl

join_lines-split_lines : (t : Text) → join_lines (split_lines t) ≡ t
unfolding split_lines
join_lines-split_lines [] = join_lines-one []
join_lines-split_lines (c ∷ cs) =
    let (l, ls, e) = split_lines-some cs in
    elim (Bool-cases (c == 10)) [
      | inl h ↦ rw h (
          join_lines-newline (split_lines cs) l ls e
          ∙ ap (10 ∷◌) (join_lines-split_lines cs)
          ∙ ap (λ d. d ∷ cs) (sym (==→eq c 10 h)))
      | inr h ↦
          rw (h, e)
            (join_lines-onto_first c l ls
              ∙ ap (c ∷◌) (ap join_lines (sym e) ∙ join_lines-split_lines cs))
    ]

pub text-doc_of : (t : Text) → join_lines (map join_texts (doc_of t)) ≡ t
unfolding doc_of
text-doc_of t = ap join_lines (map-paragraph_of (split_lines t)) ∙ join_lines-split_lines t

-- The texts after an edit: an insertion puts the text in at its position and leaves the rest, a
-- deletion takes out what stands between its positions, `setContent` leaves what it was given, line
-- breaks included.
pub get_text-edit :
    (e : HeadlessEditorState) (pos end : ℕ) (text : Text) (now : ℕ)
    → (get_text (insert_text e pos text now)
        ≡ take pos (get_text e) ++ (text ++ drop pos (get_text e)))
      × (get_text (delete_range e pos end now) ≡ take pos (get_text e) ++ drop end (get_text e))
      × (get_text (set_content e text) ≡ text)
unfolding insert_text delete_range set_content get_text
get_text-edit e pos end text now = (text-doc_of _, text-doc_of _, text-doc_of text)

get_text-create : (text : Text) → get_text (create text) ≡ text
unfolding create get_text join_lines join_texts
get_text-create [] = refl
get_text-create (c ∷ cs) = text-doc_of (c ∷ cs)
