-- ===== src/EditorCore/Acceptance.antt =====
-- Accepting a suggestion of packages/editor-core/src/ghost-text.ts by parts.
use inkpi.Base.{
  ℕ, ◌+◌, ◌≤◌, ◌≡◌, refl, sym, ap, ◌∙◌, inl, inr, Bool, true, false, some, [], ◌∷◌, ◌++◌, take,
  drop, length, append-nil, append_assoc, length-append, length-take, take-append_length,
  drop-append_length, if◌then◌else◌, Bool-cases, ◌==◌, arith,
}
use inkpi.Base.Texts.{is_space}
use inkpi.EditorCore.State.{Text, HeadlessEditorState, get_text, insert_text, is_chinese, is_word}
use inkpi.EditorCore.Texts.{get_text-edit}
use inkpi.EditorCore.GhostText.{
  GhostTextSuggestion, GhostTextManager, has_text, has_ghost_text, dismiss_ghost_text,
  accept_ghost_text, run_of, is_other, word_of, line_of, advance_in, accept_word, accept_line,
}

-- A part that is a front of each text.
abbrev IsFront : (Text → Text) → Type 0
IsFront part = (t : Text) → part t ++ drop (length (part t)) t ≡ t

run_of-IsFront : (test : ℕ → Bool) → IsFront (run_of test)
unfolding run_of
run_of-IsFront test [] = refl
run_of-IsFront test (c ∷ cs) = elim (Bool-cases (test c)) [
  | inl e ↦ rw e (ap (c ∷◌) (run_of-IsFront test cs))
  | inr e ↦ rw e refl
]

word_of-IsFront : IsFront word_of
unfolding word_of
word_of-IsFront [] = refl
word_of-IsFront (c ∷ cs) = chosen (is_chinese c) (is_word c) (is_space c) (is_other c)
  where
    chosen :
        (b1 b2 b3 b4 : Bool)
        → (if b1
              then run_of is_chinese (c ∷ cs)
              else if b2
              then run_of is_word (c ∷ cs)
              else if b3
              then run_of is_space (c ∷ cs)
              else if b4
              then run_of is_other (c ∷ cs)
              else c ∷ [])
            ++ drop
                (length (
                  if b1
                  then run_of is_chinese (c ∷ cs)
                  else if b2
                  then run_of is_word (c ∷ cs)
                  else if b3
                  then run_of is_space (c ∷ cs)
                  else if b4
                  then run_of is_other (c ∷ cs)
                  else c ∷ []))
                (c ∷ cs)
          ≡ c ∷ cs
    chosen true b2 b3 b4 = run_of-IsFront is_chinese (c ∷ cs)
    chosen false true b3 b4 = run_of-IsFront is_word (c ∷ cs)
    chosen false false true b4 = run_of-IsFront is_space (c ∷ cs)
    chosen false false false true = run_of-IsFront is_other (c ∷ cs)
    chosen false false false false = refl

line_of-IsFront : IsFront line_of
unfolding line_of
line_of-IsFront [] = refl
line_of-IsFront (c ∷ cs) = elim (Bool-cases (c == 10)) [
  | inl e ↦ rw e refl
  | inr e ↦ rw e (ap (c ∷◌) (line_of-IsFront cs))
]

-- Two insertions one behind the other are one.
module _ (t a r : Text) (p : ℕ) (inside : p ≤ length t) where
  abbrev middle : Text
  middle = take p t ++ (a ++ drop p t)

  size : length (take p t ++ a) ≡ p + length a
  size = omega (arith, length-append (take p t) a, length-take p t)

  insert_twice :
      take (p + length a) middle ++ (r ++ drop (p + length a) middle)
      ≡ take p t ++ ((a ++ r) ++ drop p t)
  insert_twice =
      let whole = sym (append_assoc (take p t) a (drop p t)) in
      let front : take (p + length a) middle ≡ take p t ++ a =
        ap (take (p + length a)) whole
        ∙ take-append_length (p + length a) (take p t ++ a) (drop p t) size in
      let back : drop (p + length a) middle ≡ drop p t =
        ap (drop (p + length a)) whole
        ∙ drop-append_length (p + length a) (take p t ++ a) (drop p t) size in
      rw (front, back)
        (append_assoc (take p t) a (r ++ drop p t)
          ∙ ap (take p t ++◌) (sym (append_assoc a r (drop p t))))

-- The manager while it shows the suggestion `s` over the editor `e`.
abbrev pub showing : HeadlessEditorState → GhostTextSuggestion → GhostTextManager
showing e s = record { active = true; current = some s; editor = e }

text_inserted :
    (e : HeadlessEditorState) (pos now : ℕ) (text : Text)
    → get_text (insert_text e pos text now)
      ≡ take pos (get_text e) ++ (text ++ drop pos (get_text e))
text_inserted e pos now text = (get_text-edit e pos pos text now).0

module _ (e : HeadlessEditorState) (s : GhostTextSuggestion) (now later : ℕ) (part : Text → Text)
    (front : IsFront part) (inside : s.pos ≤ length (get_text e)) where
  -- What is left after a part, accepted too, makes the text that the whole makes.
  advance-accept :
      get_text (accept_ghost_text (advance_in (some s) part (showing e s) now).0 later).0.editor
      ≡ take s.pos (get_text e) ++ (s.text ++ drop s.pos (get_text e))
  unfolding accept_ghost_text has_ghost_text dismiss_ghost_text
  advance-accept = rest_cases (drop (length (part s.text)) s.text) refl
    where
      after : Text → GhostTextManager
      after r =
          let inserted = record (showing e s) { editor = insert_text e s.pos (part s.text) now } in
          if has_text r
          then record inserted {
            current = some (record s { pos = s.pos + length (part s.text); text = r });
          }
          else dismiss_ghost_text inserted

      rest_cases :
          (r : Text)
          → drop (length (part s.text)) s.text ≡ r
          → get_text (accept_ghost_text (after r) later).0.editor
            ≡ take s.pos (get_text e) ++ (s.text ++ drop s.pos (get_text e))
      rest_cases [] left =
          text_inserted e s.pos now (part s.text)
          ∙ ap (λ x. take s.pos (get_text e) ++ (x ++ drop s.pos (get_text e)))
              (sym (append-nil (part s.text)) ∙ ap (part s.text ++◌) (sym left) ∙ front s.text)
      rest_cases (c ∷ cs) left =
          text_inserted (insert_text e s.pos (part s.text) now) (s.pos + length (part s.text)) later
            (c ∷ cs)
          ∙ ap
              (λ x.
                take (s.pos + length (part s.text)) x
                ++ ((c ∷ cs) ++ drop (s.pos + length (part s.text)) x))
              (text_inserted e s.pos now (part s.text))
          ∙ insert_twice (get_text e) (part s.text) (c ∷ cs) s.pos inside
          ∙ ap (λ x. take s.pos (get_text e) ++ (x ++ drop s.pos (get_text e)))
              (ap (part s.text ++◌) (sym left) ∙ front s.text)

module _ (e : HeadlessEditorState) (s : GhostTextSuggestion) (now : ℕ)
    (some_text : has_text s.text ≡ true) where
  accepted :
      get_text (accept_ghost_text (showing e s) now).0.editor
      ≡ take s.pos (get_text e) ++ (s.text ++ drop s.pos (get_text e))
  unfolding accept_ghost_text has_ghost_text dismiss_ghost_text
  accepted = rw some_text (text_inserted e s.pos now s.text)

  word_taken : (accept_word (showing e s) now).0 ≡ (advance_in (some s) word_of (showing e s) now).0
  unfolding accept_word has_ghost_text
  word_taken = rw some_text refl

  line_taken : (accept_line (showing e s) now).0 ≡ (advance_in (some s) line_of (showing e s) now).0
  unfolding accept_line has_ghost_text
  line_taken = rw some_text refl

-- Of a suggestion that is not empty, at a position in the text: to accept a word and then what is left,
-- or a line and then what is left, makes the text that accepting it whole makes, with the suggestion
-- put in at its position.
pub accept_ghost_text-parts :
    (e : HeadlessEditorState) (s : GhostTextSuggestion) (now later : ℕ)
    → s.pos ≤ length (get_text e)
    → has_text s.text ≡ true
    → (get_text (accept_ghost_text (showing e s) now).0.editor
        ≡ take s.pos (get_text e) ++ (s.text ++ drop s.pos (get_text e)))
      × (get_text (accept_ghost_text (accept_word (showing e s) now).0 later).0.editor
          ≡ get_text (accept_ghost_text (showing e s) later).0.editor)
      × (get_text (accept_ghost_text (accept_line (showing e s) now).0 later).0.editor
          ≡ get_text (accept_ghost_text (showing e s) later).0.editor)
accept_ghost_text-parts e s now later inside some_text = (
  accepted e s now some_text,
  ap (λ g. get_text (accept_ghost_text g later).0.editor) (word_taken e s now some_text)
      ∙ advance-accept e s now later word_of word_of-IsFront inside
      ∙ sym (accepted e s later some_text),
  ap (λ g. get_text (accept_ghost_text g later).0.editor) (line_taken e s now some_text)
      ∙ advance-accept e s now later line_of line_of-IsFront inside
      ∙ sym (accepted e s later some_text),
)
