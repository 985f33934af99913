-- ===== src/EditorCore/State.antt =====
-- packages/editor-core/src/state.ts: the editor without a view. A text is the list of its UTF-16
-- code units; positions are whole and not negative; the clock is an argument.
use inkpi.Base.{
  ℕ, ◌+◌, Bool, true, false, not, ◌&&◌, ◌||◌, List, [], ◌∷◌, ◌++◌, map, take, drop, length, leb,
  ◌==◌, if◌then◌else◌,
}
use inkpi.Base.Texts.{is_space}

abbrev pub Text : Type 0
Text = List ℕ

-- A paragraph by the texts of its children; a document by its paragraphs, in order.
abbrev pub DocumentNode : Type 0
DocumentNode = List (List Text)

pub record SelectionRange : Type 0 where
  pub from : ℕ
  pub to : ℕ

pub data EditorStep : Type 0 where
  insert_step delete_step : ℕ → ℕ → Text → EditorStep

pub record EditorTransaction : Type 0 where
  pub steps : List EditorStep
  pub doc_before : DocumentNode
  pub doc_after : DocumentNode
  pub time : ℕ

-- The stacks have the newest transaction first.
pub record HeadlessEditorState : Type 0 where
  pub doc : DocumentNode
  pub selection : SelectionRange
  pub version : ℕ
  pub cached_word_count_version : ℕ
  pub cached_word_count : ℕ
  pub undo_stack : List EditorTransaction
  pub redo_stack : List EditorTransaction

-- Put a code unit in front of the first line.
abbrev pub onto_first : ℕ → List Text → List Text
onto_first c [] = (c ∷ []) ∷ []
onto_first c (l ∷ ls) = (c ∷ l) ∷ ls

-- `text.split('\n')`
unfoldable pub split_lines : Text → List Text
split_lines [] = [] ∷ []
split_lines (c ∷ cs) = let rest = split_lines cs in if c == 10 then [] ∷ rest else onto_first c rest

-- `lines.join('\n')`
unfoldable pub join_lines : List Text → Text
join_lines [] = []
join_lines (l ∷ []) = l
join_lines (l ∷ m ∷ ls) = l ++ (10 ∷ join_lines (m ∷ ls))

-- `.join('')`
unfoldable pub join_texts : List Text → Text
join_texts [] = []
join_texts (t ∷ ts) = t ++ join_texts ts

abbrev pub paragraph_of : Text → List Text
paragraph_of [] = []
paragraph_of (c ∷ cs) = (c ∷ cs) ∷ []

unfoldable pub doc_of : Text → DocumentNode
doc_of t = map paragraph_of (split_lines t)

unfoldable pub get_text : HeadlessEditorState → Text
get_text e = join_lines (map join_texts e.doc)

-- The constructor, for which the empty text is one empty paragraph.
abbrev pub initial_doc : Text → DocumentNode
initial_doc [] = [] ∷ []
initial_doc (c ∷ cs) = doc_of (c ∷ cs)

unfoldable pub create : Text → HeadlessEditorState
create t = record {
  doc = initial_doc t;
  selection = record { from = 0; to = 0 };
  version = 1;
  cached_word_count_version = 0;
  cached_word_count = 0;
  undo_stack = [];
  redo_stack = [];
}

unfoldable pub set_selection : HeadlessEditorState → ℕ → ℕ → HeadlessEditorState
set_selection e from to = record e { selection = record { from = from; to = to } }

-- What `insertText` and `deleteRange` share: a new document, version and transaction.
abbrev pub commit :
    HeadlessEditorState → Text → SelectionRange → EditorStep → ℕ → HeadlessEditorState
commit e text selection step now = record e {
  doc = doc_of text;
  version = e.version + 1;
  selection = selection;
  undo_stack =
      record { steps = step ∷ []; doc_before = e.doc; doc_after = doc_of text; time = now }
      ∷ e.undo_stack;
  redo_stack = [];
}

unfoldable pub insert_text : HeadlessEditorState → ℕ → Text → ℕ → HeadlessEditorState
insert_text e pos text now =
    let current = get_text e in
    commit e (take pos current ++ (text ++ drop pos current))
      (record { from = pos + length text; to = pos + length text }) (insert_step pos pos text) now

unfoldable pub insert : HeadlessEditorState → Text → ℕ → HeadlessEditorState
insert e text now = insert_text e e.selection.to text now

unfoldable pub delete_range : HeadlessEditorState → ℕ → ℕ → ℕ → HeadlessEditorState
delete_range e from to now =
    let current = get_text e in
    commit e (take from current ++ drop to current) (record { from = from; to = from })
      (delete_step from to (drop from (take to current))) now

unfoldable pub replace_range : HeadlessEditorState → ℕ → ℕ → Text → ℕ → HeadlessEditorState
replace_range e start end text now = insert_text (delete_range e start end now) start text now

abbrev pub undo_in : List EditorTransaction → HeadlessEditorState → HeadlessEditorState × Bool
undo_in [] e = (e, false)
undo_in (tr ∷ trs) e = (
  record e {
    doc = tr.doc_before;
    version = e.version + 1;
    undo_stack = trs;
    redo_stack = tr ∷ e.redo_stack;
  },
  true,
)

unfoldable pub undo : HeadlessEditorState → HeadlessEditorState × Bool
undo e = undo_in e.undo_stack e

abbrev pub redo_in : List EditorTransaction → HeadlessEditorState → HeadlessEditorState × Bool
redo_in [] e = (e, false)
redo_in (tr ∷ trs) e = (
  record e {
    doc = tr.doc_after;
    version = e.version + 1;
    undo_stack = tr ∷ e.undo_stack;
    redo_stack = trs;
  },
  true,
)

unfoldable pub redo : HeadlessEditorState → HeadlessEditorState × Bool
redo e = redo_in e.redo_stack e

unfoldable pub clear_history : HeadlessEditorState → HeadlessEditorState
clear_history e = record e { undo_stack = []; redo_stack = [] }

unfoldable pub set_content : HeadlessEditorState → Text → HeadlessEditorState
set_content e text = record e {
  doc = doc_of text;
  version = e.version + 1;
  undo_stack = [];
  redo_stack = [];
}

-- `/[\u4e00-\u9fa5]/` and `/[a-zA-Z0-9_-]/`
abbrev pub is_chinese : ℕ → Bool
is_chinese c = leb 0x4e00 c && leb c 0x9fa5

abbrev pub is_word : ℕ → Bool
is_word c =
    (leb 97 c && leb c 122)
    || (leb 65 c && leb c 90)
    || (leb 48 c && leb c 57)
    || c == 95
    || c == 45

unfoldable pub is_blank_text : Text → Bool
unfolding is_space
is_blank_text [] = true
is_blank_text (c ∷ cs) = is_space c && is_blank_text cs

unfoldable pub count_chinese : Text → ℕ
count_chinese [] = 0
count_chinese (c ∷ cs) = (if is_chinese c then 1 else 0) + count_chinese cs

-- The maximal runs of word characters; a Chinese character ends one, as the blank put for it does.
unfoldable pub count_words : Bool → Text → ℕ
count_words inside [] = 0
count_words inside (c ∷ cs) =
    (if is_word c && not inside then 1 else 0) + count_words (is_word c) cs

unfoldable pub count_text : Text → ℕ
count_text t = if is_blank_text t then 0 else count_chinese t + count_words false t

-- `getWordCount`, which keeps the count with the version of the text.
unfoldable pub get_word_count : HeadlessEditorState → HeadlessEditorState × ℕ
get_word_count e =
    let count = count_text (get_text e) in
    if e.cached_word_count_version == e.version
    then (e, e.cached_word_count)
    else (record e { cached_word_count = count; cached_word_count_version = e.version }, count)
