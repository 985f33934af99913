-- ===== src/EditorCore/GhostText.antt =====
-- packages/editor-core/src/ghost-text.ts: a suggestion shown at a position of the editor, and
-- packages/editor-core/src/ime.ts. The manager's editor is part of its state; identifiers and times
-- of suggestions are arguments.
use Prim.Native.String.{String}
use inkpi.Base.{
  ℕ, ◌+◌, Bool, true, false, not, ◌&&◌, Option, none, some, [], ◌∷◌, drop, length, ◌==◌,
  if◌then◌else◌,
}
use inkpi.Base.Texts.{is_space}
use inkpi.EditorCore.State.{Text, HeadlessEditorState, get_text, insert_text, is_chinese, is_word}

pub record GhostTextSuggestion : Type 0 where
  pub id : String
  pub pos : ℕ
  pub text : Text
  pub source : String
  pub created_at : ℕ

pub record GhostTextManager : Type 0 where
  pub active : Bool
  pub current : Option GhostTextSuggestion
  pub editor : HeadlessEditorState

abbrev pub new_manager : HeadlessEditorState → GhostTextManager
new_manager e = record { active = false; current = none; editor = e }

unfoldable pub set_ghost_text : GhostTextManager → ℕ → Text → String → String → ℕ → GhostTextManager
set_ghost_text g pos text source id now = record g {
  active = true;
  current = some (record { id = id; pos = pos; text = text; source = source; created_at = now });
}

abbrev pub position_or : Option ℕ → GhostTextManager → ℕ
position_or none g = length (get_text g.editor)
position_or (some pos) g = pos

unfoldable pub suggest : GhostTextManager → Text → Option ℕ → String → ℕ → GhostTextManager
suggest g text pos id now = set_ghost_text g (position_or pos g) text "ai-stream" id now

abbrev pub get_ghost_text : GhostTextManager → Option GhostTextSuggestion
get_ghost_text g = g.current

abbrev pub get_suggestion : GhostTextManager → Option Text
get_suggestion g = elim g.current [ none ↦ none | some s ↦ some s.text ]

abbrev pub has_text : Text → Bool
has_text [] = false
has_text (c ∷ cs) = true

unfoldable pub has_ghost_text : GhostTextManager → Bool
has_ghost_text g = g.active && elim g.current [ none ↦ false | some s ↦ has_text s.text ]

unfoldable pub dismiss_ghost_text : GhostTextManager → GhostTextManager
dismiss_ghost_text g = record g { active = false; current = none }

abbrev pub accept_in : Option GhostTextSuggestion → GhostTextManager → ℕ → GhostTextManager × Bool
accept_in none g now = (g, false)
accept_in (some s) g now =
    (dismiss_ghost_text (record g { editor = insert_text g.editor s.pos s.text now }), true)

unfoldable pub accept_ghost_text : GhostTextManager → ℕ → GhostTextManager × Bool
accept_ghost_text g now = if has_ghost_text g then accept_in g.current g now else (g, false)

-- The longest front of the text whose characters pass the test.
unfoldable pub run_of : (ℕ → Bool) → Text → Text
run_of test [] = []
run_of test (c ∷ cs) = let rest = run_of test cs in if test c then c ∷ rest else []

-- `[^\s\w\u4e00-\u9fa5]`, where `\w` has no dash.
abbrev pub is_other : ℕ → Bool
is_other c = not (is_space c) && not (is_word c && not (c == 45)) && not (is_chinese c)

-- What the regular expression of `acceptWord` matches, or the first character.
unfoldable pub word_of : Text → Text
unfolding is_space
word_of [] = []
word_of (c ∷ cs) =
    if is_chinese c
    then run_of is_chinese (c ∷ cs)
    else if is_word c
    then run_of is_word (c ∷ cs)
    else if is_space c
    then run_of is_space (c ∷ cs)
    else if is_other c
    then run_of is_other (c ∷ cs)
    else c ∷ []

-- `text.slice(0, newlineIdx + 1)`, or the whole text where no line ends.
unfoldable pub line_of : Text → Text
line_of [] = []
line_of (c ∷ cs) = let rest = line_of cs in if c == 10 then c ∷ [] else c ∷ rest

-- What `acceptWord` and `acceptLine` do with the part that they accept.
abbrev pub advance_in :
    Option GhostTextSuggestion → (Text → Text) → GhostTextManager → ℕ → GhostTextManager × Bool
advance_in none part g now = (g, false)
advance_in (some s) part g now =
    let accepted = part s.text in
    let rest = drop (length accepted) s.text in
    let inserted = record g { editor = insert_text g.editor s.pos accepted now } in
    let moved = record s { pos = s.pos + length accepted; text = rest } in
    (
      if has_text rest
          then record inserted { current = some moved }
          else dismiss_ghost_text inserted,
      true,
    )

unfoldable pub accept_word : GhostTextManager → ℕ → GhostTextManager × Bool
accept_word g now = if has_ghost_text g then advance_in g.current word_of g now else (g, false)

unfoldable pub accept_line : GhostTextManager → ℕ → GhostTextManager × Bool
accept_line g now = if has_ghost_text g then advance_in g.current line_of g now else (g, false)

-- packages/editor-core/src/ime.ts
pub record ImeProtectionManager : Type 0 where
  pub is_composing : Bool
  pub composition_text : Text

abbrev pub on_composition_start : ImeProtectionManager → ImeProtectionManager
on_composition_start i = record { is_composing = true; composition_text = [] }

abbrev pub on_composition_update : ImeProtectionManager → Text → ImeProtectionManager
on_composition_update i text = record i {
  composition_text = if i.is_composing then text else i.composition_text;
}

abbrev pub on_composition_end : ImeProtectionManager → Text → ImeProtectionManager × Text
on_composition_end i text = (record { is_composing = false; composition_text = [] }, text)
