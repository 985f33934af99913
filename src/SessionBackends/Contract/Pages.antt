-- ===== src/SessionBackends/Contract/Pages.antt =====
-- packages/session-backends/src/entry-contract.ts: the pages of a journal.
use Prim.Native.String.{String}
use text.Mathlib.Text.{◌==◌ as str_eq}
use inkpi.Base.{
  ℕ, Bool, true, false, not, ◌&&◌, ◌||◌, Option, none, some, List, [], ◌∷◌, reverse, length, take,
  ltb, leb, ◌==◌, if◌then◌else◌, Result, ok, ◌>>◌, require,
}
use inkpi.SessionBackends.Contract.{
  value_of, SessionEntry, EntryError, validate_storage_id, last_of, bad_limit, bad_direction,
  bad_cursor,
}

pub data Direction : Type 0 where
  forward backward unknown_direction : Direction

pub record SessionEntryCursor : Type 0 where
  pub version : ℕ
  pub session_id : String
  pub direction : Direction
  pub upper_seq : ℕ
  pub last_seq : ℕ
  pub last_id : String

pub record SessionEntryPageOptions : Type 0 where
  pub limit : Option ℕ
  pub direction : Option Direction
  pub cursor : Option SessionEntryCursor

pub record SessionEntryPage : Type 0 where
  pub entries : List SessionEntry
  pub next_cursor : Option SessionEntryCursor

abbrev pub limit_or : Option ℕ → ℕ
limit_or none = 100
limit_or (some n) = n

-- `options.direction ?? cursor?.direction ?? 'forward'`
abbrev pub direction_or : Option Direction → Option SessionEntryCursor → Direction
direction_or (some d) c = d
direction_or none none = forward
direction_or none (some c) = c.direction

abbrev pub same_direction : Direction → Direction → Bool
same_direction forward forward = true
same_direction backward backward = true
same_direction _ _ = false

abbrev pub known_direction : Direction → Bool
known_direction forward = true
known_direction backward = true
known_direction unknown_direction = false

unfoldable pub any_entry : (SessionEntry → Bool) → List SessionEntry → Bool
any_entry test [] = false
any_entry test (e ∷ es) = test e || any_entry test es

unfoldable pub filter_entries : (SessionEntry → Bool) → List SessionEntry → List SessionEntry
filter_entries test [] = []
filter_entries test (e ∷ es) =
    let rest = filter_entries test es in if test e then e ∷ rest else rest

abbrev pub upper_of : Option SessionEntryCursor → List SessionEntry → ℕ
upper_of none entries = last_of 0 entries
upper_of (some c) entries = c.upper_seq

unfoldable pub cursor_ok : String → Direction → Option SessionEntryCursor → List SessionEntry → Bool
cursor_ok session d none entries = true
cursor_ok session d (some c) entries =
    c.version == 1
    && str_eq c.session_id session
    && same_direction c.direction d
    && leb c.upper_seq 9007199254740991
    && not (ltb c.upper_seq c.last_seq)
    && any_entry (λ e. value_of e.seq == c.upper_seq) entries
    && any_entry (λ e. value_of e.seq == c.last_seq && str_eq e.id c.last_id) entries

-- `!cursor || (direction === 'forward' ? entry.seq > cursor.lastSeq : entry.seq < cursor.lastSeq)`
abbrev pub beyond : Direction → Option SessionEntryCursor → SessionEntry → Bool
beyond d none e = true
beyond forward (some c) e = ltb c.last_seq (value_of e.seq)
beyond backward (some c) e = ltb (value_of e.seq) c.last_seq
beyond unknown_direction (some c) e = ltb (value_of e.seq) c.last_seq

abbrev pub oriented : Direction → List SessionEntry → List SessionEntry
oriented backward es = reverse es
oriented forward es = es
oriented unknown_direction es = es

unfoldable pub last_entry : List SessionEntry → Option SessionEntry
last_entry [] = none
last_entry (e ∷ []) = some e
last_entry (e ∷ f ∷ es) = last_entry (f ∷ es)

unfoldable pub next_cursor_of :
    Bool → Option SessionEntry → String → Direction → ℕ → Option SessionEntryCursor
next_cursor_of more none session d upper = none
next_cursor_of false (some e) session d upper = none
next_cursor_of true (some e) session d upper = some (record {
  version = 1;
  session_id = session;
  direction = d;
  upper_seq = upper;
  last_seq = value_of e.seq;
  last_id = e.id;
})

unfoldable pub page_entries :
    String → List SessionEntry → SessionEntryPageOptions → Result EntryError SessionEntryPage
page_entries session entries o = do
  validate_storage_id session
  let limit = limit_or o.limit
  let d = direction_or o.direction o.cursor
  let upper = upper_of o.cursor entries
  let eligible =
      oriented d (filter_entries (λ e. leb (value_of e.seq) upper && beyond d o.cursor e) entries)
  let page = take limit eligible
  require (leb 1 limit && leb limit 1000) bad_limit
  require (known_direction d) bad_direction
  require (cursor_ok session d o.cursor entries) bad_cursor
  ok (record {
    entries = page;
    next_cursor = next_cursor_of (ltb limit (length eligible)) (last_entry page) session d upper;
  })
