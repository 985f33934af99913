-- ===== src/SessionBackends/Contract.antt =====
-- packages/session-backends/src/entry-contract.ts: which entries a session's journal takes.
pub mod Pages
pub mod Forks
use Prim.Native.String.{String}
use Prim.Native.Char.{code}
use text.Mathlib.Text.{◌==◌ as str_eq}
use inkpi.Base.{
  ℕ, zero, suc, Bool, true, false, not, ◌&&◌, ◌||◌, Option, none, some, List, [], ◌∷◌, reverse, map,
  length, take, ltb, leb, ◌==◌, if◌then◌else◌, Result, ok, err, ◌>>=◌, ◌>>◌, require,
}
use inkpi.Base.Texts.{is_blank}

-- A number of the language: whole and not negative, between a whole number and the next, below zero,
-- or not finite.
pub data Number : Type 0 where
  whole fraction : ℕ → Number
  negative not_finite : Number

abbrev pub is_finite : Number → Bool
is_finite not_finite = false
is_finite _ = true

-- Negative whole numbers are safe too, but no sequence is below zero.
abbrev pub is_safe_sequence : Number → Bool
is_safe_sequence (whole n) = leb n 9007199254740991
is_safe_sequence _ = false

abbrev pub value_of : Number → ℕ
value_of (whole n) = n
value_of _ = 0

-- `payload` is the rest of the entry as JSON text, and none where that is not JSON-safe.
pub record SessionEntry : Type 0 where
  pub id : String
  pub session_id : String
  pub seq : Number
  pub parent_id : Option String
  pub entry_type : String
  pub timestamp : Number
  pub version : Option ℕ
  pub payload : Option String

pub data EntryError : Type 0 where
  bad_storage_id not_json other_session bad_entry_id bad_sequence missing_parent : EntryError
  bad_type_or_timestamp bad_version bad_limit bad_direction bad_cursor bad_fork_target : EntryError
  bad_fork_head backend_closed : EntryError

-- The characters that no identifier of a file may hold.
abbrev pub is_forbidden : ℕ → Bool
is_forbidden c =
    c == 92
    || c == 47
    || c == 58
    || c == 42
    || c == 63
    || c == 34
    || c == 60
    || c == 62
    || c == 124
    || leb c 31

unfoldable pub has_forbidden : String → Bool
has_forbidden String.[] = false
has_forbidden (String.◌∷◌ c s) = is_forbidden (code c) || has_forbidden s

unfoldable pub validate_storage_id : String → Result EntryError (Unit {0})
validate_storage_id id =
    require (not (is_blank id || has_forbidden id || str_eq id "." || str_eq id ".."))
      bad_storage_id

unfoldable pub member_of : String → List String → Bool
member_of id [] = false
member_of id (x ∷ xs) = str_eq x id || member_of id xs

-- The set of identifiers after those of the entries were added.
unfoldable pub ids_of : List String → List SessionEntry → List String
ids_of ids [] = ids
ids_of ids (e ∷ es) = ids_of (e.id ∷ ids) es

-- `current.at(-1)?.seq ?? last`
unfoldable pub last_of : ℕ → List SessionEntry → ℕ
last_of last [] = last
last_of last (e ∷ es) = last_of (value_of e.seq) es

abbrev pub is_present : Option String → Bool
is_present none = false
is_present (some s) = true

abbrev pub is_json : SessionEntry → Bool
is_json e = is_present e.payload && is_finite e.seq && is_finite e.timestamp

abbrev pub parent_known : Option String → List String → Bool
parent_known none ids = true
parent_known (some p) ids = member_of p ids

abbrev pub version_ok : Option ℕ → Bool
version_ok none = true
version_ok (some v) = v == 1

abbrev pub is_empty : String → Bool
is_empty String.[] = true
is_empty (String.◌∷◌ c s) = false

-- `{ ...entry, version: entry.version ?? 1 }`
abbrev pub versioned : SessionEntry → SessionEntry
versioned e = record e { version = elim e.version [ none ↦ some 1 | some v ↦ some v ] }

unfoldable pub check_entry : String → List String → ℕ → SessionEntry → Result EntryError (Unit {0})
check_entry session ids last e = do
  require (is_json e) not_json
  require (str_eq e.session_id session) other_session
  require (not (is_blank e.id) && not (member_of e.id ids)) bad_entry_id
  require (is_safe_sequence e.seq && ltb last (value_of e.seq)) bad_sequence
  require (parent_known e.parent_id ids) missing_parent
  require (is_finite e.timestamp && not (is_empty e.entry_type)) bad_type_or_timestamp
  require (version_ok e.version) bad_version

unfoldable pub prepare_loop :
    String → List String → ℕ → List SessionEntry → Result EntryError (List SessionEntry)
prepare_loop session ids last [] = ok []
prepare_loop session ids last (e ∷ es) =
    check_entry session ids last e
    >> (prepare_loop session (e.id ∷ ids) (value_of e.seq) es >>= λ rest. ok (versioned e ∷ rest))

-- Whatever is thrown is thrown on as a `rejected` commit.
unfoldable pub prepare_entry_batch :
    String → List SessionEntry → List SessionEntry → Result EntryError (List SessionEntry)
prepare_entry_batch session current entries =
    validate_storage_id session
    >> prepare_loop session (ids_of [] current) (last_of 0 current) entries
