-- ===== src/SessionBackends/Memory.antt =====
-- packages/session-backends/src/memory.ts: the backend that keeps sessions in memory. Its maps are
-- lists of pairs in the order of insertion.
pub mod Laws
pub mod Search
mod Examples
use Prim.Native.String.{String}
use text.Mathlib.Text.{◌==◌ as str_eq}
use inkpi.Base.{
  ℕ, suc, Bool, true, false, not, Option, none, some, List, [], ◌∷◌, ◌++◌, map, length, leb,
  if◌then◌else◌, Result, ok, err, ◌>>=◌, ◌>>◌, require,
}
use inkpi.SessionBackends.Contract.{
  Number, whole, fraction, SessionEntry, EntryError, backend_closed, validate_storage_id,
  prepare_entry_batch,
}
use inkpi.SessionBackends.Contract.Pages.{
  filter_entries, SessionEntryPage, SessionEntryPageOptions, page_entries,
}
use inkpi.SessionBackends.Contract.Forks.{fork_entries}

-- `Map.get` and `Map.set`.
unfoldable pub get_key {ℓ} : {A : Type ℓ} → String → List (String × A) → Option A
get_key k [] = none
get_key k ((x, a) ∷ m) = if str_eq x k then some a else get_key k m

unfoldable pub set_key {ℓ} : {A : Type ℓ} → String → A → List (String × A) → List (String × A)
set_key k a [] = (k, a) ∷ []
set_key k a ((x, b) ∷ m) =
    let rest = set_key k a m in if str_eq x k then (x, a) ∷ m else (x, b) ∷ rest

abbrev pub list_or {ℓ} : {A : Type ℓ} → Option (List A) → List A
list_or none = []
list_or (some xs) = xs

-- The rest of a snapshot and of a delta is JSON text; a content is its UTF-16 code units.
pub record DocumentSnapshot : Type 0 where
  pub document_id : String
  pub content_markdown : Option (List ℕ)
  pub snapshot_rest : String

pub record DocumentDelta : Type 0 where
  pub document_id : String
  pub id : Option ℕ
  pub delta_rest : String

pub record MemorySessionBackend : Type 0 where
  pub journals : List (String × List SessionEntry)
  pub snapshots : List (String × DocumentSnapshot)
  pub deltas : List (String × List DocumentDelta)
  pub closed : Bool

abbrev pub new_backend : MemorySessionBackend
new_backend = record { journals = []; snapshots = []; deltas = []; closed = false }

abbrev pub assert_open : MemorySessionBackend → Result EntryError (Unit {0})
assert_open b = require (not b.closed) backend_closed

-- `this.journals.get(sessionId) ?? []`
abbrev pub journal_of : String → MemorySessionBackend → List SessionEntry
journal_of session b = list_or (get_key session b.journals)

unfoldable pub initialize : MemorySessionBackend → Result EntryError MemorySessionBackend
initialize b = assert_open b >> ok b

unfoldable pub close : MemorySessionBackend → MemorySessionBackend
close b =
    if b.closed then b else record { journals = []; snapshots = []; deltas = []; closed = true }

unfoldable pub append_entries :
    MemorySessionBackend → String → List SessionEntry → Result EntryError MemorySessionBackend
append_entries b session entries = do
  assert_open b
  batch ← prepare_entry_batch session (journal_of session b) entries
  ok (record b { journals = set_key session (journal_of session b ++ batch) b.journals })

unfoldable pub append_entry :
    MemorySessionBackend → String → SessionEntry → Result EntryError MemorySessionBackend
append_entry b session e = assert_open b >> append_entries b session (e ∷ [])

unfoldable pub load_entries :
    MemorySessionBackend → String → List SessionEntry → Result EntryError MemorySessionBackend
load_entries b session entries = assert_open b >> append_entries b session entries

-- `e.timestamp >= fromTimestamp`: what is above `n` and below its successor is not below `from` just if
-- `n` is not. No entry has a time that is not finite.
abbrev pub is_since : ℕ → SessionEntry → Bool
is_since from e = elim e.timestamp [ whole n ↦ leb from n | fraction n ↦ leb from n | _ ↦ false ]

unfoldable pub get_entries :
    MemorySessionBackend → String → Option ℕ → Result EntryError (List SessionEntry)
get_entries b session from = do
  assert_open b
  validate_storage_id session
  ok (elim from [
    | none ↦ journal_of session b
    | some since ↦ filter_entries (is_since since) (journal_of session b)
  ])

unfoldable pub get_entry_page :
    MemorySessionBackend → String → SessionEntryPageOptions → Result EntryError SessionEntryPage
get_entry_page b session o = assert_open b >> page_entries session (journal_of session b) o

unfoldable pub fork_session :
    MemorySessionBackend
    → String
    → String
    → Option (Option String)
    → Result EntryError MemorySessionBackend
fork_session b source target head = do
  assert_open b
  entries ← fork_entries source target (journal_of source b) (journal_of target b) head
  append_entries b target entries

unfoldable pub save_snapshot :
    MemorySessionBackend → DocumentSnapshot → Result EntryError MemorySessionBackend
save_snapshot b s = do
  assert_open b
  ok (record b { snapshots = set_key s.document_id s b.snapshots })

unfoldable pub get_snapshot :
    MemorySessionBackend → String → Result EntryError (Option DocumentSnapshot)
get_snapshot b id = assert_open b >> ok (get_key id b.snapshots)

-- `{ ...delta, id: nextId }`
abbrev pub numbered : DocumentDelta → ℕ → DocumentDelta
numbered d count = record d { id = elim d.id [ some n ↦ some n | none ↦ some (suc count) ] }

unfoldable pub append_delta :
    MemorySessionBackend → DocumentDelta → Result EntryError MemorySessionBackend
append_delta b d = do
  assert_open b
  let list = list_or (get_key d.document_id b.deltas)
  ok (record b {
    deltas = set_key d.document_id (list ++ (numbered d (length list) ∷ [])) b.deltas;
  })

unfoldable pub deltas_from : ℕ → List DocumentDelta → List DocumentDelta
deltas_from from [] = []
deltas_from from (d ∷ ds) =
    let rest = deltas_from from ds in
    if leb from (elim d.id [ none ↦ 0 | some n ↦ n ]) then d ∷ rest else rest

unfoldable pub get_deltas :
    MemorySessionBackend → String → Option ℕ → Result EntryError (List DocumentDelta)
get_deltas b id from = do
  assert_open b
  let list = list_or (get_key id b.deltas)
  ok (elim from [ none ↦ list | some n ↦ deltas_from n list ])
