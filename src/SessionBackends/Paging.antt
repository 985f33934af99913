-- ===== src/SessionBackends/Paging.antt =====
-- The pages of packages/session-backends/src/entry-contract.ts, read one after the other.
pub mod Lists
pub mod Bounded
pub mod Selection
pub mod Reading
use Prim.Native.String.{String}
use inkpi.Base.{
  ℕ, zero, suc, ◌≤◌, ◌<◌, ◌≡◌, refl, sym, ap, ◌∙◌, Bool, true, false, ◌&&◌, Option, none, some,
  List, [], ◌∷◌, ◌++◌, All, length, take, drop, ltb, leb, Result, ok, err, reverse, arith,
}
use inkpi.SessionBackends.Contract.{
  SessionEntry, EntryError, validate_storage_id, last_of, value_of,
}
use inkpi.SessionBackends.Contract.Pages.{
  Direction, forward, backward, SessionEntryCursor, SessionEntryPageOptions, SessionEntryPage,
  known_direction, oriented, last_entry, next_cursor_of, page_entries,
}
use inkpi.SessionBackends.Journals.{JournalOk}

-- A client that reads all pages: `journal n` is the journal at its `n`-th call. None if a call throws,
-- or after as many calls as the fuel.
unfoldable pub read_pages :
    ℕ → ℕ → String → (ℕ → List SessionEntry) → SessionEntryPageOptions → Option (List SessionEntry)
read_pages zero n session journal o = none
read_pages (suc fuel) n session journal o = elim (page_entries session (journal n) o) [
  | err e ↦ none
  | ok page ↦ elim page.next_cursor [
    | none ↦ some page.entries
    | some c ↦ elim (read_pages fuel (suc n) session journal (record o { cursor = some c })) [
      | none ↦ none
      | some rest ↦ some (page.entries ++ rest)
    ]
  ]
]
