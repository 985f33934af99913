-- ===== src/SessionBackends/Memory/Examples.antt =====
-- Runs of the backend in memory, and the theorems at concrete inputs.
use Prim.Native.String.{String}
use text.Mathlib.Text.{◌==◌ as str_eq}
use inkpi.Base.{
  ℕ, ◌≡◌, refl, inl, inr, All, Bool-cases, ◌==◌, arith, true, Option, none, some, List, [], ◌∷◌,
  ◌++◌, map, ok, err, if◌then◌else◌,
}
use inkpi.Base.Texts.{is_blank, is_space, trim, trim_start}
use inkpi.SessionBackends.Contract.{
  whole, SessionEntry, missing_parent, has_forbidden, validate_storage_id, member_of, ids_of,
  last_of, check_entry, prepare_loop, prepare_entry_batch,
}
use inkpi.SessionBackends.Contract.Pages.{
  backward, any_entry, filter_entries, cursor_ok, last_entry, next_cursor_of, page_entries, forward,
}
use inkpi.SessionBackends.Contract.Forks.{retarget, find_entry, ancestry, fork_entries}
use inkpi.SessionBackends.Memory.{
  MemorySessionBackend, new_backend, journal_of, get_key, set_key, close, append_entries,
  fork_session,
}
use inkpi.SessionBackends.Memory.Search.{search, search_loop, match_in, position_of}
use inkpi.SessionBackends.Journals.{JournalOk}
use inkpi.SessionBackends.Paging.{read_pages}
use inkpi.SessionBackends.Paging.Reading.{read_pages-entries}
use inkpi.SessionBackends.Forking.{Lineage}
use inkpi.SessionBackends.Forking.Forked.{fork_entries-Lineage}
use inkpi.SessionBackends.Journals.{first_version}
use inkpi.SessionBackends.Memory.Laws.{
  IsSound, appends, appends_one, forks, closes, perform, state_after, run, refusal,
  append_entries-journal_of, run-IsSound, run-close,
}

abbrev entry : String → ℕ → Option String → SessionEntry
entry id seq parent = record {
  id = id;
  session_id = "s";
  seq = whole seq;
  parent_id = parent;
  entry_type = "message";
  timestamp = whole 7;
  version = none;
  payload = some "{}";
}

abbrev three : List SessionEntry
three = entry "a" 1 none ∷ entry "b" 2 (some "a") ∷ entry "c" 5 (some "a") ∷ []

new_backend-IsSound : IsSound new_backend
unfolding get_key
new_backend-IsSound session = tt

-- A fork from `c` takes its ancestors only.
fork_run :
    map
      (λ e. e.id)
      (journal_of "t" (run new_backend (appends "s" three ∷ forks "s" "t" (some (some "c")) ∷ [])))
    ≡ "a" ∷ "c" ∷ []
unfolding run state_after perform append_entries fork_session is_blank has_forbidden
    validate_storage_id member_of ids_of last_of check_entry prepare_loop prepare_entry_batch
    find_entry ancestry fork_entries get_key set_key
fork_run = refl

-- A child before its parent is refused.
orphan_run : append_entries new_backend "s" (entry "b" 1 (some "a") ∷ []) ≡ err missing_parent
unfolding append_entries is_blank has_forbidden validate_storage_id member_of ids_of last_of
    check_entry prepare_loop prepare_entry_batch get_key
orphan_run = refl

-- The second page of two begins behind the cursor, and is the last.
page_run :
    page_entries "s" three (record {
      limit = some 2;
      direction = none;
      cursor = some (record {
        version = 1;
        session_id = "s";
        direction = forward;
        upper_seq = 5;
        last_seq = 2;
        last_id = "b";
      });
    })
    ≡ ok (record { entries = entry "c" 5 (some "a") ∷ []; next_cursor = none })
unfolding page_entries is_blank has_forbidden validate_storage_id filter_entries cursor_ok any_entry
    last_entry next_cursor_of
page_run = refl

run-IsSound_example :
    IsSound (run new_backend (appends "s" three ∷ forks "s" "t" none ∷ closes ∷ []))
run-IsSound_example =
    run-IsSound new_backend (appends "s" three ∷ forks "s" "t" none ∷ closes ∷ [])
      new_backend-IsSound

abbrev appended : MemorySessionBackend
appended = record new_backend { journals = ("s", map first_version three) ∷ [] }

append_entries-journal_of_example : journal_of "s" appended ≡ (
    if str_eq "s" "s"
    then journal_of "s" new_backend ++ map first_version three
    else journal_of "s" new_backend)
unfolding append_entries is_blank has_forbidden validate_storage_id member_of ids_of last_of
    check_entry prepare_loop prepare_entry_batch get_key set_key
append_entries-journal_of_example =
    append_entries-journal_of new_backend appended "s" "s" three new_backend-IsSound refl

run-close_example :
    ((close appended).closed ≡ true)
    × (run (close appended) (appends "s" three ∷ []) ≡ close appended)
    × (perform (run (close appended) (appends "s" three ∷ [])) (appends_one "s" (entry "d" 9 none))
        ≡ refusal (close appended) (appends_one "s" (entry "d" 9 none)))
run-close_example = run-close appended (appends "s" three ∷ []) (appends_one "s" (entry "d" 9 none))

abbrev saved : MemorySessionBackend
saved = record new_backend {
  snapshots =
      (
        "d",
        record {
          document_id = "d";
          content_markdown = some (32 ∷ 65 ∷ 66 ∷ 32 ∷ []);
          snapshot_rest = "";
        },
      )
      ∷ (
        "e",
        record { document_id = "e"; content_markdown = some (66 ∷ 65 ∷ []); snapshot_rest = "" },
      )
      ∷ [];
}

-- One document has the text, and its snippet is trimmed.
search_run :
    search (λ text. text) (65 ∷ 66 ∷ []) saved none
    ≡ ok (
        record { document_id = "d"; title = "Document d"; snippet = 65 ∷ 66 ∷ []; order_index = 1 }
        ∷ [])
unfolding search search_loop match_in position_of trim trim_start is_space
search_run = refl

three-JournalOk : JournalOk "s" three
unfolding member_of
three-JournalOk = (
  refl,
  refl,
  refl,
  omega arith,
  refl,
  (refl, refl, refl, omega arith, refl, (refl, refl, refl, omega arith, refl, tt)),
)

three_named : validate_storage_id "s" ≡ ok tt
unfolding validate_storage_id is_blank has_forbidden is_space
three_named = refl

abbrev grown : ℕ → List SessionEntry
grown n = if n == 0 then [] else entry "d" 9 (some "b") ∷ []

grown-JournalOk : (k : ℕ) → JournalOk "s" (three ++ grown k)
unfolding member_of
grown-JournalOk k = elim (Bool-cases (k == 0)) [
  | inl first ↦ rw first three-JournalOk
  | inr later ↦ rw later (
    refl,
    refl,
    refl,
    omega arith,
    refl,
    (
      refl,
      refl,
      refl,
      omega arith,
      refl,
      (refl, refl, refl, omega arith, refl, (refl, refl, refl, omega arith, refl, tt)),
    ),
  )
]

-- Two pages of two, backward, while an entry is appended between them.
read_pages-entries_example :
    read_pages 4 0 "s"
      (λ k. three ++ grown k)
      (record { limit = some 2; direction = some backward; cursor = none })
    ≡ some (entry "c" 5 (some "a") ∷ entry "b" 2 (some "a") ∷ entry "a" 1 none ∷ [])
read_pages-entries_example =
    read_pages-entries "s" three grown 2 backward three_named (omega arith) (omega arith) refl
      grown-JournalOk refl

target_named : validate_storage_id "t" ≡ ok tt
unfolding validate_storage_id is_blank has_forbidden is_space
target_named = refl

head_found : find_entry "c" three ≡ some (entry "c" 5 (some "a"))
unfolding find_entry
head_found = refl

fork_entries-Lineage_example :
    (chain : List SessionEntry) × (fork_entries "s" "t" three [] (some (some "c"))
      ≡ ok (map (retarget "t") chain))
    × Lineage none chain
    × (last_entry chain ≡ some (entry "c" 5 (some "a")))
    × ((P : SessionEntry → Type 0) → All P three → All P chain)
    × JournalOk "t" (map (retarget "t") chain)
fork_entries-Lineage_example =
    fork_entries-Lineage "s" "t" three "c" (entry "c" 5 (some "a")) three-JournalOk three_named
      target_named refl head_found
