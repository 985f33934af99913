-- ===== src/SessionBackends/Contract/Forks.antt =====
-- packages/session-backends/src/entry-contract.ts: the forks of a journal.
use Prim.Native.String.{String}
use text.Mathlib.Text.{◌==◌ as str_eq}
use inkpi.Base.{
  ℕ, zero, suc, Bool, true, false, not, ◌&&◌, Option, none, some, List, [], ◌∷◌, map, length,
  if◌then◌else◌, Result, ok, err, ◌>>=◌, ◌>>◌, require,
}
use inkpi.SessionBackends.Contract.{
  SessionEntry, EntryError, validate_storage_id, member_of, bad_fork_target, bad_fork_head,
}

-- `byId.get(id)`: of entries with one identifier the last.
unfoldable pub find_entry : String → List SessionEntry → Option SessionEntry
find_entry id [] = none
find_entry id (e ∷ es) = elim (find_entry id es) [
  | some f ↦ some f
  | none ↦ if str_eq e.id id then some e else none
]

-- The loop from the head towards the root; it adds each entry before those it has. An identifier
-- that was seen ends it, so that it takes one round more than there are entries at most.
unfoldable pub ancestry :
    ℕ
    → List SessionEntry
    → List String
    → Option String
    → List SessionEntry
    → Result EntryError (List SessionEntry)
ancestry zero entries seen id selected = err bad_fork_head
ancestry (suc fuel) entries seen none selected = ok selected
ancestry (suc fuel) entries seen (some id) selected = elim (find_entry id entries) [
  | none ↦ err bad_fork_head
  | some e ↦
      let rest = ancestry fuel entries (id ∷ seen) e.parent_id (e ∷ selected) in
      if member_of id seen then err bad_fork_head else rest
]

abbrev pub select_fork :
    List SessionEntry → Option (Option String) → Result EntryError (List SessionEntry)
select_fork entries none = ok entries
select_fork entries (some head) = ancestry (suc (suc (length entries))) entries [] head []

abbrev pub is_no_entry : List SessionEntry → Bool
is_no_entry [] = true
is_no_entry (e ∷ es) = false

abbrev pub retarget : String → SessionEntry → SessionEntry
retarget target e = record e { session_id = target }

unfoldable pub fork_entries :
    String
    → String
    → List SessionEntry
    → List SessionEntry
    → Option (Option String)
    → Result EntryError (List SessionEntry)
fork_entries source target entries existing head = do
  validate_storage_id source
  validate_storage_id target
  require (not (str_eq source target) && is_no_entry existing) bad_fork_target
  selected ← select_fork entries head
  ok (map (retarget target) selected)
