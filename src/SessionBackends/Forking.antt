-- ===== src/SessionBackends/Forking.antt =====
-- The forks of packages/session-backends/src/entry-contract.ts, of journals that are well formed.
pub mod Ids
pub mod Ancestry
pub mod Forked
use Prim.Native.String.{String}
use text.Mathlib.Text.{◌==◌ as str_eq}
use inkpi.Base.{
  ℕ, zero, suc, ◌+◌, ◌≤◌, ◌<◌, ◌≡◌, refl, sym, ap, subst, ◌∙◌, Bool, true, false, not, ◌&&◌, Option,
  none, some, List, [], ◌∷◌, ◌++◌, All, map, length, ltb, leb, Result, ok, err, Option-cases,
  Bool-cases, append_assoc, arith,
}
use inkpi.SessionBackends.Contract.{SessionEntry, EntryError, value_of}
use inkpi.SessionBackends.Contract.Pages.{last_entry}
use inkpi.SessionBackends.Journals.{JournalFrom, JournalOk, JournalFrom-append}

-- Entries of which the first has the parent `p`, and each other the one before.
abbrev pub Lineage : Option String → List SessionEntry → Type 0
Lineage p [] = Unit
Lineage p (x ∷ xs) = (x.parent_id ≡ p) × Lineage (some x.id) xs
