-- ===== src/SessionBackends/Journals.antt =====
-- What packages/session-backends/src/entry-contract.ts keeps of a journal.
use Prim.Native.String.{String}
use text.Mathlib.Text.{◌==◌ as str_eq}
use inkpi.Base.{
  ℕ, ◌<◌, ◌≡◌, refl, sym, ap, ap₂, ◌∙◌, subst, Bool, true, false, not, Option, none, some, ◌&&◌,
  List, [], ◌∷◌, ◌++◌, map, ltb, ok, require, >>=-eq-ok, ok_inj, ltb→lt, arith,
}
use inkpi.Base.Texts.{is_blank, str_eq→eq}
use inkpi.SessionBackends.Contract.{
  SessionEntry, EntryError, value_of, is_json, is_safe_sequence, validate_storage_id, member_of,
  ids_of, last_of, parent_known, is_finite, is_empty, version_ok, versioned, check_entry,
  prepare_loop, prepare_entry_batch,
}

-- Entries behind those with the identifiers `ids` and the last sequence `last`: of the session, with
-- identifiers that are new, safe sequences that rise, and parents that stand before.
abbrev pub JournalFrom : String → List String → ℕ → List SessionEntry → Type 0
JournalFrom session ids last [] = Unit
JournalFrom session ids last (e ∷ es) =
    (e.session_id ≡ session)
    × (member_of e.id ids ≡ false)
    × (is_safe_sequence e.seq ≡ true)
    × (last < value_of e.seq)
    × (parent_known e.parent_id ids ≡ true)
    × JournalFrom session (e.id ∷ ids) (value_of e.seq) es

abbrev pub JournalOk : String → List SessionEntry → Type 0
JournalOk session es = JournalFrom session [] 0 es

pub JournalFrom-append :
    (session : String) (ids : List String) (last : ℕ) (xs ys : List SessionEntry)
    → JournalFrom session ids last xs
    → JournalFrom session (ids_of ids xs) (last_of last xs) ys
    → JournalFrom session ids last (xs ++ ys)
unfolding ids_of last_of
JournalFrom-append session ids last [] ys h rest = rest
JournalFrom-append session ids last (x ∷ xs) ys (own, fresh, safe, rises, known, h) rest = (
  own,
  fresh,
  safe,
  rises,
  known,
  JournalFrom-append session (x.id ∷ ids) (value_of x.seq) xs ys h rest,
)

-- An entry as a journal keeps it: all as given, in version 1.
abbrev pub first_version : SessionEntry → SessionEntry
first_version e = record e { version = some 1 }

versioned-first : (e : SessionEntry) → version_ok e.version ≡ true → versioned e ≡ first_version e
versioned-first e h = ap (λ (v : Option ℕ). record e { version = v }) (filled e.version h)
  where
    filled :
        (v : Option ℕ)
        → version_ok v ≡ true
        → (elim v as (λ _. Option ℕ) [ none ↦ some 1 | some n ↦ some n ]) ≡ some 1
    filled none h = refl
    filled (some n) h = let one : n ≡ 1 = ground arith in ap some one

check_entry-ok :
    (session : String) (ids : List String) (last : ℕ) (e : SessionEntry)
    → check_entry session ids last e ≡ ok tt
    → (e.session_id ≡ session)
      × (member_of e.id ids ≡ false)
      × (is_safe_sequence e.seq ≡ true)
      × (last < value_of e.seq)
      × (parent_known e.parent_id ids ≡ true)
      × (version_ok e.version ≡ true)
unfolding check_entry
check_entry-ok session ids last e h =
    let (t1, a1, h1) = >>=-eq-ok (require (is_json e) _) _ h in
    let (t2, a2, h2) = >>=-eq-ok (require (str_eq e.session_id session) _) _ h1 in
    let (t3, a3, h3) =
      >>=-eq-ok (require (not (is_blank e.id) && not (member_of e.id ids)) _) _ h2 in
    let (t4, a4, h4) =
      >>=-eq-ok (require (is_safe_sequence e.seq && ltb last (value_of e.seq)) _) _ h3 in
    let (t5, a5, h5) = >>=-eq-ok (require (parent_known e.parent_id ids) _) _ h4 in
    let (t6, a6, h6) =
      >>=-eq-ok (require (is_finite e.timestamp && not (is_empty e.entry_type)) _) _ h5 in
    let own = required _ _ a2 in
    let fresh = required _ _ a3 in
    let rises = required _ _ a4 in
    (
      str_eq→eq e.session_id session own,
      ground arith,
      and_left _ _ rises,
      ltb→lt last (value_of e.seq) (and_right _ _ rises),
      required _ _ a5,
      required _ _ h6,
    )
  where
    required : (b : Bool) (x : EntryError) {u : Unit {0}} → require b x ≡ ok u → b ≡ true
    required true x q = refl
    required false x q = absurd (ground arith)

    and_left : (a b : Bool) → (a && b) ≡ true → a ≡ true
    and_left true b q = refl
    and_left false b q = absurd (ground arith)

    and_right : (a b : Bool) → (a && b) ≡ true → b ≡ true
    and_right true b q = q
    and_right false b q = absurd (ground arith)

prepare_loop-JournalFrom :
    (session : String) (ids : List String) (last : ℕ) (es batch : List SessionEntry)
    → prepare_loop session ids last es ≡ ok batch
    → JournalFrom session ids last batch × (batch ≡ map first_version es)
unfolding prepare_loop
prepare_loop-JournalFrom session ids last [] batch h =
    (subst (JournalFrom session ids last) (ok_inj h) tt, sym (ok_inj h))
prepare_loop-JournalFrom session ids last (e ∷ es) batch h =
    let (t, checked, h1) = >>=-eq-ok (check_entry session ids last e) _ h in
    let (rest, looped, h2) =
      >>=-eq-ok (prepare_loop session (e.id ∷ ids) (value_of e.seq) es) _ h1 in
    let (own, fresh, safe, rises, known, version) = check_entry-ok session ids last e checked in
    let (more, same) =
      prepare_loop-JournalFrom session (e.id ∷ ids) (value_of e.seq) es rest looped in
    (
      subst (JournalFrom session ids last) (ok_inj h2) (own, fresh, safe, rises, known, more),
      sym (ok_inj h2) ∙ ap₂ ◌∷◌ (versioned-first e version) same,
    )

-- A batch that is accepted behind a well-formed journal leaves a well-formed journal, and holds the
-- entries that were given, in version 1.
pub prepare_entry_batch-JournalOk :
    (session : String) (current entries batch : List SessionEntry)
    → JournalOk session current
    → prepare_entry_batch session current entries ≡ ok batch
    → JournalOk session (current ++ batch) × (batch ≡ map first_version entries)
unfolding prepare_entry_batch
prepare_entry_batch-JournalOk session current entries batch h accepted =
    let (t, valid, looped) = >>=-eq-ok (validate_storage_id session) _ accepted in
    let (more, same) =
      prepare_loop-JournalFrom session (ids_of [] current) (last_of 0 current) entries batch
        looped in
    (JournalFrom-append session [] 0 current batch h more, same)
