-- ===== src/SessionBackends/Paging/Reading.antt =====
-- Reading a journal page by page, as packages/session-backends/src/entry-contract.ts allows it.
use Prim.Native.String.{String}
use mathlib.Core.List.{reverse-cons}
use inkpi.Base.{
  ℕ, zero, suc, ◌≤◌, ◌<◌, ◌≡◌, refl, sym, ap, subst, ◌∙◌, inl, inr, Bool, true, false, ◌&&◌, Option,
  none, some, List, [], ◌∷◌, ◌++◌, length, length-append, take, drop, take-append-drop, length-take,
  length-drop, take_all, ltb, leb, ok, Bool-cases, List-cases, ltb→lt, ltb→le, append_assoc,
  append-nil, reverse, arith,
}
use inkpi.SessionBackends.Contract.{SessionEntry, validate_storage_id, last_of, value_of}
use inkpi.SessionBackends.Contract.Pages.{
  Direction, forward, backward, unknown_direction, SessionEntryCursor, SessionEntryPageOptions,
  SessionEntryPage, known_direction, oriented, last_entry, next_cursor_of, page_entries,
}
use inkpi.SessionBackends.Journals.{JournalOk}
use inkpi.SessionBackends.Paging.{read_pages}
use inkpi.SessionBackends.Paging.Lists.{
  Rises, JournalFrom-Rises, JournalFrom-safe, last_entry-append,
}
use inkpi.SessionBackends.Paging.Selection.{Selects-rest, upper-same}

module _ (session : String) (entries : List SessionEntry) (limit : ℕ) (d : Direction)
    (named : validate_storage_id session ≡ ok tt) (low : 1 ≤ limit) (high : limit ≤ 1000)
    (known : known_direction d ≡ true)
    (safe : leb (last_of 0 entries) 9007199254740991 ≡ true) where
  -- The options of the call behind what was read.
  abbrev options : List SessionEntry → SessionEntryPageOptions
  options done = record {
    limit = some limit;
    direction = some d;
    cursor = next_cursor_of true (last_entry done) session d (last_of 0 entries);
  }

  abbrev page_of : List SessionEntry → SessionEntryPage
  page_of rest = record {
    entries = take limit rest;
    next_cursor =
        next_cursor_of (ltb limit (length rest)) (last_entry (take limit rest)) session d
          (last_of 0 entries);
  }

  -- A page behind what was read holds the next entries, as many as the limit.
  page_entries-rest :
      (more done rest : List SessionEntry)
      → Rises 0 (entries ++ more)
      → (done ≡ [] → more ≡ [])
      → oriented d entries ≡ done ++ rest
      → page_entries session (entries ++ more) (options done) ≡ ok (page_of rest)
  unfolding page_entries
  page_entries-rest more done rest rises none_more e =
      let (selected, fine) =
        Selects-rest entries more rises session safe d done rest known none_more e in
      let same = upper-same entries more rises session safe d done none_more in
      let bounded : (leb 1 limit && leb limit 1000) ≡ true = ground arith in
      rw (page_entries, named, same, selected, fine, known, bounded) refl

  no_cursor :
      (more : Bool) (o : Option SessionEntry)
      → more ≡ false
      → next_cursor_of more o session d (last_of 0 entries) ≡ none
  unfolding next_cursor_of
  no_cursor more none h = refl
  no_cursor more (some e) h = rw h refl

  abbrev cursor_of : SessionEntry → SessionEntryCursor
  cursor_of z = record {
    version = 1;
    session_id = session;
    direction = d;
    upper_seq = last_of 0 entries;
    last_seq = value_of z.seq;
    last_id = z.id;
  }

  some_cursor :
      (more : Bool) (o : Option SessionEntry) (z : SessionEntry)
      → more ≡ true
      → o ≡ some z
      → next_cursor_of more o session d (last_of 0 entries) ≡ some (cursor_of z)
  unfolding next_cursor_of
  some_cursor more o z h k = rw (k, h) refl

  last_some :
      (y : SessionEntry) (ys : List SessionEntry)
      → (z : SessionEntry) × (last_entry (y ∷ ys) ≡ some z)
  unfolding last_entry
  last_some y [] = (y, refl)
  last_some y (x ∷ ys) = last_some x ys

  read_pages-rest :
      (fuel n : ℕ) (grown : ℕ → List SessionEntry) (done rest : List SessionEntry)
      → length rest < fuel
      → ((k : ℕ) → Rises 0 (entries ++ grown k))
      → (done ≡ [] → grown n ≡ [])
      → oriented d entries ≡ done ++ rest
      → read_pages fuel n session (λ k. entries ++ grown k) (options done) ≡ some rest
  unfolding read_pages
  read_pages-rest zero n grown done rest lt rises none_more e = absurd (omega arith)
  read_pages-rest (suc fuel) n grown done rest lt rises none_more e =
      let page = page_entries-rest (grown n) done rest (rises n) none_more e in
      elim (Bool-cases (ltb limit (length rest))) [
        | inr all ↦
            let whole_rest = take_all limit rest (ltb→le limit (length rest) all) in
            rw
              (
                read_pages,
                page,
                no_cursor (ltb limit (length rest)) (last_entry (take limit rest)) all,
              )
              (ap some whole_rest)
        | inl more ↦ elim (List-cases (take limit rest)) [
          | inl empty ↦ absurd (
              omega (
                arith,
                ap (length {0}) empty,
                length-take limit rest,
                ltb→lt limit (length rest) more,
              ))
          | inr (y, ys, cut) ↦
              let next =
                read_pages-rest fuel (suc n) grown (done ++ take limit rest) (drop limit rest)
                  (omega (arith, length-drop limit rest, ltb→lt limit (length rest) more)) rises
                  (λ h. absurd (
                    omega (
                      arith,
                      ap (length {0}) h,
                      length-append done (take limit rest),
                      ap (length {0}) cut,
                    )))
                  (e
                    ∙ ap (done ++◌) (sym (take-append-drop limit rest))
                    ∙ sym (append_assoc done (take limit rest) (drop limit rest))) in
              let (z, end) = last_some y ys in
              let at : last_entry (take limit rest) ≡ some z = ap last_entry cut ∙ end in
              let behind : last_entry (done ++ take limit rest) ≡ some z =
                ap (λ l. last_entry (done ++ l)) cut ∙ last_entry-append done ys y ∙ end in
              let next' =
                subst
                  (λ c.
                    read_pages fuel (suc n) session (λ k. entries ++ grown k)
                      (record { limit = some limit; direction = some d; cursor = c })
                    ≡ some (drop limit rest))
                  (some_cursor true (last_entry (done ++ take limit rest)) z refl behind) next in
              rw
                (
                  read_pages,
                  page,
                  some_cursor (ltb limit (length rest)) (last_entry (take limit rest)) z more at,
                  next',
                )
                (ap some (take-append-drop limit rest))
        ]
      ]

-- A client that reads the pages of a well-formed journal, for a valid session, in either direction and with
-- any limit from 1 through 1000, while the journal may grow between its calls and stays well formed: after
-- one call more than there are entries at most it has every entry of the journal as the first call found
-- it, once each and in order, or in reverse, and nothing that was appended meanwhile.
pub read_pages-entries :
    (session : String) (entries : List SessionEntry) (grown : ℕ → List SessionEntry) (limit : ℕ)
    (d : Direction)
    → validate_storage_id session ≡ ok tt
    → 1 ≤ limit
    → limit ≤ 1000
    → known_direction d ≡ true
    → ((k : ℕ) → JournalOk session (entries ++ grown k))
    → grown 0 ≡ []
    → read_pages
        (suc (length entries))
        0
        session
        (λ k. entries ++ grown k)
        (record { limit = some limit; direction = some d; cursor = none })
      ≡ some (oriented d entries)
unfolding next_cursor_of last_entry
read_pages-entries session entries grown limit d named low high known journals fresh =
    let first : JournalOk session entries =
      subst (JournalOk session) (ap (entries ++◌) fresh ∙ append-nil entries) (journals 0) in
    let safe = JournalFrom-safe session [] 0 entries refl first in
    read_pages-rest session entries limit d named low high known safe (suc (length entries)) 0 grown
      [] (oriented d entries) (omega (arith, length-oriented d entries))
      (λ k. JournalFrom-Rises session [] 0 (entries ++ grown k) (journals k)) (λ _. fresh) refl
  where
    length-oriented : (d : Direction) (es : List SessionEntry) → length (oriented d es) ≡ length es
    length-oriented forward es = refl
    length-oriented unknown_direction es = refl
    length-oriented backward [] = refl
    length-oriented backward (e ∷ es) =
        ap (length {0}) (reverse-cons e es)
        ∙ omega (arith, length-append (reverse es) (e ∷ []), length-oriented backward es)
