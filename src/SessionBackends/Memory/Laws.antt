-- ===== src/SessionBackends/Memory/Laws.antt =====
-- What the backend of packages/session-backends/src/memory.ts keeps, and what it refuses once closed.
use Prim.Native.String.{String}
use text.Mathlib.Text.{◌==◌ as str_eq}
use text.Mathlib.TextPositions.{eq_refl}
use inkpi.Base.{
  ◌≡◌, refl, sym, ap, ◌∙◌, subst, inl, inr, true, Option, some, List, [], ◌∷◌, ◌++◌, map,
  if◌then◌else◌, Result, ok, err, >>=-eq-ok, ok_inj, Bool-cases, arith,
}
use inkpi.Base.Texts.{str_eq→eq}
use inkpi.SessionBackends.Contract.{SessionEntry, EntryError, backend_closed, prepare_entry_batch}
use inkpi.SessionBackends.Contract.Forks.{fork_entries}
use inkpi.SessionBackends.Journals.{JournalOk, first_version, prepare_entry_batch-JournalOk}
use inkpi.SessionBackends.Memory.{
  get_key, set_key, DocumentSnapshot, DocumentDelta, MemorySessionBackend, assert_open, journal_of,
  initialize, close, append_entries, append_entry, load_entries, fork_session, save_snapshot,
  append_delta,
}

pub get_key-set_key :
    {A : Type 0} (k q : String) (a : A) (m : List (String × A))
    → get_key q (set_key k a m) ≡ (if str_eq k q then some a else get_key q m)
unfolding get_key set_key
get_key-set_key k q a [] = refl
get_key-set_key k q a ((x, b) ∷ m) = elim (Bool-cases (str_eq x k)) [
  | inl e ↦ rw (e, str_eq→eq x k e) (ground arith)
  | inr e ↦
      rw (e, get_key-set_key k q a m) (ground (arith, str_eq→eq x q, str_eq→eq k q, eq_refl q))
]

-- Every journal is well formed.
abbrev pub IsSound : MemorySessionBackend → Type 0
IsSound b = (session : String) → JournalOk session (journal_of session b)

append_entries_lem :
    (b b' : MemorySessionBackend) (session : String) (entries : List SessionEntry)
    → append_entries b session entries ≡ ok b'
    → (batch : List SessionEntry) × (prepare_entry_batch session (journal_of session b) entries
        ≡ ok batch)
      × (b' ≡ record b { journals = set_key session (journal_of session b ++ batch) b.journals })
unfolding append_entries
append_entries_lem b b' session entries h =
    let (t, open_, h1) = >>=-eq-ok (assert_open b) _ h in
    let (batch, accepted, h2) =
      >>=-eq-ok (prepare_entry_batch session (journal_of session b) entries) _ h1 in
    (batch, accepted, sym (ok_inj h2))

journal_of-set_key :
    (session q : String) (es : List SessionEntry) (b : MemorySessionBackend)
    → journal_of q (record b { journals = set_key session es b.journals })
      ≡ (if str_eq session q then es else journal_of q b)
journal_of-set_key session q es b = elim (Bool-cases (str_eq session q)) [
  | inl e ↦ rw (get_key-set_key session q es b.journals, e) refl
  | inr e ↦ rw (get_key-set_key session q es b.journals, e) refl
]

-- Entries that were appended to a backend with well-formed journals: the journal of their session has
-- them behind the entries that it had, each as it was given but in version 1, and the journal of each
-- other session is as before.
pub append_entries-journal_of :
    (b b' : MemorySessionBackend) (session q : String) (entries : List SessionEntry)
    → IsSound b
    → append_entries b session entries ≡ ok b'
    → journal_of q b' ≡ (
        if str_eq session q
        then journal_of session b ++ map first_version entries
        else journal_of q b)
append_entries-journal_of b b' session q entries sound h =
    let (batch, accepted, same) = append_entries_lem b b' session entries h in
    let (more, given) =
      prepare_entry_batch-JournalOk session (journal_of session b) entries batch (sound session)
        accepted in
    ap (journal_of q) same
    ∙ journal_of-set_key session q (journal_of session b ++ batch) b
    ∙ ap (λ es. if str_eq session q then journal_of session b ++ es else journal_of q b) given

append_entries-IsSound :
    (b b' : MemorySessionBackend) (session : String) (entries : List SessionEntry)
    → IsSound b
    → append_entries b session entries ≡ ok b'
    → IsSound b'
append_entries-IsSound b b' session entries sound h q =
    let (batch, accepted, same) = append_entries_lem b b' session entries h in
    let (more, given) =
      prepare_entry_batch-JournalOk session (journal_of session b) entries batch (sound session)
        accepted in
    subst (JournalOk q)
      (sym
        (ap (journal_of q) same ∙ journal_of-set_key session q (journal_of session b ++ batch) b))
      (elim (Bool-cases (str_eq session q)) [
        | inl e ↦
            rw e (
              subst (λ s. JournalOk s (journal_of session b ++ batch)) (str_eq→eq session q e) more)
        | inr e ↦ rw e (sound q)
      ])

-- A call of an operation that can change the backend; one that throws changes nothing.
pub data BackendCall : Type 0 where
  initializes closes : BackendCall
  appends_one : String → SessionEntry → BackendCall
  appends loads : String → List SessionEntry → BackendCall
  forks : String → String → Option (Option String) → BackendCall
  saves : DocumentSnapshot → BackendCall
  appends_delta : DocumentDelta → BackendCall

unfoldable pub perform : MemorySessionBackend → BackendCall → Result EntryError MemorySessionBackend
perform b initializes = initialize b
perform b closes = ok (close b)
perform b (appends_one s e) = append_entry b s e
perform b (appends s es) = append_entries b s es
perform b (loads s es) = load_entries b s es
perform b (forks s t head) = fork_session b s t head
perform b (saves s) = save_snapshot b s
perform b (appends_delta d) = append_delta b d

unfoldable pub state_after :
    MemorySessionBackend → Result EntryError MemorySessionBackend → MemorySessionBackend
state_after b (ok b') = b'
state_after b (err e) = b

unfoldable pub run : MemorySessionBackend → List BackendCall → MemorySessionBackend
run b [] = b
run b (c ∷ cs) = run (state_after b (perform b c)) cs

close-IsSound : (b : MemorySessionBackend) → IsSound b → IsSound (close b)
unfolding close get_key
close-IsSound b sound q = elim (Bool-cases b.closed) [ inl e ↦ rw e (sound q) | inr e ↦ rw e tt ]

perform-IsSound :
    (b b' : MemorySessionBackend) (c : BackendCall) → IsSound b → perform b c ≡ ok b' → IsSound b'
unfolding perform initialize append_entry load_entries fork_session save_snapshot append_delta
perform-IsSound b b' initializes sound h =
    let (t, o, h1) = >>=-eq-ok (assert_open b) _ h in subst IsSound (ok_inj h1) sound
perform-IsSound b b' closes sound h = subst IsSound (ok_inj h) (close-IsSound b sound)
perform-IsSound b b' (appends_one s e) sound h =
    let (t, o, h1) = >>=-eq-ok (assert_open b) _ h in
    append_entries-IsSound b b' s (e ∷ []) sound h1
perform-IsSound b b' (appends s es) sound h = append_entries-IsSound b b' s es sound h
perform-IsSound b b' (loads s es) sound h =
    let (t, o, h1) = >>=-eq-ok (assert_open b) _ h in append_entries-IsSound b b' s es sound h1
perform-IsSound b b' (forks s t head) sound h =
    let (u, o, h1) = >>=-eq-ok (assert_open b) _ h in
    let (es, forked, h2) =
      >>=-eq-ok (fork_entries s t (journal_of s b) (journal_of t b) head) _ h1 in
    append_entries-IsSound b b' t es sound h2
perform-IsSound b b' (saves s) sound h =
    let (t, o, h1) = >>=-eq-ok (assert_open b) _ h in subst IsSound (ok_inj h1) (λ q. sound q)
perform-IsSound b b' (appends_delta d) sound h =
    let (t, o, h1) = >>=-eq-ok (assert_open b) _ h in subst IsSound (ok_inj h1) (λ q. sound q)

state_after-IsSound :
    (b : MemorySessionBackend) (out : Result EntryError MemorySessionBackend)
    → IsSound b
    → ((b' : MemorySessionBackend) → out ≡ ok b' → IsSound b')
    → IsSound (state_after b out)
unfolding state_after
state_after-IsSound b (ok b') sound rec = rec b' refl
state_after-IsSound b (err e) sound rec = sound

-- Through any calls, those that throw included, every journal of a backend stays well formed: its entries are of
-- its session, their identifiers are unique, their sequences are safe integers that rise from above zero, and
-- each parent stands before its child.
pub run-IsSound :
    (b : MemorySessionBackend) (cs : List BackendCall) → IsSound b → IsSound (run b cs)
unfolding run
run-IsSound b [] sound = sound
run-IsSound b (c ∷ cs) sound =
    run-IsSound (state_after b (perform b c)) cs
      (state_after-IsSound b (perform b c) sound (λ b' h. perform-IsSound b b' c sound h))

-- What a closed backend answers.
abbrev pub refusal : MemorySessionBackend → BackendCall → Result EntryError MemorySessionBackend
refusal b closes = ok b
refusal b initializes = err backend_closed
refusal b (appends_one s x) = err backend_closed
refusal b (appends s es) = err backend_closed
refusal b (loads s es) = err backend_closed
refusal b (forks s t head) = err backend_closed
refusal b (saves s) = err backend_closed
refusal b (appends_delta d) = err backend_closed

perform-refusal :
    (b : MemorySessionBackend) (c : BackendCall) → b.closed ≡ true → perform b c ≡ refusal b c
unfolding perform initialize close append_entry append_entries load_entries fork_session
    save_snapshot append_delta
perform-refusal b initializes e = ground arith
perform-refusal b closes e = ground arith
perform-refusal b (appends_one s x) e = ground arith
perform-refusal b (appends s es) e = ground arith
perform-refusal b (loads s es) e = ground arith
perform-refusal b (forks s t head) e = ground arith
perform-refusal b (saves s) e = ground arith
perform-refusal b (appends_delta d) e = ground arith

state_after-refusal : (b : MemorySessionBackend) (c : BackendCall) → state_after b (refusal b c) ≡ b
unfolding state_after
state_after-refusal b initializes = refl
state_after-refusal b closes = refl
state_after-refusal b (appends_one s x) = refl
state_after-refusal b (appends s es) = refl
state_after-refusal b (loads s es) = refl
state_after-refusal b (forks s t head) = refl
state_after-refusal b (saves s) = refl
state_after-refusal b (appends_delta d) = refl

close-closed : (b : MemorySessionBackend) → (close b).closed ≡ true
unfolding close
close-closed b = elim (Bool-cases b.closed) [ inl e ↦ rw e (ground arith) | inr e ↦ rw e refl ]

run_closed : (b : MemorySessionBackend) (cs : List BackendCall) → b.closed ≡ true → run b cs ≡ b
unfolding run
run_closed b [] e = refl
run_closed b (c ∷ cs) e = rw (perform-refusal b c e, state_after-refusal b c) (run_closed b cs e)

-- After `close`, whatever calls are made: the backend is closed and stays as it is, `close` again
-- succeeds, and every other call that can change it throws.
pub run-close :
    (b : MemorySessionBackend) (cs : List BackendCall) (c : BackendCall)
    → ((close b).closed ≡ true)
      × (run (close b) cs ≡ close b)
      × (perform (run (close b) cs) c ≡ refusal (close b) c)
run-close b cs c =
    let stays = run_closed (close b) cs (close-closed b) in
    (close-closed b, stays, rw stays (perform-refusal (close b) c (close-closed b)))
