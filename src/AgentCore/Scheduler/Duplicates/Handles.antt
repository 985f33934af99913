-- ===== src/AgentCore/Scheduler/Duplicates/Handles.antt =====
-- The handle that `schedule` in packages/agent-core/src/lifecycle/scheduler.ts gives a duplicate.
use Prim.Native.Nat.{Ordering}
use Prim.Native.String.{String}
use inkpi.Base.{
  ℕ, ◌≡◌, refl, sym, ap, subst, ◌∙◌, inl, inr, false, Option, none, some, List, [], ◌∷◌, ◌++◌,
  length, get_elem?, Option-cases, Bool-cases, ok, err, arith,
}
use inkpi.Base.Texts.{is_blank, eq→str_eq}
use inkpi.AgentCore.Scheduler.{
  ScheduledRecord, ScheduledWork, LifecycleState, idle, active, stopping, stopped, is_terminal,
}
use inkpi.AgentCore.Scheduler.State.{
  TaskScheduler, is_ending, key_or_none, find_in, find_duplicate, registered, register_dedupe,
  set_refs, pending, created, was_queued, emit, persist,
}
use inkpi.AgentCore.Scheduler.Pump.{arm}
use inkpi.AgentCore.Scheduler.Control.{
  ScheduledHandle, is_stopping, unknown_task, no_active_promise, id_unavailable, Outcome,
  new_record, promised, add_record, woken, handle_of, index_of, add_task, schedule_new, schedule,
}
use inkpi.AgentCore.Scheduler.Valid.{get_elem?-append}
use inkpi.AgentCore.Scheduler.Duplicates.{Kept, kept, arm-kept, find_in-none, find_in-again}

woken-going : (st : LifecycleState) → is_ending st ≡ false → is_ending (woken st) ≡ false
woken-going idle h = refl
woken-going active h = refl
woken-going stopping h = cc h
woken-going stopped h = cc h

-- The duplicate depends on the records and the index.
found_like :
    (key : Option String) (s s' : TaskScheduler)
    → kept s ≡ kept s'
    → (find_duplicate key s).1 ≡ (find_duplicate key s').1
unfolding find_duplicate
found_like key s s' e =
    ap (λ (x : Kept). (find_duplicate key (record s { records = x.0; dedupe_index = x.2 })).1) e

module _ (key : Option String) (k : String) (given : key_or_none key ≡ some k)
    (s : TaskScheduler) where
  set_refs-own : (refs : List ℕ) (index : String → List ℕ) → set_refs k refs index k ≡ refs
  set_refs-own refs index = rw (eq→str_eq k k refl) refl

  found_of :
      (s' : TaskScheduler)
      → find_duplicate key s' ≡ (
        set_refs k (find_in s'.records (s'.dedupe_index k) none).0 s'.dedupe_index,
        (find_in s'.records (s'.dedupe_index k) none).1,
      )
  unfolding find_duplicate
  found_of s' = rw (find_duplicate, given) refl

  left_of : (find_duplicate key s).0 k ≡ (find_in s.records (s.dedupe_index k) none).0
  left_of =
      ap (λ (x : (String → List ℕ) × Option ℕ). x.0 k) (found_of s)
      ∙ set_refs-own (find_in s.records (s.dedupe_index k) none).0 s.dedupe_index

  first-find_in : (find_duplicate key s).1 ≡ (find_in s.records (s.dedupe_index k) none).1
  first-find_in = ap (λ (x : (String → List ℕ) × Option ℕ). x.1) (found_of s)

  -- What is found is found again when the candidates that have ended are dropped.
  found_again :
      (find_duplicate key (record s { dedupe_index = (find_duplicate key s).0 })).1
      ≡ (find_duplicate key s).1
  found_again =
      ap (λ (x : (String → List ℕ) × Option ℕ). x.1)
        (found_of (record s { dedupe_index = (find_duplicate key s).0 }))
      ∙ ap (λ (refs : List ℕ). (find_in s.records refs none).1) left_of
      ∙ ap (λ (x : List ℕ × Option ℕ). x.1) (find_in-again s.records (s.dedupe_index k) none)
      ∙ sym first-find_in

  -- When nothing is found no candidate is left.
  none_left : (find_duplicate key s).1 ≡ none → (find_duplicate key s).0 k ≡ []
  none_left h = left_of ∙ (find_in-none s.records (s.dedupe_index k) none (sym first-find_in ∙ h)).1

module _ (collate : String → String → Ordering) where
  -- Work whose duplicate is a record with a promise gets that promise.
  duplicate-handle :
      (now : ℕ) (work : ScheduledWork) (s : TaskScheduler) (ref p : ℕ) (r : ScheduledRecord)
      → is_ending s.state ≡ false
      → is_blank work.id ≡ false
      → (find_duplicate work.dedupe_key s).1 ≡ some ref
      → get_elem? s.records ref ≡ some r
      → r.promise ≡ some p
      → ((schedule collate now work s).1 ≡ ok (record { promise = p; task = ref }))
        × ((schedule collate now work s).0.records ≡ s.records)
  unfolding schedule schedule_new handle_of
  duplicate-handle now work s ref p r going named dup at promise =
      rw (schedule, going, named, dup, schedule_new, at, handle_of, promise) (refl, refl)

  -- What a call of `schedule` that gives a handle has found or made.
  scheduled-cases :
      (now : ℕ) (work : ScheduledWork) (s : TaskScheduler) (h : ScheduledHandle)
      → (schedule collate now work s).1 ≡ ok h
      → (is_ending s.state ≡ false)
        × (is_blank work.id ≡ false)
        × (schedule collate now work s
            ≡ schedule_new collate now work
                (find_duplicate work.dedupe_key s).1
                (record s { dedupe_index = (find_duplicate work.dedupe_key s).0 }))
  unfolding schedule
  scheduled-cases now work s h made = elim (Bool-cases (is_ending s.state)) [
    | inl ending ↦ let k : err is_stopping ≡ ok h = rw (schedule, ending) at made in cc k
    | inr going ↦ elim (Bool-cases (is_blank work.id)) [
      | inl blank ↦ let k : err id_unavailable ≡ ok h = rw (schedule, going, blank) at made in cc k
      | inr named ↦ (going, named, rw (schedule, going, named) refl)
    ]
  ]

registered-own :
    (ref : ℕ) (r : ScheduledRecord) (k : String) (index : String → List ℕ)
    → key_or_none r.dedupe_key ≡ some k
    → is_terminal r.snapshot.status ≡ false
    → index k ≡ []
    → registered ref r index k ≡ ref ∷ []
unfolding registered
registered-own ref r k index given going empty =
    rw (registered, going, given, eq→str_eq k k refl, empty) refl

find_in-one :
    (rs : List ScheduledRecord) (ref : ℕ) (r : ScheduledRecord)
    → get_elem? rs ref ≡ some r
    → is_terminal r.snapshot.status ≡ false
    → (find_in rs (ref ∷ []) none).1 ≡ some ref
unfolding find_in
find_in-one rs ref r at going = rw (find_in, at, going) refl

module _ (collate : String → String → Ordering) (now later : ℕ) (work twin : ScheduledWork)
    (k : String) (given : key_or_none work.dedupe_key ≡ some k)
    (same_key : twin.dedupe_key ≡ work.dedupe_key) (named : is_blank twin.id ≡ false) where
  abbrev IsTwin : Outcome → Type 0
  IsTwin out =
      ((schedule collate later twin out.0).1 ≡ out.1)
      × ((schedule collate later twin out.0).0.records ≡ out.0.records)

  module _ (s : TaskScheduler) (going : is_ending s.state ≡ false) where
    abbrev pruned : TaskScheduler
    pruned = record s { dedupe_index = (find_duplicate work.dedupe_key s).0 }

    found-IsTwin :
        (ref p : ℕ) (r : ScheduledRecord)
        → (find_duplicate work.dedupe_key s).1 ≡ some ref
        → get_elem? s.records ref ≡ some r
        → r.promise ≡ some p
        → IsTwin (pruned, ok (record { promise = p; task = ref }))
    found-IsTwin ref p r dup at promise =
        duplicate-handle collate later twin pruned ref p r going named
          (ap (λ key. (find_duplicate key pruned).1) same_key
            ∙ found_again work.dedupe_key k given s
            ∙ dup)
          at promise

    abbrev fresh : ScheduledRecord
    fresh = new_record now work pruned

    abbrev place : ℕ
    place = length s.records

    abbrev announced : TaskScheduler
    announced = emit was_queued fresh (
        emit created fresh (
          persist fresh (
            register_dedupe place fresh
              (add_record fresh (promised pending (record pruned { state = woken s.state }))))))

    new-IsTwin :
        (find_duplicate work.dedupe_key s).1 ≡ none
        → IsTwin (
          arm collate now place fresh announced,
          ok (record { promise = length s.promises; task = place }),
        )
    new-IsTwin nothing =
        let armed = arm-kept collate now place fresh announced in
        let here : get_elem? (s.records ++ (fresh ∷ [])) place ≡ some fresh =
          ground (arith, get_elem?-append s.records fresh place) in
        duplicate-handle collate later twin (arm collate now place fresh announced) place
          (length s.promises) fresh
          (ap (λ (x : Kept). is_ending x.1) armed ∙ woken-going s.state going) named
          (ap (λ key. (find_duplicate key (arm collate now place fresh announced)).1) same_key
            ∙ found_like work.dedupe_key (arm collate now place fresh announced) announced armed
            ∙ first-find_in work.dedupe_key k given announced
            ∙ ap (λ (refs : List ℕ). (find_in announced.records refs none).1)
                (registered-own place fresh k pruned.dedupe_index given refl
                  (none_left work.dedupe_key k given s nothing))
            ∙ find_in-one announced.records place fresh here refl)
          (ap (λ (x : Kept). get_elem? x.0 place) armed ∙ here) refl

  schedule_new-IsTwin :
      (s : TaskScheduler) (h : ScheduledHandle) (going : is_ending s.state ≡ false) (dup : Option ℕ)
      → (find_duplicate work.dedupe_key s).1 ≡ dup
      → (schedule_new collate now work dup (pruned s going)).1 ≡ ok h
      → IsTwin (schedule_new collate now work dup (pruned s going))
  unfolding schedule_new handle_of add_task
  schedule_new-IsTwin s h going (some ref) dup made =
      elim (Option-cases (get_elem? s.records ref)) [
        | inl nothing ↦ let e : err unknown_task ≡ ok h = rw (schedule_new, nothing) at made in cc e
        | inr (r, at) ↦ elim (Option-cases r.promise) [
          | inl gone ↦
              let e : err no_active_promise ≡ ok h =
                rw (schedule_new, at, handle_of, gone) at made in
              cc e
          | inr (p, promise) ↦
              rw (schedule_new, at, handle_of, promise)
                (found-IsTwin s going ref p r dup at promise)
        ]
      ]
  schedule_new-IsTwin s h going none dup made = elim (Option-cases (index_of work.id s.records)) [
    | inr (ref, taken) ↦
        let e : err id_unavailable ≡ ok h = rw (schedule_new, taken) at made in cc e
    | inl free ↦ rw (schedule_new, free) (new-IsTwin s going dup)
  ]

-- Whatever the state: after a call of `schedule` that gave a handle, for work with a key, work of the same
-- key and with an identifier that is not blank gets the same handle, and no record is added or changed.
pub schedule-duplicate :
    (collate : String → String → Ordering) (now later : ℕ) (work twin : ScheduledWork) (k : String)
    (s : TaskScheduler) (h : ScheduledHandle)
    → key_or_none work.dedupe_key ≡ some k
    → twin.dedupe_key ≡ work.dedupe_key
    → is_blank twin.id ≡ false
    → (schedule collate now work s).1 ≡ ok h
    → ((schedule collate later twin (schedule collate now work s).0).1 ≡ ok h)
      × ((schedule collate later twin (schedule collate now work s).0).0.records
          ≡ (schedule collate now work s).0.records)
schedule-duplicate collate now later work twin k s h given same_key named made =
    let (going, _, step) = scheduled-cases collate now work s h made in
    let dup = (find_duplicate work.dedupe_key s).1 in
    let twin_ = subst (IsTwin collate now later work twin k given same_key named) (sym step) (
      schedule_new-IsTwin collate now later work twin k given same_key named s h going dup refl
        (sym (ap (λ (x : Outcome). x.1) step) ∙ made)) in
    (twin_.0 ∙ made, twin_.1)
