-- ===== src/AgentCore/Scheduler/Queueing.antt =====
-- `schedule` keeps the scheduler valid, and so does `rehydrate` when the store answers.
use Prim.Native.Nat.{Ordering}
use Prim.Native.String.{String}
use text.Mathlib.Text.{◌==◌ as str_eq}
use inkpi.Base.{
  ℕ, ◌≡◌, refl, sym, ap, inl, inr, Bool, true, false, ◌&&◌, Option, none, some, length, get_elem?,
  if◌then◌else◌, Option-cases, Bool-cases, Result, ok, err,
}
use inkpi.Base.Texts.{is_blank, str_eq→eq}
use inkpi.AgentCore.Scheduler.{
  ScheduledRecord, ScheduledStatus, ScheduledWork, ScheduledTaskState, queued, running,
  waiting_user, completed, failed, cancelled, interrupted, is_queued, is_running,
}
use inkpi.AgentCore.Scheduler.State.{
  TaskScheduler, Settlement, pending, resolved, created, was_queued, is_ending, register_dedupe,
  emit, persist, find_duplicate,
}
use inkpi.AgentCore.Scheduler.Pump.{arm}
use inkpi.AgentCore.Scheduler.Control.{
  SchedulerError, ScheduledHandle, index_of, woken, handle_of, new_record, promised, add_record,
  add_task, schedule_new, schedule,
}
use inkpi.AgentCore.Scheduler.Runs.Recovery.{
  recovered, recovered_status, settle_in, recover, with_handle, is_finished, modes_agree,
  load_stored,
}
use inkpi.AgentCore.Scheduler.Orders.{IsCollation}
use inkpi.AgentCore.Scheduler.Valid.{IsValidScheduler, IsSound, one}
use inkpi.AgentCore.Scheduler.PutBack.{Open-close}
use inkpi.AgentCore.Scheduler.Arming.{arm-Valid}
use inkpi.AgentCore.Scheduler.Adding.{Open-add, added_at}

-- A handle leaves the scheduler as it is.
pub handle_of-state :
    (ref : ℕ) (r : ScheduledRecord) (s : TaskScheduler) → (handle_of ref r s).0 ≡ s
unfolding handle_of
handle_of-state ref r s = elim (Option-cases r.promise) [
  | inl nothing ↦ rw (handle_of, nothing) refl
  | inr (p, some_) ↦ rw (handle_of, some_) refl
]

with_handle-state :
    (o : TaskScheduler × Result SchedulerError ScheduledHandle) → (with_handle o).0 ≡ o.0
with_handle-state (s, ok h) = refl
with_handle-state (s, err e) = refl

recovered_status-idle : (st : ScheduledStatus) → is_running (recovered_status st) ≡ false
recovered_status-idle queued = refl
recovered_status-idle running = refl
recovered_status-idle waiting_user = refl
recovered_status-idle completed = refl
recovered_status-idle failed = refl
recovered_status-idle cancelled = refl
recovered_status-idle interrupted = refl

and-right : (a b : Bool) → (a && b) ≡ true → b ≡ true
and-right true b h = h
and-right false b h = cc h

module _ (collate : String → String → Ordering) (c : IsCollation collate) (now : ℕ) where
  module _ (s : TaskScheduler) (v : IsValidScheduler collate s) where
    add_task-Valid :
        (work : ScheduledWork)
        → index_of work.id s.records ≡ none
        → IsValidScheduler collate (add_task collate now work s).0
    unfolding add_task
    add_task-Valid work new =
        let ref = length s.records in
        let r = new_record now work s in
        let s' =
          register_dedupe ref r
            (add_record r (promised pending (record s { state = woken s.state }))) in
        let s'' = emit was_queued r (emit created r (persist r s')) in
        rw (handle_of-state ref r (arm collate now ref r s'')) (
          arm-Valid collate c now s'' ref r
            (Open-add collate s v r new refl pending (some (length s.promises)) (λ _. refl))
            (added_at collate s v r new refl pending (some (length s.promises)) (λ _. refl))
            (record {
              slot = refl;
              past = tt;
              current = refl;
              startable = λ _. refl;
              employed = λ _ h. cc h;
            })
            refl)

    schedule_new-Valid :
        (work : ScheduledWork) (duplicate : Option ℕ)
        → IsValidScheduler collate (schedule_new collate now work duplicate s).0
    unfolding schedule_new
    schedule_new-Valid work (some ref) = elim (Option-cases (get_elem? s.records ref)) [
      | inl nothing ↦ rw (schedule_new, nothing) v
      | inr (r, at) ↦ rw (schedule_new, at, handle_of-state ref r s) v
    ]
    schedule_new-Valid work none = elim (Option-cases (index_of work.id s.records)) [
      | inl new ↦ rw (schedule_new, new) (add_task-Valid work new)
      | inr (i, taken) ↦ rw (schedule_new, taken) v
    ]

  pub schedule-Valid :
      (s : TaskScheduler) (work : ScheduledWork)
      → IsValidScheduler collate s
      → IsValidScheduler collate (schedule collate now work s).0
  unfolding schedule
  schedule-Valid s work v = elim (Bool-cases (is_ending s.state)) [
    | inl ending ↦ rw ending v
    | inr going ↦ elim (Bool-cases (is_blank work.id)) [
      | inl blank ↦ rw (going, blank) v
      | inr named ↦
          let (index, duplicate) = find_duplicate work.dedupe_key s in
          rw (going, named)
            (schedule_new-Valid (record s { dedupe_index = index }) v work duplicate)
    ]
  ]

  module _ (s : TaskScheduler) (v : IsValidScheduler collate s) (work : ScheduledWork)
      (stored : ScheduledTaskState) (new : index_of stored.snapshot.id s.records ≡ none) where
    abbrev back_record : ScheduledRecord
    back_record = recovered now work stored s

    no_run : is_running back_record.snapshot.status ≡ false
    no_run = recovered_status-idle stored.status

    recovered-IsSound : IsSound back_record
    recovered-IsSound = record {
      slot = sym no_run;
      past = tt;
      current = sym (ap one no_run);
      startable = λ _. refl;
      employed = λ _ h. cc h;
    }

    abbrev recovered_with : Settlement → TaskScheduler
    recovered_with promise =
        register_dedupe (length s.records) back_record
          (add_record back_record (promised promise (record s { state = woken s.state })))

    settle_in-Valid :
        (was_running : Bool)
        → IsValidScheduler collate (
            settle_in collate now was_running (length s.records) back_record (
              recovered_with
                (if is_queued back_record.snapshot.status then pending else resolved none)))
    unfolding settle_in
    settle_in-Valid was_running =
        let ref = length s.records in
        let r = back_record in
        elim (Bool-cases (is_queued r.snapshot.status)) [
          | inl waiting ↦ rw waiting (
              arm-Valid collate c now (emit was_queued r (recovered_with pending)) ref r
                (Open-add collate s v r new refl pending (some (length s.promises)) (λ _. refl))
                (added_at collate s v r new refl pending (some (length s.promises)) (λ _. refl))
                recovered-IsSound waiting)
          | inr idle ↦
              let s' = recovered_with (resolved none) in
              let closed : IsValidScheduler collate s' =
                Open-close collate c s' ref none
                  (Open-add collate s v r new refl (resolved none) none (λ h. cc h)) r
                  (added_at collate s v r new refl (resolved none) none (λ h. cc h))
                  recovered-IsSound idle (λ p h. cc h) in
              rw idle
                (elim was_running
                  as (λ b. IsValidScheduler collate (if b then persist r s' else s')) [
                    | true ↦ closed
                    | false ↦ closed
                  ])
        ]

    recover-Valid : IsValidScheduler collate (recover collate now work stored s).0
    unfolding recover
    recover-Valid =
        let ref = length s.records in
        let r = back_record in
        let s' =
          settle_in collate now (is_running stored.status) ref r
            (recovered_with (if is_queued r.snapshot.status then pending else resolved none)) in
        rw (with_handle-state (handle_of ref r s'), handle_of-state ref r s')
          (settle_in-Valid (is_running stored.status))

  pub load_stored-Valid :
      (s : TaskScheduler) (v : IsValidScheduler collate s) (work : ScheduledWork)
      (stored : Option ScheduledTaskState)
      → index_of work.id s.records ≡ none
      → IsValidScheduler collate (load_stored collate now work stored s).0
  unfolding load_stored
  load_stored-Valid s v work none new = v
  load_stored-Valid s v work (some st) new =
      elim (Bool-cases (str_eq st.id work.id && str_eq st.snapshot.id work.id)) [
        | inr other ↦ rw other v
        | inl same ↦
            elim (Bool-cases
              (modes_agree st.mode work.mode && modes_agree st.snapshot.mode work.mode)) [
                | inr mode ↦ rw (same, mode) v
                | inl mode ↦ elim (Bool-cases (is_finished st.status)) [
                  | inl finished ↦ rw (same, mode, finished) v
                  | inr going ↦
                      let id : st.snapshot.id ≡ work.id =
                        str_eq→eq st.snapshot.id work.id (and-right _ _ same) in
                      let free : index_of st.snapshot.id s.records ≡ none = rw id new in
                      rw (same, mode, going) (recover-Valid s v work st free)
                ]
              ]
      ]
