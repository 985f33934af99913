-- ===== src/AgentCore/Scheduler/Pumping/Starting.antt =====
-- A task that the pump of packages/agent-core/src/lifecycle/scheduler.ts starts.
use Prim.Native.Nat.{Ordering}
use Prim.Native.String.{String}
use inkpi.Base.{
  ℕ, ◌+◌, ◌<◌, ◌≡◌, ◌≢◌, refl, ◌∙◌, inl, inr, Bool, true, false, some, List, length, get_elem?,
  if◌then◌else◌, Option-cases, Bool-cases, arith,
}
use inkpi.AgentCore.Scheduler.{ScheduledRecord, ScheduledStatus, queued, is_queued, is_foreground}
use inkpi.AgentCore.Scheduler.Queue.Arrays.{Entry}
use inkpi.AgentCore.Scheduler.State.{TaskScheduler, emit, persist, write, started, acquire_slot}
use inkpi.AgentCore.Scheduler.Pump.{may_start, may_execute, started_record, execute, start_popped}
use inkpi.AgentCore.Scheduler.Orders.{IsCollation}
use inkpi.AgentCore.Scheduler.Valid.{
  Open, IsValidScheduler, IsSound, Foreground, Background, count_of, get_elem?-lt,
}
use inkpi.AgentCore.Scheduler.PutBack.{Open-write, Open-close}
use inkpi.AgentCore.Scheduler.PutBack.Writes.{written}

pub is_queued-eq : (st : ScheduledStatus) → is_queued st ≡ true → st ≡ queued
is_queued-eq queued h = refl
is_queued-eq ScheduledStatus.running h = cc h
is_queued-eq ScheduledStatus.waiting_user h = cc h
is_queued-eq ScheduledStatus.completed h = cc h
is_queued-eq ScheduledStatus.failed h = cc h
is_queued-eq ScheduledStatus.cancelled h = cc h
is_queued-eq ScheduledStatus.interrupted h = cc h

-- A record that is queued may start.
pub queued-may_start :
    (r : ScheduledRecord) → IsSound r → is_queued r.snapshot.status ≡ true → may_start r ≡ true
queued-may_start r v h = rw (h, v.startable h) refl

-- Every place in the list differs from the one behind it.
pub inside-length :
    (records : List ScheduledRecord) (ref j : ℕ) (b : ScheduledRecord)
    → get_elem? records j ≡ some b
    → j ≢ ref
    → j ≢ length records
inside-length records ref j b got _ same = absurd (omega (arith, get_elem?-lt records j b got))

module _ (collate : String → String → Ordering) (c : IsCollation collate) (now : ℕ) where
  module _ (s : TaskScheduler) (e : Entry) (r : ScheduledRecord)
      (at : get_elem? s.records e.ref ≡ some r) (sound : IsSound r)
      (waiting : is_queued r.snapshot.status ≡ true) (v : Open collate e.ref r.settle s) where
    abbrev running_record : ScheduledRecord
    running_record = started_record now (record r { slot_acquired = true })

    no_slot : r.slot_acquired ≡ false
    no_slot = let st = is_queued-eq r.snapshot.status waiting in sound.slot ∙ (rw st refl)

    may : (b : Bool) → may_execute (record r { slot_acquired = b }) ≡ true
    may b = elim (Option-cases r.work) [
      | inl nothing ↦ absurd (sound.employed (rw waiting refl) nothing)
      | inr (work, some_) ↦ rw (waiting, sound.startable waiting, some_) refl
    ]

    running-IsSound : IsSound running_record
    running-IsSound =
        let st = is_queued-eq r.snapshot.status waiting in
        let count : count_of r.generation r.runs ≡ 0 = sound.current ∙ (rw st refl) in
        record {
          slot = refl;
          past = (omega arith, sound.past);
          current = ground arith;
          startable = λ h. absurd (cc h);
          employed = λ _. sound.employed (rw waiting refl);
        }

    acquired : acquire_slot r s ≡ (
      if is_foreground r.snapshot.mode
          then record s { running_foreground = s.running_foreground + 1 }
          else record s { running_background = s.running_background + 1 },
      record r { slot_acquired = true },
    )
    unfolding acquire_slot
    acquired = rw no_slot refl

    abbrev run_in : TaskScheduler → TaskScheduler
    run_in s' = emit started running_record (persist running_record (write e.ref running_record s'))

    start_popped-running :
        start_popped collate now e s
        ≡ run_in (
            if is_foreground r.snapshot.mode
            then record s { running_foreground = s.running_foreground + 1 }
            else record s { running_background = s.running_background + 1 })
    unfolding start_popped execute
    start_popped-running =
        rw (start_popped, at, acquired, queued-may_start r sound waiting, may true) refl

    pub start_popped-Valid :
        (Foreground r → s.running_foreground < s.max_foreground)
        → (Background r → s.running_background < s.max_background)
        → IsValidScheduler collate (start_popped collate now e s)
    start_popped-Valid room_f room_b =
        let w = Open-write collate c s e.ref r.settle v r at running_record in
        let close =
          λ (s' : TaskScheduler) (v' : Open collate e.ref r.settle s')
              (at' : get_elem? s'.records e.ref ≡ some running_record).
            Open-close collate c s' e.ref r.settle v' running_record at' running-IsSound refl
              (λ p h. (refl, h)) in
        let here = written s.records e.ref r running_record at in
        elim (Bool-cases (is_foreground r.snapshot.mode)) [
          | inl fg ↦
              rw (start_popped-running, fg)
                (close (run_in (record s { running_foreground = s.running_foreground + 1 }))
                  (w (s.running_foreground + 1) s.running_background refl
                    (rw (no_slot, fg) (omega arith)) (rw (no_slot, fg) (omega arith))
                    (omega (arith, room_f fg)) v.2.back_most)
                  here)
          | inr bg ↦
              rw (start_popped-running, bg)
                (close (run_in (record s { running_background = s.running_background + 1 }))
                  (w s.running_foreground (s.running_background + 1) refl
                    (rw (no_slot, bg) (omega arith)) (rw (no_slot, bg) (omega arith)) v.2.fore_most
                    (omega (arith, room_b bg)))
                  here)
        ]
