-- ===== src/AgentCore/Scheduler/Events.antt =====
-- Each call and event of packages/agent-core/src/lifecycle/scheduler.ts keeps the scheduler valid.
pub mod Stopping
use Prim.Native.Nat.{Ordering}
use Prim.Native.String.{String}
use text.Mathlib.Text.{◌==◌ as str_eq}
use inkpi.Base.{
  ℕ, zero, suc, ◌≡◌, refl, inl, inr, Bool, true, false, ◌&&◌, Option, none, some, List, [], ◌∷◌,
  length, get_elem?, ◌==◌, min, Result, ok, err, Option-cases, Bool-cases, ◌++◌, arith,
}
use inkpi.AgentCore.Scheduler.{
  ScheduledWork, ScheduledTaskState, ScheduledCheckpoint, is_running, LifecycleState, idle, active,
  stopping, stopped, is_before, is_ready_before,
}
use inkpi.AgentCore.Scheduler.Queue.Laws.{empty_queue-IsValid}
use inkpi.AgentCore.Scheduler.State.{TaskScheduler, is_ending}
use inkpi.AgentCore.Scheduler.Control.{
  SchedulerError, ScheduledHandle, new_scheduler, start, is_over,
}
use inkpi.AgentCore.Scheduler.Control.Pausing.{interrupt_record}
use inkpi.AgentCore.Scheduler.Runs.{
  TaskResult, settles, reports_progress, reports_checkpoint, has_timeout, times_out, timer_fires,
  scheduled_pump, interrupt_all, stop, any_pending, stop_settled,
}
use inkpi.AgentCore.Scheduler.Orders.{IsCollation, is_before-IsOrder, is_ready_before-IsOrder}
use inkpi.AgentCore.Scheduler.Valid.{IsValidScheduler, count_slots}
use inkpi.AgentCore.Scheduler.Pumping.{promote_ready-Valid}
use inkpi.AgentCore.Scheduler.PumpLoop.{pump-Valid}
use inkpi.AgentCore.Scheduler.Touching.{write-IsValidScheduler}
use inkpi.AgentCore.Scheduler.Ending.{record_checkpoint-Valid, interrupt_record-Valid}
use inkpi.AgentCore.Scheduler.Ending.Facts.{running-idle, record-IsSound}
use inkpi.AgentCore.Scheduler.Finishing.{finish_run-Valid}

module _ (collate : String → String → Ordering) (c : IsCollation collate) where
  pub new_scheduler-Valid :
      (most_fore most_back : Option ℕ) (kept : Bool)
      → IsValidScheduler collate (new_scheduler most_fore most_back kept)
  unfolding new_scheduler count_slots
  new_scheduler-Valid most_fore most_back kept = (
    record {
      fore_valid = empty_queue-IsValid (is_before collate) (is_before-IsOrder collate c);
      back_valid = empty_queue-IsValid (is_before collate) (is_before-IsOrder collate c);
      delayed_valid =
          empty_queue-IsValid (is_ready_before collate) (is_ready_before-IsOrder collate c);
      fore_waits = λ e (i, lt, at). absurd (omega arith);
      back_waits = λ e (i, lt, at). absurd (omega arith);
      delayed_waits = λ e (i, lt, at). absurd (omega arith);
      apart = λ e x (i, lt, at). absurd (omega arith);
      placed = λ j r got. cc got;
    },
    record { unique = λ i j a b got. cc got; sound = λ j r got. cc got },
    record {
      fore_exact = refl;
      back_exact = refl;
      fore_most = omega arith;
      back_most = omega arith;
    },
    λ p wait. cc wait,
  )

  module _ (now : ℕ) (s : TaskScheduler) (v : IsValidScheduler collate s) where
    pub start-Valid : IsValidScheduler collate (start collate now s).0
    unfolding start
    start-Valid = go s.state refl
      where
        go : (st : LifecycleState) → s.state ≡ st → IsValidScheduler collate (start collate now s).0
        go stopped e = rw (start, e) v
        go idle e = rw (start, e) (pump-Valid collate now c (record s { state = active }) v)
        go active e = rw (start, e) (pump-Valid collate now c (record s { state = active }) v)
        go stopping e = rw (start, e) (pump-Valid collate now c (record s { state = active }) v)

    pub pump_scheduled-Valid : IsValidScheduler collate (scheduled_pump collate now s)
    unfolding scheduled_pump
    pump_scheduled-Valid = elim (Bool-cases s.pump_scheduled) [
      | inl due ↦ rw due (pump-Valid collate now c (record s { pump_scheduled = false }) v)
      | inr no_ ↦ rw no_ v
    ]

    pub timer-Valid : IsValidScheduler collate (timer_fires collate now s)
    unfolding timer_fires
    timer-Valid = elim (Option-cases s.ready_timer) [
      | inl nothing ↦ rw (timer_fires, nothing) v
      | inr (t, set_) ↦
          rw (timer_fires, set_)
            (promote_ready-Valid collate c now (record s { ready_timer = none }) v)
    ]

    pub ends-Valid :
        (ref i : ℕ) (result : TaskResult)
        → IsValidScheduler collate (settles collate now ref i result s)
    unfolding settles
    ends-Valid ref i result = elim (Option-cases (get_elem? s.records ref)) [
      | inl nothing ↦ rw (settles, nothing) v
      | inr (r, at) ↦ elim (Option-cases (get_elem? r.runs i)) [
        | inl none_ ↦ rw (settles, at, none_) v
        | inr (g, got) ↦
            rw (settles, at, got) (finish_run-Valid collate c now s v ref r at i g result got)
      ]
    ]

    pub progress-Valid :
        (ref g p : ℕ) → IsValidScheduler collate (reports_progress collate now ref g p s)
    unfolding reports_progress
    progress-Valid ref g p = elim (Option-cases (get_elem? s.records ref)) [
      | inl nothing ↦ rw (reports_progress, nothing) v
      | inr (r, at) ↦
          let r' = record r { snapshot = record r.snapshot { progress = some (min 1000 p) } } in
          let k = record-IsSound collate s ref r v at in
          elim (Bool-cases (g == r.generation && is_running r.snapshot.status)) [
            | inr late ↦ rw (reports_progress, at, late) v
            | inl current ↦
                rw (reports_progress, at, current)
                  (write-IsValidScheduler collate s v ref r r' at
                    (record {
                      same_id = refl;
                      same_mode = refl;
                      same_status = refl;
                      same_priority = refl;
                      same_time = refl;
                      same_slot = refl;
                      same_settle = refl;
                    })
                    (record {
                      slot = k.slot;
                      past = k.past;
                      current = k.current;
                      startable = k.startable;
                      employed = k.employed;
                    }))
          ]
    ]

    pub report-Valid :
        (ref g : ℕ) (k : ScheduledCheckpoint)
        → IsValidScheduler collate (reports_checkpoint collate now ref g k s)
    unfolding reports_checkpoint
    report-Valid ref g k = elim (Option-cases (get_elem? s.records ref)) [
      | inl nothing ↦ rw (reports_checkpoint, nothing) v
      | inr (r, at) ↦
          rw (reports_checkpoint, at) (record_checkpoint-Valid collate c now s ref r v at k g)
    ]

    pub expires-Valid : (ref g : ℕ) → IsValidScheduler collate (times_out collate now ref g s)
    unfolding times_out
    expires-Valid ref g = elim (Option-cases (get_elem? s.records ref)) [
      | inl nothing ↦ rw (times_out, nothing) v
      | inr (r, at) ↦
          let k = record-IsSound collate s ref r v at in
          elim (Bool-cases (g == r.generation)) [
            | inr other ↦ rw (times_out, at, other) v
            | inl same ↦ elim (Bool-cases (is_running r.snapshot.status)) [
              | inr idle_ ↦ rw (times_out, at, same, idle_) v
              | inl running_ ↦ elim (Bool-cases (has_timeout r)) [
                | inr never ↦ rw (times_out, at, same, running_, never) v
                | inl limit ↦
                    rw (times_out, at, same, running_, limit)
                      (write-IsValidScheduler collate s v ref r
                        (record r { controller = some true }) at
                        (record {
                          same_id = refl;
                          same_mode = refl;
                          same_status = refl;
                          same_priority = refl;
                          same_time = refl;
                          same_slot = refl;
                          same_settle = refl;
                        })
                        (record {
                          slot = k.slot;
                          past = k.past;
                          current = k.current;
                          startable = λ h.
                              absurd (let w = running-idle r.snapshot.status running_ in cc (h, w));
                          employed = k.employed;
                        }))
              ]
            ]
          ]
    ]
