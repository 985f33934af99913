-- ===== src/AgentCore/Scheduler/Histories.antt =====
-- A scheduler through any calls and events, from its construction.
use Prim.Native.Nat.{Ordering}
use Prim.Native.String.{String}
use inkpi.Base.{ℕ, ◌≡◌, Bool, Option, none, List, [], ◌∷◌}
use inkpi.AgentCore.Scheduler.{ScheduledWork, ScheduledTaskState, ScheduledCheckpoint}
use inkpi.AgentCore.Scheduler.State.{TaskScheduler}
use inkpi.AgentCore.Scheduler.Control.{index_of, new_scheduler, start, schedule, cancel, checkpoint}
use inkpi.AgentCore.Scheduler.Control.Pausing.{wait_for_user, interrupt, resume}
use inkpi.AgentCore.Scheduler.Runs.{
  TaskResult, settles, reports_progress, reports_checkpoint, times_out, timer_fires, scheduled_pump,
  stop, stop_settled,
}
use inkpi.AgentCore.Scheduler.Runs.Recovery.{load_stored}
use inkpi.AgentCore.Scheduler.Orders.{IsCollation}
use inkpi.AgentCore.Scheduler.Valid.{IsValidScheduler}
use inkpi.AgentCore.Scheduler.Ending.{
  cancel-Valid, interrupt-Valid, checkpoint-Valid, wait_for_user-Valid,
}
use inkpi.AgentCore.Scheduler.Queueing.{schedule-Valid, load_stored-Valid}
use inkpi.AgentCore.Scheduler.Resuming.{resume-Valid}
use inkpi.AgentCore.Scheduler.Events.{
  ends-Valid, expires-Valid, new_scheduler-Valid, progress-Valid, pump_scheduled-Valid,
  report-Valid, start-Valid, timer-Valid,
}
use inkpi.AgentCore.Scheduler.Events.Stopping.{stop-Valid, stop_settled-Valid}

-- The calls of the public methods, and the events between them. A call of `rehydrate` or `rehydrateAll`
-- changes nothing before the store `answers`: whatever happens in between are other calls.
pub data SchedulerCall : Type 0 where
  starts pumps timer stops : SchedulerCall
  stop_settles : ℕ → Bool → SchedulerCall
  schedules : ScheduledWork → SchedulerCall
  cancels interrupts : String → SchedulerCall
  checkpoints : String → ScheduledCheckpoint → SchedulerCall
  waits resumes : String → Option ScheduledCheckpoint → SchedulerCall
  answers : ScheduledWork → Option ScheduledTaskState → SchedulerCall
  ends : ℕ → ℕ → TaskResult → SchedulerCall
  progresses : ℕ → ℕ → ℕ → SchedulerCall
  reports : ℕ → ℕ → ScheduledCheckpoint → SchedulerCall
  expires : ℕ → ℕ → SchedulerCall

module _ (collate : String → String → Ordering) where
  unfoldable pub call : ℕ → SchedulerCall → TaskScheduler → TaskScheduler
  call now starts s = (start collate now s).0
  call now pumps s = scheduled_pump collate now s
  call now timer s = timer_fires collate now s
  call now stops s = stop collate now s
  call now (stop_settles awaited last_saved) s = stop_settled collate now awaited last_saved s
  call now (schedules work) s = (schedule collate now work s).0
  call now (cancels id) s = (cancel collate now id s).0
  call now (interrupts id) s = (interrupt collate now id s).0
  call now (checkpoints id c) s = (checkpoint collate now id c s).0
  call now (waits id c) s = (wait_for_user collate now id c s).0
  call now (resumes id c) s = (resume collate now id c s).0
  call now (answers work stored) s = (load_stored collate now work stored s).0
  call now (ends ref i result) s = settles collate now ref i result s
  call now (progresses ref g p) s = reports_progress collate now ref g p s
  call now (reports ref g c) s = reports_checkpoint collate now ref g c s
  call now (expires ref g) s = times_out collate now ref g s

  unfoldable pub run : TaskScheduler → List (ℕ × SchedulerCall) → TaskScheduler
  run s [] = s
  run s ((now, k) ∷ calls) = run (call now k s) calls

  -- An identifier for which the store answers is not taken by then.
  abbrev pub IsFree : SchedulerCall → TaskScheduler → Type 0
  IsFree (answers work stored) s = index_of work.id s.records ≡ none
  IsFree _ s = Unit {0}

  -- No identifier is taken while a `rehydrate` of it awaits the store.
  abbrev pub IsUndisturbed : TaskScheduler → List (ℕ × SchedulerCall) → Type 0
  IsUndisturbed s [] = Unit {0}
  IsUndisturbed s ((now, k) ∷ calls) = IsFree k s × IsUndisturbed (call now k s) calls

  module _ (c : IsCollation collate) where
    pub call-Valid :
        (now : ℕ) (k : SchedulerCall) (s : TaskScheduler)
        → IsFree k s
        → IsValidScheduler collate s
        → IsValidScheduler collate (call now k s)
    unfolding call
    call-Valid now starts s free v = start-Valid collate c now s v
    call-Valid now pumps s free v = pump_scheduled-Valid collate c now s v
    call-Valid now timer s free v = timer-Valid collate c now s v
    call-Valid now stops s free v = stop-Valid collate c now s v
    call-Valid now (stop_settles n saved) s free v = stop_settled-Valid collate c now n saved s v
    call-Valid now (schedules work) s free v = schedule-Valid collate c now s work v
    call-Valid now (cancels id) s free v = cancel-Valid collate c now s id v
    call-Valid now (interrupts id) s free v = interrupt-Valid collate c now s id v
    call-Valid now (checkpoints id k) s free v = checkpoint-Valid collate c now s id v k
    call-Valid now (waits id k) s free v = wait_for_user-Valid collate c now s id v k
    call-Valid now (resumes id k) s free v = resume-Valid collate c now s v id k
    call-Valid now (answers work stored) s free v =
        load_stored-Valid collate c now s v work stored free
    call-Valid now (ends ref i result) s free v = ends-Valid collate c now s v ref i result
    call-Valid now (progresses ref g p) s free v = progress-Valid collate c now s v ref g p
    call-Valid now (reports ref g k) s free v = report-Valid collate c now s v ref g k
    call-Valid now (expires ref g) s free v = expires-Valid collate c now s v ref g

    run-Valid :
        (calls : List (ℕ × SchedulerCall)) (s : TaskScheduler)
        → IsUndisturbed s calls
        → IsValidScheduler collate s
        → IsValidScheduler collate (run s calls)
    unfolding run
    run-Valid [] s free v = v
    run-Valid ((now, k) ∷ calls) s (free, more) v =
        run-Valid calls (call now k s) more (call-Valid now k s free v)

    pub history-Valid :
        (most_fore most_back : Option ℕ) (kept : Bool) (calls : List (ℕ × SchedulerCall))
        → IsUndisturbed (new_scheduler most_fore most_back kept) calls
        → IsValidScheduler collate (run (new_scheduler most_fore most_back kept) calls)
    history-Valid most_fore most_back kept calls free =
        run-Valid calls (new_scheduler most_fore most_back kept) free
          (new_scheduler-Valid collate c most_fore most_back kept)
