-- ===== src/AgentCore/Scheduler/Runs.antt =====
-- What happens to a `TaskScheduler` of packages/agent-core/src/lifecycle/scheduler.ts between its
-- public calls: tasks report or end, time limits pass, timers fire, the scheduled pump runs; and `stop`,
-- which awaits the promises.
pub mod Recovery
use Prim.Native.Nat.{Ordering}
use Prim.Native.String.{String}
use text.Mathlib.Text.{◌==◌ as str_eq}
use inkpi.Base.{
  ℕ, zero, suc, ◌+◌, Bool, true, false, not, ◌&&◌, ◌||◌, Option, none, some, List, [], ◌∷◌, ◌++◌,
  length, take, get_elem?, ltb, ◌==◌, if◌then◌else◌, max, min, Result, ok, err,
}
use inkpi.Base.Texts.{is_blank}
use inkpi.AgentCore.Scheduler.{
  ScheduledMode, ScheduledStatus, queued, running, completed, failed, cancelled, interrupted,
  interactive, foreground, background, batch, stopping, stopped, ScheduledTaskState, ScheduledWork,
  ScheduledRecord, ScheduledCheckpoint, TaskError, task_interrupted_before_recovery, is_queued,
  is_running, normalize_priority, is_retryable, time_or,
}
use inkpi.AgentCore.Scheduler.State.{
  TaskScheduler, Settlement, pending, resolved, rejected, is_ending, write, is_aborted, emit,
  persist, was_queued, progressed, retrying, was_completed, has_failed, finish_with, release_slot,
  register_dedupe, schedule_pump,
}
use inkpi.AgentCore.Scheduler.Pump.{arm, promote_ready, pump, finish_cancelled}
use inkpi.AgentCore.Scheduler.Control.{
  SchedulerError, is_stopping, id_unavailable, not_persistent, no_listing, other_id, other_task,
  other_mode, ScheduledHandle, index_of, woken, handle_of, promised, add_record, record_checkpoint,
  is_over,
}
use inkpi.AgentCore.Scheduler.Control.Pausing.{interrupt_record}

-- How a task ends.
pub data TaskResult : Type 0 where
  returns : Option String → TaskResult
  throws : TaskError → TaskResult

unfoldable pub without_at : ℕ → List ℕ → List ℕ
without_at i [] = []
without_at zero (g ∷ gs) = gs
without_at (suc i) (g ∷ gs) = g ∷ without_at i gs

abbrev pub max_attempts_of : ScheduledRecord → ℕ
max_attempts_of r = elim r.work [ none ↦ 1 | some work ↦ max 1 (time_or work.max_attempts 1) ]

abbrev pub retry_delay_of : ScheduledRecord → ℕ
retry_delay_of r = elim r.work [ none ↦ 0 | some work ↦ time_or work.retry_delay_ms 0 ]

abbrev pub has_timeout : ScheduledRecord → Bool
has_timeout r = elim r.work [ none ↦ false | some work ↦ ltb 0 (time_or work.timeout_ms 0) ]

abbrev pub is_pending : Settlement → Bool
is_pending pending = true
is_pending _ = false

abbrev pub any_pending : List Settlement → Bool
any_pending [] = false
any_pending (p ∷ ps) = is_pending p || any_pending ps

-- `persistenceTail`: it rejects if the last save did, and was fulfilled before the first.
abbrev pub tail_rejects : Bool → List ScheduledTaskState → Bool
tail_rejects last_saved [] = false
tail_rejects last_saved (state ∷ states) = not last_saved

module _ (collate : String → String → Ordering) (now : ℕ) where
  unfoldable pub complete : ℕ → ScheduledRecord → Option String → TaskScheduler → TaskScheduler
  complete ref r value s =
      let (s', r') = release_slot r s in
      finish_with ref was_completed (resolved value)
        (record r' { snapshot = record r'.snapshot { status = completed; finished_at = some now } })
        s'

  unfoldable pub fail : ℕ → ScheduledRecord → TaskError → TaskScheduler → TaskScheduler
  fail ref r e s =
      let (s', r') = release_slot r s in
      finish_with ref has_failed (rejected e)
        (record r' {
          snapshot = record r'.snapshot { status = failed; error = some e; finished_at = some now };
        })
        s'

  unfoldable pub retry : ℕ → ScheduledRecord → TaskScheduler → TaskScheduler
  retry ref r s =
      let (s', r') = release_slot r s in
      let r'' = record r' {
        controller = some false;
        generation = r'.generation + 1;
        ready_at = now + retry_delay_of r;
        snapshot = record r'.snapshot { status = queued };
      } in
      arm collate now ref r'' (emit retrying r'' (persist r'' (write ref r'' s')))

  unfoldable pub end_run : ℕ → ScheduledRecord → TaskResult → TaskScheduler → TaskScheduler
  end_run ref r (returns value) s =
      if is_aborted r then finish_cancelled collate now ref r s else complete ref r value s
  end_run ref r (throws e) s =
      if is_retryable e && ltb r.attempts (max_attempts_of r)
      then retry ref r s
      else if is_aborted r
      then finish_cancelled collate now ref r s
      else fail ref r e s

  -- The rest of `execute`, when the `i`-th task of a record that is awaited ends: `generation` is what
  -- it started with.
  unfoldable pub finish_run : ℕ → ScheduledRecord → ℕ → TaskResult → TaskScheduler → TaskScheduler
  finish_run ref r generation result s =
      pump collate now
        (if generation == r.generation then end_run ref r result s else write ref r s)

  unfoldable pub settles : ℕ → ℕ → TaskResult → TaskScheduler → TaskScheduler
  settles ref i result s = elim (get_elem? s.records ref) [
    | none ↦ s
    | some r ↦ elim (get_elem? r.runs i) [
      | none ↦ s
      | some generation ↦
          finish_run ref (record r { runs = without_at i r.runs }) generation result s
    ]
  ]

  unfoldable pub reports_progress : ℕ → ℕ → ℕ → TaskScheduler → TaskScheduler
  reports_progress ref generation progress s = elim (get_elem? s.records ref) [
    | none ↦ s
    | some r ↦
        let r' = record r {
          snapshot = record r.snapshot { progress = some (min 1000 progress) };
        } in
        if generation == r.generation && is_running r.snapshot.status
        then emit progressed r' (write ref r' s)
        else s
  ]

  unfoldable pub reports_checkpoint : ℕ → ℕ → ScheduledCheckpoint → TaskScheduler → TaskScheduler
  reports_checkpoint ref generation c s = elim (get_elem? s.records ref) [
    | none ↦ s
    | some r ↦ (record_checkpoint collate now ref r c generation s).0
  ]

  -- The time limit of a task: its signal is aborted, and its call will throw. A signal of an earlier
  -- generation is no longer the record's.
  unfoldable pub times_out : ℕ → ℕ → TaskScheduler → TaskScheduler
  times_out ref generation s = elim (get_elem? s.records ref) [
    | none ↦ s
    | some r ↦
        if generation == r.generation && is_running r.snapshot.status && has_timeout r
        then write ref (record r { controller = some true }) s
        else s
  ]

  unfoldable pub timer_fires : TaskScheduler → TaskScheduler
  timer_fires s = elim s.ready_timer [
    | none ↦ s
    | some _ ↦ schedule_pump (promote_ready collate now (record s { ready_timer = none }))
  ]

  unfoldable pub scheduled_pump : TaskScheduler → TaskScheduler
  scheduled_pump s =
      if s.pump_scheduled then pump collate now (record s { pump_scheduled = false }) else s

  -- `stop`, up to where it awaits the promises: every record that is not over is interrupted.
  unfoldable pub interrupt_all : ℕ → ℕ → TaskScheduler → TaskScheduler
  interrupt_all zero ref s = s
  interrupt_all (suc left) ref s =
      interrupt_all left (suc ref) (elim (get_elem? s.records ref) as (λ _. TaskScheduler) [
        | none ↦ s
        | some r ↦ if is_over r then s else interrupt_record collate now ref r s
      ])

  unfoldable pub stop : TaskScheduler → TaskScheduler
  stop s = elim s.state [
    | stopped ↦ s
    | _ ↦ interrupt_all (length s.records) 0 (record s { state = stopping })
  ]

  -- The end of `stop`, once none of the first `awaited` promises is pending, those that were there when it
  -- began to wait, and the saves are over: `flush` throws, and `stop` with it, if the last save failed.
  unfoldable pub stop_settled : ℕ → Bool → TaskScheduler → TaskScheduler
  stop_settled awaited last_saved s = elim s.state [
    | stopping ↦
        if any_pending (take awaited s.promises) || tail_rejects last_saved s.saved
        then s
        else record s { state = stopped }
    | _ ↦ s
  ]
