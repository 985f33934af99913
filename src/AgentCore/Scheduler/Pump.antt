-- ===== src/AgentCore/Scheduler/Pump.antt =====
-- The ready queues of `TaskScheduler` in packages/agent-core/src/lifecycle/scheduler.ts, and the pump
-- that starts tasks from them.
use Prim.Native.Nat.{Ordering}
use Prim.Native.String.{String}
use inkpi.Base.{
  ℕ, zero, suc, ◌+◌, Bool, true, false, not, ◌&&◌, ◌||◌, Option, none, some, ◌∷◌, length, get_elem?,
  ltb, leb, if◌then◌else◌,
}
use inkpi.AgentCore.Scheduler.{
  running, cancelled, ScheduledRecord, is_terminal, is_interrupted, is_queued, is_foreground,
  compare_scheduled_records, is_before, is_ready_before, is_gt, time_or,
}
use inkpi.AgentCore.Scheduler.Queue.Arrays.{Entry}
use inkpi.AgentCore.Scheduler.Queue.{peek, push, pop, remove}
use inkpi.AgentCore.Scheduler.State.{
  TaskScheduler, is_ending, entry_of, write, is_aborted, emit, persist, started, was_cancelled,
  resolved, acquire_slot, release_slot, finish_with, schedule_ready_timer, schedule_pump,
}

abbrev pub may_start : ScheduledRecord → Bool
may_start r = is_queued r.snapshot.status && not (is_aborted r)

-- The record of a task that starts.
abbrev pub started_record : ℕ → ScheduledRecord → ScheduledRecord
started_record now r = record r {
  resume_from = none;
  attempts = r.attempts + 1;
  snapshot = record r.snapshot {
    status = running;
    started_at = some (time_or r.snapshot.started_at now);
    error = none;
    attempts = some (r.attempts + 1);
  };
  runs = r.generation ∷ r.runs;
}

abbrev pub may_execute : ScheduledRecord → Bool
may_execute r =
    is_queued r.snapshot.status
    && not (elim r.work [ none ↦ true | some _ ↦ false ])
    && not (elim r.controller [ none ↦ true | some aborted ↦ aborted ])

abbrev pub open_foreground : TaskScheduler → Option Entry
open_foreground s =
    if ltb s.running_foreground s.max_foreground then peek s.foreground_ready else none

abbrev pub open_background : TaskScheduler → Option Entry
open_background s =
    if ltb s.running_background s.max_background then peek s.background_ready else none

abbrev pub waiting_entries : TaskScheduler → ℕ
waiting_entries s = length s.foreground_ready.entries + length s.background_ready.entries

module _ (collate : String → String → Ordering) where
  unfoldable pub remove_ready : ScheduledRecord → Bool → TaskScheduler → TaskScheduler
  remove_ready r refresh_timer s =
      let s' =
        if is_foreground r.snapshot.mode
        then record s {
          foreground_ready = (remove (is_before collate) s.foreground_ready r.snapshot.id).0;
        }
        else record s {
          background_ready = (remove (is_before collate) s.background_ready r.snapshot.id).0;
        } in
      let (delayed, removed) = remove (is_ready_before collate) s.delayed_ready r.snapshot.id in
      let s'' = record s' { delayed_ready = delayed } in
      if removed && refresh_timer then schedule_ready_timer s'' else s''

  -- `this.readyQueue(record.snapshot.mode).push(record)`
  unfoldable pub push_ready : ℕ → ScheduledRecord → TaskScheduler → TaskScheduler
  push_ready ref r s =
      if is_foreground r.snapshot.mode
      then record s {
        foreground_ready = push (is_before collate) s.foreground_ready (entry_of ref r);
      }
      else record s {
        background_ready = push (is_before collate) s.background_ready (entry_of ref r);
      }

  unfoldable pub push_delayed : ℕ → ScheduledRecord → TaskScheduler → TaskScheduler
  push_delayed ref r s = record s {
    delayed_ready = push (is_ready_before collate) s.delayed_ready (entry_of ref r);
  }

  unfoldable pub arm : ℕ → ℕ → ScheduledRecord → TaskScheduler → TaskScheduler
  arm now ref r s =
      let s' = remove_ready r false s in
      let s'' =
        if may_start r
        then if leb r.ready_at now then push_ready ref r s' else push_delayed ref r s'
        else s' in
      let timed = schedule_ready_timer s'' in
      if leb r.ready_at now then schedule_pump timed else timed

  -- The fuel is the number of entries.
  unfoldable pub promote_loop : ℕ → ℕ → TaskScheduler → TaskScheduler
  promote_loop zero now s = s
  promote_loop (suc fuel) now s = elim (peek s.delayed_ready) [
    | none ↦ s
    | some e ↦
        let s' = record s { delayed_ready = (pop (is_ready_before collate) s.delayed_ready).0 } in
        let rest = promote_loop fuel now (elim (get_elem? s.records e.ref) as (λ _. TaskScheduler) [
          | none ↦ s'
          | some r ↦ if may_start r then push_ready e.ref r s' else s'
        ]) in
        if ltb now e.ready_at then s else rest
  ]

  unfoldable pub promote_ready : ℕ → TaskScheduler → TaskScheduler
  promote_ready now s = schedule_ready_timer (promote_loop (length s.delayed_ready.entries) now s)

  -- `execute`, up to where it awaits the task.
  unfoldable pub execute : ℕ → ℕ → ScheduledRecord → TaskScheduler → TaskScheduler
  execute now ref r s =
      let r' = started_record now r in
      if may_execute r then emit started r' (persist r' (write ref r' s)) else write ref r s

  unfoldable pub start_popped : ℕ → Entry → TaskScheduler → TaskScheduler
  start_popped now e s = elim (get_elem? s.records e.ref) [
    | none ↦ s
    | some r ↦ let (s', r') = acquire_slot r s in if may_start r then execute now e.ref r' s' else s
  ]

  -- Which queue the pump takes from: the foreground one, if true.
  abbrev pub choose : Option Entry → Option Entry → Option Bool
  choose none none = none
  choose none (some b) = some false
  choose (some f) none = some true
  choose (some f) (some b) = some (not (is_gt (compare_scheduled_records collate f b)))

  abbrev pub started_or : ℕ → Option Entry → TaskScheduler → TaskScheduler
  started_or now none s = s
  started_or now (some e) s = start_popped now e s

  -- One round of the pump, or none if nothing can start.
  unfoldable pub pump_round : ℕ → TaskScheduler → Option TaskScheduler
  pump_round now s = elim (choose (open_foreground s) (open_background s)) [
    | none ↦ none
    | some true ↦
        let (queue, e) = pop (is_before collate) s.foreground_ready in
        some (started_or now e (record s { foreground_ready = queue }))
    | some false ↦
        let (queue, e) = pop (is_before collate) s.background_ready in
        some (started_or now e (record s { background_ready = queue }))
  ]

  -- The fuel is the number of entries: each round takes one.
  unfoldable pub pump_loop : ℕ → ℕ → TaskScheduler → TaskScheduler
  pump_loop zero now s = s
  pump_loop (suc fuel) now s = elim (pump_round now s) [
    | none ↦ s
    | some s' ↦ pump_loop fuel now s'
  ]

  unfoldable pub pump : ℕ → TaskScheduler → TaskScheduler
  pump now s =
      let s' = promote_ready now s in
      if is_ending s.state then s else pump_loop (waiting_entries s') now s'

  unfoldable pub finish_cancelled : ℕ → ℕ → ScheduledRecord → TaskScheduler → TaskScheduler
  finish_cancelled now ref r s =
      let (s', r') = release_slot r (remove_ready r true s) in
      let r'' = record r' {
        snapshot = record r'.snapshot { status = cancelled; finished_at = some now };
      } in
      if is_terminal r.snapshot.status || is_interrupted r.snapshot.status
      then write ref r s
      else pump now (finish_with ref was_cancelled (resolved none) r'' s')
