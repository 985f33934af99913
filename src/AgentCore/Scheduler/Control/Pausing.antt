-- ===== src/AgentCore/Scheduler/Control/Pausing.antt =====
-- `waitForUser`, `interrupt` and `resume` of packages/agent-core/src/lifecycle/scheduler.ts.
use Prim.Native.Nat.{Ordering}
use Prim.Native.String.{String}
use inkpi.Base.{
  ℕ, ◌+◌, Bool, true, false, not, ◌&&◌, ◌||◌, Option, none, some, length, if◌then◌else◌, err,
}
use inkpi.AgentCore.Scheduler.{
  queued, waiting_user, interrupted, ScheduledRecord, ScheduledCheckpoint, task_interrupted,
  is_interrupted, is_running, is_waiting, normalize_checkpoint,
}
use inkpi.AgentCore.Scheduler.State.{
  TaskScheduler, pending, resolved, is_ending, write, emit, persist, was_queued, checkpointed,
  waits_for_user, was_interrupted, settle_promise, release_slot, register_dedupe, release_dedupe,
}
use inkpi.AgentCore.Scheduler.Pump.{remove_ready, arm, pump}
use inkpi.AgentCore.Scheduler.Control.{
  is_stopping, unknown_task, cannot_resume, no_checkpoint, step_unavailable, Outcome, woken,
  handle_of, promised, cleared, find_record, is_over, has_checkpoint, with_checkpoint,
}

module _ (collate : String → String → Ordering) (now : ℕ) where
  unfoldable pub wait_record : ℕ → ScheduledRecord → TaskScheduler → TaskScheduler × Bool
  wait_record ref r s =
      let (s', r') = release_slot (cleared r) s in
      let waits = record r' {
        snapshot = record r'.snapshot {
          status = waiting_user;
          error = none;
          finished_at = some now;
        };
      } in
      let done =
        settle_promise r.settle (resolved none) (
          emit waits_for_user waits (persist waits (write ref waits (release_dedupe ref r' s')))) in
      if has_checkpoint r then (pump collate now done, true) else (s, false)

  unfoldable pub wait_for_user :
      String → Option ScheduledCheckpoint → TaskScheduler → TaskScheduler × Bool
  wait_for_user id c s = elim (find_record id s) [
    | none ↦ (s, false)
    | some (ref, r) ↦
        if is_running r.snapshot.status
        then elim c [
          | none ↦ wait_record ref r s
          | some c' ↦ elim (with_checkpoint collate now r c' r.generation) [
            | none ↦ (s, false)
            | some r' ↦ wait_record ref r' (emit checkpointed r' (persist r' (write ref r' s)))
          ]
        ]
        else (s, false)
  ]

  unfoldable pub interrupt_record : ℕ → ScheduledRecord → TaskScheduler → TaskScheduler
  interrupt_record ref r s =
      let (s', r') = release_slot (cleared r) (remove_ready collate r true s) in
      let r'' = record r' {
        snapshot = record r'.snapshot {
          status = interrupted;
          error = some task_interrupted;
          finished_at = some now;
        };
      } in
      pump collate now (
        settle_promise r.settle (resolved none)
          (emit was_interrupted r'' (persist r'' (write ref r'' s'))))

  unfoldable pub interrupt : String → TaskScheduler → TaskScheduler × Bool
  interrupt id s = elim (find_record id s) [
    | none ↦ (s, false)
    | some (ref, r) ↦ if is_over r then (s, false) else (interrupt_record ref r s, true)
  ]

  unfoldable pub resume_record : ℕ → ScheduledRecord → TaskScheduler → Outcome
  resume_record ref r s =
      let r' = record r {
        generation = r.generation + 1;
        controller = some false;
        resume_from = r.snapshot.checkpoint;
        promise = some (length s.promises);
        settle = some (length s.promises);
        ready_at = now;
        snapshot = record r.snapshot {
          status = queued;
          started_at = none;
          finished_at = none;
          error = none;
        };
      } in
      let s' =
        register_dedupe ref r'
          (write ref r' (promised pending (record s { state = woken s.state }))) in
      handle_of ref r' (arm collate now ref r' (emit was_queued r' (persist r' s')))

  unfoldable pub resume : String → Option ScheduledCheckpoint → TaskScheduler → Outcome
  resume id c s = if is_ending s.state then (s, err is_stopping) else elim (find_record id s) [
    | none ↦ (s, err unknown_task)
    | some (ref, r) ↦
        if not (is_interrupted r.snapshot.status || is_waiting r.snapshot.status)
        then (s, err cannot_resume)
        else if is_waiting r.snapshot.status && not (has_checkpoint r)
        then (s, err no_checkpoint)
        else elim c [
          | none ↦ resume_record ref r s
          | some c' ↦ elim (normalize_checkpoint c' now) [
            | none ↦ (s, err step_unavailable)
            | some kept ↦
                resume_record ref
                  (record r { snapshot = record r.snapshot { checkpoint = some kept } }) s
          ]
        ]
  ]
