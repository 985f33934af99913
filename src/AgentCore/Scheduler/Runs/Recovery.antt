-- ===== src/AgentCore/Scheduler/Runs/Recovery.antt =====
-- `rehydrate` and `rehydrateAll` of packages/agent-core/src/lifecycle/scheduler.ts. Both await the store,
-- and do not look at the scheduler again before they add a record; a record that replaces one which was
-- added meanwhile under its identifier stands beside it here.
use Prim.Native.Nat.{Ordering}
use Prim.Native.String.{String}
use text.Mathlib.Text.{◌==◌ as str_eq}
use inkpi.Base.{
  ℕ, ◌+◌, Bool, true, false, not, ◌&&◌, Option, none, some, List, [], ◌∷◌, ◌++◌, length,
  if◌then◌else◌, Result, ok, err,
}
use inkpi.Base.Texts.{is_blank}
use inkpi.AgentCore.Scheduler.{
  ScheduledMode, ScheduledStatus, running, completed, failed, cancelled, interrupted, interactive,
  foreground, background, batch, ScheduledTaskState, ScheduledWork, ScheduledRecord,
  task_interrupted_before_recovery, is_queued, is_running, normalize_priority, time_or,
}
use inkpi.AgentCore.Scheduler.State.{
  TaskScheduler, pending, resolved, is_ending, emit, persist, was_queued, register_dedupe,
}
use inkpi.AgentCore.Scheduler.Pump.{arm}
use inkpi.AgentCore.Scheduler.Control.{
  SchedulerError, is_stopping, id_unavailable, not_persistent, no_listing, other_id, other_task,
  other_mode, ScheduledHandle, index_of, woken, handle_of, promised, add_record,
}

abbrev pub modes_agree : ScheduledMode → ScheduledMode → Bool
modes_agree interactive interactive = true
modes_agree foreground foreground = true
modes_agree background background = true
modes_agree batch batch = true
modes_agree _ _ = false

-- What a record that was saved is recovered as.
abbrev pub recovered_status : ScheduledStatus → ScheduledStatus
recovered_status running = interrupted
recovered_status status = status

abbrev pub recovered : ℕ → ScheduledWork → ScheduledTaskState → TaskScheduler → ScheduledRecord
recovered now work stored s = record {
  work = some work;
  controller = some false;
  snapshot = record stored.snapshot {
    status = recovered_status stored.status;
    error =
        if is_running stored.status
        then some task_interrupted_before_recovery
        else stored.snapshot.error;
    finished_at = if is_running stored.status then some now else stored.snapshot.finished_at;
    attempts = some (time_or stored.snapshot.attempts stored.attempts);
  };
  promise = some (length s.promises);
  settle = some (length s.promises);
  attempts = stored.attempts;
  ready_at = time_or stored.ready_at now;
  priority = normalize_priority work.priority;
  dedupe_key = work.dedupe_key;
  slot_acquired = false;
  generation = 0;
  resume_from = if is_queued stored.status then stored.snapshot.checkpoint else none;
  runs = [];
}

abbrev pub is_finished : ScheduledStatus → Bool
is_finished completed = true
is_finished failed = true
is_finished cancelled = true
is_finished _ = false

abbrev pub with_handle :
    TaskScheduler × Result SchedulerError ScheduledHandle
    → TaskScheduler × Result SchedulerError (Option ScheduledHandle)
with_handle (s, ok h) = (s, ok (some h))
with_handle (s, err e) = (s, err e)

abbrev pub handle_or_none : Option ScheduledHandle → List ScheduledHandle
handle_or_none none = []
handle_or_none (some h) = h ∷ []

module _ (collate : String → String → Ordering) (now : ℕ) where
  -- A record that was recovered is queued again, or saved as interrupted if it `was_running`.
  unfoldable pub settle_in : Bool → ℕ → ScheduledRecord → TaskScheduler → TaskScheduler
  settle_in was_running ref r s =
      if is_queued r.snapshot.status
      then arm collate now ref r (emit was_queued r s)
      else if was_running
      then persist r s
      else s

  unfoldable pub recover :
      ScheduledWork
      → ScheduledTaskState
      → TaskScheduler
      → TaskScheduler × Result SchedulerError (Option ScheduledHandle)
  recover work stored s =
      let ref = length s.records in
      let r = recovered now work stored s in
      let promise = if is_queued r.snapshot.status then pending else resolved none in
      let s' =
        register_dedupe ref r
          (add_record r (promised promise (record s { state = woken s.state }))) in
      with_handle (handle_of ref r (settle_in (is_running stored.status) ref r s'))

  -- `rehydrate` once the store has answered.
  unfoldable pub load_stored :
      ScheduledWork
      → Option ScheduledTaskState
      → TaskScheduler
      → TaskScheduler × Result SchedulerError (Option ScheduledHandle)
  load_stored work none s = (s, ok none)
  load_stored work (some stored) s =
      if not (str_eq stored.id work.id && str_eq stored.snapshot.id work.id)
      then (s, err other_task)
      else if not (modes_agree stored.mode work.mode && modes_agree stored.snapshot.mode work.mode)
      then (s, err other_mode)
      else if is_finished stored.status
      then (s, ok none)
      else recover work stored s

  -- `rehydrate` up to where it awaits the store: it throws, or goes on.
  may_rehydrate : ScheduledWork → TaskScheduler → Result SchedulerError (Unit {0})
  may_rehydrate work s =
      if not s.has_persistence
      then err not_persistent
      else if is_ending s.state
      then err is_stopping
      else if is_blank work.id
      then err id_unavailable
      else elim (index_of work.id s.records) [ some _ ↦ err id_unavailable | none ↦ ok tt ]

  -- `meanwhile` is what else happens to the scheduler while the store is awaited; what the store throws is
  -- thrown on.
  unfoldable pub rehydrate :
      ScheduledWork
      → Result SchedulerError (Option ScheduledTaskState)
      → (TaskScheduler → TaskScheduler)
      → TaskScheduler
      → TaskScheduler × Result SchedulerError (Option ScheduledHandle)
  unfolding may_rehydrate
  rehydrate work answer meanwhile s = elim (may_rehydrate work s) [
    | err e ↦ (s, err e)
    | ok _ ↦ elim answer [
      | err e ↦ (meanwhile s, err e)
      | ok stored ↦ load_stored work stored (meanwhile s)
    ]
  ]

-- `rehydrateAll`: `resolve_work` is the caller's, `load` what the store answers, `clock n` the time at
-- which the `n`-th await ends, and `meanwhile n` what else happens to the scheduler during it.
module _ (collate : String → String → Ordering) (clock : ℕ → ℕ)
    (meanwhile : ℕ → TaskScheduler → TaskScheduler)
    (resolve_work : ScheduledTaskState → Result SchedulerError (Option ScheduledWork))
    (load : String → Result SchedulerError (Option ScheduledTaskState)) where
  -- The loop: an iteration awaits the resolver, then the store and then `rehydrate` itself.
  unfoldable pub rehydrate_states :
      ℕ
      → List ScheduledTaskState
      → List ScheduledHandle
      → TaskScheduler
      → TaskScheduler × Result SchedulerError (List ScheduledHandle)
  rehydrate_states n [] handles s = (s, ok handles)
  rehydrate_states n (state ∷ states) handles s =
      if is_finished state.status
      then rehydrate_states n states handles s
      else elim (resolve_work state)
          as (λ _. TaskScheduler × Result SchedulerError (List ScheduledHandle)) [
            | err e ↦ (meanwhile n s, err e)
            | ok none ↦ rehydrate_states (n + 1) states handles (meanwhile n s)
            | ok (some work) ↦
                let s' = meanwhile n s in
                let step =
                  rehydrate collate (clock (n + 1)) work (load work.id) (meanwhile (n + 1)) s' in
                let after = meanwhile (n + 2) step.0 in
                let rest = λ (more : List ScheduledHandle).
                  rehydrate_states (n + 3) states (handles ++ more) after in
                if not (str_eq work.id state.id)
                then (s', err other_id)
                else elim step.1
                    as (λ _. TaskScheduler × Result SchedulerError (List ScheduledHandle)) [
                      | err e ↦ (after, err e)
                      | ok h ↦ rest (handle_or_none h)
                    ]
          ]

  -- `listed` is what the store lists, if it can; the first await is for it.
  unfoldable pub rehydrate_all :
      Option (Result SchedulerError (List ScheduledTaskState))
      → TaskScheduler
      → TaskScheduler × Result SchedulerError (List ScheduledHandle)
  rehydrate_all listed s = if not s.has_persistence then (s, err not_persistent) else elim listed [
    | none ↦ (s, err no_listing)
    | some listing ↦ if is_ending s.state then (s, err is_stopping) else elim listing [
      | err e ↦ (meanwhile 0 s, err e)
      | ok states ↦ rehydrate_states 1 states [] (meanwhile 0 s)
    ]
  ]
