-- ===== src/AgentCore/Scheduler/Control.antt =====
-- The public methods of `TaskScheduler` in packages/agent-core/src/lifecycle/scheduler.ts: `start`,
-- `schedule`, `cancel` and `checkpoint`. Listeners and tasks do not call back into a method that is running.
pub mod Pausing
use Prim.Native.Nat.{Ordering}
use Prim.Native.String.{String}
use text.Mathlib.Text.{◌==◌ as str_eq}
use inkpi.Base.{
  ℕ, suc, ◌+◌, Bool, true, false, not, ◌&&◌, ◌||◌, Option, none, some, List, [], ◌∷◌, ◌++◌, length,
  get_elem?, ◌==◌, if◌then◌else◌, max, Result, ok, err,
}
use inkpi.Base.Texts.{is_blank}
use inkpi.AgentCore.Scheduler.Queue.{empty_queue}
use inkpi.AgentCore.Scheduler.{
  queued, waiting_user, interrupted, LifecycleState, idle, active, stopped, ScheduledWork,
  ScheduledRecord, ScheduledCheckpoint, task_interrupted, is_terminal, is_interrupted, is_queued,
  is_running, is_waiting, normalize_priority, normalize_checkpoint, time_or,
}
use inkpi.AgentCore.Scheduler.State.{
  TaskScheduler, Settlement, pending, resolved, is_ending, write, emit, persist, created,
  was_queued, checkpointed, waits_for_user, was_interrupted, settle_promise, release_slot,
  register_dedupe, release_dedupe, find_duplicate,
}
use inkpi.AgentCore.Scheduler.Pump.{remove_ready, arm, pump, finish_cancelled}

pub data SchedulerError : Type 0 where
  cannot_restart is_stopping id_unavailable no_active_promise unknown_task cannot_resume
        no_checkpoint step_unavailable not_persistent no_listing other_id other_task other_mode
        not_answered :
      SchedulerError

-- The promise of a handle, and the record that its `cancel` cancels.
pub record ScheduledHandle : Type 0 where
  pub promise : ℕ
  pub task : ℕ

abbrev pub Outcome : Type 0
Outcome = TaskScheduler × Result SchedulerError ScheduledHandle

unfoldable pub new_scheduler : Option ℕ → Option ℕ → Bool → TaskScheduler
new_scheduler max_foreground max_background has_persistence = record {
  records = [];
  foreground_ready = empty_queue;
  background_ready = empty_queue;
  delayed_ready = empty_queue;
  dedupe_index = λ k. [];
  max_foreground = max 1 (time_or max_foreground 1);
  max_background = max 1 (time_or max_background 2);
  has_persistence = has_persistence;
  state = idle;
  running_foreground = 0;
  running_background = 0;
  ready_timer = none;
  pump_scheduled = false;
  promises = [];
  saved = [];
  events = [];
}

-- The place of the record with an identifier: `records.get(id)`.
unfoldable pub index_of : String → List ScheduledRecord → Option ℕ
index_of id [] = none
index_of id (r ∷ rs) =
    let rest = index_of id rs in
    if str_eq r.snapshot.id id then some 0 else elim rest [ none ↦ none | some i ↦ some (suc i) ]

abbrev pub woken : LifecycleState → LifecycleState
woken idle = active
woken state = state

unfoldable pub handle_of : ℕ → ScheduledRecord → TaskScheduler → Outcome
handle_of ref r s = elim r.promise [
  | none ↦ (s, err no_active_promise)
  | some p ↦ (s, ok (record { promise = p; task = ref }))
]

-- A record whose promise is the next one that is made.
abbrev pub new_record : ℕ → ScheduledWork → TaskScheduler → ScheduledRecord
new_record now work s = record {
  work = some work;
  controller = some false;
  snapshot = record {
    id = work.id;
    mode = work.mode;
    status = queued;
    started_at = none;
    finished_at = none;
    error = none;
    progress = none;
    attempts = none;
    checkpoint = none;
  };
  promise = some (length s.promises);
  settle = some (length s.promises);
  attempts = 0;
  ready_at = now + time_or work.debounce_ms 0;
  priority = normalize_priority work.priority;
  dedupe_key = work.dedupe_key;
  slot_acquired = false;
  generation = 0;
  resume_from = none;
  runs = [];
}

-- `new Promise(…)`
abbrev pub promised : Settlement → TaskScheduler → TaskScheduler
promised p s = record s { promises = s.promises ++ (p ∷ []) }

abbrev pub add_record : ScheduledRecord → TaskScheduler → TaskScheduler
add_record r s = record s { records = s.records ++ (r ∷ []) }

abbrev pub cleared : ScheduledRecord → ScheduledRecord
cleared r = record r {
  generation = r.generation + 1;
  controller = elim r.controller as (λ _. Option Bool) [ none ↦ none | some _ ↦ some true ];
}

-- The record of an identifier and its place.
abbrev pub find_record : String → TaskScheduler → Option (ℕ × ScheduledRecord)
find_record id s = elim (index_of id s.records) [
  | none ↦ none
  | some ref ↦ elim (get_elem? s.records ref) [ none ↦ none | some r ↦ some (ref, r) ]
]

abbrev pub is_over : ScheduledRecord → Bool
is_over r = is_terminal r.snapshot.status || is_interrupted r.snapshot.status

abbrev pub has_checkpoint : ScheduledRecord → Bool
has_checkpoint r = elim r.snapshot.checkpoint [ none ↦ false | some _ ↦ true ]

module _ (collate : String → String → Ordering) (now : ℕ) where
  unfoldable pub start : TaskScheduler → TaskScheduler × Result SchedulerError (Unit {0})
  start s = elim s.state [
    | stopped ↦ (s, err cannot_restart)
    | _ ↦ (pump collate now (record s { state = active }), ok tt)
  ]

  -- A task that is new: its record is added, saved, announced and armed.
  unfoldable pub add_task : ScheduledWork → TaskScheduler → Outcome
  add_task work s =
      let ref = length s.records in
      let r = new_record now work s in
      let s' =
        register_dedupe ref r
          (add_record r (promised pending (record s { state = woken s.state }))) in
      handle_of ref r (arm collate now ref r (emit was_queued r (emit created r (persist r s'))))

  unfoldable pub schedule_new : ScheduledWork → Option ℕ → TaskScheduler → Outcome
  schedule_new work (some ref) s = elim (get_elem? s.records ref) [
    | none ↦ (s, err unknown_task)
    | some r ↦ handle_of ref r s
  ]
  schedule_new work none s = elim (index_of work.id s.records) [
    | some _ ↦ (s, err id_unavailable)
    | none ↦ add_task work s
  ]

  unfoldable pub schedule : ScheduledWork → TaskScheduler → Outcome
  schedule work s =
      let (index, duplicate) = find_duplicate work.dedupe_key s in
      if is_ending s.state
      then (s, err is_stopping)
      else if is_blank work.id
      then (s, err id_unavailable)
      else schedule_new work duplicate (record s { dedupe_index = index })

  unfoldable pub cancel_record : ℕ → ScheduledRecord → TaskScheduler → TaskScheduler × Bool
  cancel_record ref r s = if is_over r then (s, false) else (
    if is_queued r.snapshot.status || is_running r.snapshot.status
        then finish_cancelled collate now ref (cleared r) s
        else write ref (cleared r) s,
    true,
  )

  unfoldable pub cancel : String → TaskScheduler → TaskScheduler × Bool
  cancel id s = elim (find_record id s) [
    | none ↦ (s, false)
    | some (ref, r) ↦ cancel_record ref r s
  ]

  -- The record with a checkpoint, if it is running in this generation and the checkpoint has a step.
  unfoldable pub with_checkpoint :
      ScheduledRecord → ScheduledCheckpoint → ℕ → Option ScheduledRecord
  with_checkpoint r c generation =
      if generation == r.generation && is_running r.snapshot.status
      then elim (normalize_checkpoint c now) [
        | none ↦ none
        | some kept ↦ some (record r { snapshot = record r.snapshot { checkpoint = some kept } })
      ]
      else none

  unfoldable pub record_checkpoint :
      ℕ → ScheduledRecord → ScheduledCheckpoint → ℕ → TaskScheduler → TaskScheduler × Bool
  record_checkpoint ref r c generation s = elim (with_checkpoint r c generation) [
    | none ↦ (s, false)
    | some r' ↦ (emit checkpointed r' (persist r' (write ref r' s)), true)
  ]

  unfoldable pub checkpoint : String → ScheduledCheckpoint → TaskScheduler → TaskScheduler × Bool
  checkpoint id c s = elim (find_record id s) [
    | none ↦ (s, false)
    | some (ref, r) ↦
        if is_running r.snapshot.status
        then record_checkpoint ref r c r.generation s
        else (s, false)
  ]
