-- ===== src/AgentCore/Scheduler.antt =====
-- packages/agent-core/src/lifecycle/scheduler.ts: the records of scheduled tasks and the orders of the
-- ready queues. Times are whole milliseconds, priorities whole numbers, progress is in thousandths;
-- what tasks produce and what their checkpoints carry are opaque texts.
pub mod Queue
pub mod State
pub mod Pump
pub mod Control
pub mod Runs
pub mod Orders
pub mod Steps
pub mod Closing
pub mod Hand
pub mod PutBack
pub mod Pumping
pub mod PumpLoop
pub mod Frames
pub mod Leaving
pub mod Arming
pub mod Touching
pub mod Ending
pub mod Adding
pub mod Queueing
pub mod Resuming
pub mod Finishing
pub mod Events
pub mod Histories
pub mod Safety
pub mod Shutdown
pub mod Progress
pub mod Duplicates
mod Examples
pub mod Valid
use Prim.Native.Nat.{Ordering}
use Prim.Native.String.{String}
use inkpi.Base.{ℕ, Bool, true, false, ◌||◌, Option, none, some, List, [], ltb, if◌then◌else◌}
use inkpi.Base.Int.{ℤ, pos, lt_int}
use inkpi.Base.Texts.{is_blank}
use inkpi.AgentCore.Scheduler.Queue.Arrays.{Entry}

pub data ScheduledMode : Type 0 where
  interactive foreground background batch : ScheduledMode

pub data ScheduledStatus : Type 0 where
  queued running waiting_user completed failed cancelled interrupted : ScheduledStatus

pub data LifecycleState : Type 0 where
  idle active stopping stopped : LifecycleState

pub record ScheduledCheckpoint : Type 0 where
  pub step : String
  pub payload : Option String
  pub updated_at : Option ℕ

-- The errors of `interruptedError`, and one that a task threw, with whether it may be retried.
pub data TaskError : Type 0 where
  task_interrupted task_interrupted_before_recovery : TaskError
  thrown : String → Bool → TaskError

pub record ScheduledSnapshot : Type 0 where
  pub id : String
  pub mode : ScheduledMode
  pub status : ScheduledStatus
  pub started_at : Option ℕ
  pub finished_at : Option ℕ
  pub error : Option TaskError
  pub progress : Option ℕ
  pub attempts : Option ℕ
  pub checkpoint : Option ScheduledCheckpoint

pub record ScheduledTaskState : Type 0 where
  pub id : String
  pub mode : ScheduledMode
  pub status : ScheduledStatus
  pub snapshot : ScheduledSnapshot
  pub attempts : ℕ
  pub ready_at : Option ℕ

pub record ScheduledWork : Type 0 where
  pub id : String
  pub mode : ScheduledMode
  pub priority : Option ℤ
  pub dedupe_key : Option String
  pub debounce_ms : Option ℕ
  pub timeout_ms : Option ℕ
  pub max_attempts : Option ℕ
  pub retry_delay_ms : Option ℕ

-- `controller` is whether the signal is aborted; `promise` and `settle` say which promise the record
-- hands out and which one `resolve` and `reject` settle; `runs` are the generations of the calls of
-- `execute` that await their task.
pub record ScheduledRecord : Type 0 where
  pub work : Option ScheduledWork
  pub controller : Option Bool
  pub snapshot : ScheduledSnapshot
  pub promise : Option ℕ
  pub settle : Option ℕ
  pub attempts : ℕ
  pub ready_at : ℕ
  pub priority : ℤ
  pub dedupe_key : Option String
  pub slot_acquired : Bool
  pub generation : ℕ
  pub resume_from : Option ScheduledCheckpoint
  pub runs : List ℕ

abbrev pub is_terminal : ScheduledStatus → Bool
is_terminal waiting_user = true
is_terminal completed = true
is_terminal failed = true
is_terminal cancelled = true
is_terminal _ = false

abbrev pub is_interrupted : ScheduledStatus → Bool
is_interrupted interrupted = true
is_interrupted _ = false

abbrev pub is_queued : ScheduledStatus → Bool
is_queued queued = true
is_queued _ = false

abbrev pub is_running : ScheduledStatus → Bool
is_running running = true
is_running _ = false

abbrev pub is_waiting : ScheduledStatus → Bool
is_waiting waiting_user = true
is_waiting _ = false

abbrev pub is_foreground : ScheduledMode → Bool
is_foreground interactive = true
is_foreground foreground = true
is_foreground background = false
is_foreground batch = false

abbrev pub normalize_priority : Option ℤ → ℤ
normalize_priority none = pos 0
normalize_priority (some priority) = priority

abbrev pub is_retryable : TaskError → Bool
is_retryable (thrown message retryable) = retryable
is_retryable _ = false

abbrev pub time_or : Option ℕ → ℕ → ℕ
time_or none now = now
time_or (some time) now = time

unfoldable pub normalize_checkpoint : ScheduledCheckpoint → ℕ → Option ScheduledCheckpoint
normalize_checkpoint c now =
    if is_blank c.step
    then none
    else some (record c { updated_at = some (time_or c.updated_at now) })

abbrev pub is_lt : Ordering → Bool
is_lt Ordering.lt = true
is_lt _ = false

abbrev pub is_gt : Ordering → Bool
is_gt Ordering.gt = true
is_gt _ = false

-- `collate` is `String.localeCompare`.
module _ (collate : String → String → Ordering) where
  unfoldable pub compare_scheduled_records : Entry → Entry → Ordering
  compare_scheduled_records left right =
      if lt_int right.priority left.priority
      then Ordering.lt
      else if lt_int left.priority right.priority
      then Ordering.gt
      else collate left.id right.id

  unfoldable pub compare_ready_records : Entry → Entry → Ordering
  compare_ready_records left right =
      if ltb left.ready_at right.ready_at
      then Ordering.lt
      else if ltb right.ready_at left.ready_at
      then Ordering.gt
      else compare_scheduled_records left right

  abbrev pub is_before : Entry → Entry → Bool
  is_before left right = is_lt (compare_scheduled_records left right)

  abbrev pub is_ready_before : Entry → Entry → Bool
  is_ready_before left right = is_lt (compare_ready_records left right)
