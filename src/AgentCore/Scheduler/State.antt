-- ===== src/AgentCore/Scheduler/State.antt =====
-- The private methods of `TaskScheduler` in packages/agent-core/src/lifecycle/scheduler.ts. A record
-- is named by the place where it stands in `records`, which is its sequence number: records are added
-- and never deleted. A method is given the record as it has changed it so far, and the clock as `now`.
use Prim.Native.String.{String}
use text.Mathlib.Text.{◌==◌ as str_eq}
use inkpi.Base.{
  ℕ, zero, suc, ◌+◌, ◌-◌, Bool, true, false, not, ◌&&◌, ◌||◌, Option, none, some, List, [], ◌∷◌,
  ◌++◌, get_elem?, ltb, ◌==◌, if◌then◌else◌,
}
use inkpi.AgentCore.Scheduler.{
  LifecycleState, stopping, stopped, ScheduledSnapshot, ScheduledTaskState, ScheduledRecord,
  TaskError, is_terminal, is_foreground,
}
use inkpi.AgentCore.Scheduler.Queue.Arrays.{Entry, set}
use inkpi.AgentCore.Scheduler.Queue.{ScheduledPriorityQueue, peek}

pub data SchedulerEvent : Type 0 where
  created was_queued started progressed retrying checkpointed waits_for_user was_completed
        has_failed was_cancelled was_interrupted :
      SchedulerEvent

pub data Settlement : Type 0 where
  pending : Settlement
  resolved : Option String → Settlement
  rejected : TaskError → Settlement

pub record TaskScheduler : Type 0 where
  pub records : List ScheduledRecord
  pub foreground_ready : ScheduledPriorityQueue
  pub background_ready : ScheduledPriorityQueue
  pub delayed_ready : ScheduledPriorityQueue
  pub dedupe_index : String → List ℕ
  pub max_foreground : ℕ
  pub max_background : ℕ
  pub has_persistence : Bool
  pub state : LifecycleState
  pub running_foreground : ℕ
  pub running_background : ℕ
  pub ready_timer : Option ℕ
  pub pump_scheduled : Bool
  -- The promises that were made, and what the store and the listeners were given, the newest first.
  pub promises : List Settlement
  pub saved : List ScheduledTaskState
  pub events : List (SchedulerEvent × ScheduledSnapshot)

abbrev pub is_ending : LifecycleState → Bool
is_ending stopping = true
is_ending stopped = true
is_ending _ = false

abbrev pub entry_of : ℕ → ScheduledRecord → Entry
entry_of ref r = record {
  ref = ref;
  id = r.snapshot.id;
  priority = r.priority;
  ready_at = r.ready_at;
}

abbrev pub write : ℕ → ScheduledRecord → TaskScheduler → TaskScheduler
write ref r s = record s { records = set s.records ref r }

-- `controller?.signal.aborted`
abbrev pub is_aborted : ScheduledRecord → Bool
is_aborted r = elim r.controller [ some true ↦ true | _ ↦ false ]

abbrev pub emit : SchedulerEvent → ScheduledRecord → TaskScheduler → TaskScheduler
emit event r s = record s { events = (event, r.snapshot) ∷ s.events }

abbrev pub to_scheduled_task_state : ScheduledRecord → ScheduledTaskState
to_scheduled_task_state r = record {
  id = r.snapshot.id;
  mode = r.snapshot.mode;
  status = r.snapshot.status;
  snapshot = r.snapshot;
  attempts = r.attempts;
  ready_at = some r.ready_at;
}

abbrev pub persist : ScheduledRecord → TaskScheduler → TaskScheduler
persist r s = record s {
  saved = if s.has_persistence then to_scheduled_task_state r ∷ s.saved else s.saved;
}

-- A promise that is settled stays so.
abbrev pub settle_once : Settlement → Settlement → Settlement
settle_once pending outcome = outcome
settle_once old outcome = old

unfoldable pub settle_at : List Settlement → ℕ → Settlement → List Settlement
settle_at [] p outcome = []
settle_at (old ∷ ps) zero outcome = settle_once old outcome ∷ ps
settle_at (old ∷ ps) (suc p) outcome = old ∷ settle_at ps p outcome

unfoldable pub settled : Option ℕ → Settlement → List Settlement → List Settlement
settled none outcome promises = promises
settled (some p) outcome promises = settle_at promises p outcome

-- `resolve?.(value)` and `reject?.(error)`
abbrev pub settle_promise : Option ℕ → Settlement → TaskScheduler → TaskScheduler
settle_promise p outcome s = record s { promises = settled p outcome s.promises }

unfoldable pub acquire_slot : ScheduledRecord → TaskScheduler → TaskScheduler × ScheduledRecord
acquire_slot r s = if r.slot_acquired then (s, r) else (
  if is_foreground r.snapshot.mode
      then record s { running_foreground = s.running_foreground + 1 }
      else record s { running_background = s.running_background + 1 },
  record r { slot_acquired = true },
)

unfoldable pub release_slot : ScheduledRecord → TaskScheduler → TaskScheduler × ScheduledRecord
release_slot r s =
    if r.slot_acquired
    then (
      if is_foreground r.snapshot.mode
          then record s { running_foreground = s.running_foreground - 1 }
          else record s { running_background = s.running_background - 1 },
      record r { slot_acquired = false },
    )
    else (s, r)

abbrev pub member_of : ℕ → List ℕ → Bool
member_of ref [] = false
member_of ref (x ∷ refs) = x == ref || member_of ref refs

abbrev pub without : ℕ → List ℕ → List ℕ
without ref [] = []
without ref (x ∷ refs) = let rest = without ref refs in if x == ref then rest else x ∷ rest

-- `map.set(key, refs)`; no set and an empty one are the same.
abbrev pub set_refs : String → List ℕ → (String → List ℕ) → String → List ℕ
set_refs key refs index k = if str_eq key k then refs else index k

-- A key that is missing or empty is no key.
abbrev pub key_or_none : Option String → Option String
key_or_none none = none
key_or_none (some String.[]) = none
key_or_none (some (String.◌∷◌ c k)) = some (String.◌∷◌ c k)

unfoldable pub registered : ℕ → ScheduledRecord → (String → List ℕ) → String → List ℕ
registered ref r index =
    if is_terminal r.snapshot.status then index else elim (key_or_none r.dedupe_key) [
      | none ↦ index
      | some key ↦
          let refs = index key in
          set_refs key (if member_of ref refs then refs else refs ++ (ref ∷ [])) index
    ]

abbrev pub register_dedupe : ℕ → ScheduledRecord → TaskScheduler → TaskScheduler
register_dedupe ref r s = record s { dedupe_index = registered ref r s.dedupe_index }

unfoldable pub released : ℕ → ScheduledRecord → (String → List ℕ) → String → List ℕ
released ref r index = elim (key_or_none r.dedupe_key) [
  | none ↦ index
  | some key ↦ set_refs key (without ref (index key)) index
]

abbrev pub release_dedupe : ℕ → ScheduledRecord → TaskScheduler → TaskScheduler
release_dedupe ref r s = record s { dedupe_index = released ref r s.dedupe_index }

abbrev pub has_ended : Option ScheduledRecord → Bool
has_ended none = true
has_ended (some r) = is_terminal r.snapshot.status

abbrev pub is_earlier : ℕ → Option ℕ → Bool
is_earlier ref none = true
is_earlier ref (some found) = ltb ref found

-- The candidates that are left, and the first that is not terminal.
unfoldable pub find_in : List ScheduledRecord → List ℕ → Option ℕ → List ℕ × Option ℕ
find_in records [] found = ([], found)
find_in records (ref ∷ refs) found =
    let ended = has_ended (get_elem? records ref) in
    let (left, last) =
      find_in records refs (if not ended && is_earlier ref found then some ref else found) in
    (if ended then left else ref ∷ left, last)

unfoldable pub find_duplicate : Option String → TaskScheduler → (String → List ℕ) × Option ℕ
find_duplicate key s = elim (key_or_none key) [
  | none ↦ (s.dedupe_index, none)
  | some k ↦
      let (left, found) = find_in s.records (s.dedupe_index k) none in
      (set_refs k left s.dedupe_index, found)
]

abbrev pub release_settled_runtime : ScheduledRecord → ScheduledRecord
release_settled_runtime r = record r {
  controller = none;
  promise = none;
  settle = none;
  resume_from = none;
  work = none;
  dedupe_key = none;
}

-- What cancelling, completing and failing have in common once a record has its last status.
abbrev pub finish_with :
    ℕ → SchedulerEvent → Settlement → ScheduledRecord → TaskScheduler → TaskScheduler
finish_with ref event outcome r s =
    let ended = release_settled_runtime r in
    settle_promise r.settle outcome
      (emit event ended (write ref ended (persist r (release_dedupe ref r s))))

-- A timer that is set for the time of the next entry is kept.
unfoldable pub schedule_ready_timer : TaskScheduler → TaskScheduler
schedule_ready_timer s = elim (peek s.delayed_ready) [
  | none ↦ record s { ready_timer = none }
  | some next ↦ record s { ready_timer = some next.ready_at }
]

abbrev pub schedule_pump : TaskScheduler → TaskScheduler
schedule_pump s = record s { pump_scheduled = true }
