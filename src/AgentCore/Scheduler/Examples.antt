-- ===== src/AgentCore/Scheduler/Examples.antt =====
-- Runs of the scheduler of packages/agent-core/src/lifecycle/scheduler.ts, and the theorems at concrete
-- inputs.
use Prim.Native.String.{String}
use inkpi.Base.{
  ℕ, ◌≤◌, ◌<◌, ◌≡◌, refl, ◌↔◌, ◌⊎◌, true, false, Option, none, some, List, [], ◌∷◌, All, get_elem?,
  ok,
}
use inkpi.Base.Int.{pos}
use inkpi.Base.Texts.{is_blank}
use inkpi.AgentCore.Scheduler.{
  ScheduledWork, ScheduledRecord, ScheduledTaskState, foreground, queued, running, is_running,
  thrown,
}
use inkpi.AgentCore.Scheduler.Queue.Arrays.{set, entry_at}
use inkpi.AgentCore.Scheduler.Queue.{peek, push, pop, remove, remove_at, sift_up}
use inkpi.AgentCore.Scheduler.State.{
  is_ending, TaskScheduler, acquire_slot, registered, find_in, find_duplicate, schedule_ready_timer,
}
use inkpi.AgentCore.Scheduler.Pump.{
  remove_ready, push_ready, push_delayed, arm, promote_loop, promote_ready, pump_loop, pump,
  pump_round, start_popped, execute,
}
use inkpi.AgentCore.Scheduler.Control.{
  new_scheduler, index_of, handle_of, add_task, schedule_new, schedule,
}
use inkpi.AgentCore.Scheduler.Runs.{scheduled_pump, throws}
use inkpi.AgentCore.Scheduler.Runs.Recovery.{
  settle_in, recover, load_stored, rehydrate, rehydrate_states, rehydrate_all,
}
use inkpi.AgentCore.Scheduler.Valid.{count_of, one}
use inkpi.AgentCore.Scheduler.Histories.{
  SchedulerCall, schedules, answers, pumps, ends, call, run, IsUndisturbed,
}
use inkpi.AgentCore.Scheduler.Safety.{
  Enqueued, IsOfQueued, StandsOnce, count_running, reached, run-Enqueued, run-count_running,
  run-runs,
}
use inkpi.AgentCore.Scheduler.Progress.{pump-waits}
use inkpi.AgentCore.Scheduler.Duplicates.Handles.{schedule-duplicate}
use inkpi.AgentCore.Scheduler.Queue.Examples.{collate, collate-IsCollation}

abbrev work_of : String → ℕ → Option String → ScheduledWork
work_of id priority key = record {
  id = id;
  mode = foreground;
  priority = some (pos priority);
  dedupe_key = key;
  debounce_ms = none;
  timeout_ms = none;
  max_attempts = some 2;
  retry_delay_ms = none;
}

abbrev first_work : ScheduledWork
first_work = work_of "draft" 1 none

abbrev second_work : ScheduledWork
second_work = work_of "review" 5 (some "chapter")

abbrev calls : List (ℕ × SchedulerCall)
calls = (0, schedules first_work) ∷ []

abbrev scheduler : TaskScheduler
scheduler = reached collate collate-IsCollation none none true calls

abbrev waiting_record : ScheduledRecord
waiting_record = record {
  work = some first_work;
  controller = some false;
  snapshot = record {
    id = "draft";
    mode = foreground;
    status = queued;
    started_at = none;
    finished_at = none;
    error = none;
    progress = none;
    attempts = none;
    checkpoint = none;
  };
  promise = some 0;
  settle = some 0;
  attempts = 0;
  ready_at = 0;
  priority = pos 1;
  dedupe_key = none;
  slot_acquired = false;
  generation = 0;
  resume_from = none;
  runs = [];
}

-- The task that was scheduled is queued.
waiting_run : get_elem? scheduler.records 0 ≡ some waiting_record
unfolding run call schedule find_duplicate schedule_new index_of add_task registered handle_of arm
    remove_ready remove push_ready push sift_up schedule_ready_timer peek new_scheduler is_blank
waiting_run = refl

run-Enqueued_example :
    (Enqueued scheduler (record { ref = 0; id = "draft"; priority = pos 1; ready_at = 0 })
      ↔ IsOfQueued scheduler (record { ref = 0; id = "draft"; priority = pos 1; ready_at = 0 }))
    × StandsOnce scheduler (record { ref = 0; id = "draft"; priority = pos 1; ready_at = 0 })
run-Enqueued_example =
    run-Enqueued collate collate-IsCollation none none true calls (tt, tt)
      (record { ref = 0; id = "draft"; priority = pos 1; ready_at = 0 })

-- The task as the store has it.
abbrev stored_review : ScheduledTaskState
stored_review = record {
  id = "review";
  mode = foreground;
  status = queued;
  snapshot = record waiting_record.snapshot { id = "review" };
  attempts = 1;
  ready_at = some 0;
}

abbrev busy_calls : List (ℕ × SchedulerCall)
busy_calls =
    (0, schedules first_work)
    ∷ (0, answers second_work (some stored_review))
    ∷ (1, pumps)
    ∷ (5, ends 1 0 (throws (thrown "offline" true)))
    ∷ (6, pumps)
    ∷ []

abbrev busy : TaskScheduler
busy = reached collate collate-IsCollation none none true busy_calls

-- What the store lists is recovered; a pump that runs meanwhile finds nothing to do.
recover_run :
    (rehydrate_all collate
      (λ n. n)
      (λ n s. scheduled_pump collate n s)
      (λ state. ok (some second_work))
      (λ id. ok (some stored_review))
      (some (ok (stored_review ∷ [])))
      (new_scheduler none none true)).1
    ≡ ok (record { promise = 0; task = 0 } ∷ [])
unfolding rehydrate_all rehydrate_states rehydrate load_stored recover settle_in scheduled_pump
    index_of registered handle_of arm remove_ready remove push_ready push sift_up
    schedule_ready_timer peek new_scheduler is_blank
recover_run = refl

busy_free : IsUndisturbed collate (new_scheduler none none true) busy_calls
unfolding call schedule find_duplicate schedule_new index_of add_task registered handle_of arm
    remove_ready remove push_ready push sift_up schedule_ready_timer peek new_scheduler is_blank
busy_free = (tt, (refl, (tt, (tt, (tt, tt)))))

run-count_running_example :
    (busy.running_foreground ≡ count_running true busy.records)
    × (busy.running_foreground ≤ busy.max_foreground)
    × (busy.running_background ≡ count_running false busy.records)
    × (busy.running_background ≤ busy.max_background)
run-count_running_example =
    run-count_running collate collate-IsCollation none none true busy_calls busy_free

abbrev started_calls : List (ℕ × SchedulerCall)
started_calls = (0, schedules first_work) ∷ (1, pumps) ∷ []

abbrev started : TaskScheduler
started = reached collate collate-IsCollation none none false started_calls

abbrev started_one : ScheduledRecord
started_one = record waiting_record {
  attempts = 1;
  slot_acquired = true;
  runs = 0 ∷ [];
  snapshot = record waiting_record.snapshot {
    status = running;
    started_at = some 1;
    attempts = some 1;
  };
}

-- The pump has started the task.
started_run : get_elem? started.records 0 ≡ some started_one
unfolding run call schedule find_duplicate schedule_new index_of add_task registered handle_of arm
    remove_ready remove push_ready push sift_up schedule_ready_timer peek new_scheduler is_blank
    scheduled_pump pump promote_ready promote_loop pump_loop pump_round pop remove_at start_popped
    acquire_slot execute set entry_at
started_run = refl

run-runs_example :
    (count_of started_one.generation started_one.runs
      ≡ one (is_running started_one.snapshot.status))
    × All (λ g. g ≤ started_one.generation) started_one.runs
run-runs_example =
    run-runs collate collate-IsCollation none none false started_calls (tt, (tt, tt)) 0 started_one
      started_run

abbrev late_work : ScheduledWork
late_work = record first_work { debounce_ms = some 100 }

abbrev late_calls : List (ℕ × SchedulerCall)
late_calls = (0, schedules late_work) ∷ []

abbrev late_record : ScheduledRecord
late_record = record waiting_record { work = some late_work; ready_at = 100 }

late_going : is_ending (reached collate collate-IsCollation none none true late_calls).state ≡ false
unfolding run call schedule find_duplicate schedule_new index_of add_task registered handle_of arm
    remove_ready remove push_delayed push sift_up schedule_ready_timer peek new_scheduler is_blank
late_going = refl

late_run :
    get_elem?
      (pump collate 1 (reached collate collate-IsCollation none none true late_calls)).records
      0
    ≡ some late_record
unfolding run call schedule find_duplicate schedule_new index_of add_task registered handle_of arm
    remove_ready remove push_delayed push sift_up schedule_ready_timer peek new_scheduler is_blank
    pump promote_ready promote_loop pump_loop
late_run = refl

pump-waits_example :
    (1 < 100)
    ⊎ ((pump collate 1
          (reached collate collate-IsCollation none none true late_calls)).max_foreground
        ≤ (pump collate 1
            (reached collate collate-IsCollation none none true late_calls)).running_foreground)
pump-waits_example =
    pump-waits collate collate-IsCollation none none true late_calls 1 (tt, tt) late_going 0
      late_record late_run refl

abbrev twin_work : ScheduledWork
twin_work = work_of "again" 9 (some "chapter")

first_handle :
    (schedule collate 0 second_work (new_scheduler none none true)).1
    ≡ ok (record { promise = 0; task = 0 })
unfolding schedule find_duplicate find_in schedule_new index_of add_task handle_of new_scheduler
    is_blank
first_handle = refl

twin_named : is_blank twin_work.id ≡ false
unfolding is_blank
twin_named = refl

schedule-duplicate_example :
    ((schedule collate 3 twin_work
        (schedule collate 0 second_work (new_scheduler none none true)).0).1
      ≡ ok (record { promise = 0; task = 0 }))
    × ((schedule collate 3 twin_work
          (schedule collate 0 second_work (new_scheduler none none true)).0).0.records
        ≡ (schedule collate 0 second_work (new_scheduler none none true)).0.records)
schedule-duplicate_example =
    schedule-duplicate collate 0 3 second_work twin_work "chapter" (new_scheduler none none true)
      (record { promise = 0; task = 0 }) refl refl twin_named first_handle
