-- ===== src/AgentCore/Scheduler/Shutdown.antt =====
-- `stop` in packages/agent-core/src/lifecycle/scheduler.ts: what it waits for comes.
use Prim.Native.String.{String}
use inkpi.Base.{ℕ, ◌<◌, ◌≡◌, false, some, List, get_elem?}
use inkpi.AgentCore.Scheduler.{ScheduledRecord}
use inkpi.AgentCore.Scheduler.Valid.{is_active}

-- No record before a place is active.
abbrev IsDone : ℕ → List ScheduledRecord → Type 0
IsDone ref rs =
    (j : ℕ) (r : ScheduledRecord) → get_elem? rs j ≡ some r → j < ref → is_active r ≡ false
