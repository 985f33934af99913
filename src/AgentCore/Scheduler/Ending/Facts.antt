-- ===== src/AgentCore/Scheduler/Ending/Facts.antt =====
-- What the methods that end a task of packages/agent-core/src/lifecycle/scheduler.ts find of a record.
use Prim.Native.Nat.{Ordering}
use Prim.Native.String.{String}
use inkpi.Base.{
  ℕ, ◌+◌, ◌≤◌, ◌≡◌, refl, ◌⊎◌, inl, inr, Bool, true, false, ◌||◌, Option, none, some, List, [], ◌∷◌,
  All, get_elem?, Option-cases, arith,
}
use inkpi.AgentCore.Scheduler.{
  ScheduledRecord, ScheduledStatus, queued, running, waiting_user, completed, failed, cancelled,
  interrupted, is_queued, is_running, is_terminal, is_interrupted,
}
use inkpi.AgentCore.Scheduler.State.{TaskScheduler}
use inkpi.AgentCore.Scheduler.Control.{index_of, find_record}
use inkpi.AgentCore.Scheduler.Valid.{IsValidScheduler, IsSound, count_of, get_elem?-lt}
use inkpi.AgentCore.Scheduler.Leaving.{IsAlone}
use inkpi.AgentCore.Scheduler.Arming.{changed}

-- Generations that are not above `g` are below the next.
pub raised :
    (g : ℕ) (runs : List ℕ)
    → All (λ x. x ≤ g) runs
    → All (λ x. x ≤ g + 1) runs × (count_of (g + 1) runs ≡ 0)
raised g [] h = (tt, refl)
raised g (x ∷ runs) (le, rest) =
    let (all, count) = raised g runs rest in ((omega arith, all), ground arith)

pub raised-IsAlone :
    (r : ScheduledRecord) (k : Option Bool)
    → IsSound r
    → IsAlone (changed r (r.generation + 1) k r.runs)
raised-IsAlone r k v =
    let (all, count) = raised r.generation r.runs v.past in
    record { past = all; none_current = count }

-- A status that is not over is active.
pub active_or_over :
    (st : ScheduledStatus)
    → (is_terminal st || is_interrupted st) ≡ false
    → (is_queued st || is_running st) ≡ true
active_or_over queued h = refl
active_or_over running h = refl
active_or_over waiting_user h = cc h
active_or_over completed h = cc h
active_or_over failed h = cc h
active_or_over cancelled h = cc h
active_or_over interrupted h = cc h

pub running-idle : (st : ScheduledStatus) → is_running st ≡ true → is_queued st ≡ false
running-idle running h = refl
running-idle queued h = cc h
running-idle waiting_user h = cc h
running-idle completed h = cc h
running-idle failed h = cc h
running-idle cancelled h = cc h
running-idle interrupted h = cc h

pub record-IsSound :
    (collate : String → String → Ordering) (s : TaskScheduler) (ref : ℕ) (r : ScheduledRecord)
    → IsValidScheduler collate s
    → get_elem? s.records ref ≡ some r
    → IsSound r
record-IsSound collate s ref r v at =
    v.1.sound ref r at (λ e. absurd (omega (arith, get_elem?-lt s.records ref r at)))

-- What `find_record` finds stands in the list.
pub found_at :
    (id : String) (s : TaskScheduler)
    → (find_record id s ≡ none)
      ⊎ ((ref : ℕ) × (r : ScheduledRecord) × (find_record id s ≡ some (ref, r))
          × (get_elem? s.records ref ≡ some r))
found_at id s = elim (Option-cases (index_of id s.records)) [
  | inl nothing ↦ inl (rw (find_record, nothing) refl)
  | inr (ref, at) ↦ elim (Option-cases (get_elem? s.records ref)) [
    | inl nothing ↦ inl (rw (find_record, at, nothing) refl)
    | inr (r, here) ↦ inr (ref, r, rw (find_record, at, here) refl, here)
  ]
]
