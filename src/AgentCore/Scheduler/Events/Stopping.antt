-- ===== src/AgentCore/Scheduler/Events/Stopping.antt =====
-- `stop` of packages/agent-core/src/lifecycle/scheduler.ts keeps the scheduler valid.
use Prim.Native.Nat.{Ordering}
use Prim.Native.String.{String}
use inkpi.Base.{
  ℕ, zero, suc, Bool, ◌||◌, take, ◌≡◌, refl, inl, inr, length, get_elem?, Option-cases, Bool-cases,
}
use inkpi.AgentCore.Scheduler.{LifecycleState, idle, active, stopping, stopped}
use inkpi.AgentCore.Scheduler.State.{TaskScheduler}
use inkpi.AgentCore.Scheduler.Control.{is_over}
use inkpi.AgentCore.Scheduler.Control.Pausing.{interrupt_record}
use inkpi.AgentCore.Scheduler.Runs.{interrupt_all, stop, any_pending, tail_rejects, stop_settled}
use inkpi.AgentCore.Scheduler.Orders.{IsCollation}
use inkpi.AgentCore.Scheduler.Valid.{IsValidScheduler}
use inkpi.AgentCore.Scheduler.Ending.{interrupt_record-Valid}

module _ (collate : String → String → Ordering) (c : IsCollation collate) where
  pub interrupt_all-Valid :
      (now left ref : ℕ) (s : TaskScheduler)
      → IsValidScheduler collate s
      → IsValidScheduler collate (interrupt_all collate now left ref s)
  unfolding interrupt_all
  interrupt_all-Valid now zero ref s v = v
  interrupt_all-Valid now (suc left) ref s v = elim (Option-cases (get_elem? s.records ref)) [
    | inl nothing ↦ rw (interrupt_all, nothing) (interrupt_all-Valid now left (suc ref) s v)
    | inr (r, at) ↦ elim (Bool-cases (is_over r)) [
      | inl over ↦ rw (interrupt_all, at, over) (interrupt_all-Valid now left (suc ref) s v)
      | inr going ↦
          rw (interrupt_all, at, going)
            (interrupt_all-Valid now left (suc ref) (interrupt_record collate now ref r s)
              (interrupt_record-Valid collate c now s ref r v at going))
    ]
  ]

  pub stop-Valid :
      (now : ℕ) (s : TaskScheduler)
      → IsValidScheduler collate s
      → IsValidScheduler collate (stop collate now s)
  unfolding stop
  stop-Valid now s v = go s.state refl
    where
      go : (st : LifecycleState) → s.state ≡ st → IsValidScheduler collate (stop collate now s)
      go stopped e = rw (stop, e) v
      go idle e =
          rw (stop, e)
            (interrupt_all-Valid now (length s.records) 0 (record s { state = stopping }) v)
      go active e =
          rw (stop, e)
            (interrupt_all-Valid now (length s.records) 0 (record s { state = stopping }) v)
      go stopping e =
          rw (stop, e)
            (interrupt_all-Valid now (length s.records) 0 (record s { state = stopping }) v)

  pub stop_settled-Valid :
      (now awaited : ℕ) (last_saved : Bool) (s : TaskScheduler)
      → IsValidScheduler collate s
      → IsValidScheduler collate (stop_settled collate now awaited last_saved s)
  unfolding stop_settled
  stop_settled-Valid now awaited last_saved s v = go s.state refl
    where
      go :
          (st : LifecycleState)
          → s.state ≡ st
          → IsValidScheduler collate (stop_settled collate now awaited last_saved s)
      go stopped e = rw (stop_settled, e) v
      go idle e = rw (stop_settled, e) v
      go active e = rw (stop_settled, e) v
      go stopping e =
          elim (Bool-cases
            (any_pending (take awaited s.promises) || tail_rejects last_saved s.saved)) [
              | inl wait ↦ rw (stop_settled, e, wait) v
              | inr all ↦ rw (stop_settled, e, all) v
            ]
