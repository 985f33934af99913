-- ===== src/AgentCore/Scheduler/Progress/Frames.antt =====
-- What the pump of packages/agent-core/src/lifecycle/scheduler.ts leaves of the delayed queue.
use Prim.Native.Nat.{Ordering}
use Prim.Native.String.{String}
use inkpi.Base.{
  ℕ, zero, suc, ◌≡◌, refl, sym, ap, ◌∙◌, inl, inr, true, false, Option, none, some, get_elem?,
  Option-cases, Bool-cases,
}
use inkpi.AgentCore.Scheduler.{ScheduledRecord, is_foreground, is_before}
use inkpi.AgentCore.Scheduler.Queue.Arrays.{Entry}
use inkpi.AgentCore.Scheduler.Queue.{peek, pop}
use inkpi.AgentCore.Scheduler.State.{TaskScheduler, schedule_ready_timer, acquire_slot}
use inkpi.AgentCore.Scheduler.Pump.{
  started_or, may_start, may_execute, push_ready, execute, start_popped, choose, open_foreground,
  open_background, pump_round, pump_loop,
}
use inkpi.AgentCore.Scheduler.Hand.{some_inj}

pub timer-delayed : (s : TaskScheduler) → (schedule_ready_timer s).delayed_ready ≡ s.delayed_ready
unfolding schedule_ready_timer
timer-delayed s = elim (Option-cases (peek s.delayed_ready)) [
  | inl nothing ↦ rw (schedule_ready_timer, nothing) refl
  | inr (e, next) ↦ rw (schedule_ready_timer, next) refl
]

module _ (collate : String → String → Ordering) (now : ℕ) where
  pub push_ready-delayed :
      (ref : ℕ) (r : ScheduledRecord) (s : TaskScheduler)
      → (push_ready collate ref r s).delayed_ready ≡ s.delayed_ready
  unfolding push_ready
  push_ready-delayed ref r s = elim (Bool-cases (is_foreground r.snapshot.mode)) [
    | inl fg ↦ rw fg refl
    | inr bg ↦ rw bg refl
  ]

  pub execute-delayed :
      (ref : ℕ) (r : ScheduledRecord) (s : TaskScheduler)
      → (execute collate now ref r s).delayed_ready ≡ s.delayed_ready
  unfolding execute
  execute-delayed ref r s = elim (Bool-cases (may_execute r)) [
    | inl go ↦ rw go refl
    | inr stay ↦ rw stay refl
  ]

  pub acquire_slot-delayed :
      (r : ScheduledRecord) (s : TaskScheduler)
      → (acquire_slot r s).0.delayed_ready ≡ s.delayed_ready
  unfolding acquire_slot
  acquire_slot-delayed r s = elim (Bool-cases r.slot_acquired) [
    | inl held ↦ rw held refl
    | inr free ↦ elim (Bool-cases (is_foreground r.snapshot.mode)) [
      | inl fg ↦ rw (free, fg) refl
      | inr bg ↦ rw (free, bg) refl
    ]
  ]

  pub start_popped-delayed :
      (e : Entry) (s : TaskScheduler)
      → (start_popped collate now e s).delayed_ready ≡ s.delayed_ready
  unfolding start_popped
  start_popped-delayed e s = elim (Option-cases (get_elem? s.records e.ref)) [
    | inl nothing ↦ rw (start_popped, nothing) refl
    | inr (r, at) ↦ elim (Bool-cases (may_start r)) [
      | inr stay ↦ rw (start_popped, at, stay) refl
      | inl go ↦
          let (s', r') = acquire_slot r s in
          rw (start_popped, at, go) (execute-delayed e.ref r' s' ∙ acquire_slot-delayed r s)
    ]
  ]

  pub started_or-delayed :
      (e : Option Entry) (s : TaskScheduler)
      → (started_or collate now e s).delayed_ready ≡ s.delayed_ready
  started_or-delayed none s = refl
  started_or-delayed (some e) s = start_popped-delayed e s

  pub pump_round-delayed :
      (s s' : TaskScheduler)
      → pump_round collate now s ≡ some s'
      → s'.delayed_ready ≡ s.delayed_ready
  unfolding pump_round
  pump_round-delayed s s' h =
      elim (Option-cases (choose collate (open_foreground s) (open_background s))) [
        | inl nothing ↦ let k : none ≡ some s' = rw (pump_round, nothing) at h in cc k
        | inr (true, pick) ↦
            let (queue, e) = pop (is_before collate) s.foreground_ready in
            let s'' = started_or collate now e (record s { foreground_ready = queue }) in
            let k : some s'' ≡ some s' = rw (pump_round, pick) at h in
            sym (ap (λ (x : TaskScheduler). x.delayed_ready) (some_inj k))
            ∙ started_or-delayed e (record s { foreground_ready = queue })
        | inr (false, pick) ↦
            let (queue, e) = pop (is_before collate) s.background_ready in
            let s'' = started_or collate now e (record s { background_ready = queue }) in
            let k : some s'' ≡ some s' = rw (pump_round, pick) at h in
            sym (ap (λ (x : TaskScheduler). x.delayed_ready) (some_inj k))
            ∙ started_or-delayed e (record s { background_ready = queue })
      ]

  pub pump_loop-delayed :
      (fuel : ℕ) (s : TaskScheduler)
      → (pump_loop collate fuel now s).delayed_ready ≡ s.delayed_ready
  unfolding pump_loop
  pump_loop-delayed zero s = refl
  pump_loop-delayed (suc fuel) s = elim (Option-cases (pump_round collate now s)) [
    | inl nothing ↦ rw (pump_loop, nothing) refl
    | inr (s', step) ↦
        rw (pump_loop, step) (pump_loop-delayed fuel s' ∙ pump_round-delayed s s' step)
  ]
