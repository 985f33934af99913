-- ===== src/AgentCore/Scheduler/PumpLoop.antt =====
-- The loop of the pump: it ends when nothing can start, whatever the queues hold.
use Prim.Native.Nat.{Ordering}
use Prim.Native.String.{String}
use inkpi.Base.{
  ℕ, zero, suc, ◌+◌, ◌≤◌, ◌≡◌, refl, ◌⊎◌, inl, inr, true, false, Option, none, some, get_elem?, ltb,
  if◌then◌else◌, Option-cases, Bool-cases, arith,
}
use inkpi.AgentCore.Scheduler.{is_before, is_gt, compare_scheduled_records}
use inkpi.AgentCore.Scheduler.Queue.Arrays.{Entry}
use inkpi.AgentCore.Scheduler.Queue.{ScheduledPriorityQueue, peek}
use inkpi.AgentCore.Scheduler.Queue.Laws.{pop-peek}
use inkpi.AgentCore.Scheduler.State.{TaskScheduler, is_ending, acquire_slot}
use inkpi.AgentCore.Scheduler.Pump.{
  may_start, promote_ready, execute, start_popped, choose, open_foreground, open_background,
  pump_round, pump_loop, waiting_entries, pump,
}
use inkpi.AgentCore.Scheduler.Orders.{IsCollation, is_before-IsOrder}
use inkpi.AgentCore.Scheduler.Valid.{IsValidScheduler}
use inkpi.AgentCore.Scheduler.Pumping.{
  promote_ready-Valid, fore_popped, back_popped, round_fore, round_back,
}

module _ (collate : String → String → Ordering) (now : ℕ) where
  -- A start takes nothing from the queues.
  start_popped-queues :
      (e : Entry) (s : TaskScheduler)
      → waiting_entries (start_popped collate now e s) ≡ waiting_entries s
  unfolding start_popped execute acquire_slot
  start_popped-queues e s = elim (Option-cases (get_elem? s.records e.ref)) [
    | inl nothing ↦ rw (start_popped, nothing) refl
    | inr (r, at) ↦ elim (Bool-cases (may_start r)) [
      | inr stay ↦ rw (start_popped, at, stay) refl
      | inl go ↦ rw (start_popped, at, go) (ground arith)
    ]
  ]

  opened :
      (running most : ℕ) (q : ScheduledPriorityQueue) (e : Entry)
      → (if ltb running most then peek q else none) ≡ some e
      → (ltb running most ≡ true) × (peek q ≡ some e)
  opened running most q e h = elim (Bool-cases (ltb running most)) [
    | inl room ↦ let k : peek q ≡ some e = rw room at h in (room, k)
    | inr full ↦ let k : none ≡ some e = rw full at h in cc k
  ]

  chosen :
      (f b : Option Entry)
      → ((choose collate f b ≡ none) × (f ≡ none) × (b ≡ none))
        ⊎ (((e : Entry) × (f ≡ some e) × (choose collate f b ≡ some true))
            ⊎ ((e : Entry) × (b ≡ some e) × (choose collate f b ≡ some false)))
  chosen none none = inl (refl, refl, refl)
  chosen (some e) none = inr (inl (e, refl, refl))
  chosen none (some e) = inr (inr (e, refl, refl))
  chosen (some e) (some x) = elim (Bool-cases (is_gt (compare_scheduled_records collate e x))) [
    | inl later ↦ inr (inr (x, refl, rw later refl))
    | inr first ↦ inr (inl (e, refl, rw first refl))
  ]

  -- Nothing can start.
  abbrev pub IsIdle : TaskScheduler → Type 0
  IsIdle s = (open_foreground s ≡ none) × (open_background s ≡ none)

  module _ (c : IsCollation collate) where
    -- A round of the pump: nothing can start, or the state is valid with one entry less.
    pump_round-cases :
        (s : TaskScheduler)
        → IsValidScheduler collate s
        → ((pump_round collate now s ≡ none) × IsIdle s)
          ⊎ ((s' : TaskScheduler) × (pump_round collate now s ≡ some s')
              × IsValidScheduler collate s'
              × (waiting_entries s' + 1 ≡ waiting_entries s))
    unfolding pump_round
    pump_round-cases s v = elim (chosen (open_foreground s) (open_background s)) [
      | inl (nothing, f, b) ↦ inl (rw (pump_round, nothing) refl, (f, b))
      | inr (inl (e, f, pick)) ↦
          let (room, next) = opened s.running_foreground s.max_foreground s.foreground_ready e f in
          let p =
            pop-peek (is_before collate) (is_before-IsOrder collate c) s.foreground_ready e
              v.0.fore_valid next in
          inr (
            start_popped collate now e (fore_popped collate c now s v e),
            rw (pump_round, pick, p.returned) refl,
            round_fore collate c now s v e room next,
            omega (arith, start_popped-queues e (fore_popped collate c now s v e), p.shorter),
          )
      | inr (inr (e, b, pick)) ↦
          let (room, next) = opened s.running_background s.max_background s.background_ready e b in
          let p =
            pop-peek (is_before collate) (is_before-IsOrder collate c) s.background_ready e
              v.0.back_valid next in
          inr (
            start_popped collate now e (back_popped collate c now s v e),
            rw (pump_round, pick, p.returned) refl,
            round_back collate c now s v e room next,
            omega (arith, start_popped-queues e (back_popped collate c now s v e), p.shorter),
          )
    ]

    pump_loop-Valid :
        (fuel : ℕ) (s : TaskScheduler)
        → waiting_entries s ≤ fuel
        → IsValidScheduler collate s
        → IsValidScheduler collate (pump_loop collate fuel now s)
          × IsIdle (pump_loop collate fuel now s)
    unfolding pump_loop
    pump_loop-Valid zero s le v = elim (pump_round-cases s v) [
      | inl (_, idle) ↦ (v, idle)
      | inr (s', step, v', less) ↦ absurd (omega arith)
    ]
    pump_loop-Valid (suc fuel) s le v = elim (pump_round-cases s v) [
      | inl (nothing, idle) ↦ rw (pump_loop, nothing) (v, idle)
      | inr (s', step, v', less) ↦ rw (pump_loop, step) (pump_loop-Valid fuel s' (omega arith) v')
    ]

    pub pump-Valid :
        (s : TaskScheduler)
        → IsValidScheduler collate s
        → IsValidScheduler collate (pump collate now s)
    unfolding pump
    pump-Valid s v = elim (Bool-cases (is_ending s.state)) [
      | inl ending ↦ rw ending v
      | inr going ↦
          let s' = promote_ready collate now s in
          rw going
            (pump_loop-Valid (waiting_entries s') s' (omega arith)
              (promote_ready-Valid collate c now s v)).0
    ]

    pub pump-IsIdle :
        (s : TaskScheduler)
        → IsValidScheduler collate s
        → is_ending s.state ≡ false
        → IsIdle (pump collate now s)
    unfolding pump
    pump-IsIdle s v going =
        let s' = promote_ready collate now s in
        rw going
          (pump_loop-Valid (waiting_entries s') s' (omega arith)
            (promote_ready-Valid collate c now s v)).1
