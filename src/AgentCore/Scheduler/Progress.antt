-- ===== src/AgentCore/Scheduler/Progress.antt =====
-- The pump of packages/agent-core/src/lifecycle/scheduler.ts leaves no task waiting that could start.
pub mod Frames
use Prim.Native.Nat.{Ordering}
use Prim.Native.String.{String}
use inkpi.Base.{
  ℕ, zero, suc, ◌≤◌, ◌<◌, ◌≡◌, refl, sym, ap, subst, ◌∙◌, ◌⊎◌, inl, inr, Bool, true, false, Option,
  none, some, List, length, get_elem?, ltb, if◌then◌else◌, Option-cases, Bool-cases, ltb→lt, ltb→le,
  arith,
}
use inkpi.AgentCore.Scheduler.{
  ScheduledRecord, is_queued, is_foreground, is_ready_before, is_before,
}
use inkpi.AgentCore.Scheduler.Queue.Arrays.{Entry}
use inkpi.AgentCore.Scheduler.Queue.{ScheduledPriorityQueue, peek, pop}
use inkpi.AgentCore.Scheduler.Queue.Index.{Holds}
use inkpi.AgentCore.Scheduler.Queue.Order.{IsValid}
use inkpi.AgentCore.Scheduler.Queue.Laws.{pop-peek, peek-none}
use inkpi.AgentCore.Scheduler.State.{
  TaskScheduler, is_ending, entry_of, schedule_ready_timer, acquire_slot,
}
use inkpi.AgentCore.Scheduler.Pump.{
  started_or, may_start, may_execute, push_ready, promote_loop, promote_ready, execute,
  start_popped, choose, open_foreground, open_background, pump_round, pump_loop, waiting_entries,
  pump,
}
use inkpi.AgentCore.Scheduler.Control.{new_scheduler}
use inkpi.AgentCore.Scheduler.Orders.{
  IsCollation, is_before-IsOrder, is_ready_before-IsOrder, ready_no_earlier,
}
use inkpi.AgentCore.Scheduler.Valid.{IsValidScheduler, get_elem?-lt}
use inkpi.AgentCore.Scheduler.Hand.{some_inj}
use inkpi.AgentCore.Scheduler.PumpLoop.{pump-Valid, pump-IsIdle}
use inkpi.AgentCore.Scheduler.Histories.{SchedulerCall, run, IsUndisturbed, history-Valid}
use inkpi.AgentCore.Scheduler.Progress.Frames.{
  timer-delayed, push_ready-delayed, execute-delayed, acquire_slot-delayed, start_popped-delayed,
  started_or-delayed, pump_round-delayed, pump_loop-delayed,
}

-- The first entry of a delayed queue is for a later time.
abbrev IsLater : ℕ → ScheduledPriorityQueue → Type 0
IsLater now q = (e : Entry) → peek q ≡ some e → now < e.ready_at

module _ (collate : String → String → Ordering) (now : ℕ) where
  module _ (c : IsCollation collate) where
    promote_loop-IsLater :
        (fuel : ℕ) (s : TaskScheduler)
        → IsValid (is_ready_before collate) s.delayed_ready
        → length s.delayed_ready.entries ≤ fuel
        → IsLater now (promote_loop collate fuel now s).delayed_ready
    unfolding promote_loop
    promote_loop-IsLater zero s v le = λ e next.
        let p =
          pop-peek (is_ready_before collate) (is_ready_before-IsOrder collate c) s.delayed_ready e v
            next in
        absurd (omega (arith, p.shorter))
    promote_loop-IsLater (suc fuel) s v le = elim (Option-cases (peek s.delayed_ready)) [
      | inl nothing ↦ rw (promote_loop, nothing) (λ e next. cc (nothing, next))
      | inr (x, first) ↦
          let p =
            pop-peek (is_ready_before collate) (is_ready_before-IsOrder collate c) s.delayed_ready x
              v first in
          let q = (pop (is_ready_before collate) s.delayed_ready).0 in
          let s' = record s { delayed_ready = q } in
          elim (Bool-cases (ltb now x.ready_at)) [
            | inl later ↦
                rw (promote_loop, first, later)
                  (λ e next.
                    let same : x ≡ e = some_inj (sym first ∙ next) in
                    subst (λ y. now < y.ready_at) same (ltb→lt now x.ready_at later))
            | inr due ↦ elim (Option-cases (get_elem? s.records x.ref)) [
              | inl nothing ↦
                  rw (promote_loop, first, due, nothing)
                    (promote_loop-IsLater fuel s' p.valid (omega (arith, p.shorter)))
              | inr (r, at) ↦ elim (Bool-cases (may_start r)) [
                | inr stay ↦
                    rw (promote_loop, first, due, at, stay)
                      (promote_loop-IsLater fuel s' p.valid (omega (arith, p.shorter)))
                | inl go ↦
                    let same = push_ready-delayed collate now x.ref r s' in
                    rw (promote_loop, first, due, at, go)
                      (promote_loop-IsLater fuel (push_ready collate x.ref r s')
                        (subst (IsValid (is_ready_before collate)) (sym same) p.valid)
                        (omega (
                          arith,
                          p.shorter,
                          ap (λ (y : ScheduledPriorityQueue). length y.entries) same,
                        )))
              ]
            ]
          ]
    ]

    pump-IsLater :
        (s : TaskScheduler)
        → IsValidScheduler collate s
        → is_ending s.state ≡ false
        → IsLater now (pump collate now s).delayed_ready
    unfolding pump promote_ready
    pump-IsLater s v going =
        let s' = promote_loop collate (length s.delayed_ready.entries) now s in
        rw going (
          subst (IsLater now)
            (sym (
              pump_loop-delayed collate now (waiting_entries (promote_ready collate now s))
                (promote_ready collate now s)
              ∙ timer-delayed s'))
            (promote_loop-IsLater (length s.delayed_ready.entries) s v.0.delayed_valid
              (omega arith)))

    -- Every entry of a valid queue whose first is for a later time is so.
    all_later :
        (q : ScheduledPriorityQueue) (e : Entry)
        → IsValid (is_ready_before collate) q
        → IsLater now q
        → Holds q e
        → now < e.ready_at
    all_later q e v later held = elim (Option-cases (peek q)) [
      | inl nothing ↦
          absurd (
            peek-none (is_ready_before collate) (is_ready_before-IsOrder collate c) q nothing e
              held)
      | inr (x, first) ↦
          let p =
            pop-peek (is_ready_before collate) (is_ready_before-IsOrder collate c) q x v first in
          omega (arith, later x first, ready_no_earlier collate c e x (p.least e held))
    ]

    full :
        (running most : ℕ) (q : ScheduledPriorityQueue) (e : Entry)
        → (if ltb running most then peek q else none) ≡ none
        → Holds q e
        → most ≤ running
    full running most q e h held = elim (Bool-cases (ltb running most)) [
      | inr taken ↦ ltb→le running most taken
      | inl room ↦
          let k : peek q ≡ none = rw room at h in
          absurd (peek-none (is_before collate) (is_before-IsOrder collate c) q k e held)
    ]

    -- Why a record waits: it is for a later time, or the slots of its mode are taken.
    abbrev pub MustWait : TaskScheduler → ScheduledRecord → Type 0
    MustWait s r =
        (now < r.ready_at)
        ⊎ (if is_foreground r.snapshot.mode
            then s.max_foreground ≤ s.running_foreground
            else s.max_background ≤ s.running_background)

    pump-MustWait :
        (s : TaskScheduler)
        → IsValidScheduler collate s
        → is_ending s.state ≡ false
        → (j : ℕ) (r : ScheduledRecord) → get_elem? (pump collate now s).records j ≡ some r
        → is_queued r.snapshot.status ≡ true
        → MustWait (pump collate now s) r
    pump-MustWait s v going j r at queue =
        let s' = pump collate now s in
        let v' = pump-Valid collate now c s v in
        let (fore, back) = pump-IsIdle collate now c s v going in
        elim (v'.0.placed j r at (λ x. absurd (omega (arith, get_elem?-lt s'.records j r at)))
          queue) [
            | inl h ↦
                let (x, here, _, _, _, fg) = v'.0.fore_waits (entry_of j r) h in
                let mode : is_foreground r.snapshot.mode ≡ true = cc (at, here, fg) in
                inr (
                  rw mode (
                    full s'.running_foreground s'.max_foreground s'.foreground_ready (entry_of j r)
                      fore h))
            | inr (inl h) ↦
                let (x, here, _, _, _, bg) = v'.0.back_waits (entry_of j r) h in
                let mode : is_foreground r.snapshot.mode ≡ false = cc (at, here, bg) in
                inr (
                  rw mode (
                    full s'.running_background s'.max_background s'.background_ready (entry_of j r)
                      back h))
            | inr (inr h) ↦ inl (
                all_later s'.delayed_ready (entry_of j r) v'.0.delayed_valid
                  (pump-IsLater s v going) h)
          ]

-- After any calls and events, if `localeCompare` orders texts up to ties, no identifier is taken while a
-- `rehydrate` of it awaits the store and the scheduler is not stopping or stopped: whatever record is still queued after a pump is for a later time, or all the slots
-- of its mode are taken.
pub pump-waits :
    (collate : String → String → Ordering) (c : IsCollation collate)
    (most_fore most_back : Option ℕ) (kept : Bool) (calls : List (ℕ × SchedulerCall)) (now : ℕ)
    → IsUndisturbed collate (new_scheduler most_fore most_back kept) calls
    → is_ending (run collate (new_scheduler most_fore most_back kept) calls).state ≡ false
    → (j : ℕ) (r : ScheduledRecord)
    → get_elem?
        (pump collate now (run collate (new_scheduler most_fore most_back kept) calls)).records
        j
      ≡ some r
    → is_queued r.snapshot.status ≡ true
    → (now < r.ready_at)
      ⊎ (if is_foreground r.snapshot.mode
          then (pump collate now
              (run collate (new_scheduler most_fore most_back kept) calls)).max_foreground
            ≤ (pump collate now
                (run collate (new_scheduler most_fore most_back kept) calls)).running_foreground
          else (pump collate now
              (run collate (new_scheduler most_fore most_back kept) calls)).max_background
            ≤ (pump collate now
                (run collate (new_scheduler most_fore most_back kept) calls)).running_background)
pump-waits collate c most_fore most_back kept calls now free going j r at queue =
    pump-MustWait collate now c (run collate (new_scheduler most_fore most_back kept) calls)
      (history-Valid collate c most_fore most_back kept calls free) going j r at queue
