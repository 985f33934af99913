-- ===== src/AgentCore/Scheduler/Arming.antt =====
-- `arm` puts a record that is queued into its queue, and `finishCancelled` and the pump keep the state
-- valid.
use Prim.Native.Nat.{Ordering}
use Prim.Native.String.{String}
use inkpi.Base.{
  ℕ, ◌≡◌, refl, ap, ◌∙◌, inl, inr, Bool, true, false, ◌||◌, Option, none, some, List, length,
  get_elem?, leb, if◌then◌else◌, Option-cases, Bool-cases,
}
use inkpi.AgentCore.Scheduler.{
  ScheduledRecord, cancelled, is_queued, is_terminal, is_interrupted, is_foreground,
}
use inkpi.AgentCore.Scheduler.Queue.{peek}
use inkpi.AgentCore.Scheduler.State.{
  TaskScheduler, resolved, was_cancelled, schedule_ready_timer, release_settled_runtime,
  finish_with,
}
use inkpi.AgentCore.Scheduler.Pump.{remove_ready, push_ready, push_delayed, arm, finish_cancelled}
use inkpi.AgentCore.Scheduler.Orders.{IsCollation}
use inkpi.AgentCore.Scheduler.Frames.{fore_left, back_left, freed, release_slot-frame}
use inkpi.AgentCore.Scheduler.Valid.{Open, IsValidScheduler, IsSound}
use inkpi.AgentCore.Scheduler.Hand.{Open-remove_ready, IsValidScheduler-timer}
use inkpi.AgentCore.Scheduler.PutBack.{Open-push_ready, Open-push_delayed}
use inkpi.AgentCore.Scheduler.Pumping.Starting.{queued-may_start, inside-length}
use inkpi.AgentCore.Scheduler.PumpLoop.{pump-Valid}
use inkpi.AgentCore.Scheduler.Leaving.{IsAlone, leave-IsValidScheduler}

timer-records : (s : TaskScheduler) → (schedule_ready_timer s).records ≡ s.records
unfolding schedule_ready_timer
timer-records s = elim (Option-cases (peek s.delayed_ready)) [
  | inl nothing ↦ rw (schedule_ready_timer, nothing) refl
  | inr (e, next) ↦ rw (schedule_ready_timer, next) refl
]

timer_if-records :
    (b : Bool) (s : TaskScheduler) → (if b then schedule_ready_timer s else s).records ≡ s.records
timer_if-records true s = timer-records s
timer_if-records false s = refl

-- A record with what a method changes of one that it gives up.
abbrev pub changed : ScheduledRecord → ℕ → Option Bool → List ℕ → ScheduledRecord
changed r generation controller runs = record r {
  generation = generation;
  controller = controller;
  runs = runs;
}

module _ (collate : String → String → Ordering) where
  pub remove_ready-records :
      (r : ScheduledRecord) (b : Bool) (s : TaskScheduler)
      → (remove_ready collate r b s).records ≡ s.records
  unfolding remove_ready
  remove_ready-records r b s = elim (Bool-cases (is_foreground r.snapshot.mode)) [
    | inl fg ↦ rw fg (timer_if-records _ _)
    | inr bg ↦ rw bg (timer_if-records _ _)
  ]

  module _ (c : IsCollation collate) (now : ℕ) where
    -- A record in hand that is queued is armed.
    pub arm-Valid :
        (s : TaskScheduler) (ref : ℕ) (r : ScheduledRecord)
        → Open collate ref r.settle s
        → get_elem? s.records ref ≡ some r
        → IsSound r
        → is_queued r.snapshot.status ≡ true
        → IsValidScheduler collate (arm collate now ref r s)
    unfolding arm
    arm-Valid s ref r v at sound waiting =
        let s' = remove_ready collate r false s in
        let v' =
          Open-remove_ready collate c s ref ref r.settle r.settle r at (λ j b got ne. ne)
            ((λ p h. h), (λ p act h. h)) v false in
        let at' : get_elem? s'.records ref ≡ some r =
          ap (λ rs. get_elem? rs ref) (remove_ready-records r false s) ∙ at in
        let may = queued-may_start r sound waiting in
        elim (Bool-cases (leb r.ready_at now)) [
          | inl ready ↦
              rw (may, ready)
                (IsValidScheduler-timer collate c (push_ready collate ref r s') (
                  Open-push_ready collate c s' ref r.settle v' r at' sound waiting
                    (λ p h. (rw waiting refl, h))))
          | inr later ↦
              rw (may, later)
                (IsValidScheduler-timer collate c (push_delayed collate ref r s') (
                  Open-push_delayed collate c s' ref r.settle v' r at' sound waiting
                    (λ p h. (rw waiting refl, h))))
        ]

    -- Taking a record in hand out of a valid state.
    pub take-Open :
        (s : TaskScheduler) (ref : ℕ) (old : ScheduledRecord)
        → IsValidScheduler collate s
        → get_elem? s.records ref ≡ some old
        → Open collate ref old.settle (remove_ready collate old true s)
    take-Open s ref old v at =
        Open-remove_ready collate c s (length s.records) ref none old.settle old at
          (inside-length s.records ref) ((λ p h. cc h), (λ p act h. h)) v true

    -- A record in hand that was changed is cancelled.
    pub finish_cancelled-Valid :
        (s : TaskScheduler) (ref : ℕ) (old : ScheduledRecord) (g : ℕ) (k : Option Bool)
        (runs : List ℕ)
        → IsValidScheduler collate s
        → get_elem? s.records ref ≡ some old
        → IsAlone (changed old g k runs)
        → (is_terminal old.snapshot.status || is_interrupted old.snapshot.status) ≡ false
        → IsValidScheduler collate (finish_cancelled collate now ref (changed old g k runs) s)
    unfolding finish_cancelled remove_ready
    finish_cancelled-Valid s ref old g k runs v at alone going =
        let r = changed old g k runs in
        let s' = remove_ready collate old true s in
        let at' : get_elem? s'.records ref ≡ some old =
          ap (λ rs. get_elem? rs ref) (remove_ready-records old true s) ∙ at in
        let r' = record (freed r) {
          snapshot = record old.snapshot { status = cancelled; finished_at = some now };
        } in
        let s'' = record s' {
          running_foreground = fore_left old s';
          running_background = back_left old s';
        } in
        let left =
          leave-IsValidScheduler collate c s' ref old.settle (take-Open s ref old v at) old at'
            (release_settled_runtime r') (resolved none)
            (record {
              same_id = refl;
              same_mode = refl;
              no_slot = refl;
              alone = record { past = alone.past; none_current = alone.none_current };
              employed = λ h. absurd (cc h);
            })
            refl refl (λ h. cc h) in
        rw (going, release_slot-frame r s')
          (pump-Valid collate now c (finish_with ref was_cancelled (resolved none) r' s'') left)
