-- ===== src/AgentCore/Scheduler/Ending.antt =====
-- The methods that end or pause a task keep the scheduler valid: `cancel`, `checkpoint`,
-- `waitForUser`, `interrupt`.
pub mod Facts
use Prim.Native.Nat.{Ordering}
use Prim.Native.String.{String}
use inkpi.Base.{
  ℕ, ◌+◌, ◌≤◌, ◌≡◌, refl, ap, ◌∙◌, ◌⊎◌, inl, inr, Bool, true, false, ◌||◌, Option, none, some, List,
  [], ◌∷◌, All, length, get_elem?, ◌==◌, Option-cases, Bool-cases, arith,
}
use inkpi.AgentCore.Scheduler.{
  ScheduledRecord, ScheduledStatus, ScheduledCheckpoint, queued, running, waiting_user, completed,
  failed, cancelled, interrupted, is_queued, is_running, is_terminal, is_interrupted,
  task_interrupted, normalize_checkpoint,
}
use inkpi.AgentCore.Scheduler.State.{
  TaskScheduler, resolved, checkpointed, waits_for_user, was_interrupted, write, release_dedupe,
  settle_promise, emit, persist,
}
use inkpi.AgentCore.Scheduler.Pump.{remove_ready}
use inkpi.AgentCore.Scheduler.Control.{
  index_of, find_record, is_over, has_checkpoint, cleared, cancel_record, cancel, with_checkpoint,
  record_checkpoint, checkpoint,
}
use inkpi.AgentCore.Scheduler.Control.Pausing.{
  wait_record, wait_for_user, interrupt_record, interrupt,
}
use inkpi.AgentCore.Scheduler.Orders.{IsCollation}
use inkpi.AgentCore.Scheduler.Frames.{fore_left, back_left, freed, release_slot-frame}
use inkpi.AgentCore.Scheduler.Valid.{IsValidScheduler, IsSound, is_active, count_of, get_elem?-lt}
use inkpi.AgentCore.Scheduler.Hand.{Open-idle}
use inkpi.AgentCore.Scheduler.PutBack.Writes.{written}
use inkpi.AgentCore.Scheduler.Pumping.Starting.{inside-length}
use inkpi.AgentCore.Scheduler.PumpLoop.{pump-Valid}
use inkpi.AgentCore.Scheduler.Leaving.{IsAlone, leave-IsValidScheduler}
use inkpi.AgentCore.Scheduler.Arming.{
  remove_ready-records, take-Open, changed, finish_cancelled-Valid,
}
use inkpi.AgentCore.Scheduler.Touching.{write-IsValidScheduler}
use inkpi.AgentCore.Scheduler.Ending.Facts.{
  raised, raised-IsAlone, active_or_over, running-idle, record-IsSound, found_at,
}

module _ (collate : String → String → Ordering) (c : IsCollation collate) (now : ℕ) where
  module _ (s : TaskScheduler) (ref : ℕ) (r : ScheduledRecord) (v : IsValidScheduler collate s)
      (at : get_elem? s.records ref ≡ some r) where
    sound : IsSound r
    sound = record-IsSound collate s ref r v at

    pub cancel_record-Valid : IsValidScheduler collate (cancel_record collate now ref r s).0
    unfolding cancel_record
    cancel_record-Valid = elim (Bool-cases (is_over r)) [
      | inl over ↦ rw over v
      | inr going ↦
          rw (going, active_or_over r.snapshot.status going)
            (finish_cancelled-Valid collate c now s ref r (r.generation + 1)
              (elim r.controller as (λ _. Option Bool) [ none ↦ none | some _ ↦ some true ]) r.runs
              v at (raised-IsAlone r _ sound) going)
    ]

    pub interrupt_record-Valid :
        is_over r ≡ false → IsValidScheduler collate (interrupt_record collate now ref r s)
    unfolding interrupt_record
    interrupt_record-Valid going =
        let s' = remove_ready collate r true s in
        let at' : get_elem? s'.records ref ≡ some r =
          ap (λ rs. get_elem? rs ref) (remove_ready-records collate r true s) ∙ at in
        let gone = record (freed (cleared r)) {
          snapshot = record r.snapshot {
            status = interrupted;
            error = some task_interrupted;
            finished_at = some now;
          };
        } in
        let s'' = record s' {
          running_foreground = fore_left r s';
          running_background = back_left r s';
        } in
        let alone = raised-IsAlone r none sound in
        let active : is_active r ≡ true = active_or_over r.snapshot.status going in
        let left =
          leave-IsValidScheduler collate c s' ref r.settle (take-Open collate c now s ref r v at) r
            at' gone (resolved none)
            (record {
              same_id = refl;
              same_mode = refl;
              no_slot = refl;
              alone = record { past = alone.past; none_current = alone.none_current };
              employed = λ _. sound.employed (rw active refl);
            })
            refl refl (λ h. cc h) in
        rw (release_slot-frame (cleared r) s') (
          pump-Valid collate now c
            (settle_promise r.settle (resolved none)
              (emit was_interrupted gone (persist gone (write ref gone s''))))
            left)

    -- What `with_checkpoint` gives: nothing, or the running record with the checkpoint.
    with_checkpoint-cases :
        (k : ScheduledCheckpoint) (generation : ℕ)
        → (with_checkpoint collate now r k generation ≡ none)
          ⊎ ((kept : ScheduledCheckpoint) × (with_checkpoint collate now r k generation
                ≡ some (record r { snapshot = record r.snapshot { checkpoint = some kept } }))
              × (is_running r.snapshot.status ≡ true))
    unfolding with_checkpoint
    with_checkpoint-cases k generation = elim (Bool-cases (generation == r.generation)) [
      | inr other ↦ inl (rw (with_checkpoint, other) refl)
      | inl same ↦ elim (Bool-cases (is_running r.snapshot.status)) [
        | inr no_run ↦ inl (rw (with_checkpoint, same, no_run) refl)
        | inl runs ↦ elim (Option-cases (normalize_checkpoint k now)) [
          | inl nothing ↦ inl (rw (with_checkpoint, same, runs, nothing) refl)
          | inr (kept, good) ↦ inr (kept, rw (with_checkpoint, same, runs, good) refl, runs)
        ]
      ]
    ]

    abbrev with_kept : ScheduledCheckpoint → ScheduledRecord
    with_kept kept = record r { snapshot = record r.snapshot { checkpoint = some kept } }

    kept-Valid :
        (kept : ScheduledCheckpoint) → IsValidScheduler collate (write ref (with_kept kept) s)
    kept-Valid kept =
        write-IsValidScheduler collate s v ref r (with_kept kept) at
          (record {
            same_id = refl;
            same_mode = refl;
            same_status = refl;
            same_priority = refl;
            same_time = refl;
            same_slot = refl;
            same_settle = refl;
          })
          (record {
            slot = sound.slot;
            past = sound.past;
            current = sound.current;
            startable = sound.startable;
            employed = sound.employed;
          })

    pub record_checkpoint-Valid :
        (k : ScheduledCheckpoint) (generation : ℕ)
        → IsValidScheduler collate (record_checkpoint collate now ref r k generation s).0
    unfolding record_checkpoint
    record_checkpoint-Valid k generation = elim (with_checkpoint-cases k generation) [
      | inl nothing ↦ rw (record_checkpoint, nothing) v
      | inr (kept, good, runs) ↦ rw (record_checkpoint, good) (kept-Valid kept)
    ]

    wait_record-Valid :
        is_running r.snapshot.status ≡ true
        → IsValidScheduler collate (wait_record collate now ref r s).0
    unfolding wait_record
    wait_record-Valid runs =
        let waits = record (freed (cleared r)) {
          snapshot = record r.snapshot {
            status = waiting_user;
            error = none;
            finished_at = some now;
          };
        } in
        let s'' = record s {
          running_foreground = fore_left r s;
          running_background = back_left r s;
        } in
        let alone = raised-IsAlone r none sound in
        let hand =
          Open-idle collate c s (length s.records) ref none r.settle r at
            (inside-length s.records ref) ((λ p h. cc h), (λ p act h. h)) v
            (running-idle r.snapshot.status runs) in
        let left =
          leave-IsValidScheduler collate c s ref r.settle hand r at waits (resolved none)
            (record {
              same_id = refl;
              same_mode = refl;
              no_slot = refl;
              alone = record { past = alone.past; none_current = alone.none_current };
              employed = λ _. sound.employed (rw (running-idle r.snapshot.status runs, runs) refl);
            })
            refl refl (λ h. cc h) in
        elim (Bool-cases (has_checkpoint r)) [
          | inl has ↦
              rw (has, release_slot-frame (cleared r) s)
                (pump-Valid collate now c
                  (settle_promise r.settle (resolved none) (
                    emit waits_for_user waits (
                      persist waits
                        (write ref waits (release_dedupe ref (freed (cleared r)) s'')))))
                  left)
          | inr hasnt ↦ rw hasnt v
        ]

  module _ (s : TaskScheduler) (id : String) (v : IsValidScheduler collate s) where
    pub cancel-Valid : IsValidScheduler collate (cancel collate now id s).0
    unfolding cancel
    cancel-Valid = elim (found_at id s) [
      | inl nothing ↦ rw (cancel, nothing) v
      | inr (ref, r, found, at) ↦ rw (cancel, found) (cancel_record-Valid s ref r v at)
    ]

    pub interrupt-Valid : IsValidScheduler collate (interrupt collate now id s).0
    unfolding interrupt
    interrupt-Valid = elim (found_at id s) [
      | inl nothing ↦ rw (interrupt, nothing) v
      | inr (ref, r, found, at) ↦ elim (Bool-cases (is_over r)) [
        | inl over ↦ rw (interrupt, found, over) v
        | inr going ↦ rw (interrupt, found, going) (interrupt_record-Valid s ref r v at going)
      ]
    ]

    pub checkpoint-Valid :
        (k : ScheduledCheckpoint) → IsValidScheduler collate (checkpoint collate now id k s).0
    unfolding checkpoint
    checkpoint-Valid k = elim (found_at id s) [
      | inl nothing ↦ rw (checkpoint, nothing) v
      | inr (ref, r, found, at) ↦ elim (Bool-cases (is_running r.snapshot.status)) [
        | inl runs ↦
            rw (checkpoint, found, runs) (record_checkpoint-Valid s ref r v at k r.generation)
        | inr no_run ↦ rw (checkpoint, found, no_run) v
      ]
    ]

    pub wait_for_user-Valid :
        (k : Option ScheduledCheckpoint)
        → IsValidScheduler collate (wait_for_user collate now id k s).0
    unfolding wait_for_user
    wait_for_user-Valid none = elim (found_at id s) [
      | inl nothing ↦ rw (wait_for_user, nothing) v
      | inr (ref, r, found, at) ↦ elim (Bool-cases (is_running r.snapshot.status)) [
        | inl runs ↦ rw (wait_for_user, found, runs) (wait_record-Valid s ref r v at runs)
        | inr no_run ↦ rw (wait_for_user, found, no_run) v
      ]
    ]
    wait_for_user-Valid (some k) = elim (found_at id s) [
      | inl nothing ↦ rw (wait_for_user, nothing) v
      | inr (ref, r, found, at) ↦ elim (Bool-cases (is_running r.snapshot.status)) [
        | inr no_run ↦ rw (wait_for_user, found, no_run) v
        | inl runs ↦ elim (with_checkpoint-cases s ref r v at k r.generation) [
          | inl nothing ↦ rw (wait_for_user, found, runs, nothing) v
          | inr (kept, good, _) ↦
              let r' = record r { snapshot = record r.snapshot { checkpoint = some kept } } in
              let s' = emit checkpointed r' (persist r' (write ref r' s)) in
              rw (wait_for_user, found, runs, good)
                (wait_record-Valid s' ref r' (kept-Valid s ref r v at kept)
                  (written s.records ref r r' at) runs)
        ]
      ]
    ]
