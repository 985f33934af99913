-- ===== src/AgentCore/Scheduler/Finishing.antt =====
-- A task that ends keeps the scheduler valid, whichever way: completed, failed, retried, cancelled, or
-- too late for the generation of its record.
use Prim.Native.Nat.{Ordering}
use Prim.Native.String.{String}
use inkpi.Base.{
  ℕ, zero, suc, ◌+◌, ◌≤◌, ◌≡◌, refl, ap, ◌∙◌, inl, inr, true, false, ◌&&◌, ◌||◌, Option, none, some,
  List, [], ◌∷◌, All, length, get_elem?, ltb, ◌==◌, Bool-cases, ==→eq, arith,
}
use inkpi.AgentCore.Scheduler.{
  ScheduledRecord, ScheduledStatus, TaskError, queued, running, waiting_user, completed, failed,
  cancelled, interrupted, is_running, is_terminal, is_interrupted, is_retryable,
}
use inkpi.AgentCore.Scheduler.State.{
  TaskScheduler, resolved, rejected, retrying, is_aborted, write, persist, emit,
  release_settled_runtime,
}
use inkpi.AgentCore.Scheduler.Pump.{finish_cancelled}
use inkpi.AgentCore.Scheduler.Runs.{
  TaskResult, returns, throws, without_at, max_attempts_of, retry_delay_of, complete, fail, retry,
  end_run, finish_run,
}
use inkpi.AgentCore.Scheduler.Orders.{IsCollation}
use inkpi.AgentCore.Scheduler.Frames.{fore_left, back_left, freed, release_slot-frame}
use inkpi.AgentCore.Scheduler.Valid.{Open, IsValidScheduler, IsSound, is_resumable, count_of, one}
use inkpi.AgentCore.Scheduler.Hand.{Open-idle, some_inj}
use inkpi.AgentCore.Scheduler.PutBack.{Open-write}
use inkpi.AgentCore.Scheduler.PutBack.Writes.{written}
use inkpi.AgentCore.Scheduler.Pumping.Starting.{inside-length}
use inkpi.AgentCore.Scheduler.PumpLoop.{pump-Valid}
use inkpi.AgentCore.Scheduler.Leaving.{IsAlone, left_slots, leave-IsValidScheduler}
use inkpi.AgentCore.Scheduler.Arming.{arm-Valid, finish_cancelled-Valid}
use inkpi.AgentCore.Scheduler.Touching.{IsTouched, write-IsValidScheduler}
use inkpi.AgentCore.Scheduler.Ending.Facts.{raised, record-IsSound, running-idle}

count_of-without_at :
    (x : ℕ) (runs : List ℕ) (i g : ℕ)
    → get_elem? runs i ≡ some g
    → count_of x (without_at i runs) + one (g == x) ≡ count_of x runs
unfolding without_at
count_of-without_at x [] i g h = cc h
count_of-without_at x (y ∷ runs) zero g h = let e : y ≡ g = some_inj h in rw e (omega arith)
count_of-without_at x (y ∷ runs) (suc i) g h = omega (arith, count_of-without_at x runs i g h)

All-without_at : (P : ℕ → Type 0) (runs : List ℕ) (i : ℕ) → All P runs → All P (without_at i runs)
unfolding without_at
All-without_at P [] i h = tt
All-without_at P (y ∷ runs) zero h = h.1
All-without_at P (y ∷ runs) (suc i) h = (h.0, All-without_at P runs i h.1)

running-going :
    (st : ScheduledStatus) → is_running st ≡ true → (is_terminal st || is_interrupted st) ≡ false
running-going running h = refl
running-going queued h = cc h
running-going waiting_user h = cc h
running-going completed h = cc h
running-going failed h = cc h
running-going cancelled h = cc h
running-going interrupted h = cc h

module _ (collate : String → String → Ordering) (c : IsCollation collate) (now : ℕ)
    (s : TaskScheduler) (v : IsValidScheduler collate s) (ref : ℕ) (old : ScheduledRecord)
    (at : get_elem? s.records ref ≡ some old) where
  sound : IsSound old
  sound = record-IsSound collate s ref old v at

  -- The record whose task of its own generation has just ended.
  module _ (runs : List ℕ) (running_ : is_running old.snapshot.status ≡ true)
      (alone : IsAlone (record old { runs = runs })) where
    abbrev ended : ScheduledRecord
    ended = record old { runs = runs }

    hand : Open collate ref old.settle s
    hand =
        Open-idle collate c s (length s.records) ref none old.settle old at
          (inside-length s.records ref) ((λ p h. cc h), (λ p act h. h)) v
          (running-idle old.snapshot.status running_)

    resumable : is_resumable old ≡ true
    resumable = rw (running-idle old.snapshot.status running_, running_) refl

    abbrev slotless : TaskScheduler
    slotless = record s {
      running_foreground = fore_left old s;
      running_background = back_left old s;
    }

    complete-Valid :
        (value : Option String) → IsValidScheduler collate (complete collate now ref ended value s)
    unfolding complete
    complete-Valid value =
        let r = record (freed ended) {
          snapshot = record old.snapshot { status = completed; finished_at = some now };
        } in
        rw (release_slot-frame ended s) (
          leave-IsValidScheduler collate c s ref old.settle hand old at (release_settled_runtime r)
            (resolved value)
            (record {
              same_id = refl;
              same_mode = refl;
              no_slot = refl;
              alone = record { past = alone.past; none_current = alone.none_current };
              employed = λ h. absurd (cc h);
            })
            refl refl (λ h. cc h))

    fail-Valid : (e : TaskError) → IsValidScheduler collate (fail collate now ref ended e s)
    unfolding fail
    fail-Valid e =
        let r = record (freed ended) {
          snapshot = record old.snapshot {
            status = failed;
            error = some e;
            finished_at = some now;
          };
        } in
        rw (release_slot-frame ended s) (
          leave-IsValidScheduler collate c s ref old.settle hand old at (release_settled_runtime r)
            (rejected e)
            (record {
              same_id = refl;
              same_mode = refl;
              no_slot = refl;
              alone = record { past = alone.past; none_current = alone.none_current };
              employed = λ h. absurd (cc h);
            })
            refl refl (λ h. cc h))

    retry-Valid : IsValidScheduler collate (retry collate now ref ended s)
    unfolding retry
    retry-Valid =
        let r = record (freed ended) {
          controller = some false;
          generation = old.generation + 1;
          ready_at = now + retry_delay_of ended;
          snapshot = record old.snapshot { status = queued };
        } in
        let (past, current) = raised old.generation runs alone.past in
        let (f, b, lf, lb) = left_slots collate c s ref old.settle hand old at r refl in
        let w =
          Open-write collate c s ref old.settle hand old at r (fore_left old s) (back_left old s)
            refl f b lf lb in
        let s' = emit retrying r (persist r (write ref r slotless)) in
        rw (release_slot-frame ended s) (
          arm-Valid collate c now s' ref r w (written s.records ref old r at)
            (record {
              slot = refl;
              past = past;
              current = current;
              startable = λ _. refl;
              employed = λ _. sound.employed resumable;
            })
            refl)

    cancelled-Valid : IsValidScheduler collate (finish_cancelled collate now ref ended s)
    cancelled-Valid =
        finish_cancelled-Valid collate c now s ref old old.generation old.controller runs v at alone
          (running-going old.snapshot.status running_)

    end_run-Valid :
        (result : TaskResult) → IsValidScheduler collate (end_run collate now ref ended result s)
    unfolding end_run
    end_run-Valid (returns value) = elim (Bool-cases (is_aborted old)) [
      | inl aborted ↦ rw aborted cancelled-Valid
      | inr going ↦ rw going (complete-Valid value)
    ]
    end_run-Valid (throws e) =
        elim (Bool-cases (is_retryable e && ltb old.attempts (max_attempts_of old))) [
          | inl again ↦ rw again retry-Valid
          | inr last ↦ elim (Bool-cases (is_aborted old)) [
            | inl aborted ↦ rw (last, aborted) cancelled-Valid
            | inr going ↦ rw (last, going) (fail-Valid e)
          ]
        ]

  touched-Valid :
      (r' : ScheduledRecord)
      → IsTouched old r'
      → IsSound r'
      → IsValidScheduler collate (write ref r' s)
  touched-Valid r' t v' = write-IsValidScheduler collate s v ref old r' at t v'

  -- A record whose awaited task `i` has ended: in its generation, none is awaited any more.
  taken-IsAlone :
      (i : ℕ)
      → get_elem? old.runs i ≡ some old.generation
      → (is_running old.snapshot.status ≡ true)
        × IsAlone (record old { runs = without_at i old.runs })
  taken-IsAlone i got =
      let count = count_of-without_at old.generation old.runs i old.generation got in
      let same : one (old.generation == old.generation) ≡ 1 = ground arith in
      let past = All-without_at (λ g. g ≤ old.generation) old.runs i sound.past in
      elim (Bool-cases (is_running old.snapshot.status)) [
        | inl yes_ ↦
            let now_one : one (is_running old.snapshot.status) ≡ 1 = rw yes_ refl in
            (
              yes_,
              record {
                past = past;
                none_current = omega (arith, count, same, sound.current, now_one);
              },
            )
        | inr no_ ↦
            let now_none : one (is_running old.snapshot.status) ≡ 0 = rw no_ refl in
            absurd (omega (arith, count, same, sound.current, now_none))
      ]

  stale-IsSound :
      (i g : ℕ)
      → get_elem? old.runs i ≡ some g
      → (g == old.generation) ≡ false
      → IsSound (record old { runs = without_at i old.runs })
  stale-IsSound i g got other = record {
    slot = sound.slot;
    past = All-without_at (λ x. x ≤ old.generation) old.runs i sound.past;
    current =
        (let count = count_of-without_at old.generation old.runs i g got in
          let none_ : one (g == old.generation) ≡ 0 = rw other refl in
          omega (arith, count, none_, sound.current));
    startable = sound.startable;
    employed = sound.employed;
  }

  pub finish_run-Valid :
      (i g : ℕ) (result : TaskResult)
      → get_elem? old.runs i ≡ some g
      → IsValidScheduler collate
          (finish_run collate now ref (record old { runs = without_at i old.runs }) g result s)
  unfolding finish_run
  finish_run-Valid i g result got =
      let r' = record old { runs = without_at i old.runs } in
      elim (Bool-cases (g == old.generation)) [
        | inl current ↦
            let e = ==→eq g old.generation current in
            let (running_, alone) = taken-IsAlone i (got ∙ ap some e) in
            rw current (
              pump-Valid collate now c (end_run collate now ref r' result s)
                (end_run-Valid (without_at i old.runs) running_ alone result))
        | inr other ↦ rw other (
            pump-Valid collate now c (write ref r' s) (
              touched-Valid r'
                (record {
                  same_id = refl;
                  same_mode = refl;
                  same_status = refl;
                  same_priority = refl;
                  same_time = refl;
                  same_slot = refl;
                  same_settle = refl;
                })
                (stale-IsSound i g got other)))
      ]
