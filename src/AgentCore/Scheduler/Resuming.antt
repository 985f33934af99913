-- ===== src/AgentCore/Scheduler/Resuming.antt =====
-- `resume` keeps the scheduler valid: the record that was paused is queued with a new promise.
use Prim.Native.Nat.{Ordering}
use Prim.Native.String.{String}
use native.Mathlib.Decide.{ℕ_discrete}
use inkpi.Base.{
  ℕ, ◌+◌, ◌≡◌, refl, sym, ap, ◌∙◌, inl, inr, true, false, not, ◌&&◌, ◌||◌, Option, none, some, List,
  [], ◌∷◌, ◌++◌, length, get_elem?, Option-cases, Bool-cases, arith,
}
use inkpi.AgentCore.Scheduler.{
  ScheduledRecord, ScheduledStatus, ScheduledCheckpoint, queued, running, waiting_user, completed,
  failed, cancelled, interrupted, is_queued, is_running, is_interrupted, is_waiting,
  normalize_checkpoint,
}
use inkpi.AgentCore.Scheduler.State.{
  TaskScheduler, Settlement, pending, was_queued, is_ending, write, register_dedupe, emit, persist,
}
use inkpi.AgentCore.Scheduler.Pump.{arm}
use inkpi.AgentCore.Scheduler.Control.{has_checkpoint, woken, promised}
use inkpi.AgentCore.Scheduler.Control.Pausing.{resume_record, resume}
use inkpi.AgentCore.Scheduler.Orders.{IsCollation}
use inkpi.AgentCore.Scheduler.Valid.{
  Open, IsValidScheduler, IsSound, Promises, is_active, get_elem?-append,
}
use inkpi.AgentCore.Scheduler.Hand.{Open-idle}
use inkpi.AgentCore.Scheduler.PutBack.{Open-write}
use inkpi.AgentCore.Scheduler.PutBack.Writes.{written}
use inkpi.AgentCore.Scheduler.Pumping.Starting.{inside-length}
use inkpi.AgentCore.Scheduler.Arming.{arm-Valid}
use inkpi.AgentCore.Scheduler.Ending.Facts.{raised-IsAlone, record-IsSound, found_at}
use inkpi.AgentCore.Scheduler.Queueing.{handle_of-state}

-- A status that can be resumed is not active.
paused :
    (st : ScheduledStatus)
    → (is_interrupted st || is_waiting st) ≡ true
    → (is_queued st ≡ false) × (is_running st ≡ false)
paused interrupted h = (refl, refl)
paused waiting_user h = (refl, refl)
paused queued h = cc h
paused running h = cc h
paused completed h = cc h
paused failed h = cc h
paused cancelled h = cc h

Promises-promised :
    (ref : ℕ) (records : List ScheduledRecord) (promises : List Settlement)
    → Promises ref none records promises
    → Promises ref (some (length promises)) records (promises ++ (pending ∷ []))
Promises-promised ref records promises v = λ q wait. elim (ℕ_discrete q (length promises)) [
  | yes last ↦ inr (ap some (sym last))
  | no other ↦
      let old : get_elem? promises q ≡ some pending =
        ground (arith, wait, get_elem?-append promises pending q) in
      elim (v q old) [ inl owes ↦ inl owes | inr nobody ↦ cc nobody ]
]

module _ (collate : String → String → Ordering) (c : IsCollation collate) (now : ℕ)
    (s : TaskScheduler) (v : IsValidScheduler collate s) where
  module _ (ref : ℕ) (old : ScheduledRecord) (at : get_elem? s.records ref ≡ some old)
      (pause : (is_interrupted old.snapshot.status || is_waiting old.snapshot.status) ≡ true)
      (kept : Option ScheduledCheckpoint) where
    abbrev given : ScheduledRecord
    given = record old { snapshot = record old.snapshot { checkpoint = kept } }

    abbrev requeued : ScheduledRecord
    requeued = record given {
      generation = old.generation + 1;
      controller = some false;
      resume_from = kept;
      promise = some (length s.promises);
      settle = some (length s.promises);
      ready_at = now;
      snapshot = record given.snapshot {
        status = queued;
        started_at = none;
        finished_at = none;
        error = none;
      };
    }

    sound : IsSound old
    sound = record-IsSound collate s ref old v at

    requeued-IsSound : IsSound requeued
    requeued-IsSound =
        let (no_queue, no_run) = paused old.snapshot.status pause in
        let alone = raised-IsAlone old none sound in
        record {
          slot = sound.slot ∙ no_run;
          past = alone.past;
          current = alone.none_current;
          startable = λ _. refl;
          employed = λ _. sound.employed (rw (no_queue, no_run) pause);
        }

    in_hand : Open collate ref none s
    in_hand =
        let (no_queue, no_run) = paused old.snapshot.status pause in
        let idle : is_active old ≡ false = rw (no_queue, no_run) refl in
        Open-idle collate c s (length s.records) ref none none old at (inside-length s.records ref)
          ((λ p h. h), (λ p act h. cc (act, idle))) v no_queue

    resume_record-Valid : IsValidScheduler collate (resume_record collate now ref given s).0
    unfolding resume_record
    resume_record-Valid =
        let s1 = promised pending (record s { state = woken s.state }) in
        let o : Open collate ref (some (length s.promises)) s1 =
          (in_hand.0, in_hand.1, in_hand.2, Promises-promised ref s.records s.promises in_hand.3) in
        let w =
          Open-write collate c s1 ref (some (length s.promises)) o old at requeued
            s.running_foreground s.running_background refl refl refl v.2.fore_most v.2.back_most in
        let s2 =
          emit was_queued requeued
            (persist requeued (register_dedupe ref requeued (write ref requeued s1))) in
        rw (handle_of-state ref requeued (arm collate now ref requeued s2)) (
          arm-Valid collate c now s2 ref requeued w (written s.records ref old requeued at)
            requeued-IsSound refl)

  pub resume-Valid :
      (id : String) (k : Option ScheduledCheckpoint)
      → IsValidScheduler collate (resume collate now id k s).0
  unfolding resume
  resume-Valid id k = elim (Bool-cases (is_ending s.state)) [
    | inl ending ↦ rw ending v
    | inr going ↦ elim (found_at id s) [
      | inl nothing ↦ rw (resume, going, nothing) v
      | inr (ref, r, found, at) ↦
          elim (Bool-cases (is_interrupted r.snapshot.status || is_waiting r.snapshot.status)) [
            | inr active ↦ rw (resume, going, found, active) v
            | inl pause ↦
                elim (Bool-cases (is_waiting r.snapshot.status && not (has_checkpoint r))) [
                  | inl lost ↦ rw (resume, going, found, pause, lost) v
                  | inr kept ↦ elim (Option-cases k) [
                    | inl same ↦
                        rw (resume, going, found, pause, kept, same)
                          (resume_record-Valid ref r at pause r.snapshot.checkpoint)
                    | inr (k', given_) ↦ elim (Option-cases (normalize_checkpoint k' now)) [
                      | inl blank ↦ rw (resume, going, found, pause, kept, given_, blank) v
                      | inr (good, fine) ↦
                          rw (resume, going, found, pause, kept, given_, fine)
                            (resume_record-Valid ref r at pause (some good))
                    ]
                  ]
                ]
          ]
    ]
  ]
