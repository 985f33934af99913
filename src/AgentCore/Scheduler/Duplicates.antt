-- ===== src/AgentCore/Scheduler/Duplicates.antt =====
-- Duplicates in packages/agent-core/src/lifecycle/scheduler.ts: work with the key of a task that has not
-- ended gets the handle of that task.
pub mod Handles
use Prim.Native.Nat.{Ordering}
use Prim.Native.String.{String}
use text.Mathlib.Text.{◌==◌ as str_eq}
use inkpi.Base.{
  ℕ, zero, suc, ◌+◌, ◌≤◌, ◌<◌, ◌≡◌, ◌≢◌, refl, sym, ap, subst, ◌∙◌, ◌⊎◌, inl, inr, Bool, true,
  false, not, ◌&&◌, ◌||◌, Option, none, some, List, [], ◌∷◌, ◌++◌, length, get_elem?, ltb, leb,
  ◌==◌, if◌then◌else◌, Option-cases, Bool-cases, Result, ok, err, arith,
}
use inkpi.Base.Texts.{is_blank}
use inkpi.AgentCore.Scheduler.{
  ScheduledRecord, ScheduledWork, LifecycleState, is_foreground, is_terminal,
}
use inkpi.AgentCore.Scheduler.Queue.{peek}
use inkpi.AgentCore.Scheduler.State.{
  TaskScheduler, is_ending, key_or_none, has_ended, is_earlier, find_in, find_duplicate, registered,
  register_dedupe, set_refs, pending, created, was_queued, emit, persist, schedule_ready_timer,
}
use inkpi.AgentCore.Scheduler.Pump.{may_start, remove_ready, push_ready, push_delayed, arm}
use inkpi.AgentCore.Scheduler.Control.{
  ScheduledHandle, SchedulerError, Outcome, new_record, promised, add_record, woken, handle_of,
  index_of, add_task, schedule_new, schedule,
}

-- What arming a record leaves as it is.
abbrev pub Kept : Type 0
Kept = List ScheduledRecord × LifecycleState × (String → List ℕ)

abbrev pub kept : TaskScheduler → Kept
kept s = (s.records, s.state, s.dedupe_index)

timer-kept : (s : TaskScheduler) → kept (schedule_ready_timer s) ≡ kept s
unfolding schedule_ready_timer
timer-kept s = elim (Option-cases (peek s.delayed_ready)) [
  | inl nothing ↦ rw (schedule_ready_timer, nothing) refl
  | inr (e, next) ↦ rw (schedule_ready_timer, next) refl
]

module _ (collate : String → String → Ordering) (now : ℕ) where
  push_ready-kept :
      (ref : ℕ) (r : ScheduledRecord) (s : TaskScheduler)
      → kept (push_ready collate ref r s) ≡ kept s
  unfolding push_ready
  push_ready-kept ref r s = elim (Bool-cases (is_foreground r.snapshot.mode)) [
    | inl fg ↦ rw fg refl
    | inr bg ↦ rw bg refl
  ]

  remove_ready-kept :
      (r : ScheduledRecord) (s : TaskScheduler) → kept (remove_ready collate r false s) ≡ kept s
  unfolding remove_ready
  remove_ready-kept r s = elim (Bool-cases (is_foreground r.snapshot.mode)) [
    | inl fg ↦ rw fg (ground arith)
    | inr bg ↦ rw bg (ground arith)
  ]

  pub arm-kept :
      (ref : ℕ) (r : ScheduledRecord) (s : TaskScheduler) → kept (arm collate now ref r s) ≡ kept s
  unfolding arm push_delayed
  arm-kept ref r s =
      let s' = remove_ready collate r false s in
      let gone = remove_ready-kept r s in
      elim (Bool-cases (may_start r)) [
        | inr stay ↦ elim (Bool-cases (leb r.ready_at now)) [
          | inl due ↦ rw (arm, stay, due) (timer-kept s' ∙ gone)
          | inr late ↦ rw (arm, stay, late) (timer-kept s' ∙ gone)
        ]
        | inl go ↦ elim (Bool-cases (leb r.ready_at now)) [
          | inl due ↦
              rw (arm, go, due)
                (timer-kept (push_ready collate ref r s') ∙ push_ready-kept ref r s' ∙ gone)
          | inr late ↦ rw (arm, go, late) (timer-kept (push_delayed collate ref r s') ∙ gone)
        ]
      ]

-- Nothing found: every candidate has ended and is dropped.
pub find_in-none :
    (rs : List ScheduledRecord) (refs : List ℕ) (found : Option ℕ)
    → (find_in rs refs found).1 ≡ none
    → (found ≡ none) × ((find_in rs refs found).0 ≡ [])
unfolding find_in
find_in-none rs [] found h = (h, refl)
find_in-none rs (ref ∷ refs) none h = elim (Bool-cases (has_ended (get_elem? rs ref))) [
  | inl ended ↦
      let k : (find_in rs refs none).1 ≡ none = rw (find_in, ended) at h in
      (refl, rw (find_in, ended) (find_in-none rs refs none k).1)
  | inr going ↦
      let k : (find_in rs refs (some ref)).1 ≡ none = rw (find_in, going) at h in
      let e = (find_in-none rs refs (some ref) k).0 in cc e
]
find_in-none rs (ref ∷ refs) (some x) h =
    let (e, _) =
      find_in-none rs refs
        (if not (has_ended (get_elem? rs ref)) && ltb ref x then some ref else some x) h in
    absurd (elim (Bool-cases (not (has_ended (get_elem? rs ref)) && ltb ref x)) [
      | inl yes_ ↦ let k : some ref ≡ none = rw yes_ at e in cc k
      | inr no_ ↦ let k : some x ≡ none = rw no_ at e in cc k
    ])

find_in-ended :
    (rs : List ScheduledRecord) (ref : ℕ) (refs : List ℕ) (found : Option ℕ)
    → has_ended (get_elem? rs ref) ≡ true
    → find_in rs (ref ∷ refs) found ≡ find_in rs refs found
unfolding find_in
find_in-ended rs ref refs found ended = rw ended refl

find_in-going :
    (rs : List ScheduledRecord) (ref : ℕ) (refs : List ℕ) (found : Option ℕ)
    → has_ended (get_elem? rs ref) ≡ false
    → find_in rs (ref ∷ refs) found ≡ (
      ref ∷ (find_in rs refs (if is_earlier ref found then some ref else found)).0,
      (find_in rs refs (if is_earlier ref found then some ref else found)).1,
    )
unfolding find_in
find_in-going rs ref refs found going = rw going refl

-- What is left of the candidates gives the same record.
pub find_in-again :
    (rs : List ScheduledRecord) (refs : List ℕ) (found : Option ℕ)
    → find_in rs (find_in rs refs found).0 found ≡ find_in rs refs found
unfolding find_in
find_in-again rs [] found = refl
find_in-again rs (ref ∷ refs) found =
    let again = λ (x : List ℕ × Option ℕ). find_in rs x.0 found ≡ x in
    elim (Bool-cases (has_ended (get_elem? rs ref))) [
      | inl ended ↦
          subst again (sym (find_in-ended rs ref refs found ended)) (find_in-again rs refs found)
      | inr going ↦
          let found' = if is_earlier ref found then some ref else found in
          let rest = find_in rs refs found' in
          subst again (sym (find_in-going rs ref refs found going)) (
            find_in-going rs ref rest.0 found going
            ∙ ap (λ (x : List ℕ × Option ℕ). (ref ∷ x.0, x.1)) (find_in-again rs refs found'))
    ]
