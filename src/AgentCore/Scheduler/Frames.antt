-- ===== src/AgentCore/Scheduler/Frames.antt =====
-- What the release of a slot leaves of a `TaskScheduler` and of the record.
use inkpi.Base.{ℕ, ◌-◌, ◌≡◌, refl, inl, inr, false, ◌&&◌, not, if◌then◌else◌, Bool-cases}
use inkpi.AgentCore.Scheduler.{ScheduledRecord, is_foreground}
use inkpi.AgentCore.Scheduler.State.{TaskScheduler, release_slot}

abbrev pub fore_left : ScheduledRecord → TaskScheduler → ℕ
fore_left r s =
    if r.slot_acquired && is_foreground r.snapshot.mode
    then s.running_foreground - 1
    else s.running_foreground

abbrev pub back_left : ScheduledRecord → TaskScheduler → ℕ
back_left r s =
    if r.slot_acquired && not (is_foreground r.snapshot.mode)
    then s.running_background - 1
    else s.running_background

abbrev pub freed : ScheduledRecord → ScheduledRecord
freed r = record r { slot_acquired = false }

pub release_slot-frame :
    (r : ScheduledRecord) (s : TaskScheduler)
    → release_slot r s ≡ (
      record s { running_foreground = fore_left r s; running_background = back_left r s },
      freed r,
    )
unfolding release_slot
release_slot-frame r s = elim (Bool-cases r.slot_acquired) [
  | inl held ↦ elim (Bool-cases (is_foreground r.snapshot.mode)) [
    | inl fg ↦ rw (held, fg) refl
    | inr bg ↦ rw (held, bg) refl
  ]
  | inr none_ ↦ rw none_ refl
]
