-- ===== src/AgentCore/Scheduler/Leaving.antt =====
-- A record that is in hand leaves for a status that is not active: its slot is free again and its
-- promise settled.
use Prim.Native.Nat.{Ordering}
use Prim.Native.String.{String}
use inkpi.Base.{
  ℕ, ◌+◌, ◌≤◌, ◌≡◌, ◌≢◌, sym, ap, ◌∙◌, true, false, Option, none, some, All, get_elem?, arith,
}
use inkpi.AgentCore.Scheduler.{ScheduledRecord, is_queued, is_running}
use inkpi.AgentCore.Scheduler.Queue.Arrays.{set}
use inkpi.AgentCore.Scheduler.State.{TaskScheduler, Settlement, pending, settled}
use inkpi.AgentCore.Scheduler.Orders.{IsCollation}
use inkpi.AgentCore.Scheduler.Frames.{fore_left, back_left}
use inkpi.AgentCore.Scheduler.Valid.{
  Open, IsValidScheduler, IsSound, is_resumable, count_of, one, slot_of, count_slots-set,
}
use inkpi.AgentCore.Scheduler.PutBack.{Open-settle, Open-write, Open-close}
use inkpi.AgentCore.Scheduler.PutBack.Writes.{written}

-- No call of `execute` awaits the record in its generation.
pub record IsAlone (r : ScheduledRecord) : Type 0 where
  pub past : All (λ g. g ≤ r.generation) r.runs
  pub none_current : count_of r.generation r.runs ≡ 0

-- What a record is when a method has done with it: as it was, but for its status.
pub record HasLeft (old r : ScheduledRecord) : Type 0 where
  pub same_id : r.snapshot.id ≡ old.snapshot.id
  pub same_mode : r.snapshot.mode ≡ old.snapshot.mode
  pub no_slot : r.slot_acquired ≡ false
  pub alone : IsAlone r
  pub employed : is_resumable r ≡ true → r.work ≢ none

pub idle-IsSound :
    (r : ScheduledRecord)
    → r.slot_acquired ≡ false
    → IsAlone r
    → is_queued r.snapshot.status ≡ false
    → is_running r.snapshot.status ≡ false
    → (is_resumable r ≡ true → r.work ≢ none)
    → IsSound r
idle-IsSound r slot alone no_queue no_run employed = record {
  slot = slot ∙ sym no_run;
  past = alone.past;
  current = alone.none_current ∙ sym (ap one no_run);
  startable = λ h. absurd (cc (h, no_queue));
  employed = employed;
}

module _ (collate : String → String → Ordering) (c : IsCollation collate) (s : TaskScheduler)
    (ref : ℕ) (owed : Option ℕ) (v : Open collate ref owed s) (old : ScheduledRecord)
    (at : get_elem? s.records ref ≡ some old) where
  -- The slots after the record's own was released.
  pub left_slots :
      (r : ScheduledRecord)
      → r.slot_acquired ≡ false
      → (fore_left old s + slot_of true old ≡ s.running_foreground + slot_of true r)
        × (back_left old s + slot_of false old ≡ s.running_background + slot_of false r)
        × (fore_left old s ≤ s.max_foreground)
        × (back_left old s ≤ s.max_background)
  left_slots r free =
      let f = count_slots-set true s.records ref old r at in
      let b = count_slots-set false s.records ref old r at in
      let x = v.2.fore_exact in
      let y = v.2.back_exact in
      let lf = v.2.fore_most in let lb = v.2.back_most in ground (arith, f, b, x, y, lf, lb)

  pub leave-IsValidScheduler :
      (r : ScheduledRecord) (outcome : Settlement)
      → HasLeft old r
      → is_queued r.snapshot.status ≡ false
      → is_running r.snapshot.status ≡ false
      → outcome ≢ pending
      → IsValidScheduler collate (record s {
        records = set s.records ref r;
        running_foreground = fore_left old s;
        running_background = back_left old s;
        promises = settled owed outcome s.promises;
      })
  leave-IsValidScheduler r outcome left no_queue no_run not_pending =
      let s' = record s { promises = settled owed outcome s.promises } in
      let v' = Open-settle collate c s ref owed v outcome not_pending in
      let (f, b, lf, lb) = left_slots r left.no_slot in
      let w =
        Open-write collate c s' ref none v' old at r (fore_left old s) (back_left old s)
          left.same_id f b lf lb in
      Open-close collate c
        (record s' {
          records = set s.records ref r;
          running_foreground = fore_left old s;
          running_background = back_left old s;
        })
        ref none w r (written s.records ref old r at)
        (idle-IsSound r left.no_slot left.alone no_queue no_run left.employed) no_queue
        (λ p h. cc h)
