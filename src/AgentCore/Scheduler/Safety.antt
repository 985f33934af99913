-- ===== src/AgentCore/Scheduler/Safety.antt =====
-- A scheduler of packages/agent-core/src/lifecycle/scheduler.ts that any calls and events have brought
-- about from its construction: its queues, its slots and the calls of `execute`.
use Prim.Native.Nat.{Ordering}
use Prim.Native.String.{String}
use inkpi.Base.{
  ℕ, suc, ◌+◌, ◌≤◌, ◌≡◌, refl, subst, ◌∙◌, ◌↔◌, ◌⊎◌, inl, inr, Bool, true, false, not, Option, some,
  List, [], ◌∷◌, All, length, get_elem?, if◌then◌else◌, arith,
}
use inkpi.AgentCore.Scheduler.{ScheduledRecord, is_queued, is_running, is_foreground}
use inkpi.AgentCore.Scheduler.Queue.Arrays.{Entry}
use inkpi.AgentCore.Scheduler.Queue.Index.{Holds}
use inkpi.AgentCore.Scheduler.State.{TaskScheduler, entry_of}
use inkpi.AgentCore.Scheduler.Control.{new_scheduler}
use inkpi.AgentCore.Scheduler.Orders.{IsCollation}
use inkpi.AgentCore.Scheduler.Valid.{
  IsValidScheduler, Waits, count_slots, count_of, one, get_elem?-lt,
}
use inkpi.AgentCore.Scheduler.Ending.Facts.{record-IsSound}
use inkpi.AgentCore.Scheduler.Histories.{SchedulerCall, run, IsUndisturbed, history-Valid}

abbrev pub Enqueued : TaskScheduler → Entry → Type 0
Enqueued s e = Holds s.foreground_ready e ⊎ (Holds s.background_ready e ⊎ Holds s.delayed_ready e)

-- The entry of a record that is queued.
abbrev pub IsOfQueued : TaskScheduler → Entry → Type 0
IsOfQueued s e =
    (r : ScheduledRecord) × (get_elem? s.records e.ref ≡ some r)
    × (entry_of e.ref r ≡ e)
    × (is_queued r.snapshot.status ≡ true)

-- No entry stands in two queues.
abbrev pub StandsOnce : TaskScheduler → Entry → Type 0
StandsOnce s e =
    (Holds s.delayed_ready e → ¬ (Holds s.foreground_ready e ⊎ Holds s.background_ready e))
    × (Holds s.foreground_ready e → ¬ Holds s.background_ready e)

-- The records that are running, of the foreground or of the background.
unfoldable pub count_running : Bool → List ScheduledRecord → ℕ
count_running foreground [] = 0
count_running foreground (r ∷ rs) =
    (if is_running r.snapshot.status
      then one (if is_foreground r.snapshot.mode then foreground else not foreground)
      else 0)
    + count_running foreground rs

count_slots-running :
    (b : Bool) (rs : List ScheduledRecord)
    → ((j : ℕ) (r : ScheduledRecord)
        → get_elem? rs j ≡ some r
        → r.slot_acquired ≡ is_running r.snapshot.status)
    → count_slots b rs ≡ count_running b rs
unfolding count_slots count_running
count_slots-running b [] h = refl
count_slots-running b (r ∷ rs) h =
    let e = h 0 r refl in rw (e, count_slots-running b rs (λ j. h (suc j))) refl

module _ (collate : String → String → Ordering) (c : IsCollation collate)
    (most_fore most_back : Option ℕ) (kept : Bool) (calls : List (ℕ × SchedulerCall)) where
  abbrev pub reached : TaskScheduler
  reached = run collate (new_scheduler most_fore most_back kept) calls

  module _ (free : IsUndisturbed collate (new_scheduler most_fore most_back kept) calls) where
    reached-Valid : IsValidScheduler collate reached
    reached-Valid = history-Valid collate c most_fore most_back kept calls free

    enqueued-Waits :
        {P : ScheduledRecord → Type 0} {e : Entry}
        → Waits reached.records (length reached.records) e P
        → IsOfQueued reached e
    enqueued-Waits (r, at, same, queue, _, _) = (r, at, same, queue)

    -- Whatever is called and happens, if `localeCompare` orders texts up to ties and no identifier is taken
    -- while a `rehydrate` of it awaits the store: the three queues of the
    -- scheduler hold exactly the records that are queued, each in one queue and as its record says.
    pub run-Enqueued :
        (e : Entry) → (Enqueued reached e ↔ IsOfQueued reached e) × StandsOnce reached e
    run-Enqueued e =
        let v = reached-Valid in
        (
          (
            (λ h. elim h [
              | inl fore ↦ enqueued-Waits (v.0.fore_waits e fore)
              | inr (inl back) ↦ enqueued-Waits (v.0.back_waits e back)
              | inr (inr late) ↦ enqueued-Waits (v.0.delayed_waits e late)
            ]),
            (λ (r, at, same, queue). subst (Enqueued reached) same (
                v.0.placed e.ref r at
                  (λ x. absurd (omega (arith, get_elem?-lt reached.records e.ref r at))) queue)),
          ),
          (
            (λ late ready. v.0.apart e e late ready refl),
            (λ fore back.
                let (r, at, _, _, _, fg) = v.0.fore_waits e fore in
                let (x, here, _, _, _, bg) = v.0.back_waits e back in cc (at, here, fg, bg)),
          ),
        )

    -- Whatever is called and happens, if `localeCompare` orders texts up to ties and no identifier is taken
    -- while a `rehydrate` of it awaits the store: the numbers of slots in
    -- use are those of the records that run in the foreground and in the background, and neither is above
    -- its limit.
    pub run-count_running :
        (reached.running_foreground ≡ count_running true reached.records)
        × (reached.running_foreground ≤ reached.max_foreground)
        × (reached.running_background ≡ count_running false reached.records)
        × (reached.running_background ≤ reached.max_background)
    run-count_running =
        let v = reached-Valid in
        let slot = λ (j : ℕ) (r : ScheduledRecord) (at : get_elem? reached.records j ≡ some r).
          (record-IsSound collate reached j r v at).slot in
        (
          v.2.fore_exact ∙ count_slots-running true reached.records slot,
          v.2.fore_most,
          v.2.back_exact ∙ count_slots-running false reached.records slot,
          v.2.back_most,
        )

    -- Whatever is called and happens, if `localeCompare` orders texts up to ties and no identifier is taken
    -- while a `rehydrate` of it awaits the store: a record that is running
    -- is awaited by exactly one call of `execute` of its generation, any other record by none, and no call
    -- is of a generation to come.
    pub run-runs :
        (j : ℕ) (r : ScheduledRecord)
        → get_elem? reached.records j ≡ some r
        → (count_of r.generation r.runs ≡ one (is_running r.snapshot.status))
          × All (λ g. g ≤ r.generation) r.runs
    run-runs j r at =
        let k = record-IsSound collate reached j r reached-Valid at in (k.current, k.past)
