-- ===== src/AgentCore/Scheduler/PutBack.antt =====
-- The record in hand is written, its promise settled, and it is put back: the state is valid again.
pub mod Writes
use Prim.Native.Nat.{Ordering}
use Prim.Native.String.{String}
use native.Mathlib.Decide.{ℕ_discrete}
use inkpi.Base.{
  ℕ, zero, suc, ◌+◌, ◌≤◌, ◌≡◌, ◌≢◌, refl, sym, ap, subst, ◌∙◌, inl, inr, true, false, Option, none,
  some, List, [], ◌∷◌, length, get_elem?, Option-cases, Bool-cases, arith,
}
use inkpi.AgentCore.Scheduler.{
  ScheduledRecord, is_queued, is_foreground, is_before, is_ready_before,
}
use inkpi.AgentCore.Scheduler.Queue.Arrays.{Entry, set}
use inkpi.AgentCore.Scheduler.Queue.Index.{Holds}
use inkpi.AgentCore.Scheduler.State.{
  TaskScheduler, Settlement, pending, resolved, rejected, entry_of, settle_at, settled,
  settle_promise,
}
use inkpi.AgentCore.Scheduler.Pump.{push_ready, push_delayed}
use inkpi.AgentCore.Scheduler.Orders.{IsCollation, is_before-IsOrder, is_ready_before-IsOrder}
use inkpi.AgentCore.Scheduler.Valid.{
  Records, Promises, Open, IsValidScheduler, IsSound, is_active, slot_of, get_elem?-set,
  get_elem?-lt, count_slots-set,
}
use inkpi.AgentCore.Scheduler.Steps.{same-Grown, push-Grown, out-gone, Queues-write}
use inkpi.AgentCore.Scheduler.Closing.{Queues-close, Queues-grow}
use inkpi.AgentCore.Scheduler.Hand.{some_inj}
use inkpi.AgentCore.Scheduler.PutBack.Writes.{written, others, Records-write, Promises-write}

-- A promise that is settled is not pending, and the others are as they were.
settle_at-pending :
    (ps : List Settlement) (p q : ℕ) (outcome : Settlement)
    → outcome ≢ pending
    → get_elem? (settle_at ps p outcome) q ≡ some pending
    → (get_elem? ps q ≡ some pending) × (p ≢ q)
unfolding settle_at
settle_at-pending [] p q outcome ne h = cc h
settle_at-pending (pending ∷ ps) zero zero outcome ne h = absurd (ne (some_inj h))
settle_at-pending (resolved v ∷ ps) zero zero outcome ne h = cc h
settle_at-pending (rejected e ∷ ps) zero zero outcome ne h = cc h
settle_at-pending (old ∷ ps) zero (suc q) outcome ne h = (h, omega arith)
settle_at-pending (old ∷ ps) (suc p) zero outcome ne h = (h, omega arith)
settle_at-pending (old ∷ ps) (suc p) (suc q) outcome ne h =
    let (wait, away) = settle_at-pending ps p q outcome ne h in (wait, omega (arith, away))

module _ (collate : String → String → Ordering) (c : IsCollation collate) (s : TaskScheduler)
    (ref : ℕ) (owed : Option ℕ) (v : Open collate ref owed s) where
  pub Open-settle :
      (outcome : Settlement)
      → outcome ≢ pending
      → Open collate ref none (settle_promise owed outcome s)
  unfolding settled
  Open-settle outcome ne = elim (Option-cases owed) [
    | inl nothing ↦ (
      v.0,
      v.1,
      v.2,
      λ p wait.
          let wait' : get_elem? s.promises p ≡ some pending = rw (nothing, settled) at wait in
          rw nothing at (v.3 p wait'),
    )
    | inr (x, mine) ↦ (
      v.0,
      v.1,
      v.2,
      λ p wait.
          let wait' : get_elem? (settle_at s.promises x outcome) p ≡ some pending =
            rw (mine, settled) at wait in
          let (old, away) = settle_at-pending s.promises x p outcome ne wait' in
          elim (v.3 p old) [
            | inl owes ↦ inl owes
            | inr same ↦ absurd (away (some_inj (sym mine ∙ same)))
          ],
    )
  ]

  module _ (r : ScheduledRecord) (at : get_elem? s.records ref ≡ some r) where
    -- The record in hand is written, with the slots that it has now.
    pub Open-write :
        (r' : ScheduledRecord) (fore back : ℕ)
        → r'.snapshot.id ≡ r.snapshot.id
        → fore + slot_of true r ≡ s.running_foreground + slot_of true r'
        → back + slot_of false r ≡ s.running_background + slot_of false r'
        → fore ≤ s.max_foreground
        → back ≤ s.max_background
        → Open collate ref owed (record s {
          records = set s.records ref r';
          running_foreground = fore;
          running_background = back;
        })
    Open-write r' fore back id ef eb lf lb = (
      Queues-write collate ref s.records s.foreground_ready s.background_ready s.delayed_ready r r'
          at v.0,
      Records-write s.records ref r r' at id v.1,
      record {
        fore_exact = omega (arith, v.2.fore_exact, count_slots-set true s.records ref r r' at);
        back_exact = omega (arith, v.2.back_exact, count_slots-set false s.records ref r r' at);
        fore_most = lf;
        back_most = lb;
      },
      Promises-write s.records ref r r' at owed s.promises v.3,
    )

    pub Records-close : IsSound r → Records (length s.records) s.records
    Records-close sound = record {
      unique = v.1.unique;
      sound = λ j a got _. elim (ℕ_discrete j ref) [
        | yes same ↦
            let e : a ≡ r = some_inj (sym got ∙ ap (get_elem? s.records) same ∙ at) in
            subst IsSound (sym e) sound
        | no other ↦ v.1.sound j a got other
      ];
    }

    abbrev Settles : Type 0
    Settles = (p : ℕ) → owed ≡ some p → (is_active r ≡ true) × (r.settle ≡ some p)

    Promises-close : Settles → Promises (length s.records) none s.records s.promises
    Promises-close settles = λ p wait. inl (elim (v.3 p wait) [
      | inl (j, a, got, ne, act, settle) ↦
          (j, a, got, (λ e. absurd (omega (arith, get_elem?-lt s.records j a got))), act, settle)
      | inr mine ↦
          let (act, settle) = settles p mine in
          (ref, r, at, (λ e. absurd (omega (arith, get_elem?-lt s.records ref r at))), act, settle)
    ])

    -- A record that is not queued is put back as it is.
    pub Open-close :
        IsSound r → is_queued r.snapshot.status ≡ false → Settles → IsValidScheduler collate s
    Open-close sound idle settles = (
      Queues-close collate s.records s.foreground_ready s.background_ready s.delayed_ready ref v.0
          v.1 r at idle,
      Records-close sound,
      v.2,
      Promises-close settles,
    )

    module _ (sound : IsSound r) (waiting : is_queued r.snapshot.status ≡ true)
        (settles : Settles) where
      gone :
          ((e : Entry) → Holds s.foreground_ready e → e.id ≢ r.snapshot.id)
          × ((e : Entry) → Holds s.background_ready e → e.id ≢ r.snapshot.id)
          × ((e : Entry) → Holds s.delayed_ready e → e.id ≢ r.snapshot.id)
      gone =
          out-gone collate ref s.records s.foreground_ready s.background_ready s.delayed_ready v.0
            v.1 ref r at refl

      -- A record that is queued is put into the ready queue of its mode.
      pub Open-push_ready : IsValidScheduler collate (push_ready collate ref r s)
      unfolding push_ready
      Open-push_ready =
          let o = is_before-IsOrder collate c in
          let (f, b, d) = gone in
          let e = entry_of ref r in
          let kept =
            same-Grown (is_ready_before collate) (is_ready_before-IsOrder collate c) s.delayed_ready
              v.0.delayed_valid e in
          let grow =
            Queues-grow collate s.records s.foreground_ready s.background_ready s.delayed_ready ref
              v.0 v.1 r at in
          elim (Bool-cases (is_foreground r.snapshot.mode)) [
            | inl fg ↦ rw fg (
              grow _ _ _ true false false
                  (push-Grown (is_before collate) o s.foreground_ready v.0.fore_valid e f)
                  (same-Grown (is_before collate) o s.background_ready v.0.back_valid e) kept
                  waiting (λ _. fg) (λ h. absurd (cc h)) (inl refl) (λ h. absurd (cc h)),
              Records-close sound,
              v.2,
              Promises-close settles,
            )
            | inr bg ↦ rw bg (
              grow _ _ _ false true false
                  (same-Grown (is_before collate) o s.foreground_ready v.0.fore_valid e)
                  (push-Grown (is_before collate) o s.background_ready v.0.back_valid e b) kept
                  waiting (λ h. absurd (cc h)) (λ _. bg) (inr (inl refl)) (λ h. absurd (cc h)),
              Records-close sound,
              v.2,
              Promises-close settles,
            )
          ]

      -- Or into the queue of those that are ready later.
      pub Open-push_delayed : IsValidScheduler collate (push_delayed collate ref r s)
      unfolding push_delayed
      Open-push_delayed =
          let o = is_before-IsOrder collate c in
          let (f, b, d) = gone in
          let e = entry_of ref r in
          (
            Queues-grow collate s.records s.foreground_ready s.background_ready s.delayed_ready ref
                v.0 v.1 r at _ _ _ false false true
                (same-Grown (is_before collate) o s.foreground_ready v.0.fore_valid e)
                (same-Grown (is_before collate) o s.background_ready v.0.back_valid e)
                (push-Grown (is_ready_before collate) (is_ready_before-IsOrder collate c)
                  s.delayed_ready v.0.delayed_valid e d)
                waiting (λ h. absurd (cc h)) (λ h. absurd (cc h)) (inr (inr refl))
                (λ _. (refl, refl)),
            Records-close sound,
            v.2,
            Promises-close settles,
          )
