-- ===== src/AgentCore/Scheduler/Touching.antt =====
-- A record that changes where it stands: its place in the queues and its slot stay.
use Prim.Native.Nat.{Ordering}
use Prim.Native.String.{String}
use native.Mathlib.Decide.{ℕ_discrete}
use inkpi.Base.{
  ℕ, ◌≡◌, refl, sym, ap, subst, ◌∙◌, ◌⊎◌, inl, inr, true, false, some, length, get_elem?, arith,
}
use inkpi.AgentCore.Scheduler.{ScheduledRecord, is_queued, is_foreground}
use inkpi.AgentCore.Scheduler.Queue.Arrays.{Entry, set, length-set}
use inkpi.AgentCore.Scheduler.Queue.Index.{Holds}
use inkpi.AgentCore.Scheduler.State.{TaskScheduler, write, entry_of}
use inkpi.AgentCore.Scheduler.Valid.{
  IsValidScheduler, IsSound, Waits, Foreground, Background, slot_of, get_elem?-lt, count_slots-set,
}
use inkpi.AgentCore.Scheduler.Hand.{some_inj}
use inkpi.AgentCore.Scheduler.PutBack.Writes.{written, others}

-- What stays of a record that is changed in place.
pub record IsTouched (r r' : ScheduledRecord) : Type 0 where
  pub same_id : r'.snapshot.id ≡ r.snapshot.id
  pub same_mode : r'.snapshot.mode ≡ r.snapshot.mode
  pub same_status : r'.snapshot.status ≡ r.snapshot.status
  pub same_priority : r'.priority ≡ r.priority
  pub same_time : r'.ready_at ≡ r.ready_at
  pub same_slot : r'.slot_acquired ≡ r.slot_acquired
  pub same_settle : r'.settle ≡ r.settle

module _ (collate : String → String → Ordering) (s : TaskScheduler) (v : IsValidScheduler collate s)
    (ref : ℕ) (r r' : ScheduledRecord) (at : get_elem? s.records ref ≡ some r) (t : IsTouched r r')
    (sound : IsSound r') where
  abbrev all : ℕ
  all = length s.records

  -- A record of the new list, as it was in the old one.
  now_at :
      (j : ℕ) (a : ScheduledRecord)
      → get_elem? s.records j ≡ some a
      → (b : ScheduledRecord) × (get_elem? (set s.records ref r') j ≡ some b) × IsTouched a b
  now_at j a got = elim (ℕ_discrete j ref) [
    | yes same ↦
        let e : r ≡ a = some_inj (sym at ∙ sym (ap (get_elem? s.records) same) ∙ got) in
        (
          r',
          ap (get_elem? (set s.records ref r')) same ∙ written s.records ref r r' at,
          subst (λ x. IsTouched x r') e t,
        )
    | no other ↦ (
      a,
      others s.records ref r r' at j other ∙ got,
      record {
        same_id = refl;
        same_mode = refl;
        same_status = refl;
        same_priority = refl;
        same_time = refl;
        same_slot = refl;
        same_settle = refl;
      },
    )
  ]

  was_at :
      (j : ℕ) (b : ScheduledRecord)
      → get_elem? (set s.records ref r') j ≡ some b
      → (a : ScheduledRecord) × (get_elem? s.records j ≡ some a) × IsTouched a b × IsSound b
  was_at j b got = elim (ℕ_discrete j ref) [
    | yes same ↦
        let e : r' ≡ b = some_inj (
          sym (written s.records ref r r' at)
          ∙ sym (ap (get_elem? (set s.records ref r')) same)
          ∙ got) in
        (
          r,
          ap (get_elem? s.records) same ∙ at,
          subst (λ x. IsTouched r x) e t,
          subst IsSound e sound,
        )
    | no other ↦
        let old = sym (others s.records ref r r' at j other) ∙ got in
        (
          b,
          old,
          record {
            same_id = refl;
            same_mode = refl;
            same_status = refl;
            same_priority = refl;
            same_time = refl;
            same_slot = refl;
            same_settle = refl;
          },
          v.1.sound j b old (λ e. absurd (omega (arith, get_elem?-lt s.records j b old))),
        )
  ]

  entry_same : (j : ℕ) (a b : ScheduledRecord) → IsTouched a b → entry_of j b ≡ entry_of j a
  entry_same j a b k = let i = k.same_id in let p = k.same_priority in let q = k.same_time in cc

  waits :
      (P : ScheduledRecord → Type 0) (e : Entry)
      → ((a b : ScheduledRecord) → IsTouched a b → P a → P b)
      → Waits s.records all e P
      → Waits (set s.records ref r') (length (set s.records ref r')) e P
  waits P e move (a, got, same, queue, away, p) =
      let (b, here, k) = now_at e.ref a got in
      (
        b,
        here,
        entry_same e.ref a b k ∙ same,
        (ap is_queued k.same_status ∙ queue),
        omega (arith, away, length-set s.records ref r'),
        move a b k p,
      )

  pub write-IsValidScheduler : IsValidScheduler collate (write ref r' s)
  write-IsValidScheduler = (
    record {
      fore_valid = v.0.fore_valid;
      back_valid = v.0.back_valid;
      delayed_valid = v.0.delayed_valid;
      fore_waits = λ e h.
          waits Foreground e (λ a b k p. ap is_foreground k.same_mode ∙ p) (v.0.fore_waits e h);
      back_waits = λ e h.
          waits Background e (λ a b k p. ap is_foreground k.same_mode ∙ p) (v.0.back_waits e h);
      delayed_waits = λ e h. waits (λ x. Unit) e (λ a b k p. p) (v.0.delayed_waits e h);
      apart = v.0.apart;
      placed = λ j b got _ queue.
          let (a, old, k, _) = was_at j b got in
          subst
            (λ e.
              Holds s.foreground_ready e ⊎ (Holds s.background_ready e ⊎ Holds s.delayed_ready e))
            (sym (entry_same j a b k))
            (v.0.placed j a old (λ e. absurd (omega (arith, get_elem?-lt s.records j a old)))
              (sym (ap is_queued k.same_status) ∙ queue));
    },
    record {
      unique = λ i j a b gi gj e.
          let (x, gx, kx, _) = was_at i a gi in
          let (y, gy, ky, _) = was_at j b gj in
          v.1.unique i j x y gx gy (sym kx.same_id ∙ e ∙ ky.same_id);
      sound = λ j b got _. let w = was_at j b got in w.3;
    },
    (let slot = t.same_slot in
        let mode = t.same_mode in
        let ft : slot_of true r' ≡ slot_of true r = rw (slot, mode) refl in
        let fb : slot_of false r' ≡ slot_of false r = rw (slot, mode) refl in
        record {
          fore_exact =
              omega (arith, ft, v.2.fore_exact, count_slots-set true s.records ref r r' at);
          back_exact =
              omega (arith, fb, v.2.back_exact, count_slots-set false s.records ref r r' at);
          fore_most = v.2.fore_most;
          back_most = v.2.back_most;
        }),
    λ p wait. elim (v.3 p wait) [
      | inr nobody ↦ cc nobody
      | inl (j, a, got, away, act, settle) ↦
          let (b, here, k) = now_at j a got in
          inl (
            j,
            b,
            here,
            omega (arith, away, length-set s.records ref r'),
            (let st = k.same_status in rw st act),
            k.same_settle ∙ settle,
          )
    ],
  )
