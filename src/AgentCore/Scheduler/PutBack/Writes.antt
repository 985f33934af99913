-- ===== src/AgentCore/Scheduler/PutBack/Writes.antt =====
-- A record that the scheduler of packages/agent-core/src/lifecycle/scheduler.ts writes over another.
use native.Mathlib.Decide.{ℕ_discrete}
use inkpi.Base.{
  ℕ, ◌≡◌, ◌≢◌, refl, sym, ap, subst, ◌∙◌, inl, inr, Option, some, List, get_elem?, arith,
}
use inkpi.AgentCore.Scheduler.{ScheduledRecord}
use inkpi.AgentCore.Scheduler.Queue.Arrays.{set}
use inkpi.AgentCore.Scheduler.State.{Settlement}
use inkpi.AgentCore.Scheduler.Valid.{Records, Promises, IsSound, get_elem?-set}
use inkpi.AgentCore.Scheduler.Hand.{some_inj}

module _ (records : List ScheduledRecord) (ref : ℕ) (r r' : ScheduledRecord)
    (at : get_elem? records ref ≡ some r) where
  pub written : get_elem? (set records ref r') ref ≡ some r'
  written = ground (arith, get_elem?-set records ref ref r' r at)

  pub others : (j : ℕ) → j ≢ ref → get_elem? (set records ref r') j ≡ get_elem? records j
  others j ne = ground (arith, get_elem?-set records ref j r' r at)

  pub back_to :
      (j : ℕ) (a : ScheduledRecord)
      → get_elem? (set records ref r') j ≡ some a
      → (b : ScheduledRecord) × (get_elem? records j ≡ some b)
        × (r'.snapshot.id ≡ r.snapshot.id → a.snapshot.id ≡ b.snapshot.id)
        × (j ≢ ref → a ≡ b)
  back_to j a got = elim (ℕ_discrete j ref) [
    | yes same ↦
        let e : a ≡ r' = some_inj (sym got ∙ ap (get_elem? (set records ref r')) same ∙ written) in
        (
          r,
          ap (get_elem? records) same ∙ at,
          λ id. ap (λ (x : ScheduledRecord). x.snapshot.id) e ∙ id,
          λ ne. absurd (ne same),
        )
    | no other ↦ (a, sym (others j other) ∙ got, λ id. refl, λ ne. refl)
  ]

  pub Records-write :
      r'.snapshot.id ≡ r.snapshot.id → Records ref records → Records ref (set records ref r')
  Records-write id v = record {
    unique = λ i j a b gi gj e.
        let (x, gx, ix, _) = back_to i a gi in
        let (y, gy, iy, _) = back_to j b gj in v.unique i j x y gx gy (sym (ix id) ∙ e ∙ iy id);
    sound = λ j a got ne.
        let (x, gx, _, e) = back_to j a got in subst IsSound (sym (e ne)) (v.sound j x gx ne);
  }

  pub Promises-write :
      (owed : Option ℕ) (promises : List Settlement)
      → Promises ref owed records promises
      → Promises ref owed (set records ref r') promises
  Promises-write owed promises v = λ p wait. elim (v p wait) [
    | inr mine ↦ inr mine
    | inl (j, a, got, ne, act, settle) ↦ inl (j, a, others j ne ∙ got, ne, act, settle)
  ]
