-- ===== src/AgentCore/Scheduler/Adding.antt =====
-- The methods that queue a task keep the scheduler valid: `schedule`, `resume`, `rehydrate`.
use Prim.Native.Nat.{Ordering}
use Prim.Native.String.{String}
use text.Mathlib.Text.{◌==◌ as str_eq}
use native.Mathlib.Decide.{ℕ_discrete}
use inkpi.Base.{
  ℕ, zero, suc, ◌≡◌, ◌≢◌, refl, sym, ap, ◌∙◌, inl, inr, true, false, Option, none, some, List, [],
  ◌∷◌, ◌++◌, length, get_elem?, Option-cases, Bool-cases, arith,
}
use inkpi.Base.Texts.{eq→str_eq}
use inkpi.AgentCore.Scheduler.{ScheduledRecord}
use inkpi.AgentCore.Scheduler.Queue.Arrays.{Entry}
use inkpi.AgentCore.Scheduler.State.{TaskScheduler, Settlement, pending}
use inkpi.AgentCore.Scheduler.Control.{index_of, promised, add_record}
use inkpi.AgentCore.Scheduler.Valid.{
  Waits, Open, IsValidScheduler, slot_of, get_elem?-append, count_slots-append,
}
use inkpi.AgentCore.Scheduler.Hand.{some_inj}

index_of-cons :
    (id : String) (r : ScheduledRecord) (rs : List ScheduledRecord)
    → index_of id (r ∷ rs) ≡ none
    → (str_eq r.snapshot.id id ≡ false) × (index_of id rs ≡ none)
unfolding index_of
index_of-cons id r rs h = elim (Bool-cases (str_eq r.snapshot.id id)) [
  | inl same ↦ let h' : ◌≡◌ {A = Option ℕ} (some 0) none = rw (index_of, same) at h in cc h'
  | inr other ↦ elim (Option-cases (index_of id rs)) [
    | inr (i, at) ↦
        let h' : ◌≡◌ {A = Option ℕ} (some (suc i)) none = rw (index_of, other, at) at h in cc h'
    | inl nothing ↦ (other, nothing)
  ]
]

pub index_of-none :
    (id : String) (rs : List ScheduledRecord) (j : ℕ) (a : ScheduledRecord)
    → index_of id rs ≡ none
    → get_elem? rs j ≡ some a
    → a.snapshot.id ≢ id
index_of-none id [] j a h got = cc got
index_of-none id (r ∷ rs) zero a h got = λ e.
    let other = (index_of-cons id r rs h).0 in
    let it : r ≡ a = some_inj got in
    let same = eq→str_eq r.snapshot.id id (ap (λ (x : ScheduledRecord). x.snapshot.id) it ∙ e) in
    cc (other, same)
index_of-none id (r ∷ rs) (suc j) a h got = index_of-none id rs j a (index_of-cons id r rs h).1 got

module _ (collate : String → String → Ordering) (s : TaskScheduler) (v : IsValidScheduler collate s)
    (r : ScheduledRecord) (new : index_of r.snapshot.id s.records ≡ none)
    (free : r.slot_acquired ≡ false) (p : Settlement) (owed : Option ℕ)
    (owes : p ≡ pending → owed ≡ some (length s.promises)) where
  abbrev ref : ℕ
  ref = length s.records

  pub added_at : get_elem? (s.records ++ (r ∷ [])) ref ≡ some r
  added_at = ground (arith, get_elem?-append s.records r ref)

  old_at : (j : ℕ) → j ≢ ref → get_elem? (s.records ++ (r ∷ [])) j ≡ get_elem? s.records j
  old_at j ne = ground (arith, get_elem?-append s.records r j)

  old_waits :
      {P : ScheduledRecord → Type 0} (e : Entry)
      → Waits s.records ref e P
      → Waits (s.records ++ (r ∷ [])) ref e P
  old_waits e w = (w.0, old_at e.ref w.4 ∙ w.1, w.2, w.3, w.4, w.5)

  -- No other record has the identifier of the new one.
  own_id :
      (i j : ℕ) (a b : ScheduledRecord)
      → get_elem? (s.records ++ (r ∷ [])) i ≡ some a
      → get_elem? (s.records ++ (r ∷ [])) j ≡ some b
      → a.snapshot.id ≡ b.snapshot.id
      → i ≡ ref
      → j ≡ ref
  own_id i j a b gi gj e same = elim (ℕ_discrete j ref) [
    | yes also ↦ also
    | no other ↦
        let at_i : a ≡ r =
          some_inj (sym gi ∙ ap (get_elem? (s.records ++ (r ∷ []))) same ∙ added_at) in
        absurd (
          index_of-none r.snapshot.id s.records j b new (sym (old_at j other) ∙ gj)
            (sym e ∙ ap (λ (x : ScheduledRecord). x.snapshot.id) at_i))
  ]

  pub Open-add : Open collate ref owed (add_record r (promised p s))
  Open-add = (
    record {
      fore_valid = v.0.fore_valid;
      back_valid = v.0.back_valid;
      delayed_valid = v.0.delayed_valid;
      fore_waits = λ e h. old_waits e (v.0.fore_waits e h);
      back_waits = λ e h. old_waits e (v.0.back_waits e h);
      delayed_waits = λ e h. old_waits e (v.0.delayed_waits e h);
      apart = v.0.apart;
      placed = λ j a got ne. v.0.placed j a (sym (old_at j ne) ∙ got) ne;
    },
    record {
      unique = λ i j a b gi gj e. elim (ℕ_discrete i ref) [
        | yes same ↦ same ∙ sym (own_id i j a b gi gj e same)
        | no other ↦ elim (ℕ_discrete j ref) [
          | yes same ↦ own_id j i b a gj gi (sym e) same ∙ sym same
          | no other' ↦
              v.1.unique i j a b (sym (old_at i other) ∙ gi) (sym (old_at j other') ∙ gj) e
        ]
      ];
      sound = λ j a got ne. v.1.sound j a (sym (old_at j ne) ∙ got) ne;
    },
    (let t : slot_of true r ≡ 0 = rw free refl in
        let f : slot_of false r ≡ 0 = rw free refl in
        record {
          fore_exact = omega (arith, t, v.2.fore_exact, count_slots-append true s.records r);
          back_exact = omega (arith, f, v.2.back_exact, count_slots-append false s.records r);
          fore_most = v.2.fore_most;
          back_most = v.2.back_most;
        }),
    λ q wait. elim (ℕ_discrete q (length s.promises)) [
      | yes last ↦
          let it : p ≡ pending = ground (arith, wait, last, get_elem?-append s.promises p q) in
          inr (owes it ∙ ap some (sym last))
      | no other ↦
          let old : get_elem? s.promises q ≡ some pending =
            ground (arith, wait, get_elem?-append s.promises p q) in
          elim (v.3 q old) [
            | inl (j, a, got, ne, act, settle) ↦ inl (j, a, old_at j ne ∙ got, ne, act, settle)
            | inr nobody ↦ cc nobody
          ]
    ],
  )
