-- ===== src/AgentCore/Scheduler/Closing.antt =====
-- A record that was in hand is put back: not queued, or with an entry in one queue.
use Prim.Native.Nat.{Ordering}
use Prim.Native.String.{String}
use inkpi.Base.{
  ℕ, ◌≡◌, ◌≢◌, refl, sym, ap, ap₂, subst, ◌∙◌, ◌⊎◌, inl, inr, Bool, true, false, some, List, length,
  get_elem?, arith,
}
use inkpi.AgentCore.Scheduler.{ScheduledRecord, is_queued, is_before, is_ready_before}
use native.Mathlib.Decide.{ℕ_discrete}
use inkpi.AgentCore.Scheduler.Queue.Arrays.{Entry}
use inkpi.AgentCore.Scheduler.Queue.{ScheduledPriorityQueue}
use inkpi.AgentCore.Scheduler.Queue.Index.{Holds}
use inkpi.AgentCore.Scheduler.State.{entry_of}
use inkpi.AgentCore.Scheduler.Valid.{Queues, Records, Waits, Foreground, Background, get_elem?-lt}
use inkpi.AgentCore.Scheduler.Steps.{Grown, out-gone}

module _ (collate : String → String → Ordering) (records : List ScheduledRecord)
    (fore back delayed : ScheduledPriorityQueue) (ref : ℕ)
    (v : Queues collate ref records fore back delayed) (rs : Records ref records)
    (r : ScheduledRecord) (at : get_elem? records ref ≡ some r) where
  inside : (j : ℕ) (a : ScheduledRecord) → get_elem? records j ≡ some a → j ≢ length records
  inside j a got same = absurd (omega (arith, get_elem?-lt records j a got))

  widen :
      {P : ScheduledRecord → Type 0} (e : Entry)
      → Waits records ref e P
      → Waits records (length records) e P
  widen e w = (w.0, w.1, w.2, w.3, inside e.ref w.0 w.1, w.5)

  same_record : (j : ℕ) (a : ScheduledRecord) → get_elem? records j ≡ some a → j ≡ ref → a ≡ r
  same_record j a got same = let e : get_elem? records j ≡ some r = rw same at in cc

  pub Queues-close :
      is_queued r.snapshot.status ≡ false
      → Queues collate (length records) records fore back delayed
  Queues-close idle = record {
    fore_valid = v.fore_valid;
    back_valid = v.back_valid;
    delayed_valid = v.delayed_valid;
    fore_waits = λ e h. widen e (v.fore_waits e h);
    back_waits = λ e h. widen e (v.back_waits e h);
    delayed_waits = λ e h. widen e (v.delayed_waits e h);
    apart = v.apart;
    placed = λ j a got _ waiting.
        v.placed j a got (λ same. let e = same_record j a got same in cc (e, idle, waiting))
          waiting;
  }

  module _ (fore' back' delayed' : ScheduledPriorityQueue) (nf nb nd : Bool)
      (f : Grown (is_before collate) fore fore' (entry_of ref r) nf)
      (b : Grown (is_before collate) back back' (entry_of ref r) nb)
      (d : Grown (is_ready_before collate) delayed delayed' (entry_of ref r) nd)
      (waiting : is_queued r.snapshot.status ≡ true) (foreground : nf ≡ true → Foreground r)
      (background : nb ≡ true → Background r)
      (somewhere : (nf ≡ true) ⊎ ((nb ≡ true) ⊎ (nd ≡ true)))
      (once : nd ≡ true → (nf ≡ false) × (nb ≡ false)) where
    here :
        {P : ScheduledRecord → Type 0} (e : Entry)
        → e ≡ entry_of ref r
        → P r
        → Waits records (length records) e P
    here {P} e same p =
        subst (λ x. Waits records (length records) x P) (sym same)
          (r, at, refl, waiting, inside ref r at, p)

    grown-apart : (e x : Entry) → Holds delayed' e → (Holds fore' x ⊎ Holds back' x) → e.id ≢ x.id
    grown-apart e x h k =
        let (no_fore, no_back, no_delayed) =
          out-gone collate ref records fore back delayed v rs ref r at refl in
        let id_of : Entry → String = λ y. y.id in
        elim (d.sub e h) [
          | inl old ↦ elim k [
            | inl kf ↦ elim (f.sub x kf) [
              | inl old' ↦ v.apart e x old (inl old')
              | inr (same, _) ↦ λ id. no_delayed e old (id ∙ ap id_of same)
            ]
            | inr kb ↦ elim (b.sub x kb) [
              | inl old' ↦ v.apart e x old (inr old')
              | inr (same, _) ↦ λ id. no_delayed e old (id ∙ ap id_of same)
            ]
          ]
          | inr (same, new) ↦ elim k [
            | inl kf ↦ elim (f.sub x kf) [
              | inl old' ↦ λ id. no_fore x old' (sym id ∙ ap id_of same)
              | inr (_, again) ↦ absurd (cc ((once new).0, again))
            ]
            | inr kb ↦ elim (b.sub x kb) [
              | inl old' ↦ λ id. no_back x old' (sym id ∙ ap id_of same)
              | inr (_, again) ↦ absurd (cc ((once new).1, again))
            ]
          ]
        ]

    new_place :
        Holds fore' (entry_of ref r)
        ⊎ (Holds back' (entry_of ref r) ⊎ Holds delayed' (entry_of ref r))
    new_place = elim somewhere [
      | inl n ↦ inl (f.added n)
      | inr (inl n) ↦ inr (inl (b.added n))
      | inr (inr n) ↦ inr (inr (d.added n))
    ]

    old_place :
        (e : Entry)
        → Holds fore e ⊎ (Holds back e ⊎ Holds delayed e)
        → Holds fore' e ⊎ (Holds back' e ⊎ Holds delayed' e)
    old_place e h = elim h [
      | inl n ↦ inl (f.keeps e n)
      | inr (inl n) ↦ inr (inl (b.keeps e n))
      | inr (inr n) ↦ inr (inr (d.keeps e n))
    ]

    pub Queues-grow : Queues collate (length records) records fore' back' delayed'
    Queues-grow = record {
      fore_valid = f.valid;
      back_valid = b.valid;
      delayed_valid = d.valid;
      fore_waits = λ e h. elim (f.sub e h) [
        | inl old ↦ widen e (v.fore_waits e old)
        | inr (same, new) ↦ here e same (foreground new)
      ];
      back_waits = λ e h. elim (b.sub e h) [
        | inl old ↦ widen e (v.back_waits e old)
        | inr (same, new) ↦ here e same (background new)
      ];
      delayed_waits = λ e h. elim (d.sub e h) [
        | inl old ↦ widen e (v.delayed_waits e old)
        | inr (same, new) ↦ here e same tt
      ];
      apart = grown-apart;
      placed = λ j a got _ queue. elim (ℕ_discrete j ref) [
        | yes same ↦
            subst
              (λ (p : ℕ × ScheduledRecord).
                Holds fore' (entry_of p.0 p.1)
                ⊎ (Holds back' (entry_of p.0 p.1) ⊎ Holds delayed' (entry_of p.0 p.1)))
              (sym (ap₂ (λ x y. (x, y)) same (same_record j a got same))) new_place
        | no other ↦ old_place (entry_of j a) (v.placed j a got other queue)
      ];
    }
