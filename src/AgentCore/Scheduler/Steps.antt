-- ===== src/AgentCore/Scheduler/Steps.antt =====
-- How the queues of a scheduler follow its records: a record is taken in hand, and put back.
use Prim.Native.Nat.{Ordering}
use Prim.Native.String.{String}
use inkpi.Base.{
  ℕ, ◌≡◌, ◌≢◌, refl, sym, ap, subst, ◌∙◌, ◌⊎◌, inl, inr, Bool, true, false, Option, none, some,
  List, get_elem?, Option-cases, arith,
}
use inkpi.AgentCore.Scheduler.{ScheduledRecord, is_queued, is_before, is_ready_before}
use inkpi.AgentCore.Scheduler.Queue.Arrays.{Entry, set}
use inkpi.AgentCore.Scheduler.Queue.{ScheduledPriorityQueue, push, pop, peek, remove}
use inkpi.AgentCore.Scheduler.Queue.Index.{Holds}
use inkpi.AgentCore.Scheduler.Queue.Order.{IsOrder, IsValid}
use inkpi.AgentCore.Scheduler.Queue.Laws.{push_lem, pop-peek, remove_lem}
use inkpi.AgentCore.Scheduler.Valid.{Queues, Records, Waits, get_elem?-set}

-- A queue without the entry of an identifier.
pub record Shrunk (before : Entry → Entry → Bool) (q q' : ScheduledPriorityQueue) (id : String)
    : Type 0 where
  pub valid : IsValid before q'
  pub sub : (x : Entry) → Holds q' x → Holds q x
  pub keeps : (x : Entry) → Holds q x → x.id ≢ id → Holds q' x
  pub gone : (x : Entry) → Holds q' x → x.id ≢ id

-- A queue that may have one more entry.
pub record Grown (before : Entry → Entry → Bool) (q q' : ScheduledPriorityQueue) (e : Entry)
    (new : Bool) : Type 0 where
  pub valid : IsValid before q'
  pub sub : (x : Entry) → Holds q' x → Holds q x ⊎ ((x ≡ e) × (new ≡ true))
  pub keeps : (x : Entry) → Holds q x → Holds q' x
  pub added : new ≡ true → Holds q' e

module _ (before : Entry → Entry → Bool) (o : IsOrder before) (q : ScheduledPriorityQueue)
    (v : IsValid before q) where
  pub remove-Shrunk : (id : String) → Shrunk before q (remove before q id).0 id
  remove-Shrunk id =
      let (valid, others) = remove_lem before o q id v in
      record {
        valid = valid;
        sub = λ x h. ((others x).0 h).0;
        keeps = λ x h ne. (others x).1 (h, ne);
        gone = λ x h. ((others x).0 h).1;
      }

  pub pop-Shrunk : (e : Entry) → peek q ≡ some e → Shrunk before q (pop before q).0 e.id
  pop-Shrunk e h =
      let p = pop-peek before o q e v h in
      record {
        valid = p.valid;
        sub = λ x k. ((p.others x).0 k).0;
        keeps = λ x k ne. (p.others x).1 (k, ne);
        gone = λ x k. ((p.others x).0 k).1;
      }

  pub same-Shrunk : (id : String) → ((x : Entry) → Holds q x → x.id ≢ id) → Shrunk before q q id
  same-Shrunk id gone = record { valid = v; sub = λ x h. h; keeps = λ x h ne. h; gone = gone }

  pub same-Grown : (e : Entry) → Grown before q q e false
  same-Grown e = record {
    valid = v;
    sub = λ x h. inl h;
    keeps = λ x h. h;
    added = λ h. absurd (cc h);
  }

  unused : (id : String) → ((x : Entry) → Holds q x → x.id ≢ id) → q.positions id ≡ none
  unused id gone = elim (Option-cases (q.positions id)) [
    | inl free ↦ free
    | inr (i, at) ↦
        let (inside, same) = v.indexed.placed id i at in absurd (gone _ (i, inside, refl) same)
  ]

  pub push-Grown :
      (e : Entry)
      → ((x : Entry) → Holds q x → x.id ≢ e.id)
      → Grown before q (push before q e) e true
  push-Grown e gone =
      let (valid, held) = push_lem before o q e v (unused e.id gone) in
      record {
        valid = valid;
        sub = λ x h. elim ((held x).0 h) [ inl old ↦ inl old | inr same ↦ inr (same, refl) ];
        keeps = λ x h. (held x).1 (inl h);
        added = λ _. (held e).1 (inr refl);
      }

some_inj {ℓ} : {A : Type ℓ} {a b : A} → ◌≡◌ {A = Option A} (some a) (some b) → a ≡ b
some_inj h = cc

module _ (collate : String → String → Ordering) (out : ℕ) (records : List ScheduledRecord)
    (fore back delayed : ScheduledPriorityQueue) (v : Queues collate out records fore back delayed)
    (rs : Records out records) (ref : ℕ) (r : ScheduledRecord)
    (at : get_elem? records ref ≡ some r) where
  -- An entry with the identifier of a record is that record's.
  pub own :
      (e : Entry) {P : ScheduledRecord → Type 0}
      → Waits records out e P
      → e.id ≡ r.snapshot.id
      → (e.ref ≡ ref) × P r
  own e {P} (a, got, same, waiting, away, p) id =
      let here : a.snapshot.id ≡ r.snapshot.id = ap (λ (x : Entry). x.id) same ∙ id in
      let place = rs.unique e.ref ref a r got at here in (place, subst P (cc) p)

  not_own :
      (e : Entry) {P : ScheduledRecord → Type 0}
      → Waits records out e P
      → e.id ≢ r.snapshot.id
      → e.ref ≢ ref
  not_own e (a, got, same, waiting, away, p) ne here =
      let record_same : a ≡ r = some_inj (sym got ∙ ap (get_elem? records) here ∙ at) in
      ne (
        sym (ap (λ (x : Entry). x.id) same)
        ∙ ap (λ (x : ScheduledRecord). x.snapshot.id) record_same)

  other_id :
      (j : ℕ) (b : ScheduledRecord)
      → get_elem? records j ≡ some b
      → j ≢ ref
      → b.snapshot.id ≢ r.snapshot.id
  other_id j b got ne id = ne (rs.unique j ref b r got at id)

  -- In hand already, or not queued: no queue has an entry of it.
  pub out-gone :
      ref ≡ out
      → ((e : Entry) → Holds fore e → e.id ≢ r.snapshot.id)
        × ((e : Entry) → Holds back e → e.id ≢ r.snapshot.id)
        × ((e : Entry) → Holds delayed e → e.id ≢ r.snapshot.id)
  out-gone same = (
    λ e h id. let w = v.fore_waits e h in w.4 ((own e w id).0 ∙ same),
    λ e h id. let w = v.back_waits e h in w.4 ((own e w id).0 ∙ same),
    λ e h id. let w = v.delayed_waits e h in w.4 ((own e w id).0 ∙ same),
  )

  pub idle-gone :
      is_queued r.snapshot.status ≡ false
      → ((e : Entry) → Holds fore e → e.id ≢ r.snapshot.id)
        × ((e : Entry) → Holds back e → e.id ≢ r.snapshot.id)
        × ((e : Entry) → Holds delayed e → e.id ≢ r.snapshot.id)
  idle-gone idle = (
    λ e h id. let w = v.fore_waits e h in let p = (own e w id).0 in cc (w.1, w.3),
    λ e h id. let w = v.back_waits e h in let p = (own e w id).0 in cc (w.1, w.3),
    λ e h id. let w = v.delayed_waits e h in let p = (own e w id).0 in cc (w.1, w.3),
  )

  -- The record in hand: no queue has an entry of it any more.
  module _
      (within : (j : ℕ) (b : ScheduledRecord) → get_elem? records j ≡ some b → j ≢ ref → j ≢ out)
      (fore' back' delayed' : ScheduledPriorityQueue)
      (f : Shrunk (is_before collate) fore fore' r.snapshot.id)
      (b : Shrunk (is_before collate) back back' r.snapshot.id)
      (d : Shrunk (is_ready_before collate) delayed delayed' r.snapshot.id) where
    still :
        {P : ScheduledRecord → Type 0} (e : Entry)
        → Waits records out e P
        → e.id ≢ r.snapshot.id
        → Waits records ref e P
    still e w ne = (w.0, w.1, w.2, w.3, not_own e w ne, w.5)

    pub Queues-shrink : Queues collate ref records fore' back' delayed'
    Queues-shrink = record {
      fore_valid = f.valid;
      back_valid = b.valid;
      delayed_valid = d.valid;
      fore_waits = λ e h. still e (v.fore_waits e (f.sub e h)) (f.gone e h);
      back_waits = λ e h. still e (v.back_waits e (b.sub e h)) (b.gone e h);
      delayed_waits = λ e h. still e (v.delayed_waits e (d.sub e h)) (d.gone e h);
      apart = λ e x h k.
          v.apart e x (d.sub e h)
            (elim k [ inl kf ↦ inl (f.sub x kf) | inr kb ↦ inr (b.sub x kb) ]);
      placed = λ j a got ne waiting.
          let other = other_id j a got ne in
          elim (v.placed j a got (within j a got ne) waiting) [
            | inl h ↦ inl (f.keeps _ h other)
            | inr (inl h) ↦ inr (inl (b.keeps _ h other))
            | inr (inr h) ↦ inr (inr (d.keeps _ h other))
          ];
    }

-- The record in hand has changed: the queues have nothing of it.
pub Queues-write :
    (collate : String → String → Ordering) (ref : ℕ) (records : List ScheduledRecord)
    (fore back delayed : ScheduledPriorityQueue) (r r' : ScheduledRecord)
    → get_elem? records ref ≡ some r
    → Queues collate ref records fore back delayed
    → Queues collate ref (set records ref r') fore back delayed
Queues-write collate ref records fore back delayed r r' at v =
    let kept : (j : ℕ) → j ≢ ref → get_elem? (set records ref r') j ≡ get_elem? records j =
      λ j ne. ground (arith, get_elem?-set records ref j r' r at) in
    record {
      fore_valid = v.fore_valid;
      back_valid = v.back_valid;
      delayed_valid = v.delayed_valid;
      fore_waits =
          λ e h. let w = v.fore_waits e h in (w.0, kept e.ref w.4 ∙ w.1, w.2, w.3, w.4, w.5);
      back_waits =
          λ e h. let w = v.back_waits e h in (w.0, kept e.ref w.4 ∙ w.1, w.2, w.3, w.4, w.5);
      delayed_waits =
          λ e h. let w = v.delayed_waits e h in (w.0, kept e.ref w.4 ∙ w.1, w.2, w.3, w.4, w.5);
      apart = v.apart;
      placed = λ j a got ne. v.placed j a (sym (kept j ne) ∙ got) ne;
    }
