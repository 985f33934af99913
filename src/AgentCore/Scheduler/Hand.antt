-- ===== src/AgentCore/Scheduler/Hand.antt =====
-- The steps of a method of `TaskScheduler`, on the whole state: a record is taken in hand, changed,
-- and put back.
use Prim.Native.Nat.{Ordering}
use Prim.Native.String.{String}
use native.Mathlib.Decide.{ℕ_discrete}
use inkpi.Base.{
  ℕ, ◌≡◌, ◌≢◌, sym, ap, subst, ◌∙◌, inl, inr, Bool, true, false, Option, some, List, get_elem?,
  if◌then◌else◌, Option-cases, Bool-cases,
}
use inkpi.AgentCore.Scheduler.{
  ScheduledRecord, is_queued, is_foreground, is_before, is_ready_before,
}
use inkpi.AgentCore.Scheduler.Queue.Arrays.{Entry}
use inkpi.AgentCore.Scheduler.Queue.{peek}
use inkpi.AgentCore.Scheduler.Queue.Index.{Holds}
use inkpi.AgentCore.Scheduler.State.{TaskScheduler, Settlement, schedule_ready_timer}
use inkpi.AgentCore.Scheduler.Pump.{remove_ready}
use inkpi.AgentCore.Scheduler.Orders.{IsCollation, is_before-IsOrder, is_ready_before-IsOrder}
use inkpi.AgentCore.Scheduler.Valid.{
  Records, Promises, Open, IsValidScheduler, Foreground, Background, is_active,
}
use inkpi.AgentCore.Scheduler.Steps.{remove-Shrunk, same-Shrunk, own, idle-gone, Queues-shrink}

pub some_inj {ℓ} : {A : Type ℓ} {a b : A} → ◌≡◌ {A = Option A} (some a) (some b) → a ≡ b
some_inj h = cc

-- What the promise in hand must be when a record is taken in hand.
abbrev pub Takes : ℕ → Option ℕ → ScheduledRecord → Option ℕ → Type 0
Takes ref owed r owed' =
    ((p : ℕ) → owed ≡ some p → owed' ≡ some p)
    × ((p : ℕ) → is_active r ≡ true → r.settle ≡ some p → owed' ≡ some p)

module _ (records : List ScheduledRecord) (out ref : ℕ) (r : ScheduledRecord)
    (at : get_elem? records ref ≡ some r)
    (within : (j : ℕ) (b : ScheduledRecord)
      → get_elem? records j ≡ some b
      → j ≢ ref
      → j ≢ out) where
  pub Records-take : Records out records → Records ref records
  Records-take v = record {
    unique = v.unique;
    sound = λ j a got ne. v.sound j a got (within j a got ne);
  }

  pub Promises-take :
      (owed owed' : Option ℕ) (promises : List Settlement)
      → Takes ref owed r owed'
      → Promises out owed records promises
      → Promises ref owed' records promises
  Promises-take owed owed' promises (kept, own_) v = λ p wait. elim (v p wait) [
    | inr mine ↦ inr (kept p mine)
    | inl (j, a, got, ne, act, settle) ↦ elim (ℕ_discrete j ref) [
      | no other ↦ inl (j, a, got, other, act, settle)
      | yes same ↦
          let e : a ≡ r = some_inj (sym got ∙ ap (get_elem? records) same ∙ at) in
          inr (
            own_ p (subst (λ x. is_active x ≡ true) e act)
              (subst (λ (x : ScheduledRecord). x.settle ≡ some p) e settle))
    ]
  ]

module _ (collate : String → String → Ordering) (c : IsCollation collate) where
  abbrev pub before : Entry → Entry → Bool
  before = is_before collate

  pub Open-timer :
      (out : ℕ) (owed : Option ℕ) (s : TaskScheduler)
      → Open collate out owed s
      → Open collate out owed (schedule_ready_timer s)
  unfolding schedule_ready_timer
  Open-timer out owed s v = elim (Option-cases (peek s.delayed_ready)) [
    | inl nothing ↦ rw (schedule_ready_timer, nothing) v
    | inr (e, next) ↦ rw (schedule_ready_timer, next) v
  ]

  pub IsValidScheduler-timer :
      (s : TaskScheduler)
      → IsValidScheduler collate s
      → IsValidScheduler collate (schedule_ready_timer s)
  unfolding schedule_ready_timer
  IsValidScheduler-timer s v = elim (Option-cases (peek s.delayed_ready)) [
    | inl nothing ↦ rw (schedule_ready_timer, nothing) v
    | inr (e, next) ↦ rw (schedule_ready_timer, next) v
  ]

  pub Open-timer_if :
      (b : Bool) (out : ℕ) (owed : Option ℕ) (s : TaskScheduler)
      → Open collate out owed s
      → Open collate out owed (if b then schedule_ready_timer s else s)
  Open-timer_if true out owed s v = Open-timer out owed s v
  Open-timer_if false out owed s v = v

  module _ (s : TaskScheduler) (out ref : ℕ) (owed owed' : Option ℕ) (r : ScheduledRecord)
      (at : get_elem? s.records ref ≡ some r)
      (within : (j : ℕ) (b : ScheduledRecord) → get_elem? s.records j ≡ some b → j ≢ ref → j ≢ out)
      (takes : Takes ref owed r owed') (v : Open collate out owed s) where
    abbrev IsOther : Entry → Type 0
    IsOther e = e.id ≢ r.snapshot.id

    back_free : Foreground r → (e : Entry) → Holds s.background_ready e → IsOther e
    back_free fg e h id =
        let p =
          (own collate out s.records s.foreground_ready s.background_ready s.delayed_ready v.0 v.1
            ref r at e {P = Background} (v.0.back_waits e h) id).1 in
        cc (p, fg)

    fore_free : Background r → (e : Entry) → Holds s.foreground_ready e → IsOther e
    fore_free bg e h id =
        let p =
          (own collate out s.records s.foreground_ready s.background_ready s.delayed_ready v.0 v.1
            ref r at e {P = Foreground} (v.0.fore_waits e h) id).1 in
        cc (p, bg)

    -- The record is taken out of the queues.
    pub Open-remove_ready : (b : Bool) → Open collate ref owed' (remove_ready collate r b s)
    unfolding remove_ready
    Open-remove_ready b =
        let o = is_before-IsOrder collate c in
        let d =
          remove-Shrunk (is_ready_before collate) (is_ready_before-IsOrder collate c)
            s.delayed_ready v.0.delayed_valid r.snapshot.id in
        let records = Records-take s.records out ref r at within v.1 in
        let promises =
          Promises-take s.records out ref r at within owed owed' s.promises takes v.3 in
        let shrink =
          Queues-shrink collate out s.records s.foreground_ready s.background_ready s.delayed_ready
            v.0 v.1 ref r at within in
        elim (Bool-cases (is_foreground r.snapshot.mode)) [
          | inl fg ↦ rw fg (
              Open-timer_if _ ref owed' _ (
                shrink _ _ _
                    (remove-Shrunk before o s.foreground_ready v.0.fore_valid r.snapshot.id)
                    (same-Shrunk before o s.background_ready v.0.back_valid r.snapshot.id
                      (back_free fg))
                    d,
                records,
                v.2,
                promises,
              ))
          | inr bg ↦ rw bg (
              Open-timer_if _ ref owed' _ (
                shrink _ _ _
                    (same-Shrunk before o s.foreground_ready v.0.fore_valid r.snapshot.id
                      (fore_free bg))
                    (remove-Shrunk before o s.background_ready v.0.back_valid r.snapshot.id) d,
                records,
                v.2,
                promises,
              ))
        ]

    -- A record that is not queued stands in no queue.
    pub Open-idle : is_queued r.snapshot.status ≡ false → Open collate ref owed' s
    Open-idle idle =
        let o = is_before-IsOrder collate c in
        let (f, b, d) =
          idle-gone collate out s.records s.foreground_ready s.background_ready s.delayed_ready v.0
            v.1 ref r at idle in
        (
          Queues-shrink collate out s.records s.foreground_ready s.background_ready s.delayed_ready
              v.0 v.1 ref r at within _ _ _
              (same-Shrunk before o s.foreground_ready v.0.fore_valid r.snapshot.id f)
              (same-Shrunk before o s.background_ready v.0.back_valid r.snapshot.id b)
              (same-Shrunk (is_ready_before collate) (is_ready_before-IsOrder collate c)
                s.delayed_ready v.0.delayed_valid r.snapshot.id d),
          Records-take s.records out ref r at within v.1,
          v.2,
          Promises-take s.records out ref r at within owed owed' s.promises takes v.3,
        )
