-- ===== src/AgentCore/Scheduler/Pumping.antt =====
-- The pump of `TaskScheduler` keeps the state valid, and leaves nothing that could start.
pub mod Starting
use Prim.Native.Nat.{Ordering}
use Prim.Native.String.{String}
use inkpi.Base.{
  ℕ, zero, suc, ◌+◌, ◌<◌, ◌≡◌, ◌≢◌, refl, sym, ap, ◌∙◌, inl, inr, Bool, true, false, none, some,
  List, length, get_elem?, ltb, if◌then◌else◌, Option-cases, Bool-cases, ltb→lt, arith,
}
use inkpi.AgentCore.Scheduler.{
  ScheduledRecord, ScheduledStatus, queued, is_queued, is_foreground, is_before, is_ready_before,
}
use inkpi.AgentCore.Scheduler.Queue.Arrays.{Entry}
use inkpi.AgentCore.Scheduler.Queue.{pop, peek}
use inkpi.AgentCore.Scheduler.Queue.Laws.{pop-peek}
use inkpi.AgentCore.Scheduler.State.{TaskScheduler, emit, persist, write, started, acquire_slot}
use inkpi.AgentCore.Scheduler.Pump.{
  may_start, may_execute, started_record, promote_loop, promote_ready, execute, start_popped,
  push_ready,
}
use inkpi.AgentCore.Scheduler.Orders.{IsCollation, is_before-IsOrder, is_ready_before-IsOrder}
use inkpi.AgentCore.Scheduler.Valid.{
  Open, IsValidScheduler, IsSound, Waits, Foreground, Background, count_of, get_elem?-lt,
}
use inkpi.AgentCore.Scheduler.Steps.{pop-Shrunk, same-Shrunk, own, Queues-shrink}
use inkpi.AgentCore.Scheduler.Hand.{Records-take, Promises-take, IsValidScheduler-timer}
use inkpi.AgentCore.Scheduler.PutBack.{Open-write, Open-close, Open-push_ready}
use inkpi.AgentCore.Scheduler.PutBack.Writes.{written}
use inkpi.AgentCore.Scheduler.Pumping.Starting.{
  is_queued-eq, queued-may_start, inside-length, start_popped-Valid,
}

module _ (collate : String → String → Ordering) (c : IsCollation collate) (now : ℕ) where
  module _ (s : TaskScheduler) (v : IsValidScheduler collate s) (e : Entry) where
    -- The first entry of the delayed queue, taken out.
    popped_delayed :
        (w : Waits s.records (length s.records) e (λ r. Unit))
        → peek s.delayed_ready ≡ some e
        → Open collate e.ref w.0.settle
            (record s { delayed_ready = (pop (is_ready_before collate) s.delayed_ready).0 })
    popped_delayed w next =
        let r = w.0 in
        let o = is_before-IsOrder collate c in
        let held =
          (pop-peek (is_ready_before collate) (is_ready_before-IsOrder collate c) s.delayed_ready e
            v.0.delayed_valid next).held in
        let id : e.id ≡ r.snapshot.id = ap (λ (x : Entry). x.id) (sym w.2) in
        let within = inside-length s.records e.ref in
        (
          Queues-shrink collate (length s.records) s.records s.foreground_ready s.background_ready
              s.delayed_ready v.0 v.1 e.ref r w.1 within _ _ _
              (same-Shrunk (is_before collate) o s.foreground_ready v.0.fore_valid r.snapshot.id
                (λ x h same. v.0.apart e x held (inl h) (id ∙ sym same)))
              (same-Shrunk (is_before collate) o s.background_ready v.0.back_valid r.snapshot.id
                (λ x h same. v.0.apart e x held (inr h) (id ∙ sym same)))
              (rw id at (
                pop-Shrunk (is_ready_before collate) (is_ready_before-IsOrder collate c)
                  s.delayed_ready v.0.delayed_valid e next)),
          Records-take s.records (length s.records) e.ref r w.1 within v.1,
          v.2,
          Promises-take s.records (length s.records) e.ref r w.1 within none r.settle s.promises
              ((λ p h. cc h), (λ p act h. h)) v.3,
        )

  promote_loop-Valid :
      (fuel : ℕ) (s : TaskScheduler)
      → IsValidScheduler collate s
      → IsValidScheduler collate (promote_loop collate fuel now s)
  unfolding promote_loop
  promote_loop-Valid zero s v = v
  promote_loop-Valid (suc fuel) s v = elim (Option-cases (peek s.delayed_ready)) [
    | inl nothing ↦ rw (promote_loop, nothing) v
    | inr (e, next) ↦
        let held =
          (pop-peek (is_ready_before collate) (is_ready_before-IsOrder collate c) s.delayed_ready e
            v.0.delayed_valid next).held in
        let w = v.0.delayed_waits e held in
        let r = w.0 in
        let s' = record s { delayed_ready = (pop (is_ready_before collate) s.delayed_ready).0 } in
        let sound = v.1.sound e.ref r w.1 w.4 in
        let pushed =
          Open-push_ready collate c s' e.ref r.settle (popped_delayed s v e w next) r w.1 sound w.3
            (λ p h. (rw w.3 refl, h)) in
        elim (Bool-cases (ltb now e.ready_at)) [
          | inl later ↦ rw (promote_loop, next, later) v
          | inr ready ↦
              rw (promote_loop, next, ready, w.1, queued-may_start r sound w.3)
                (promote_loop-Valid fuel (push_ready collate e.ref r s') pushed)
        ]
  ]

  pub promote_ready-Valid :
      (s : TaskScheduler)
      → IsValidScheduler collate s
      → IsValidScheduler collate (promote_ready collate now s)
  unfolding promote_ready
  promote_ready-Valid s v =
      IsValidScheduler-timer collate c (promote_loop collate (length s.delayed_ready.entries) now s)
        (promote_loop-Valid (length s.delayed_ready.entries) s v)

  module _ (s : TaskScheduler) (v : IsValidScheduler collate s) (e : Entry) where
    abbrev all : ℕ
    all = length s.records

    abbrev pub fore_popped : TaskScheduler
    fore_popped = record s { foreground_ready = (pop (is_before collate) s.foreground_ready).0 }

    abbrev pub back_popped : TaskScheduler
    back_popped = record s { background_ready = (pop (is_before collate) s.background_ready).0 }

    pub round_fore :
        ltb s.running_foreground s.max_foreground ≡ true
        → peek s.foreground_ready ≡ some e
        → IsValidScheduler collate (start_popped collate now e fore_popped)
    round_fore room next =
        let o = is_before-IsOrder collate c in
        let p = pop-peek (is_before collate) o s.foreground_ready e v.0.fore_valid next in
        let w = v.0.fore_waits e p.held in
        let r = w.0 in
        let id : e.id ≡ r.snapshot.id = ap (λ (x : Entry). x.id) (sym w.2) in
        let within = inside-length s.records e.ref in
        start_popped-Valid collate c now fore_popped e r w.1 (v.1.sound e.ref r w.1 w.4) w.3
          (
            Queues-shrink collate all s.records s.foreground_ready s.background_ready
                s.delayed_ready v.0 v.1 e.ref r w.1 within _ _ _
                (rw id at
                  (pop-Shrunk (is_before collate) o s.foreground_ready v.0.fore_valid e next))
                (same-Shrunk (is_before collate) o s.background_ready v.0.back_valid r.snapshot.id
                  (λ x h same.
                    let bg =
                      (own collate all s.records s.foreground_ready s.background_ready
                        s.delayed_ready v.0 v.1 e.ref r w.1 x {P = Background} (v.0.back_waits x h)
                        same).1 in
                    cc (bg, w.5)))
                (same-Shrunk (is_ready_before collate) (is_ready_before-IsOrder collate c)
                  s.delayed_ready v.0.delayed_valid r.snapshot.id
                  (λ x h same. v.0.apart x e h (inl p.held) (same ∙ sym id))),
            Records-take s.records all e.ref r w.1 within v.1,
            v.2,
            Promises-take s.records all e.ref r w.1 within none r.settle s.promises
                ((λ p h. cc h), (λ p act h. h)) v.3,
          )
          (λ _. ltb→lt s.running_foreground s.max_foreground room) (λ bg. cc (bg, w.5))

    pub round_back :
        ltb s.running_background s.max_background ≡ true
        → peek s.background_ready ≡ some e
        → IsValidScheduler collate (start_popped collate now e back_popped)
    round_back room next =
        let o = is_before-IsOrder collate c in
        let p = pop-peek (is_before collate) o s.background_ready e v.0.back_valid next in
        let w = v.0.back_waits e p.held in
        let r = w.0 in
        let id : e.id ≡ r.snapshot.id = ap (λ (x : Entry). x.id) (sym w.2) in
        let within = inside-length s.records e.ref in
        start_popped-Valid collate c now back_popped e r w.1 (v.1.sound e.ref r w.1 w.4) w.3
          (
            Queues-shrink collate all s.records s.foreground_ready s.background_ready
                s.delayed_ready v.0 v.1 e.ref r w.1 within _ _ _
                (same-Shrunk (is_before collate) o s.foreground_ready v.0.fore_valid r.snapshot.id
                  (λ x h same.
                    let fg =
                      (own collate all s.records s.foreground_ready s.background_ready
                        s.delayed_ready v.0 v.1 e.ref r w.1 x {P = Foreground} (v.0.fore_waits x h)
                        same).1 in
                    cc (fg, w.5)))
                (rw id at
                  (pop-Shrunk (is_before collate) o s.background_ready v.0.back_valid e next))
                (same-Shrunk (is_ready_before collate) (is_ready_before-IsOrder collate c)
                  s.delayed_ready v.0.delayed_valid r.snapshot.id
                  (λ x h same. v.0.apart x e h (inr p.held) (same ∙ sym id))),
            Records-take s.records all e.ref r w.1 within v.1,
            v.2,
            Promises-take s.records all e.ref r w.1 within none r.settle s.promises
                ((λ p h. cc h), (λ p act h. h)) v.3,
          )
          (λ fg. cc (fg, w.5)) (λ _. ltb→lt s.running_background s.max_background room)
