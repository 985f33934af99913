-- ===== src/AgentCore/Scheduler/Orders.antt =====
-- The comparisons of packages/agent-core/src/lifecycle/scheduler.ts order the entries of the queues.
use Prim.Native.Nat.{Ordering}
use Prim.Native.String.{String}
use inkpi.Base.{◌≡◌, ◌≤◌, refl, true, false, arith}
use inkpi.Base.Int.{ℤ, pos, negsuc, lt_int}
use inkpi.AgentCore.Scheduler.{
  compare_scheduled_records, compare_ready_records, is_before, is_ready_before, is_lt,
}
use inkpi.AgentCore.Scheduler.Queue.Arrays.{Entry}
use inkpi.AgentCore.Scheduler.Queue.Order.{IsOrder}

-- What the scheduler relies on of `String.localeCompare`: it orders the texts, up to ties.
pub record IsCollation (collate : String → String → Ordering) : Type 0 where
  pub asym : (a b : String) → is_lt (collate a b) ≡ true → is_lt (collate b a) ≡ false
  pub connected :
      (a b c : String)
      → is_lt (collate a b) ≡ false
      → is_lt (collate b c) ≡ false
      → is_lt (collate a c) ≡ false

lt_int-asym : (a b : ℤ) → lt_int a b ≡ true → lt_int b a ≡ false
lt_int-asym (pos a) (pos b) h = ground arith
lt_int-asym (pos a) (negsuc b) h = cc h
lt_int-asym (negsuc a) (pos b) h = refl
lt_int-asym (negsuc a) (negsuc b) h = ground arith

lt_int-connected : (a b c : ℤ) → lt_int a b ≡ false → lt_int b c ≡ false → lt_int a c ≡ false
lt_int-connected (pos a) (pos b) (pos c) h k = ground arith
lt_int-connected (pos a) (pos b) (negsuc c) h k = refl
lt_int-connected (pos a) (negsuc b) (pos c) h k = cc k
lt_int-connected (pos a) (negsuc b) (negsuc c) h k = refl
lt_int-connected (negsuc a) (pos b) c h k = cc h
lt_int-connected (negsuc a) (negsuc b) (pos c) h k = cc k
lt_int-connected (negsuc a) (negsuc b) (negsuc c) h k = ground arith

module _ (collate : String → String → Ordering) (o : IsCollation collate) where
  before-asym : (a b : Entry) → is_before collate a b ≡ true → is_before collate b a ≡ false
  unfolding compare_scheduled_records
  before-asym a b h = ground (
    arith,
    lt_int-asym a.priority b.priority,
    lt_int-asym b.priority a.priority,
    o.asym a.id b.id,
  )

  before-connected :
      (a b c : Entry)
      → is_before collate a b ≡ false
      → is_before collate b c ≡ false
      → is_before collate a c ≡ false
  unfolding compare_scheduled_records
  before-connected a b c h k = ground (
    arith,
    lt_int-asym b.priority a.priority,
    lt_int-asym c.priority b.priority,
    lt_int-asym c.priority a.priority,
    lt_int-connected a.priority b.priority c.priority,
    lt_int-connected b.priority a.priority c.priority,
    lt_int-connected a.priority c.priority b.priority,
    lt_int-connected b.priority c.priority a.priority,
    lt_int-connected c.priority b.priority a.priority,
    lt_int-connected c.priority a.priority b.priority,
    o.connected a.id b.id c.id,
  )

  pub is_before-IsOrder : IsOrder (is_before collate)
  is_before-IsOrder = record { asym = before-asym; connected = before-connected }

  pub is_ready_before-IsOrder : IsOrder (is_ready_before collate)
  unfolding compare_ready_records
  is_ready_before-IsOrder = record {
    asym = λ a b h. ground (arith, before-asym a b);
    connected = λ a b c h k. ground (arith, before-connected a b c);
  }

  -- What is not ready before an entry is ready no earlier.
  pub ready_no_earlier :
      (a b : Entry) → is_ready_before collate a b ≡ false → b.ready_at ≤ a.ready_at
  unfolding compare_ready_records
  ready_no_earlier a b h = ground arith
