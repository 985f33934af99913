-- ===== src/AgentCore/Scheduler/Queue/Order.antt =====
-- The heap order of a queue: no entry is before its parent.
use inkpi.Base.{
  ℕ, zero, suc, ◌<◌, ◌≤◌, ◌≡◌, ◌≢◌, inl, inr, Bool, true, false, length, ltb, Bool-cases, ltb→lt,
  arith,
}
use inkpi.AgentCore.Scheduler.Queue.Arrays.{Entry, entry_at}
use inkpi.AgentCore.Scheduler.Queue.{ScheduledPriorityQueue, parent_index, swap, sift_up}
use inkpi.AgentCore.Scheduler.Queue.Index.{IsIndexed, entry_at-swap, length-swap}

-- What a queue relies on: `compare` orders the entries, up to ties.
pub record IsOrder (is_before : Entry → Entry → Bool) : Type 0 where
  pub asym : (a b : Entry) → is_before a b ≡ true → is_before b a ≡ false
  pub connected :
      (a b c : Entry) → is_before a b ≡ false → is_before b c ≡ false → is_before a c ≡ false

module _ (is_before : Entry → Entry → Bool) where
  -- The entry at `c` is not before that at `d`.
  abbrev pub InOrder : ScheduledPriorityQueue → ℕ → ℕ → Type 0
  InOrder q c d = is_before (entry_at q.entries c) (entry_at q.entries d) ≡ false

  abbrev pub IsHeap : ScheduledPriorityQueue → Type 0
  IsHeap q = (c : ℕ) → 0 < c → c < length q.entries → InOrder q c (parent_index c)

  abbrev pub IsBridged : ScheduledPriorityQueue → ℕ → Type 0
  IsBridged q i =
      (c : ℕ)
      → 0 < c
      → c < length q.entries
      → parent_index c ≡ i
      → 0 < i
      → InOrder q c (parent_index i)

  -- Only the edges at `i` may be out of order.
  pub record IsLoose (q : ScheduledPriorityQueue) (i : ℕ) : Type 0 where
    pub edges :
        (c : ℕ)
        → 0 < c
        → c < length q.entries
        → c ≢ i
        → parent_index c ≢ i
        → InOrder q c (parent_index c)
    pub bridged : IsBridged q i

  -- Only the edge above `i` may be out of order.
  pub record UpInv (q : ScheduledPriorityQueue) (i : ℕ) : Type 0 where
    pub edges : (c : ℕ) → 0 < c → c < length q.entries → c ≢ i → InOrder q c (parent_index c)
    pub bridged : IsBridged q i

  -- Only the edges below `i` may be out of order.
  pub record DownInv (q : ScheduledPriorityQueue) (i : ℕ) : Type 0 where
    pub edges :
        (c : ℕ) → 0 < c → c < length q.entries → parent_index c ≢ i → InOrder q c (parent_index c)
    pub bridged : IsBridged q i

  -- A heap with exact positions.
  pub record IsValid (q : ScheduledPriorityQueue) : Type 0 where
    pub indexed : IsIndexed q
    pub heap : IsHeap q

  module _ (o : IsOrder is_before) where
    module _ (q : ScheduledPriorityQueue) (i j k : ℕ) where
      pub asym_at : is_before (entry_at q.entries i) (entry_at q.entries j) ≡ true → InOrder q j i
      asym_at = o.asym (entry_at q.entries i) (entry_at q.entries j)

      pub connected_at : InOrder q i j → InOrder q j k → InOrder q i k
      connected_at =
          o.connected (entry_at q.entries i) (entry_at q.entries j) (entry_at q.entries k)

    module _ (q : ScheduledPriorityQueue) (i : ℕ) (hi : i < length q.entries) (v : UpInv q i)
        (pos : 0 < i)
        (before : is_before (entry_at q.entries i) (entry_at q.entries (parent_index i))
          ≡ true) where
      rise-edges :
          (c : ℕ)
          → 0 < c
          → c < length q.entries
          → c ≢ parent_index i
          → InOrder (swap q i (parent_index i)) c (parent_index c)
      rise-edges c hc lt ne =
          let p = parent_index i in
          let hp : p < length q.entries = omega arith in
          ground (
            arith,
            entry_at-swap q i p hi hp c,
            entry_at-swap q i p hi hp (parent_index c),
            asym_at q i p p,
            connected_at q c p i,
            v.edges c,
            v.bridged c,
          )

      rise-bridged :
          (c : ℕ)
          → 0 < c
          → c < length q.entries
          → parent_index c ≡ parent_index i
          → 0 < parent_index i
          → InOrder (swap q i (parent_index i)) c (parent_index (parent_index i))
      rise-bridged c hc lt e up =
          let p = parent_index i in
          let hp : p < length q.entries = omega arith in
          ground (
            arith,
            entry_at-swap q i p hi hp c,
            entry_at-swap q i p hi hp (parent_index p),
            connected_at q c p (parent_index p),
            v.edges p,
            v.edges c,
          )

      rise-UpInv : UpInv (swap q i (parent_index i)) (parent_index i)
      rise-UpInv = record {
        edges = λ c hc lt ne. rise-edges c hc (omega (arith, length-swap q i (parent_index i))) ne;
        bridged = λ c hc lt. rise-bridged c hc (omega (arith, length-swap q i (parent_index i)));
      }

    pub sift_up-IsHeap :
        (fuel : ℕ) (q : ScheduledPriorityQueue) (i : ℕ)
        → i ≤ fuel
        → i < length q.entries
        → UpInv q i
        → IsHeap (sift_up is_before fuel q i)
    unfolding sift_up
    sift_up-IsHeap zero q i le hi v = λ c hc lt. v.edges c hc lt (omega arith)
    sift_up-IsHeap (suc fuel) q i le hi v =
        let p = parent_index i in
        elim (Bool-cases (ltb 0 i)) [
          | inl pos ↦ elim (Bool-cases (is_before (entry_at q.entries i) (entry_at q.entries p))) [
            | inl before ↦
                rw (pos, before)
                  (sift_up-IsHeap fuel (swap q i p) p (omega (arith, ltb→lt 0 i pos))
                    (omega (arith, length-swap q i p))
                    (rise-UpInv q i hi v (ltb→lt 0 i pos) before))
            | inr settled ↦ rw (pos, settled) (λ c hc lt. ground (arith, v.edges c))
          ]
          | inr root ↦ rw root (λ c hc lt. ground (arith, v.edges c))
        ]
