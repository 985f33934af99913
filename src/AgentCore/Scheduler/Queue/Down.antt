-- ===== src/AgentCore/Scheduler/Queue/Down.antt =====
-- `sift_down` restores the heap order.
use inkpi.Base.{
  ℕ, zero, suc, ◌+◌, ◌*◌, ◌<◌, ◌≤◌, ◌≡◌, ◌≢◌, refl, ◌⊎◌, inl, inr, Bool, length, ltb, ◌==◌, ◌&&◌,
  Bool-cases, ltb→lt, ==→eq, arith,
}
use inkpi.AgentCore.Scheduler.Queue.Arrays.{Entry, entry_at}
use inkpi.AgentCore.Scheduler.Queue.{
  ScheduledPriorityQueue, parent_index, swap, first_of, sift_down, sift_from,
}
use inkpi.AgentCore.Scheduler.Queue.Index.{entry_at-swap, length-swap, first_of_bounds}
use inkpi.AgentCore.Scheduler.Queue.Order.{
  IsOrder, InOrder, IsHeap, IsLoose, DownInv, asym_at, connected_at, sift_up-IsHeap,
}

module _ (is_before : Entry → Entry → Bool) (o : IsOrder is_before) where
  irrefl_at : (q : ScheduledPriorityQueue) (i : ℕ) → InOrder is_before q i i
  irrefl_at q i = ground (arith, asym_at is_before o q i i i)

  first_of_least :
      (q : ScheduledPriorityQueue) (f c : ℕ)
      → InOrder is_before q f (first_of is_before q f c)
        × (c < length q.entries → InOrder is_before q c (first_of is_before q f c))
        × ((first_of is_before q f c ≡ f)
            ⊎ ((first_of is_before q f c ≡ c) × (c < length q.entries)))
  unfolding first_of
  first_of_least q f c = elim (Bool-cases (ltb c (length q.entries))) [
    | inl inside ↦ elim (Bool-cases (is_before (entry_at q.entries c) (entry_at q.entries f))) [
      | inl before ↦
          rw (inside, before)
            (
              asym_at is_before o q c f f before,
              λ _. irrefl_at q c,
              inr (refl, ltb→lt c (length q.entries) inside),
            )
      | inr after ↦ rw (inside, after) (irrefl_at q f, λ _. after, inl refl)
    ]
    | inr outside ↦ rw outside (irrefl_at q f, λ lt. absurd (ground arith), inl refl)
  ]

  -- The child that `sift_down` swaps with: the first of a node and its children.
  record IsFirst (q : ScheduledPriorityQueue) (i f : ℕ) : Type 0 where
    here : InOrder is_before q i f
    least : (c : ℕ) → 0 < c → c < length q.entries → parent_index c ≡ i → InOrder is_before q c f
    child : (f ≡ i) ⊎ ((0 < f) × (f < length q.entries) × (parent_index f ≡ i))

  abbrev first : ScheduledPriorityQueue → ℕ → ℕ
  first q i = first_of is_before q (first_of is_before q i (i * 2 + 1)) (i * 2 + 1 + 1)

  first-IsFirst : (q : ScheduledPriorityQueue) (i : ℕ) → IsFirst q i (first q i)
  first-IsFirst q i =
      let l = i * 2 + 1 in
      let f = first_of is_before q i l in
      let (keep, left, one) = first_of_least q i l in
      let (kept, right, two) = first_of_least q f (l + 1) in
      record {
        here = connected_at is_before o q i f (first q i) keep kept;
        least = λ c pos lt e.
            let side : (c ≡ l) ⊎ (c ≡ l + 1) = ground arith in
            elim side [
              | inl isl ↦
                  connected_at is_before o q c f (first q i) (rw isl (left (omega arith))) kept
              | inr isr ↦ rw isr (right (omega arith))
            ];
        child = ground arith;
      }

  module _ (q : ScheduledPriorityQueue) (i f : ℕ) (hi : i < length q.entries)
      (hf : f < length q.entries) (v : DownInv is_before q i) (s : IsFirst q i f) (ne : f ≢ i) where
    sink-edges :
        (c : ℕ)
        → 0 < c
        → c < length q.entries
        → parent_index c ≢ f
        → InOrder is_before (swap q i f) c (parent_index c)
    sink-edges c pos lt away = ground (
      arith,
      entry_at-swap q i f hi hf c,
      entry_at-swap q i f hi hf (parent_index c),
      s.least c,
      s.here,
      s.child,
      v.edges c,
      v.bridged f,
    )

    sink-bridged :
        (c : ℕ)
        → 0 < c
        → c < length q.entries
        → parent_index c ≡ f
        → InOrder is_before (swap q i f) c (parent_index f)
    sink-bridged c pos lt e = ground (
      arith,
      entry_at-swap q i f hi hf c,
      entry_at-swap q i f hi hf (parent_index f),
      s.child,
      v.edges c,
    )

    sink-DownInv : DownInv is_before (swap q i f) f
    sink-DownInv = record {
      edges = λ c pos lt. sink-edges c pos (omega (arith, length-swap q i f));
      bridged = λ c pos lt e _. sink-bridged c pos (omega (arith, length-swap q i f)) e;
    }

  sift_down-IsHeap :
      (fuel : ℕ) (q : ScheduledPriorityQueue) (i : ℕ)
      → length q.entries ≤ fuel + i
      → i < length q.entries
      → DownInv is_before q i
      → IsHeap is_before (sift_down is_before fuel q i)
  unfolding sift_down
  sift_down-IsHeap zero q i le hi v = absurd (omega arith)
  sift_down-IsHeap (suc fuel) q i le hi v =
      let f = first q i in
      let s = first-IsFirst q i in
      let hf =
        first_of_bounds is_before q (first_of is_before q i (i * 2 + 1)) (i * 2 + 1 + 1)
          (first_of_bounds is_before q i (i * 2 + 1) hi) in
      elim (Bool-cases (f == i)) [
        | inl stop ↦
            let e = ==→eq f i stop in rw stop (λ c pos lt. ground (arith, e, v.edges c, s.least c))
        | inr down ↦
            let ne : f ≢ i = ground arith in
            rw down (
              sift_down-IsHeap fuel (swap q i f) f (ground (arith, s.child, length-swap q i f))
                (omega (arith, hf, length-swap q i f)) (sink-DownInv q i f hi hf v s ne))
      ]

  -- An entry that was put somewhere, in a queue that was a heap up to its edges.
  pub sift_from-IsHeap :
      (q : ScheduledPriorityQueue) (i : ℕ)
      → i < length q.entries
      → IsLoose is_before q i
      → IsHeap is_before (sift_from is_before q i)
  unfolding sift_from
  sift_from-IsHeap q i hi v =
      let p = parent_index i in
      elim (Bool-cases (ltb 0 i && is_before (entry_at q.entries i) (entry_at q.entries p))) [
        | inl up ↦ rw up (
            sift_up-IsHeap is_before o i q i (omega arith) hi (record {
              edges = λ c pos lt ne. ground (
                arith,
                v.edges c,
                v.bridged c,
                asym_at is_before o q i p p,
                connected_at is_before o q c p i,
              );
              bridged = v.bridged;
            }))
        | inr down ↦ rw down (
            sift_down-IsHeap (length q.entries) q i (omega arith) hi
              (record { edges = λ c pos lt ne. ground (arith, v.edges c); bridged = v.bridged }))
      ]
