-- ===== src/AgentCore/Scheduler/Queue/Index.antt =====
-- The positions of a queue are exact, and what its operations do to the entries it holds.
use Prim.Native.String.{String}
use text.Mathlib.TextEquality.{eq_iff}
use inkpi.Base.{
  ℕ, zero, suc, ◌+◌, ◌*◌, ◌<◌, ◌≡◌, refl, ◌↔◌, inl, inr, Bool, some, length, ltb, ◌==◌, ◌&&◌,
  if◌then◌else◌, Bool-cases, arith,
}
use inkpi.AgentCore.Scheduler.Queue.Arrays.{Entry, entry_at, set, length-set, entry_at-set}
use inkpi.AgentCore.Scheduler.Queue.{
  ScheduledPriorityQueue, put, parent_index, swap, sift_up, first_of, sift_down, sift_from,
}

pub record IsIndexed (q : ScheduledPriorityQueue) : Type 0 where
  pub found : (i : ℕ) → i < length q.entries → q.positions (entry_at q.entries i).id ≡ some i
  pub placed :
      (k : String) (i : ℕ)
      → q.positions k ≡ some i
      → (i < length q.entries) × ((entry_at q.entries i).id ≡ k)

-- An entry stands in the queue.
abbrev pub Holds : ScheduledPriorityQueue → Entry → Type 0
Holds q e = (i : ℕ) × (i < length q.entries) × (entry_at q.entries i ≡ e)

abbrev pub Same : ScheduledPriorityQueue → ScheduledPriorityQueue → Type 0
Same q q' = (e : Entry) → Holds q e ↔ Holds q' e

pub Same-trans : (p q r : ScheduledPriorityQueue) → Same p q → Same q r → Same p r
Same-trans p q r f g e = (λ h. (g e).0 ((f e).0 h), λ h. (f e).1 ((g e).1 h))

module _ (q : ScheduledPriorityQueue) (i j : ℕ) where
  pub length-swap : length (swap q i j).entries ≡ length q.entries
  unfolding swap
  length-swap = omega (
    arith,
    length-set q.entries i (entry_at q.entries j),
    length-set (set q.entries i (entry_at q.entries j)) j (entry_at q.entries i),
  )

  module _ (hi : i < length q.entries) (hj : j < length q.entries) where
    pub entry_at-swap :
        (c : ℕ)
        → entry_at (swap q i j).entries c ≡ (
            if j == c
            then entry_at q.entries i
            else if i == c
            then entry_at q.entries j
            else entry_at q.entries c)
    unfolding swap
    entry_at-swap c = ground (
      arith,
      length-set q.entries i (entry_at q.entries j),
      entry_at-set (set q.entries i (entry_at q.entries j)) j c (entry_at q.entries i),
      entry_at-set q.entries i c (entry_at q.entries j) hi,
    )

    swap-found :
        IsIndexed q
        → (c : ℕ) → c < length q.entries
        → (swap q i j).positions (entry_at (swap q i j).entries c).id ≡ some c
    swap-found v c hc = rw (entry_at-swap c) (
        unfold swap in
        ground (
          arith,
          eq_iff (entry_at q.entries j).id (entry_at q.entries i).id,
          eq_iff (entry_at q.entries i).id (entry_at q.entries i).id,
          eq_iff (entry_at q.entries j).id (entry_at q.entries j).id,
          eq_iff (entry_at q.entries j).id (entry_at q.entries c).id,
          eq_iff (entry_at q.entries i).id (entry_at q.entries c).id,
          v.found i hi,
          v.found j hj,
          v.found c hc,
        ))

    swap-placed :
        IsIndexed q
        → (k : String) (c : ℕ) → (swap q i j).positions k ≡ some c
        → (c < length q.entries) × ((entry_at (swap q i j).entries c).id ≡ k)
    swap-placed v k c h = rw (entry_at-swap c) (
        let h' : put (entry_at q.entries j).id i (put (entry_at q.entries i).id j q.positions) k
            ≡ some c =
          unfold swap in h in
        ground (
          arith,
          h',
          eq_iff (entry_at q.entries j).id k,
          eq_iff (entry_at q.entries i).id k,
          v.placed k c,
          v.found i hi,
          v.found j hj,
        ))

    pub swap-IsIndexed : IsIndexed q → IsIndexed (swap q i j)
    swap-IsIndexed v = record {
      found = λ c hc. swap-found v c (omega (arith, length-swap));
      placed = λ k c h. let (lt, at) = swap-placed v k c h in (omega (arith, length-swap), at);
    }

    swapped : ℕ → ℕ
    swapped c = if j == c then i else if i == c then j else c

    pub swap-Same : Same q (swap q i j)
    unfolding swapped
    swap-Same e = (
      λ (c, hc, at).
          (swapped c, ground (arith, length-swap), ground (arith, entry_at-swap (swapped c))),
      λ (c, hc, at). (swapped c, ground (arith, length-swap), ground (arith, entry_at-swap c)),
    )

-- `q'` holds the entries of `q` at other places.
pub record Keeps (q q' : ScheduledPriorityQueue) : Type 0 where
  pub indexed : IsIndexed q → IsIndexed q'
  pub same : Same q q'
  pub size : length q'.entries ≡ length q.entries

Keeps-refl : (q : ScheduledPriorityQueue) → Keeps q q
Keeps-refl q = record { indexed = λ v. v; same = λ e. (λ h. h, λ h. h); size = refl }

Keeps-swap :
    (q r : ScheduledPriorityQueue) (i j : ℕ)
    → i < length q.entries
    → j < length q.entries
    → Keeps (swap q i j) r
    → Keeps q r
Keeps-swap q r i j hi hj k = record {
  indexed = λ v. k.indexed (swap-IsIndexed q i j hi hj v);
  same = Same-trans q (swap q i j) r (swap-Same q i j hi hj) k.same;
  size = omega (arith, k.size, length-swap q i j);
}

module _ (is_before : Entry → Entry → Bool) where
  pub sift_up-Keeps :
      (fuel : ℕ) (q : ScheduledPriorityQueue) (index : ℕ)
      → index < length q.entries
      → Keeps q (sift_up is_before fuel q index)
  unfolding sift_up
  sift_up-Keeps zero q index h = Keeps-refl q
  sift_up-Keeps (suc fuel) q index h =
      let p = parent_index index in
      elim (Bool-cases
        (ltb 0 index && is_before (entry_at q.entries index) (entry_at q.entries p))) [
          | inl up ↦ rw up (
              Keeps-swap q _ index p h (omega arith)
                (sift_up-Keeps fuel (swap q index p) p (omega (arith, length-swap q index p))))
          | inr stop ↦ rw stop (Keeps-refl q)
        ]

  pub first_of_bounds :
      (q : ScheduledPriorityQueue) (first child : ℕ)
      → first < length q.entries
      → first_of is_before q first child < length q.entries
  unfolding first_of
  first_of_bounds q first child h = ground arith

  pub sift_down-Keeps :
      (fuel : ℕ) (q : ScheduledPriorityQueue) (index : ℕ)
      → index < length q.entries
      → Keeps q (sift_down is_before fuel q index)
  unfolding sift_down
  sift_down-Keeps zero q index h = Keeps-refl q
  sift_down-Keeps (suc fuel) q index h =
      let left = index * 2 + 1 in
      let first = first_of is_before q (first_of is_before q index left) (left + 1) in
      let inside =
        first_of_bounds q (first_of is_before q index left) (left + 1)
          (first_of_bounds q index left h) in
      elim (Bool-cases (first == index)) [
        | inl stop ↦ rw stop (Keeps-refl q)
        | inr down ↦ rw down (
            Keeps-swap q _ index first h inside (
              sift_down-Keeps fuel (swap q index first) first
                (omega (arith, inside, length-swap q index first))))
      ]

  pub sift_from-Keeps :
      (q : ScheduledPriorityQueue) (index : ℕ)
      → index < length q.entries
      → Keeps q (sift_from is_before q index)
  unfolding sift_from
  sift_from-Keeps q index h =
      elim (Bool-cases (
        ltb 0 index
        && is_before (entry_at q.entries index) (entry_at q.entries (parent_index index)))) [
          | inl up ↦ rw up (sift_up-Keeps index q index h)
          | inr down ↦ rw down (sift_down-Keeps (length q.entries) q index h)
        ]
