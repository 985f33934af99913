-- ===== src/AgentCore/Scheduler/Queue/Laws.antt =====
-- What the operations of a queue do: the entries that it holds afterwards, and that it stays a heap
-- with exact positions.
use Prim.Native.String.{String}
use inkpi.Base.{
  ℕ, zero, suc, ◌+◌, ◌-◌, ◌<◌, ◌≡◌, ◌≢◌, refl, ◌∙◌, ap, subst, ◌↔◌, ◌⊎◌, inl, inr, Bool, false,
  Option, none, some, List, [], ◌∷◌, length, get_elem?, ltb, Bool-cases, Option-cases, ltb→lt,
  lt→ltb, ltb→le, List-cases, arith,
}
use inkpi.AgentCore.Scheduler.Queue.Arrays.{Entry, entry_at, entry_at-append, entry_at-take}
use inkpi.AgentCore.Scheduler.Queue.{
  ScheduledPriorityQueue, empty_queue, parent_index, push, remove_at, pop, remove, peek,
}
use inkpi.AgentCore.Scheduler.Queue.Index.{Holds, sift_up-Keeps, sift_from-Keeps}
use inkpi.AgentCore.Scheduler.Queue.Order.{
  IsOrder, InOrder, IsHeap, IsLoose, IsValid, connected_at, sift_up-IsHeap,
}
use inkpi.AgentCore.Scheduler.Queue.Down.{sift_from-IsHeap}
use inkpi.AgentCore.Scheduler.Queue.Contents.{
  positions-none, appended, length-appended, appended-IsIndexed, Holds-appended, size,
  length-shortened, moved, length-moved, entry_at-moved, shortened-IsIndexed, moved-IsIndexed,
  Others, Others-shortened, Others-moved,
}

module _ (is_before : Entry → Entry → Bool) (o : IsOrder is_before) where
  pub empty_queue-IsValid : IsValid is_before empty_queue
  empty_queue-IsValid = record {
    indexed = record { found = λ i hi. absurd (omega arith); placed = λ k i h. cc h };
    heap = λ c pos lt. absurd (omega arith);
  }

  -- An entry that is new stands in the queue after `push`, beside what stood there.
  pub push_lem :
      (q : ScheduledPriorityQueue) (e : Entry)
      → IsValid is_before q
      → q.positions e.id ≡ none
      → IsValid is_before (push is_before q e)
        × ((x : Entry) → Holds (push is_before q e) x ↔ (Holds q x ⊎ (x ≡ e)))
  unfolding push
  push_lem q e v new =
      let n = length q.entries in
      let k = sift_up-Keeps is_before n (appended q e) n (omega (arith, length-appended q e)) in
      let h =
        sift_up-IsHeap is_before o n (appended q e) n (omega arith)
          (omega (arith, length-appended q e))
          (record {
            edges = λ c pos lt ne. ground (
              arith,
              length-appended q e,
              entry_at-append q.entries e c,
              entry_at-append q.entries e (parent_index c),
              v.heap c,
            );
            bridged = λ c pos lt up. absurd (omega (arith, length-appended q e));
          }) in
      rw (push, new)
        (
          record { indexed = k.indexed (appended-IsIndexed q e v.indexed new); heap = h },
          λ x. (
            λ hx. (Holds-appended q e x).0 ((k.same x).1 hx),
            λ hx. (k.same x).0 ((Holds-appended q e x).1 hx),
          ),
        )

  module _ (q : ScheduledPriorityQueue) (index : ℕ) (v : IsValid is_before q)
      (inside : index < length q.entries) where
    moved-IsLoose :
        index < size q index v.indexed inside
        → IsLoose is_before (moved q index v.indexed inside) index
    moved-IsLoose lt =
        let at = entry_at-moved q index v.indexed inside in
        let len = length-moved q index v.indexed inside in
        record {
          edges = λ c pos hc ne away. ground (arith, len, at c, at (parent_index c), v.heap c);
          bridged = λ c pos hc e up. ground (
            arith,
            len,
            at c,
            at (parent_index index),
            v.heap c,
            v.heap index,
            connected_at is_before o q c index (parent_index index),
          );
        }

    -- `removeAt` takes out the entry at its index and no other.
    remove_at_lem :
        ((remove_at is_before q index).1 ≡ some (entry_at q.entries index))
        × IsValid is_before (remove_at is_before q index).0
        × Others q index v.indexed inside (remove_at is_before q index).0
        × (length (remove_at is_before q index).0.entries + 1 ≡ length q.entries)
    unfolding remove_at
    remove_at_lem = elim (Bool-cases (ltb index (size q index v.indexed inside))) [
      | inl more ↦
          let lt = ltb→lt index (size q index v.indexed inside) more in
          let m = moved q index v.indexed inside in
          let len = length-moved q index v.indexed inside in
          let k = sift_from-Keeps is_before m index (omega (arith, len)) in
          rw (lt→ltb index (length q.entries) inside, more)
            (
              refl,
              record {
                indexed = k.indexed (moved-IsIndexed q index v.indexed inside lt);
                heap = sift_from-IsHeap is_before o m index (omega (arith, len)) (moved-IsLoose lt);
              },
              (λ x. (
                λ h. (Others-moved q index v.indexed inside lt x).0 ((k.same x).1 h),
                λ h. (k.same x).0 ((Others-moved q index v.indexed inside lt x).1 h),
              )),
              omega (arith, k.size, len),
            )
      | inr last ↦
          let e : index ≡ size q index v.indexed inside = omega (arith, ltb→le _ _ last) in
          let len = length-shortened q index v.indexed inside in
          rw (lt→ltb index (length q.entries) inside, last)
            (
              refl,
              record {
                indexed = shortened-IsIndexed q index v.indexed inside e;
                heap = λ c pos lt. ground (
                  arith,
                  len,
                  v.heap c,
                  entry_at-take (length q.entries - 1) q.entries c,
                  entry_at-take (length q.entries - 1) q.entries (parent_index c),
                );
              },
              Others-shortened q index v.indexed inside e,
              omega (arith, len),
            )
    ]

  root_least :
      (fuel : ℕ) (q : ScheduledPriorityQueue) (i : ℕ)
      → IsHeap is_before q
      → i < fuel
      → i < length q.entries
      → InOrder is_before q i 0
  root_least zero q i h f lt = absurd (omega arith)
  root_least (suc fuel) q zero h f lt = let e = entry_at q.entries 0 in ground (arith, o.asym e e)
  root_least (suc fuel) q (suc i) h f lt =
      connected_at is_before o q (suc i) (parent_index (suc i)) 0 (h (suc i) (omega arith) lt)
        (root_least fuel q (parent_index (suc i)) h (omega arith) (omega arith))

  -- What `pop` returns: the entry that `peek` shows, which is in the queue and which no entry is
  -- before; the others are left.
  pub record Popped (q : ScheduledPriorityQueue) (e : Entry)
      (r : ScheduledPriorityQueue × Option Entry) : Type 0 where
    pub returned : r.1 ≡ some e
    pub valid : IsValid is_before r.0
    pub held : Holds q e
    pub least : (x : Entry) → Holds q x → is_before x e ≡ false
    pub others : (x : Entry) → Holds r.0 x ↔ (Holds q x × (x.id ≢ e.id))
    pub shorter : length r.0.entries + 1 ≡ length q.entries

  peek-at :
      (es : List Entry) (e : Entry)
      → get_elem? es 0 ≡ some e
      → (entry_at es 0 ≡ e) × (0 < length es)
  unfolding entry_at
  peek-at [] e h = cc h
  peek-at (x ∷ es) e h = (cc, omega arith)

  pop-Popped :
      (q : ScheduledPriorityQueue) (e : Entry)
      → IsValid is_before q
      → entry_at q.entries 0 ≡ e
      → 0 < length q.entries
      → Popped q e (pop is_before q)
  unfolding pop
  pop-Popped q e v at inside =
      let (returned, valid, others, shorter) = remove_at_lem q 0 v inside in
      record {
        returned = returned ∙ ap some at;
        valid = valid;
        held = (0, inside, at);
        least = λ x (i, hi, same).
            subst (λ y. is_before y e ≡ false) same
              (subst (λ y. is_before (entry_at q.entries i) y ≡ false) at
                (root_least (suc i) q i v.heap (omega arith) hi));
        others = λ x.
            subst (λ y. Holds (remove_at is_before q 0).0 x ↔ (Holds q x × (x.id ≢ y.id))) at
              (others x);
        shorter = shorter;
      }

  -- The entry that `peek` shows of a valid queue, in an order of its entries: `pop` returns it, no entry of
  -- the queue is before it, and the others, and only they, are left in a valid queue.
  pub pop-peek :
      (q : ScheduledPriorityQueue) (e : Entry)
      → IsValid is_before q
      → peek q ≡ some e
      → Popped q e (pop is_before q)
  unfolding peek
  pop-peek q e v h = let (at, inside) = peek-at q.entries e h in pop-Popped q e v at inside

  pub peek-none : (q : ScheduledPriorityQueue) → peek q ≡ none → (e : Entry) → ¬ Holds q e
  unfolding peek
  peek-none q h e (i, hi, at) = elim (List-cases q.entries) [
    | inl nothing ↦ absurd (omega (arith, ap (length {0}) nothing))
    | inr (x, xs, more) ↦ cc
  ]

  -- `remove` takes out of a valid queue, in an order of its entries, the entry with an identifier and no
  -- other, and leaves a valid queue.
  pub remove_lem :
      (q : ScheduledPriorityQueue) (id : String)
      → IsValid is_before q
      → IsValid is_before (remove is_before q id).0
        × ((x : Entry) → Holds (remove is_before q id).0 x ↔ (Holds q x × (x.id ≢ id)))
  unfolding remove
  remove_lem q id v = elim (Option-cases (q.positions id)) [
    | inl absent ↦
        rw (remove, absent)
          (v, λ x. (λ hx. (hx, λ e. positions-none q v.indexed x (rw e absent) hx), λ hx. hx.0))
    | inr (i, at) ↦
        let (inside, same) = v.indexed.placed id i at in
        let (returned, valid, others, shorter) = remove_at_lem q i v inside in
        rw (remove, at) (valid, λ x. rw same at (others x))
  ]
