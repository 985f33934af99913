-- ===== src/AgentCore/Scheduler/Queue/Contents.antt =====
-- The entries of a queue after one was put behind the last, and after one was taken out.
use text.Mathlib.TextEquality.{eq_iff}
use inkpi.Base.{
  ℕ, ◌+◌, ◌-◌, ◌<◌, ◌≡◌, ◌≢◌, ◌↔◌, ◌⊎◌, inl, inr, none, [], ◌∷◌, ◌++◌, length, take, length-append,
  length-take, ◌==◌, if◌then◌else◌, Bool-cases, arith,
}
use inkpi.AgentCore.Scheduler.Queue.Arrays.{
  Entry, entry_at, set, length-set, entry_at-set, entry_at-append, entry_at-take,
}
use inkpi.AgentCore.Scheduler.Queue.{ScheduledPriorityQueue, put, forget}
use inkpi.AgentCore.Scheduler.Queue.Index.{IsIndexed, Holds}

module _ (q : ScheduledPriorityQueue) (v : IsIndexed q) where
  -- The identifier of an entry that it does not hold.
  pub positions-none : (e : Entry) → q.positions e.id ≡ none → ¬ Holds q e
  positions-none e h (i, hi, at) = let here = v.found i hi in cc

module _ (q : ScheduledPriorityQueue) (e : Entry) where
  abbrev pub appended : ScheduledPriorityQueue
  appended = record {
    entries = q.entries ++ (e ∷ []);
    positions = put e.id (length q.entries) q.positions;
  }

  pub length-appended : length appended.entries ≡ length q.entries + 1
  length-appended = length-append q.entries (e ∷ [])

  pub appended-IsIndexed : IsIndexed q → q.positions e.id ≡ none → IsIndexed appended
  appended-IsIndexed v new = record {
    found = λ i hi. ground (
      arith,
      length-appended,
      entry_at-append q.entries e i,
      v.found i,
      eq_iff e.id (entry_at q.entries i).id,
      eq_iff e.id e.id,
    );
    placed = λ k i h.
        ground (arith, length-appended, entry_at-append q.entries e i, v.placed k i, eq_iff e.id k);
  }

  pub Holds-appended : (x : Entry) → Holds appended x ↔ (Holds q x ⊎ (x ≡ e))
  Holds-appended x = (
    λ (i, hi, at). elim (Bool-cases (i == length q.entries)) [
      | inl last ↦ inr (ground (arith, length-appended, entry_at-append q.entries e i))
      | inr old ↦ inl (
        i,
        ground (arith, length-appended),
        ground (arith, length-appended, entry_at-append q.entries e i),
      )
    ],
    λ h. elim h [
      | inl (i, hi, at) ↦
          (i, omega (arith, length-appended), ground (arith, entry_at-append q.entries e i))
      | inr same ↦ (
        length q.entries,
        omega (arith, length-appended),
        ground (arith, entry_at-append q.entries e (length q.entries)),
      )
    ],
  )

module _ (q : ScheduledPriorityQueue) (index : ℕ) (v : IsIndexed q)
    (inside : index < length q.entries) where
  abbrev pub size : ℕ
  size = length q.entries - 1

  abbrev pub removed : Entry
  removed = entry_at q.entries index

  abbrev pub shortened : ScheduledPriorityQueue
  shortened = record { entries = take size q.entries; positions = forget removed.id q.positions }

  pub length-shortened : length shortened.entries ≡ size
  length-shortened = omega (arith, length-take size q.entries)

  abbrev pub moved : ScheduledPriorityQueue
  moved = record {
    entries = set (take size q.entries) index (entry_at q.entries size);
    positions = put (entry_at q.entries size).id index (forget removed.id q.positions);
  }

  pub length-moved : length moved.entries ≡ size
  length-moved =
      omega
        (arith, length-shortened, length-set (take size q.entries) index (entry_at q.entries size))

  pub entry_at-moved :
      (i : ℕ)
      → index < size
      → i < size
      → entry_at moved.entries i
        ≡ (if index == i then entry_at q.entries size else entry_at q.entries i)
  entry_at-moved i lt hi = ground (
    arith,
    length-shortened,
    entry_at-set (take size q.entries) index i (entry_at q.entries size),
    entry_at-take size q.entries i,
  )

  pub shortened-IsIndexed : index ≡ size → IsIndexed shortened
  shortened-IsIndexed last = record {
    found = λ i hi. ground (
      arith,
      length-shortened,
      entry_at-take size q.entries i,
      v.found i,
      v.found index inside,
      eq_iff removed.id (entry_at q.entries i).id,
    );
    placed = λ k i h. ground (
      arith,
      length-shortened,
      entry_at-take size q.entries i,
      v.placed k i,
      v.found index inside,
      eq_iff removed.id k,
    );
  }

  pub moved-IsIndexed : index < size → IsIndexed moved
  moved-IsIndexed lt = record {
    found = λ i hi. ground (
      arith,
      length-moved,
      entry_at-moved i lt,
      v.found i,
      v.found index inside,
      v.found size,
      eq_iff removed.id (entry_at q.entries i).id,
      eq_iff (entry_at q.entries size).id (entry_at q.entries i).id,
      eq_iff (entry_at q.entries size).id (entry_at q.entries size).id,
    );
    placed = λ k i h. ground (
      arith,
      length-moved,
      entry_at-moved i lt,
      v.placed k i,
      v.found index inside,
      v.found size,
      eq_iff removed.id k,
      eq_iff (entry_at q.entries size).id k,
    );
  }

  -- What is held without the entry that was removed.
  abbrev pub Others : ScheduledPriorityQueue → Type 0
  Others q' = (x : Entry) → Holds q' x ↔ (Holds q x × (x.id ≢ removed.id))

  pub Others-shortened : index ≡ size → Others shortened
  Others-shortened last x = (
    λ (i, hi, at). (
      (
        i,
        omega (arith, length-shortened),
        ground (arith, length-shortened, entry_at-take size q.entries i),
      ),
      λ e. ground (
        arith,
        length-shortened,
        entry_at-take size q.entries i,
        v.found i,
        v.found index inside,
      ),
    ),
    λ ((i, hi, at), ne).
        let away : i ≢ index = λ e. ne (cc) in
        (i, omega (arith, length-shortened), ground (arith, entry_at-take size q.entries i)),
  )

  source_of : ℕ → ℕ
  source_of i = if index == i then size else i

  target_of : ℕ → ℕ
  target_of i = if i == size then index else i

  pub Others-moved : index < size → Others moved
  unfolding source_of target_of
  Others-moved lt x = (
    λ (i, hi, at). (
      (
        source_of i,
        ground (arith, length-moved),
        ground (arith, length-moved, entry_at-moved i lt),
      ),
      λ e.
          ground (
            arith,
            length-moved,
            entry_at-moved i lt,
            v.found i,
            v.found index inside,
            v.found size,
          ),
    ),
    λ ((i, hi, at), ne).
        let away : i ≢ index = λ e. ne (cc) in
        (
          target_of i,
          ground (arith, length-moved),
          ground (arith, entry_at-moved (target_of i) lt),
        ),
  )
