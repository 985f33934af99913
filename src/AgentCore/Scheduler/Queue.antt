-- ===== src/AgentCore/Scheduler/Queue.antt =====
-- The class `ScheduledPriorityQueue` of packages/agent-core/src/lifecycle/scheduler.ts: a binary heap
-- with the position of each identifier. An entry has what the queue reads of a record; a map is a
-- function.
pub mod Arrays
pub mod Index
pub mod Order
pub mod Down
pub mod Contents
pub mod Laws
pub mod Examples
use Prim.Native.String.{String}
use text.Mathlib.Text.{◌==◌ as str_eq}
use inkpi.Base.{
  ℕ, zero, suc, ◌+◌, ◌-◌, ◌*◌, ◌/◌, Bool, true, false, ◌&&◌, Option, none, some, List, [], ◌∷◌,
  ◌++◌, length, get_elem?, take, ltb, ◌==◌, if◌then◌else◌,
}
use inkpi.AgentCore.Scheduler.Queue.Arrays.{Entry, entry_at, set}

pub record ScheduledPriorityQueue : Type 0 where
  pub entries : List Entry
  pub positions : String → Option ℕ

abbrev pub empty_queue : ScheduledPriorityQueue
empty_queue = record { entries = []; positions = λ k. none }

-- `positions.set(id, index)`
abbrev pub put : String → ℕ → (String → Option ℕ) → String → Option ℕ
put id index positions k = if str_eq id k then some index else positions k

-- `positions.delete(id)`
abbrev pub forget : String → (String → Option ℕ) → String → Option ℕ
forget id positions k = if str_eq id k then none else positions k

abbrev pub parent_index : ℕ → ℕ
parent_index index = (index - 1) / 2

unfoldable pub peek : ScheduledPriorityQueue → Option Entry
peek q = get_elem? q.entries 0

unfoldable pub swap : ScheduledPriorityQueue → ℕ → ℕ → ScheduledPriorityQueue
swap q left right =
    let left_entry = entry_at q.entries left in
    let right_entry = entry_at q.entries right in
    record {
      entries = set (set q.entries left right_entry) right left_entry;
      positions = put right_entry.id left (put left_entry.id right q.positions);
    }

-- `is_before l r` is `this.compare(l, r) < 0`.
module _ (is_before : Entry → Entry → Bool) where
  -- The fuel is the index: a parent stands before its children.
  unfoldable pub sift_up : ℕ → ScheduledPriorityQueue → ℕ → ScheduledPriorityQueue
  sift_up zero q index = q
  sift_up (suc fuel) q index =
      let parent = parent_index index in
      let risen = sift_up fuel (swap q index parent) parent in
      if ltb 0 index && is_before (entry_at q.entries index) (entry_at q.entries parent)
      then risen
      else q

  unfoldable pub first_of : ScheduledPriorityQueue → ℕ → ℕ → ℕ
  first_of q first child =
      if ltb child (length q.entries)
        && is_before (entry_at q.entries child) (entry_at q.entries first)
      then child
      else first

  -- The fuel is the number of entries.
  unfoldable pub sift_down : ℕ → ScheduledPriorityQueue → ℕ → ScheduledPriorityQueue
  sift_down zero q index = q
  sift_down (suc fuel) q index =
      let left = index * 2 + 1 in
      let first = first_of q (first_of q index left) (left + 1) in
      let sunk = sift_down fuel (swap q index first) first in if first == index then q else sunk

  unfoldable pub push : ScheduledPriorityQueue → Entry → ScheduledPriorityQueue
  push q e = elim (q.positions e.id) [
    | some _ ↦ q
    | none ↦
        sift_up (length q.entries)
          (record {
            entries = q.entries ++ (e ∷ []);
            positions = put e.id (length q.entries) q.positions;
          })
          (length q.entries)
  ]

  -- The entry that was last, at the place of the one that was removed.
  unfoldable pub sift_from : ScheduledPriorityQueue → ℕ → ScheduledPriorityQueue
  sift_from q index =
      if ltb 0 index
        && is_before (entry_at q.entries index) (entry_at q.entries (parent_index index))
      then sift_up index q index
      else sift_down (length q.entries) q index

  unfoldable pub remove_at : ScheduledPriorityQueue → ℕ → ScheduledPriorityQueue × Option Entry
  remove_at q index =
      let removed = entry_at q.entries index in
      let size = length q.entries - 1 in
      let last = entry_at q.entries size in
      let entries = take size q.entries in
      let positions = forget removed.id q.positions in
      if ltb index (length q.entries)
      then (
        if ltb index size
            then sift_from
                (record {
                  entries = set entries index last;
                  positions = put last.id index positions;
                })
                index
            else record { entries = entries; positions = positions },
        some removed,
      )
      else (q, none)

  unfoldable pub pop : ScheduledPriorityQueue → ScheduledPriorityQueue × Option Entry
  pop q = remove_at q 0

  unfoldable pub remove : ScheduledPriorityQueue → String → ScheduledPriorityQueue × Bool
  remove q id = elim (q.positions id) [
    | none ↦ (q, false)
    | some index ↦ ((remove_at q index).0, true)
  ]
