-- ===== src/AgentCore/Scheduler/Valid.antt =====
-- What holds of a `TaskScheduler` between its calls, and, while a method has one record in hand, of
-- all the others.
use Prim.Native.Nat.{Ordering}
use Prim.Native.String.{String}
use inkpi.Base.{
  ℕ, zero, suc, ◌+◌, ◌≤◌, ◌<◌, ◌≡◌, ◌≢◌, refl, ◌⊎◌, Bool, true, false, not, ◌||◌, Option, none,
  some, List, [], ◌∷◌, ◌++◌, All, length, get_elem?, ◌==◌, if◌then◌else◌, arith,
}
use inkpi.AgentCore.Scheduler.{
  ScheduledRecord, is_queued, is_running, is_interrupted, is_waiting, is_foreground, is_before,
  is_ready_before,
}
use inkpi.AgentCore.Scheduler.Queue.Arrays.{Entry, set}
use inkpi.AgentCore.Scheduler.Queue.{ScheduledPriorityQueue}
use inkpi.AgentCore.Scheduler.Queue.Index.{Holds}
use inkpi.AgentCore.Scheduler.Queue.Order.{IsValid}
use inkpi.AgentCore.Scheduler.State.{TaskScheduler, Settlement, pending, entry_of}

abbrev pub is_active : ScheduledRecord → Bool
is_active r = is_queued r.snapshot.status || is_running r.snapshot.status

-- A record that still has its work.
abbrev pub is_resumable : ScheduledRecord → Bool
is_resumable r = is_active r || (is_interrupted r.snapshot.status || is_waiting r.snapshot.status)

abbrev pub one : Bool → ℕ
one b = if b then 1 else 0

abbrev pub count_of : ℕ → List ℕ → ℕ
count_of g [] = 0
count_of g (x ∷ xs) = one (x == g) + count_of g xs

-- A record that no method has in hand: it has a slot exactly while it is running, one call of
-- `execute` awaits it in its generation then, and a task that is queued can be started.
pub record IsSound (r : ScheduledRecord) : Type 0 where
  pub slot : r.slot_acquired ≡ is_running r.snapshot.status
  pub past : All (λ g. g ≤ r.generation) r.runs
  pub current : count_of r.generation r.runs ≡ one (is_running r.snapshot.status)
  pub startable : is_queued r.snapshot.status ≡ true → r.controller ≡ some false
  pub employed : is_resumable r ≡ true → r.work ≢ none

-- A slot of the foreground, or of the background.
abbrev pub slot_of : Bool → ScheduledRecord → ℕ
slot_of foreground r =
    if r.slot_acquired
    then one (if is_foreground r.snapshot.mode then foreground else not foreground)
    else 0

unfoldable pub count_slots : Bool → List ScheduledRecord → ℕ
count_slots foreground [] = 0
count_slots foreground (r ∷ rs) = slot_of foreground r + count_slots foreground rs

-- The record of an entry is queued, and as the entry says.
abbrev pub Waits : List ScheduledRecord → ℕ → Entry → (ScheduledRecord → Type 0) → Type 0
Waits records out e P =
    (r : ScheduledRecord) × (get_elem? records e.ref ≡ some r)
    × (entry_of e.ref r ≡ e)
    × (is_queued r.snapshot.status ≡ true)
    × (e.ref ≢ out)
    × P r

abbrev pub Foreground : ScheduledRecord → Type 0
Foreground r = is_foreground r.snapshot.mode ≡ true

abbrev pub Background : ScheduledRecord → Type 0
Background r = is_foreground r.snapshot.mode ≡ false

-- An active record that will settle a promise.
abbrev pub Owes : List ScheduledRecord → ℕ → ℕ → Type 0
Owes records out p =
    (j : ℕ) × (r : ScheduledRecord) × (get_elem? records j ≡ some r)
    × (j ≢ out)
    × (is_active r ≡ true)
    × (r.settle ≡ some p)

module _ (collate : String → String → Ordering) where
  -- The three queues hold exactly the records that are queued, up to the one in hand, at `out`.
  pub record Queues (out : ℕ) (records : List ScheduledRecord)
      (fore back delayed : ScheduledPriorityQueue) : Type 0 where
    pub fore_valid : IsValid (is_before collate) fore
    pub back_valid : IsValid (is_before collate) back
    pub delayed_valid : IsValid (is_ready_before collate) delayed
    pub fore_waits : (e : Entry) → Holds fore e → Waits records out e Foreground
    pub back_waits : (e : Entry) → Holds back e → Waits records out e Background
    pub delayed_waits : (e : Entry) → Holds delayed e → Waits records out e (λ r. Unit)
    pub apart : (e x : Entry) → Holds delayed e → (Holds fore x ⊎ Holds back x) → e.id ≢ x.id
    pub placed :
        (j : ℕ) (r : ScheduledRecord)
        → get_elem? records j ≡ some r
        → j ≢ out
        → is_queued r.snapshot.status ≡ true
        → Holds fore (entry_of j r) ⊎ (Holds back (entry_of j r) ⊎ Holds delayed (entry_of j r))

-- The records: their identifiers are their own, and all but the one at `out` are sound.
pub record Records (out : ℕ) (records : List ScheduledRecord) : Type 0 where
  pub unique :
      (i j : ℕ) (a b : ScheduledRecord)
      → get_elem? records i ≡ some a
      → get_elem? records j ≡ some b
      → a.snapshot.id ≡ b.snapshot.id
      → i ≡ j
  pub sound : (j : ℕ) (r : ScheduledRecord) → get_elem? records j ≡ some r → j ≢ out → IsSound r

-- The slots: the numbers are exact and within the limits.
pub record Slots (records : List ScheduledRecord) (fore back max_fore max_back : ℕ) : Type 0 where
  pub fore_exact : fore ≡ count_slots true records
  pub back_exact : back ≡ count_slots false records
  pub fore_most : fore ≤ max_fore
  pub back_most : back ≤ max_back

-- The promises: who has one that is pending to settle is active, or holds it in hand as `owed`.
abbrev pub Promises : ℕ → Option ℕ → List ScheduledRecord → List Settlement → Type 0
Promises out owed records promises =
    (p : ℕ) → get_elem? promises p ≡ some pending → Owes records out p ⊎ (owed ≡ some p)

-- What holds while the record at `out` is in hand, with the promise `owed` to settle.
abbrev pub Open : (String → String → Ordering) → ℕ → Option ℕ → TaskScheduler → Type 0
Open collate out owed s =
    Queues collate out s.records s.foreground_ready s.background_ready s.delayed_ready
    × Records out s.records
    × Slots s.records s.running_foreground s.running_background s.max_foreground s.max_background
    × Promises out owed s.records s.promises

-- No record is in hand: `out` stands behind them all.
abbrev pub IsValidScheduler : (String → String → Ordering) → TaskScheduler → Type 0
IsValidScheduler collate s = Open collate (length s.records) none s

-- The list laws that the invariant needs.
module _ {ℓ} {A : Type ℓ} where
  pub get_elem?-set :
      (xs : List A) (i j : ℕ) (v x : A)
      → get_elem? xs i ≡ some x
      → get_elem? (set xs i v) j ≡ (if i == j then some v else get_elem? xs j)
  unfolding set
  get_elem?-set [] i j v x h = cc h
  get_elem?-set (y ∷ xs) zero zero v x h = refl
  get_elem?-set (y ∷ xs) (suc i) (suc j) v x h = ground (arith, get_elem?-set xs i j v x h)
  get_elem?-set (y ∷ xs) zero (suc j) v x h = ground arith
  get_elem?-set (y ∷ xs) (suc i) zero v x h = ground arith

  pub get_elem?-lt : (xs : List A) (i : ℕ) (x : A) → get_elem? xs i ≡ some x → i < length xs
  get_elem?-lt [] i x h = cc h
  get_elem?-lt (y ∷ xs) zero x h = omega arith
  get_elem?-lt (y ∷ xs) (suc i) x h = omega (arith, get_elem?-lt xs i x h)

  pub get_elem?-append :
      (xs : List A) (v : A) (i : ℕ)
      → get_elem? (xs ++ (v ∷ [])) i ≡ (if i == length xs then some v else get_elem? xs i)
  get_elem?-append [] v zero = refl
  get_elem?-append [] v (suc i) = ground arith
  get_elem?-append (y ∷ xs) v zero = ground arith
  get_elem?-append (y ∷ xs) v (suc i) = ground (arith, get_elem?-append xs v i)

pub count_slots-set :
    (b : Bool) (rs : List ScheduledRecord) (i : ℕ) (r r' : ScheduledRecord)
    → get_elem? rs i ≡ some r
    → count_slots b (set rs i r') + slot_of b r ≡ count_slots b rs + slot_of b r'
unfolding count_slots set
count_slots-set b [] i r r' h = cc h
count_slots-set b (x ∷ rs) zero r r' h = let e : x ≡ r = cc in rw e (omega arith)
count_slots-set b (x ∷ rs) (suc i) r r' h = omega (arith, count_slots-set b rs i r r' h)

pub count_slots-append :
    (b : Bool) (rs : List ScheduledRecord) (r : ScheduledRecord)
    → count_slots b (rs ++ (r ∷ [])) ≡ count_slots b rs + slot_of b r
unfolding count_slots
count_slots-append b [] r = omega arith
count_slots-append b (x ∷ rs) r = omega (arith, count_slots-append b rs r)
