-- ===== src/AgentCore/Collections/KillRing.antt =====
-- packages/agent-core/src/clipboard/kill-ring.ts.
use Prim.Native.String.{String}
use inkpi.Base.{
  ℕ, zero, suc, ◌+◌, ◌%◌, ◌<◌, ◌≤◌, ◌≡◌, refl, ap, inl, inr, Bool, true, false, Option, none, some,
  List, [], ◌∷◌, length, get_elem?, ltb, if◌then◌else◌, Bool-cases, ltb→le, arith,
}
use native.Mathlib.Nat.{mod-lt}

pub record KillRing : Type 0 where
  pub ring : List String
  pub max_entries : ℕ
  pub pointer : ℕ

abbrev pub new_ring : ℕ → KillRing
new_ring max_entries = record { ring = []; max_entries = max_entries; pointer = 0 }

-- `ring.pop()`
unfoldable pub drop_last : List String → List String
drop_last [] = []
drop_last (x ∷ []) = []
drop_last (x ∷ y ∷ ys) = x ∷ drop_last (y ∷ ys)

abbrev pub is_empty : String → Bool
is_empty String.[] = true
is_empty (String.◌∷◌ c s) = false

unfoldable pub push : KillRing → String → KillRing
push r text = if is_empty text then r else record r {
  ring =
      if ltb r.max_entries (length (text ∷ r.ring))
      then drop_last (text ∷ r.ring)
      else text ∷ r.ring;
  pointer = 0;
}

unfoldable pub peek : KillRing → Option String
peek r = get_elem? r.ring r.pointer

abbrev pub rotate_in : List String → KillRing → KillRing × Option String
rotate_in [] r = (r, none)
rotate_in (x ∷ xs) r =
    let next = (r.pointer + 1) % length (x ∷ xs) in
    (record r { pointer = next }, get_elem? (x ∷ xs) next)

unfoldable pub rotate : KillRing → KillRing × Option String
rotate r = rotate_in r.ring r

unfoldable pub clear : KillRing → KillRing
clear r = record r { ring = []; pointer = 0 }

pub data KillCall : Type 0 where
  pushes : String → KillCall
  rotates clears : KillCall

unfoldable pub step : KillRing → KillCall → KillRing
step r (pushes text) = push r text
step r rotates = (rotate r).0
step r clears = clear r

unfoldable pub run : KillRing → List KillCall → KillRing
run r [] = r
run r (c ∷ cs) = run (step r c) cs

length-drop_last : (x : String) (xs : List String) → length (drop_last (x ∷ xs)) ≡ length xs
unfolding drop_last
length-drop_last x [] = refl
length-drop_last x (y ∷ ys) = ap suc (length-drop_last y ys)

-- The ring is within its bound, and its pointer stands on an entry or at the start.
IsValid : ℕ → KillRing → Type 0
IsValid bound r =
    (r.max_entries ≡ bound)
    × (length r.ring ≤ bound)
    × ((0 < length r.ring) → r.pointer < length r.ring)

push-IsValid :
    (bound : ℕ) (r : KillRing) (text : String) → IsValid bound r → IsValid bound (push r text)
unfolding IsValid push
push-IsValid bound r text (same, fits, inside) = elim (Bool-cases (is_empty text)) [
  | inl e ↦ rw e (same, fits, inside)
  | inr e ↦ elim (Bool-cases (ltb r.max_entries (length (text ∷ r.ring)))) [
    | inl f ↦ rw (e, f) (same, omega (arith, length-drop_last text r.ring), λ h. omega arith)
    | inr f ↦
        rw (e, f)
          (same, omega (arith, ltb→le r.max_entries (suc (length r.ring)) f), λ h. omega arith)
  ]
]

rotate_in-IsValid :
    (bound : ℕ) (r : KillRing) (xs : List String)
    → r.ring ≡ xs
    → IsValid bound r
    → IsValid bound (rotate_in xs r).0
unfolding IsValid
rotate_in-IsValid bound r [] e v = v
rotate_in-IsValid bound r (x ∷ xs) e (same, fits, inside) =
    let size : length r.ring ≡ suc (length xs) = ap length e in
    (same, fits, λ h. rw size (mod-lt (r.pointer + 1) (omega arith)))

step-IsValid :
    (bound : ℕ) (r : KillRing) (c : KillCall) → IsValid bound r → IsValid bound (step r c)
unfolding step rotate clear
step-IsValid bound r (pushes text) v = push-IsValid bound r text v
step-IsValid bound r rotates v = rotate_in-IsValid bound r r.ring refl v
step-IsValid bound r clears v = unfold IsValid in (v.0, omega arith, λ h. absurd (omega arith))

run-IsValid :
    (bound : ℕ) (r : KillRing) (cs : List KillCall) → IsValid bound r → IsValid bound (run r cs)
unfolding run
run-IsValid bound r [] v = v
run-IsValid bound r (c ∷ cs) v = run-IsValid bound (step r c) cs (step-IsValid bound r c v)

get_elem?-inside :
    (xs : List String) (i : ℕ) → i < length xs → (s : String) × (get_elem? xs i ≡ some s)
get_elem?-inside [] i h = absurd (omega arith)
get_elem?-inside (x ∷ xs) zero h = (x, refl)
get_elem?-inside (x ∷ xs) (suc i) h = get_elem?-inside xs i (omega arith)

-- After any calls on a new ring: it holds no more entries than its bound, and while it holds one,
-- `peek` gives one.
pub run-peek :
    (bound : ℕ) (cs : List KillCall)
    → (length (run (new_ring bound) cs).ring ≤ bound)
      × ((0 < length (run (new_ring bound) cs).ring)
          → (s : String) × (peek (run (new_ring bound) cs) ≡ some s))
unfolding peek IsValid
run-peek bound cs =
    let (same, fits, inside) =
      run-IsValid bound (new_ring bound) cs (refl, omega arith, λ h. absurd (omega arith)) in
    (fits, λ some_. get_elem?-inside _ _ (inside some_))
