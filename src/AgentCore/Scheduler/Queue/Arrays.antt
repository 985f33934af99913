-- ===== src/AgentCore/Scheduler/Queue/Arrays.antt =====
-- The entries of a queue as an array.
use Prim.Native.String.{String}
use inkpi.Base.{
  ℕ, zero, suc, ◌+◌, ◌<◌, ◌≡◌, refl, ap, List, [], ◌∷◌, ◌++◌, length, get_or, take, ◌==◌,
  if◌then◌else◌, arith,
}
use inkpi.Base.Int.{ℤ, pos}

-- What a queue reads of a record: `ref` says which record it is.
pub record Entry : Type 0 where
  pub ref : ℕ
  pub id : String
  pub priority : ℤ
  pub ready_at : ℕ

abbrev pub no_entry : Entry
no_entry = record { ref = 0; id = ""; priority = pos 0; ready_at = 0 }

-- `entries[index]!`
unfoldable pub entry_at : List Entry → ℕ → Entry
entry_at es index = get_or es index no_entry

module _ {ℓ} {A : Type ℓ} where
  unfoldable pub set : List A → ℕ → A → List A
  set [] i v = []
  set (x ∷ xs) zero v = v ∷ xs
  set (x ∷ xs) (suc i) v = x ∷ set xs i v

  pub length-set : (xs : List A) (i : ℕ) (v : A) → length (set xs i v) ≡ length xs
  unfolding set
  length-set [] i v = refl
  length-set (x ∷ xs) zero v = refl
  length-set (x ∷ xs) (suc i) v = ap suc (length-set xs i v)

pub entry_at-set :
    (es : List Entry) (i j : ℕ) (v : Entry)
    → i < length es
    → entry_at (set es i v) j ≡ (if i == j then v else entry_at es j)
unfolding set entry_at
entry_at-set [] i j v h = absurd (omega arith)
entry_at-set (x ∷ es) zero zero v h = refl
entry_at-set (x ∷ es) (suc i) (suc j) v h = ground (arith, entry_at-set es i j v)
entry_at-set (x ∷ es) i j v h = ground arith

pub entry_at-append :
    (es : List Entry) (e : Entry) (i : ℕ)
    → i < length es + 1
    → entry_at (es ++ (e ∷ [])) i ≡ (if i == length es then e else entry_at es i)
unfolding entry_at
entry_at-append [] e zero h = refl
entry_at-append [] e (suc i) h = absurd (omega arith)
entry_at-append (x ∷ es) e zero h = ground arith
entry_at-append (x ∷ es) e (suc i) h = ground (arith, entry_at-append es e i)

pub entry_at-take :
    (n : ℕ) (es : List Entry) (i : ℕ) → i < n → entry_at (take n es) i ≡ entry_at es i
unfolding entry_at
entry_at-take zero es i h = absurd (omega arith)
entry_at-take (suc n) [] i h = refl
entry_at-take (suc n) (x ∷ es) zero h = refl
entry_at-take (suc n) (x ∷ es) (suc i) h = entry_at-take n es i (omega arith)
