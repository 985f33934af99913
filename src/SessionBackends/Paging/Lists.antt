-- ===== src/SessionBackends/Paging/Lists.antt =====
-- Entries whose sequences rise, and what packages/session-backends/src/entry-contract.ts selects of them.
use Prim.Native.String.{String}
use inkpi.Base.{
  ℕ, ◌≤◌, ◌<◌, ◌≡◌, refl, ap, Bool, true, false, ◌||◌, some, List, [], ◌∷◌, ◌++◌, All, leb, arith,
}
use inkpi.SessionBackends.Contract.{
  SessionEntry, Number, whole, fraction, negative, not_finite, last_of, value_of, is_safe_sequence,
}
use inkpi.SessionBackends.Contract.Pages.{last_entry, filter_entries, any_entry}
use inkpi.SessionBackends.Journals.{JournalFrom}

abbrev pub seq_of : SessionEntry → ℕ
seq_of e = value_of e.seq

-- Sequences that rise from above `last`.
abbrev pub Rises : ℕ → List SessionEntry → Type 0
Rises last [] = Unit
Rises last (e ∷ es) = (last < seq_of e) × Rises (seq_of e) es

pub JournalFrom-Rises :
    (session : String) (ids : List String) (last : ℕ) (es : List SessionEntry)
    → JournalFrom session ids last es
    → Rises last es
JournalFrom-Rises session ids last [] h = tt
JournalFrom-Rises session ids last (e ∷ es) (own, fresh, safe, rises, known, h) =
    (rises, JournalFrom-Rises session (e.id ∷ ids) (seq_of e) es h)

-- Of a journal that is well formed, whatever is last is safe.
pub JournalFrom-safe :
    (session : String) (ids : List String) (last : ℕ) (es : List SessionEntry)
    → leb last 9007199254740991 ≡ true
    → JournalFrom session ids last es
    → leb (last_of last es) 9007199254740991 ≡ true
unfolding last_of
JournalFrom-safe session ids last [] le h = le
JournalFrom-safe session ids last (e ∷ es) le (own, fresh, safe, rises, known, h) =
    JournalFrom-safe session (e.id ∷ ids) (seq_of e) es (safe_value e.seq safe) h
  where
    safe_value : (n : Number) → is_safe_sequence n ≡ true → leb (value_of n) 9007199254740991 ≡ true
    safe_value (whole n) q = q
    safe_value (fraction n) q = cc q
    safe_value negative q = cc q
    safe_value not_finite q = cc q

pub Rises-split :
    (last : ℕ) (xs ys : List SessionEntry)
    → Rises last (xs ++ ys)
    → Rises last xs × Rises (last_of last xs) ys
unfolding last_of
Rises-split last [] ys h = (tt, h)
Rises-split last (x ∷ xs) ys (lt, h) =
    let (left, right) = Rises-split (seq_of x) xs ys h in ((lt, left), right)

pub last_of-append :
    (last : ℕ) (xs ys : List SessionEntry) → last_of last (xs ++ ys) ≡ last_of (last_of last xs) ys
unfolding last_of
last_of-append last [] ys = refl
last_of-append last (x ∷ xs) ys = last_of-append (seq_of x) xs ys

pub last_of-le : (last : ℕ) (xs : List SessionEntry) → Rises last xs → last ≤ last_of last xs
unfolding last_of
last_of-le last [] h = omega arith
last_of-le last (x ∷ xs) (lt, h) = omega (arith, last_of-le (seq_of x) xs h)

-- What rises from above a bound is above it, and nothing is above the last.
abbrev pub Between : ℕ → ℕ → SessionEntry → Type 0
Between low high e = (low < seq_of e) × (seq_of e ≤ high)

pub Rises-Between :
    (low last : ℕ) (xs : List SessionEntry)
    → low ≤ last
    → Rises last xs
    → All (Between low (last_of last xs)) xs
unfolding last_of
Rises-Between low last [] le h = tt
Rises-Between low last (x ∷ xs) le (lt, h) =
    ((omega arith, last_of-le (seq_of x) xs h), Rises-Between low (seq_of x) xs (omega arith) h)

pub filter-append :
    (test : SessionEntry → Bool) (xs ys : List SessionEntry)
    → filter_entries test (xs ++ ys) ≡ filter_entries test xs ++ filter_entries test ys
unfolding filter_entries
filter-append test [] ys = refl
filter-append test (x ∷ xs) ys = ground (arith, filter-append test xs ys)

pub filter-All :
    (test : SessionEntry → Bool) (xs : List SessionEntry)
    → All (λ e. test e ≡ true) xs
    → filter_entries test xs ≡ xs
unfolding filter_entries
filter-All test [] h = refl
filter-All test (x ∷ xs) (here, h) = rw here (ap (x ∷◌) (filter-All test xs h))

pub filter-none :
    (test : SessionEntry → Bool) (xs : List SessionEntry)
    → All (λ e. test e ≡ false) xs
    → filter_entries test xs ≡ []
unfolding filter_entries
filter-none test [] h = refl
filter-none test (x ∷ xs) (here, h) = rw here (filter-none test xs h)

pub any-append :
    (test : SessionEntry → Bool) (xs ys : List SessionEntry)
    → any_entry test (xs ++ ys) ≡ (any_entry test xs || any_entry test ys)
unfolding any_entry
any-append test [] ys = refl
any-append test (x ∷ xs) ys = ground (arith, any-append test xs ys)

pub last_entry-snoc :
    (xs : List SessionEntry) (x : SessionEntry) → last_entry (xs ++ (x ∷ [])) ≡ some x
unfolding last_entry
last_entry-snoc [] x = refl
last_entry-snoc (y ∷ []) x = refl
last_entry-snoc (y ∷ z ∷ xs) x = last_entry-snoc (z ∷ xs) x

pub last_entry-append :
    (xs ys : List SessionEntry) (y : SessionEntry)
    → last_entry (xs ++ (y ∷ ys)) ≡ last_entry (y ∷ ys)
unfolding last_entry
last_entry-append [] ys y = refl
last_entry-append (x ∷ []) ys y = refl
last_entry-append (x ∷ z ∷ xs) ys y = last_entry-append (z ∷ xs) ys y

pub filter-skip :
    (test : SessionEntry → Bool) (x : SessionEntry) (xs : List SessionEntry)
    → test x ≡ false
    → filter_entries test (x ∷ xs) ≡ filter_entries test xs
unfolding filter_entries
filter-skip test x xs h = rw h refl
