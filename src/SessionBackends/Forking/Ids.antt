-- ===== src/SessionBackends/Forking/Ids.antt =====
-- The identifiers of a journal of packages/session-backends/src/entry-contract.ts: each entry is found
-- under its own, and its parent before it.
use Prim.Native.String.{String}
use text.Mathlib.Text.{◌==◌ as str_eq}
use inkpi.Base.{
  ℕ, ◌≡◌, refl, ap, subst, ◌∙◌, inl, inr, Bool, true, false, ◌||◌, none, some, List, [], ◌∷◌, ◌++◌,
  All, Option-cases, Bool-cases, arith,
}
use inkpi.Base.Texts.{str_eq→eq, eq→str_eq}
use inkpi.SessionBackends.Contract.{SessionEntry, value_of, member_of, ids_of, last_of}
use inkpi.SessionBackends.Contract.Pages.{any_entry}
use inkpi.SessionBackends.Contract.Forks.{find_entry}
use inkpi.SessionBackends.Journals.{JournalFrom}

abbrev pub has_id : String → SessionEntry → Bool
has_id id e = str_eq e.id id

-- An entry of a journal that is cut in two before it.
pub JournalFrom-split :
    (session : String) (ids : List String) (last : ℕ) (xs ys : List SessionEntry)
    → JournalFrom session ids last (xs ++ ys)
    → JournalFrom session ids last xs × JournalFrom session (ids_of ids xs) (last_of last xs) ys
unfolding ids_of last_of
JournalFrom-split session ids last [] ys h = (tt, h)
JournalFrom-split session ids last (x ∷ xs) ys (own, fresh, safe, rises, known, h) =
    let (left, right) = JournalFrom-split session (x.id ∷ ids) (value_of x.seq) xs ys h in
    ((own, fresh, safe, rises, known, left), right)

pub member-ids_of :
    (id : String) (ids : List String) (xs : List SessionEntry)
    → member_of id (ids_of ids xs) ≡ (any_entry (has_id id) xs || member_of id ids)
unfolding member_of ids_of any_entry
member-ids_of id ids [] = refl
member-ids_of id ids (x ∷ xs) = ground (arith, member-ids_of id (x.id ∷ ids) xs)

pub ids_of-any :
    (id : String) (xs : List SessionEntry)
    → member_of id (ids_of [] xs) ≡ true
    → any_entry (has_id id) xs ≡ true
unfolding member_of
ids_of-any id xs h = ground (arith, member-ids_of id [] xs)

-- What has an identifier of the set is not among the entries behind.
pub later_fresh :
    (session : String) (ids : List String) (last : ℕ) (xs : List SessionEntry) (id : String)
    → JournalFrom session ids last xs
    → member_of id ids ≡ true
    → any_entry (has_id id) xs ≡ false
unfolding member_of any_entry
later_fresh session ids last [] id h there = refl
later_fresh session ids last (x ∷ xs) id (own, fresh, safe, rises, known, h) there =
    let rest = later_fresh session (x.id ∷ ids) (value_of x.seq) xs id h (ground arith) in
    elim (Bool-cases (str_eq x.id id)) [
      | inl same ↦ absurd (let e = str_eq→eq x.id id same in cc (e, fresh, there))
      | inr other ↦ rw (other, rest) refl
    ]

pub any-split :
    (test : SessionEntry → Bool) (xs : List SessionEntry)
    → any_entry test xs ≡ true
    → (front : List SessionEntry) × (x : SessionEntry) × (back : List SessionEntry) × (xs
        ≡ front ++ (x ∷ back))
      × (test x ≡ true)
unfolding any_entry
any-split test [] h = cc h
any-split test (y ∷ xs) h = elim (Bool-cases (test y)) [
  | inl here ↦ ([], y, xs, refl, here)
  | inr other ↦
      let rest : any_entry test xs ≡ true = rw other at h in
      let (front, x, back, same, found) = any-split test xs rest in
      (y ∷ front, x, back, ap (y ∷◌) same, found)
]

pub any-none :
    (test : SessionEntry → Bool) (xs : List SessionEntry)
    → any_entry test xs ≡ false
    → All (λ x. test x ≡ false) xs
unfolding any_entry
any-none test [] h = tt
any-none test (y ∷ xs) h = (ground arith, any-none test xs (ground arith))

pub none-any :
    (test : SessionEntry → Bool) (xs : List SessionEntry)
    → All (λ x. test x ≡ false) xs
    → any_entry test xs ≡ false
unfolding any_entry
none-any test [] h = refl
none-any test (y ∷ xs) (here, h) = rw (here, none-any test xs h) refl

find_entry-none :
    (id : String) (xs : List SessionEntry)
    → any_entry (has_id id) xs ≡ false
    → find_entry id xs ≡ none
unfolding find_entry any_entry
find_entry-none id [] h = refl
find_entry-none id (x ∷ xs) h = ground (arith, find_entry-none id xs)

-- An entry that no later one shares its identifier with is found under it.
pub find_entry-at :
    (front back : List SessionEntry) (e : SessionEntry)
    → any_entry (has_id e.id) back ≡ false
    → find_entry e.id (front ++ (e ∷ back)) ≡ some e
unfolding find_entry
find_entry-at [] back e h = rw (find_entry-none e.id back h, eq→str_eq e.id e.id refl) refl
find_entry-at (x ∷ front) back e h = rw (find_entry-at front back e h) refl

pub find_entry-split :
    (id : String) (xs : List SessionEntry) (e : SessionEntry)
    → find_entry id xs ≡ some e
    → (front back : List SessionEntry) × (xs ≡ front ++ (e ∷ back)) × (e.id ≡ id)
unfolding find_entry
find_entry-split id [] e h = cc h
find_entry-split id (x ∷ xs) e h = elim (Option-cases (find_entry id xs)) [
  | inr (f, found) ↦
      let k : some f ≡ some e = rw found at h in
      let (front, back, same, named) = find_entry-split id xs e (found ∙ k) in
      (x ∷ front, back, ap (x ∷◌) same, named)
  | inl nothing ↦ elim (Bool-cases (str_eq x.id id)) [
    | inl here ↦
        let k : some x ≡ some e = rw (nothing, here) at h in
        let same : x ≡ e = cc k in
        ([], xs, ap (λ y. y ∷ xs) same, subst (λ y. y.id ≡ id) same (str_eq→eq x.id id here))
    | inr other ↦ let k : none ≡ some e = rw (nothing, other) at h in cc k
  ]
]
