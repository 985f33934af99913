-- ===== src/SessionBackends/Paging/Bounded.antt =====
-- The entries of a journal before and behind one of them, up to the upper bound of the pages of
-- packages/session-backends/src/entry-contract.ts.
use text.Mathlib.Text.{◌==◌ as str_eq}
use inkpi.Base.{
  ℕ, ◌≤◌, ◌≡◌, refl, ap, ap₂, subst, ◌∙◌, Bool, true, false, ◌&&◌, ◌||◌, List, [], ◌∷◌, ◌++◌, All,
  length, length-append, ltb, leb, ◌==◌, append-nil, arith,
}
use inkpi.Base.Texts.{eq→str_eq}
use inkpi.SessionBackends.Contract.{SessionEntry, last_of, value_of}
use inkpi.SessionBackends.Contract.Pages.{filter_entries, any_entry}
use inkpi.SessionBackends.Paging.Lists.{
  seq_of, Rises, Rises-split, last_of-append, last_of-le, Rises-Between, filter-append, filter-All,
  filter-none, any-append, filter-skip,
}

pub All-imp {ℓ κ μ} :
    {A : Type ℓ} {P : A → Type κ} {Q : A → Type μ} (f : (x : A) → P x → Q x) (xs : List A)
    → All P xs
    → All Q xs
All-imp f [] h = tt
All-imp f (x ∷ xs) (here, h) = (f x here, All-imp f xs h)

pub any-here :
    (test : SessionEntry → Bool) (xs ys : List SessionEntry) (x : SessionEntry)
    → test x ≡ true
    → any_entry test (xs ++ (x ∷ ys)) ≡ true
unfolding any_entry
any-here test [] ys x h = rw h refl
any-here test (y ∷ xs) ys x h = ground (arith, any-here test xs ys x h)

any-left :
    (test : SessionEntry → Bool) (xs ys : List SessionEntry)
    → any_entry test xs ≡ true
    → any_entry test (xs ++ ys) ≡ true
any-left test xs ys h = any-append test xs ys ∙ ap (λ b. b || any_entry test ys) h

-- Some entry of a journal that is not empty has its last sequence.
any-last_of :
    (last : ℕ) (y : SessionEntry) (ys : List SessionEntry)
    → any_entry (λ e. value_of e.seq == last_of last (y ∷ ys)) (y ∷ ys) ≡ true
unfolding any_entry last_of
any-last_of last y [] = ground arith
any-last_of last y (z ∷ ys) = ground (arith, any-last_of (seq_of y) z ys)

module _ (entries more : List SessionEntry) (rises : Rises 0 (entries ++ more)) where
  abbrev upper : ℕ
  upper = last_of 0 entries

  pub own : Rises 0 entries
  own = (Rises-split 0 entries more rises).0

  below :
      (test : SessionEntry → Bool) → filter_entries (λ e. leb (seq_of e) upper && test e) more ≡ []
  below test =
      filter-none (λ e. leb (seq_of e) upper && test e) more
        (All-imp (λ e (low, high). ground arith) more
          (Rises-Between upper upper more (omega arith) (Rises-split 0 entries more rises).1))

  module _ (front back : List SessionEntry) (x : SessionEntry)
      (split : entries ≡ front ++ (x ∷ back)) where
    parts : Rises 0 front × Rises (last_of 0 front) (x ∷ back)
    parts = Rises-split 0 front (x ∷ back) (subst (Rises 0) split own)

    end : upper ≡ last_of (seq_of x) back
    unfolding last_of
    end = ap (last_of 0) split ∙ last_of-append 0 front (x ∷ back)

    pub at_most : seq_of x ≤ upper
    at_most = omega (arith, end, last_of-le (seq_of x) back parts.1.1)

    pub after :
        filter_entries (λ e. leb (seq_of e) upper && ltb (seq_of x) (seq_of e)) (entries ++ more)
        ≡ back
    after =
        let test = λ (e : SessionEntry). leb (seq_of e) upper && ltb (seq_of x) (seq_of e) in
        let early = filter-none test front (
          All-imp (λ e (low, high). ground (arith, parts.1.0)) front
            (Rises-Between 0 0 front (omega arith) parts.0)) in
        let late = filter-All test back (
          All-imp (λ e (low, high). ground (arith, end)) back
            (Rises-Between (seq_of x) (seq_of x) back (omega arith) parts.1.1)) in
        let here : test x ≡ false = ground arith in
        filter-append test entries more
        ∙ ap₂ ◌++◌
            (ap (filter_entries test) split
              ∙ filter-append test front (x ∷ back)
              ∙ ap₂ ◌++◌ early (filter-skip test x back here ∙ late))
            (below (λ e. ltb (seq_of x) (seq_of e)))
        ∙ append-nil back

    pub before :
        filter_entries (λ e. leb (seq_of e) upper && ltb (seq_of e) (seq_of x)) (entries ++ more)
        ≡ front
    before =
        let test = λ (e : SessionEntry). leb (seq_of e) upper && ltb (seq_of e) (seq_of x) in
        let early = filter-All test front (
          All-imp (λ e (low, high). ground (arith, parts.1.0, at_most)) front
            (Rises-Between 0 0 front (omega arith) parts.0)) in
        let late = filter-none test back (
          All-imp (λ e (low, high). ground arith) back
            (Rises-Between (seq_of x) (seq_of x) back (omega arith) parts.1.1)) in
        let here : test x ≡ false = ground arith in
        filter-append test entries more
        ∙ ap₂ ◌++◌
            (ap (filter_entries test) split
              ∙ filter-append test front (x ∷ back)
              ∙ ap₂ ◌++◌ early (filter-skip test x back here ∙ late))
            (below (λ e. ltb (seq_of e) (seq_of x)))
        ∙ append-nil (front ++ [])
        ∙ append-nil front

    pub known :
        any_entry (λ e. value_of e.seq == seq_of x && str_eq e.id x.id) (entries ++ more) ≡ true
    known =
        let test = λ (e : SessionEntry). value_of e.seq == seq_of x && str_eq e.id x.id in
        any-left test entries more (
          ap (any_entry test) split
          ∙ any-here test front back x (rw (eq→str_eq x.id x.id refl) (ground arith)))

    pub ends : any_entry (λ e. value_of e.seq == upper) (entries ++ more) ≡ true
    ends = any-left (λ e. value_of e.seq == upper) entries more (nonempty entries split)
      where
        nonempty :
            (xs : List SessionEntry)
            → xs ≡ front ++ (x ∷ back)
            → any_entry (λ e. value_of e.seq == last_of 0 xs) xs ≡ true
        nonempty [] e = absurd (omega (arith, ap (length {0}) e, length-append front (x ∷ back)))
        nonempty (z ∷ zs) e = any-last_of 0 z zs
