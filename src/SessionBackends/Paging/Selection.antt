-- ===== src/SessionBackends/Paging/Selection.antt =====
-- What a page of packages/session-backends/src/entry-contract.ts selects behind its cursor, of a journal
-- that was extended since the first page.
use Prim.Native.String.{String}
use mathlib.Core.List.{reverse-append, reverse-cons, reverse-reverse}
use inkpi.Base.{
  ℕ, ◌≡◌, refl, sym, ap, subst, ◌∙◌, ◌⊎◌, inl, inr, true, ◌&&◌, Option, List, [], ◌∷◌, ◌++◌, leb,
  reverse, append_assoc, append-nil, arith,
}
use inkpi.Base.Texts.{eq→str_eq}
use inkpi.SessionBackends.Contract.{SessionEntry, last_of, value_of}
use inkpi.SessionBackends.Contract.Pages.{
  Direction, forward, backward, unknown_direction, SessionEntryCursor, known_direction, oriented,
  last_entry, filter_entries, beyond, upper_of, cursor_ok, next_cursor_of,
}
use inkpi.SessionBackends.Paging.Lists.{seq_of, Rises, Rises-Between, filter-All, last_entry-snoc}
use inkpi.SessionBackends.Paging.Bounded.{All-imp, own, at_most, after, before, known, ends}

snoc-cases {ℓ} :
    {A : Type ℓ} (xs : List A) → (xs ≡ []) ⊎ ((front : List A) × (x : A) × (xs ≡ front ++ (x ∷ [])))
snoc-cases [] = inl refl
snoc-cases (y ∷ xs) = elim (snoc-cases xs) [
  | inl e ↦ inr ([], y, ap (y ∷◌) e)
  | inr (front, x, e) ↦ inr (y ∷ front, x, ap (y ∷◌) e)
]

module _ (entries more : List SessionEntry) (rises : Rises 0 (entries ++ more)) where
  abbrev upper : ℕ
  upper = last_of 0 entries

  module _ (session : String) (safe : leb upper 9007199254740991 ≡ true) where
    -- The cursor behind what was read.
    abbrev pub cursor_at : Direction → List SessionEntry → Option SessionEntryCursor
    cursor_at d done = next_cursor_of true (last_entry done) session d upper

    abbrev pub eligible : Direction → List SessionEntry → List SessionEntry
    eligible d done = oriented d (
        filter_entries (λ e. leb (value_of e.seq) upper && beyond d (cursor_at d done) e)
          (entries ++ more))

    Selects : Direction → List SessionEntry → List SessionEntry → Type 0
    Selects d done rest =
        (eligible d done ≡ rest) × (cursor_ok session d (cursor_at d done) (entries ++ more) ≡ true)

    module _ (front rest : List SessionEntry) (x : SessionEntry) where
      forward_split : entries ≡ (front ++ (x ∷ [])) ++ rest → entries ≡ front ++ (x ∷ rest)
      forward_split e = e ∙ append_assoc front (x ∷ []) rest

      backward_split :
          reverse entries ≡ (front ++ (x ∷ [])) ++ rest
          → entries ≡ reverse rest ++ (x ∷ reverse front)
      backward_split e =
          sym (reverse-reverse entries)
          ∙ ap reverse (forward_of e)
          ∙ reverse-append front (x ∷ rest)
          ∙ ap (λ l. l ++ reverse front) (reverse-cons x rest)
          ∙ append_assoc (reverse rest) (x ∷ []) (reverse front)
        where
          forward_of :
              reverse entries ≡ (front ++ (x ∷ [])) ++ rest → reverse entries ≡ front ++ (x ∷ rest)
          forward_of e = e ∙ append_assoc front (x ∷ []) rest

      Selects-behind :
          (d : Direction)
          → known_direction d ≡ true
          → oriented d entries ≡ (front ++ (x ∷ [])) ++ rest
          → Selects d (front ++ (x ∷ [])) rest
      unfolding Selects cursor_ok next_cursor_of
      Selects-behind forward k e =
          let s = forward_split e in
          let at = last_entry-snoc front x in
          rw at (
            after entries more rises front rest x s,
            ground (
              arith,
              eq→str_eq session session refl,
              safe,
              at_most entries more rises front rest x s,
              ends entries more rises front rest x s,
              known entries more rises front rest x s,
            ),
          )
      Selects-behind backward k e =
          let s = backward_split e in
          let at = last_entry-snoc front x in
          rw at (
            ap reverse (before entries more rises (reverse rest) (reverse front) x s)
                ∙ reverse-reverse rest,
            ground (
              arith,
              eq→str_eq session session refl,
              safe,
              at_most entries more rises (reverse rest) (reverse front) x s,
              ends entries more rises (reverse rest) (reverse front) x s,
              known entries more rises (reverse rest) (reverse front) x s,
            ),
          )
      Selects-behind unknown_direction k e = cc k

    Selects-first :
        (d : Direction) (rest : List SessionEntry)
        → more ≡ []
        → oriented d entries ≡ rest
        → Selects d [] rest
    unfolding Selects cursor_ok next_cursor_of last_entry
    Selects-first d rest none_more e = (
      ap (oriented d) (
            ap (filter_entries (λ e. leb (seq_of e) upper && true))
              (ap (entries ++◌) none_more ∙ append-nil entries)
            ∙ filter-All (λ e. leb (seq_of e) upper && true) entries
                (All-imp (λ e (low, high). ground arith) entries
                  (Rises-Between 0 0 entries (omega arith) (own entries more rises))))
          ∙ e,
      refl,
    )

    -- Behind what was read, a page selects what is left of the journal as the first page saw it.
    pub Selects-rest :
        (d : Direction) (done rest : List SessionEntry)
        → known_direction d ≡ true
        → (done ≡ [] → more ≡ [])
        → oriented d entries ≡ done ++ rest
        → (eligible d done ≡ rest)
          × (cursor_ok session d (cursor_at d done) (entries ++ more) ≡ true)
    unfolding Selects
    Selects-rest d done rest k none_more e = elim (snoc-cases done) [
      | inl empty ↦
          subst (λ l. Selects d l rest) (sym empty)
            (Selects-first d rest (none_more empty) (e ∙ ap (λ l. l ++ rest) empty))
      | inr (front, x, same) ↦
          subst (λ l. Selects d l rest) (sym same)
            (Selects-behind front rest x d k (e ∙ ap (λ l. l ++ rest) same))
    ]

    -- The upper bound of every page is that of the first.
    pub upper-same :
        (d : Direction) (done : List SessionEntry)
        → (done ≡ [] → more ≡ [])
        → upper_of (cursor_at d done) (entries ++ more) ≡ upper
    unfolding next_cursor_of last_entry
    upper-same d done none_more = elim (snoc-cases done) [
      | inl empty ↦
          subst (λ l. upper_of (cursor_at d l) (entries ++ more) ≡ upper) (sym empty)
            (ap (last_of 0) (ap (entries ++◌) (none_more empty) ∙ append-nil entries))
      | inr (front, x, same) ↦
          subst (λ l. upper_of (cursor_at d l) (entries ++ more) ≡ upper) (sym same)
            (ap (λ o. upper_of (next_cursor_of true o session d upper) (entries ++ more))
              (last_entry-snoc front x))
    ]
