-- ===== src/SessionBackends/Forking/Forked.antt =====
-- What a fork of packages/session-backends/src/entry-contract.ts takes from a well-formed journal.
use Prim.Native.String.{String}
use text.Mathlib.Text.{◌==◌ as str_eq}
use inkpi.Base.{
  ℕ, zero, suc, ◌+◌, ◌≤◌, ◌≡◌, refl, sym, ap, subst, ◌∙◌, inl, inr, true, false, Option, none, some,
  List, [], ◌∷◌, ◌++◌, All, All-append, All-append_left, All-append_right, map, length,
  length-append, ok, Option-cases, append_assoc, append-nil, arith,
}
use inkpi.Base.Texts.{str_eq→eq, eq→str_eq}
use inkpi.SessionBackends.Contract.{SessionEntry, value_of, member_of, ids_of, validate_storage_id}
use inkpi.SessionBackends.Contract.Pages.{any_entry, last_entry}
use inkpi.SessionBackends.Contract.Forks.{find_entry, ancestry, retarget, fork_entries}
use inkpi.SessionBackends.Journals.{JournalFrom, JournalOk}
use inkpi.SessionBackends.Forking.{Lineage}
use inkpi.SessionBackends.Forking.Ids.{has_id, ids_of-any, any-split, any-none, find_entry-split}
use inkpi.SessionBackends.Forking.Ancestry.{
  IsWalk, here, found, new_before, root-IsWalk, child-IsWalk,
}
use inkpi.SessionBackends.Paging.Lists.{last_entry-snoc}

-- No entry has an identifier of the set.
abbrev Unseen : List String → List SessionEntry → Type 0
Unseen seen es = All (λ x. member_of x.id seen ≡ false) es

Unseen-add :
    (id : String) (seen : List String) (es : List SessionEntry)
    → Unseen seen es
    → All (λ x. has_id id x ≡ false) es
    → Unseen (id ∷ seen) es
unfolding member_of
Unseen-add id seen [] h k = tt
Unseen-add id seen (x ∷ es) (here, h) (other, k) =
    (ground (arith, str_eq→eq id x.id, eq→str_eq x.id id), Unseen-add id seen es h k)

ancestry-step :
    (fuel : ℕ) (entries : List SessionEntry) (id : String) (e : SessionEntry) (seen : List String)
    (selected : List SessionEntry)
    → find_entry id entries ≡ some e
    → member_of id seen ≡ false
    → ancestry (suc fuel) entries seen (some id) selected
      ≡ ancestry fuel entries (id ∷ seen) e.parent_id (e ∷ selected)
unfolding ancestry
ancestry-step fuel entries id e seen selected at unseen = rw (ancestry, at, unseen) refl

module _ (session : String) where
  -- From an entry with `before` in front of it, the walk takes as many rounds as there are entries there,
  -- and two.
  ancestry-IsWalk :
      (fuel : ℕ) (entries before after : List SessionEntry) (e : SessionEntry) (seen : List String)
      (selected : List SessionEntry)
      → JournalOk session (before ++ (e ∷ after))
      → entries ≡ before ++ (e ∷ after)
      → length before + 2 ≤ fuel
      → Unseen seen (before ++ (e ∷ []))
      → (chain : List SessionEntry) × (ancestry fuel entries seen (some e.id) selected
          ≡ ok (chain ++ selected))
        × IsWalk session before e chain
  unfolding ancestry
  ancestry-IsWalk zero entries before after e seen selected h same le new = absurd (omega arith)
  ancestry-IsWalk (suc fuel) entries before after e seen selected h same le new =
      let at : find_entry e.id entries ≡ some e =
        ap (find_entry e.id) same ∙ found session before after e h in
      let unseen : member_of e.id seen ≡ false = (All-append_right _ before (e ∷ []) new).0 in
      let step = ancestry-step fuel entries e.id e seen selected at unseen in
      let parent_walk =
        λ (i : Option String). ancestry fuel entries (e.id ∷ seen) i (e ∷ selected) in
      elim (Option-cases e.parent_id) [
        | inl orphan ↦ (
          e ∷ [],
          step ∙ ap parent_walk orphan ∙ rooted fuel (e ∷ selected) (omega arith),
          root-IsWalk session before after e h orphan,
        )
        | inr (p, child) ↦
            let there : any_entry (has_id p) before ≡ true =
              let known = (here session before after e h).4 in
              let known' : member_of p (ids_of [] before) ≡ true = rw child at known in
              ids_of-any p before known' in
            let (early, f, late, cut, is_parent) = any-split (has_id p) before there in
            let named = str_eq→eq f.id p is_parent in
            let whole : before ++ (e ∷ after) ≡ early ++ (f ∷ (late ++ (e ∷ after))) =
              ap (λ l. l ++ (e ∷ after)) cut ∙ append_assoc early (f ∷ late) (e ∷ after) in
            let apart = any-none (has_id e.id) before (new_before session before after e h) in
            let unseen' =
              Unseen-add e.id seen before (All-append_left _ before (e ∷ []) new) apart in
            let cut_unseen = subst (Unseen (e.id ∷ seen)) cut unseen' in
            let (chain, walked, walk) =
              ancestry-IsWalk fuel entries early (late ++ (e ∷ after)) f (e.id ∷ seen)
                (e ∷ selected) (subst (JournalOk session) whole h) (same ∙ whole)
                (omega (arith, ap (length {0}) cut, length-append early (f ∷ late)))
                (All-append _ early (f ∷ []) (All-append_left _ early (f ∷ late) cut_unseen)
                  ((All-append_right _ early (f ∷ late) cut_unseen).0, tt)) in
            (
              chain ++ (e ∷ []),
              step
                  ∙ ap parent_walk child
                  ∙ subst
                      (λ i.
                        ancestry fuel entries (e.id ∷ seen) (some i) (e ∷ selected)
                        ≡ ok (chain ++ (e ∷ selected)))
                      named walked
                  ∙ ap ok (sym (append_assoc chain (e ∷ []) selected)),
              child-IsWalk session before after e h early late f cut (child ∙ ap some (sym named))
                  chain walk,
            )
      ]
    where
      rooted :
          (fuel : ℕ) (l : List SessionEntry)
          → 1 ≤ fuel
          → ancestry fuel entries (e.id ∷ seen) none l ≡ ok l
      rooted zero l le = absurd (omega arith)
      rooted (suc fuel) l le = refl

-- Entries of another session make a journal there as they did.
retarget-JournalFrom :
    (session target : String) (ids : List String) (last : ℕ) (es : List SessionEntry)
    → JournalFrom session ids last es
    → JournalFrom target ids last (map (retarget target) es)
retarget-JournalFrom session target ids last [] h = tt
retarget-JournalFrom session target ids last (e ∷ es) (own, fresh, safe, rises, known, h) = (
  refl,
  fresh,
  safe,
  rises,
  known,
  retarget-JournalFrom session target (e.id ∷ ids) (value_of e.seq) es h,
)

-- A fork of a well-formed journal, from any of its entries, into another session that is empty, both with
-- valid identifiers: it succeeds, and takes the lineage of the head, from an entry without a parent down
-- to the head, each entry the parent of the next and one of the journal. In the target it is a
-- well-formed journal.
pub fork_entries-Lineage :
    (source target : String) (entries : List SessionEntry) (head : String) (e : SessionEntry)
    → JournalOk source entries
    → validate_storage_id source ≡ ok tt
    → validate_storage_id target ≡ ok tt
    → str_eq source target ≡ false
    → find_entry head entries ≡ some e
    → (chain : List SessionEntry) × (fork_entries source target entries [] (some (some head))
        ≡ ok (map (retarget target) chain))
      × Lineage none chain
      × (last_entry chain ≡ some e)
      × ((P : SessionEntry → Type 0) → All P entries → All P chain)
      × JournalOk target (map (retarget target) chain)
unfolding fork_entries member_of
fork_entries-Lineage source target entries head e h valid valid' apart at =
    let (before, after, same, named) = find_entry-split head entries e at in
    let (chain, walked, walk) =
      ancestry-IsWalk source (suc (suc (length entries))) entries before after e [] []
        (subst (JournalOk source) same h) same
        (omega (arith, ap (length {0}) same, length-append before (e ∷ after)))
        (nothing_seen (before ++ (e ∷ []))) in
    let walked' : ancestry (suc (suc (length entries))) entries [] (some head) [] ≡ ok chain =
      subst (λ i. ancestry (suc (suc (length entries))) entries [] (some i) [] ≡ ok (chain ++ []))
        named walked
      ∙ ap ok (append-nil chain) in
    let (front, ends) = walk.ends in
    (
      chain,
      rw (fork_entries, valid, valid', apart, walked') refl,
      walk.lineage,
      ap last_entry ends ∙ last_entry-snoc front e,
      (λ P all.
          let all' = subst (All P) same all in
          walk.within P (
            All-append P before (e ∷ []) (All-append_left P before (e ∷ after) all')
              ((All-append_right P before (e ∷ after) all').0, tt))),
      retarget-JournalFrom source target [] 0 chain walk.well,
    )
  where
    nothing_seen : (es : List SessionEntry) → Unseen [] es
    nothing_seen [] = tt
    nothing_seen (x ∷ es) = (refl, nothing_seen es)
