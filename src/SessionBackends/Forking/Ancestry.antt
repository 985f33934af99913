-- ===== src/SessionBackends/Forking/Ancestry.antt =====
-- The walk of a fork in packages/session-backends/src/entry-contract.ts, from its head to the root.
use Prim.Native.String.{String}
use inkpi.Base.{
  ◌<◌, ◌≡◌, refl, sym, ap, subst, ◌∙◌, true, false, Option, none, some, List, [], ◌∷◌, ◌++◌, All,
  All-append, All-append_left, All-append_right, arith,
}
use inkpi.Base.Texts.{eq→str_eq}
use inkpi.SessionBackends.Contract.{SessionEntry, member_of, ids_of, last_of, parent_known}
use inkpi.SessionBackends.Contract.Pages.{any_entry}
use inkpi.SessionBackends.Contract.Forks.{find_entry}
use inkpi.SessionBackends.Journals.{JournalFrom, JournalOk, JournalFrom-append}
use inkpi.SessionBackends.Forking.{Lineage}
use inkpi.SessionBackends.Forking.Ids.{
  has_id, JournalFrom-split, member-ids_of, later_fresh, any-none, none-any, find_entry-at,
}
use inkpi.SessionBackends.Paging.Lists.{
  seq_of, Rises, JournalFrom-Rises, Rises-split, last_of-append, last_of-le,
}
use inkpi.SessionBackends.Paging.Bounded.{any-here}

Lineage-snoc :
    (p : Option String) (front : List SessionEntry) (f e : SessionEntry)
    → Lineage p (front ++ (f ∷ []))
    → e.parent_id ≡ some f.id
    → Lineage p ((front ++ (f ∷ [])) ++ (e ∷ []))
Lineage-snoc p [] f e (here, _) h = (here, (h, tt))
Lineage-snoc p (x ∷ front) f e (here, rest) h = (here, Lineage-snoc (some x.id) front f e rest h)

-- What a walk from the entry `e`, which stands behind `before`, brings: a lineage that ends with it, of
-- entries from there, and itself a well-formed journal.
pub record IsWalk (session : String) (before : List SessionEntry) (e : SessionEntry)
    (chain : List SessionEntry) : Type 1 where
  pub lineage : Lineage none chain
  pub ends : (front : List SessionEntry) × (chain ≡ front ++ (e ∷ []))
  pub well : JournalOk session chain
  pub within : (P : SessionEntry → Type 0) → All P (before ++ (e ∷ [])) → All P chain

module _ (session : String) (before after : List SessionEntry) (e : SessionEntry)
    (h : JournalOk session (before ++ (e ∷ after))) where
  pub here : JournalFrom session (ids_of [] before) (last_of 0 before) (e ∷ after)
  here = (JournalFrom-split session [] 0 before (e ∷ after) h).1

  pub new_before : any_entry (has_id e.id) before ≡ false
  new_before = ground (arith, member-ids_of e.id [] before, here.1)

  new_after : any_entry (has_id e.id) after ≡ false
  unfolding member_of
  new_after =
      later_fresh session (e.id ∷ ids_of [] before) (seq_of e) after e.id here.5
        (rw (eq→str_eq e.id e.id refl) refl)

  pub found : find_entry e.id (before ++ (e ∷ after)) ≡ some e
  found = find_entry-at before after e new_after

  -- The first entry of a session has no parent.
  pub root-IsWalk : e.parent_id ≡ none → IsWalk session before e (e ∷ [])
  unfolding member_of
  root-IsWalk orphan = record {
    lineage = (orphan, tt);
    ends = ([], refl);
    well = (here.0, refl, here.2, omega (arith, here.3), rw orphan refl, tt);
    within = λ P all. All-append_right P before (e ∷ []) all;
  }

  module _ (early late : List SessionEntry) (f : SessionEntry) (cut : before ≡ early ++ (f ∷ late))
      (parent : e.parent_id ≡ some f.id) (chain : List SessionEntry)
      (walk : IsWalk session early f chain) where
    earlier : (P : SessionEntry → Type 0) → All P before → All P (early ++ (f ∷ []))
    earlier P all =
        let all' = subst (All P) cut all in
        All-append P early (f ∷ []) (All-append_left P early (f ∷ late) all')
          ((All-append_right P early (f ∷ late) all').0, tt)

    rises : last_of 0 chain < seq_of e
    unfolding last_of
    rises =
        let (front, same) = walk.ends in
        let ordered =
          (Rises-split 0 before (e ∷ after)
            (JournalFrom-Rises session [] 0 (before ++ (e ∷ after)) h)).0 in
        let tail = Rises-split 0 early (f ∷ late) (subst (Rises 0) cut ordered) in
        omega (
          arith,
          here.3,
          ap (last_of 0) same,
          last_of-append 0 front (f ∷ []),
          ap (last_of 0) cut,
          last_of-append 0 early (f ∷ late),
          last_of-le (seq_of f) late tail.1.1,
        )

    fresh : member_of e.id (ids_of [] chain) ≡ false
    unfolding member_of
    fresh =
        let apart =
          walk.within (λ x. has_id e.id x ≡ false)
            (earlier _ (any-none (has_id e.id) before new_before)) in
        member-ids_of e.id [] chain ∙ rw (none-any (has_id e.id) chain apart) refl

    known : parent_known e.parent_id (ids_of [] chain) ≡ true
    unfolding member_of
    known =
        let (front, same) = walk.ends in
        let inside : any_entry (has_id f.id) chain ≡ true =
          ap (any_entry (has_id f.id)) same
          ∙ any-here (has_id f.id) front [] f (eq→str_eq f.id f.id refl) in
        rw parent (member-ids_of f.id [] chain ∙ rw inside refl)

    pub child-IsWalk : IsWalk session before e (chain ++ (e ∷ []))
    child-IsWalk =
        let (front, same) = walk.ends in
        record {
          lineage =
              subst (λ l. Lineage none (l ++ (e ∷ []))) (sym same)
                (Lineage-snoc none front f e (subst (Lineage none) same walk.lineage) parent);
          ends = (chain, refl);
          well =
              JournalFrom-append session [] 0 chain (e ∷ []) walk.well
                (here.0, fresh, here.2, rises, known, tt);
          within = λ P all.
              All-append P chain (e ∷ [])
                (walk.within P (earlier P (All-append_left P before (e ∷ []) all)))
                (All-append_right P before (e ∷ []) all);
        }
