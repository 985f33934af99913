-- ===== src/Storage/Leases/Fencing.antt =====
-- Fencing: the tokens of a lease only grow, whatever calls are made, by whom, and when.
use Prim.Native.String.{String}
use text.Mathlib.Text.{◌==◌ as str_eq}
use text.Mathlib.TextEquality.{eq_iff}
use inkpi.Base.{
  ℕ, ◌<◌, ◌≤◌, ◌≡◌, ◌≢◌, refl, sym, ap, ◌∙◌, inl, inr, Bool, true, Option, none, some, ok, List, [],
  ◌∷◌, ◌++◌, arith, if◌then◌else◌, Bool-cases,
}
use inkpi.Storage.LeaseTable.{LeaseRow, LeaseTable, apply_where}
use inkpi.Storage.Leases.{
  WriterLeaseGrant, row_of, last_token, next_grant, is_lease_active, get_lease,
  validate_fencing_token, next_token, max_safe_integer,
}
use inkpi.Storage.Leases.History.{
  LeaseCall, acquires, renews, releases, step, run, grants_of, acquires-cases, renews-cases,
  releases-cases,
}

-- The tokens among grants that are for the lease `k`.
unfoldable pub tokens_of : String → List WriterLeaseGrant → List ℕ
tokens_of k [] = []
tokens_of k (g ∷ gs) =
    if str_eq g.lease_id k then g.fencing_token ∷ tokens_of k gs else tokens_of k gs

-- Numbers that rise strictly from above `lo`, the last of them `hi`; without any `lo` is `hi`.
abbrev pub Rising : ℕ → List ℕ → ℕ → Type 0
Rising lo [] hi = lo ≡ hi
Rising lo (x ∷ xs) hi = (lo < x) × Rising x xs hi

Rising-append : (a b c : ℕ) (xs ys : List ℕ) → Rising a xs b → Rising b ys c → Rising a (xs ++ ys) c
Rising-append a b c [] [] r s = r ∙ s
Rising-append a b c [] (y ∷ ys) r s = (omega arith, s.1)
Rising-append a b c (x ∷ xs) ys r s = (r.0, Rising-append x b c xs ys r.1 s)

pub tokens_of-append :
    (k : String) (gs hs : List WriterLeaseGrant)
    → tokens_of k (gs ++ hs) ≡ tokens_of k gs ++ tokens_of k hs
unfolding tokens_of
tokens_of-append k [] hs = refl
tokens_of-append k (g ∷ gs) hs = ground (arith, tokens_of-append k gs hs)

last_token-apply_where :
    (test : LeaseRow → Bool) (change : LeaseRow → LeaseRow) (o : Option LeaseRow)
    → ((r : LeaseRow) → (change r).fencing_token ≡ r.fencing_token)
    → last_token (apply_where test change o) ≡ last_token o
unfolding last_token
last_token-apply_where test change none h = refl
last_token-apply_where test change (some r) h = ground (arith, h r)

next_token-le : (n : ℕ) → n ≤ next_token n
unfolding next_token
next_token-le n = ground arith

next_token-lt : (n : ℕ) → next_token n ≤ max_safe_integer → n < next_token n
unfolding next_token
next_token-lt n safe = ground arith

module _ (db : LeaseTable) (k : String) where
  open db use {Table, select, upsert, update, select-upsert, select-update}

  -- The last token of the lease.
  abbrev pub token : Table → ℕ
  token t = last_token (select t k)

  abbrev Advances : Table → Table × Option WriterLeaseGrant → Type 0
  Advances t out =
      (token t ≤ token out.0)
      × (token out.0 ≤ max_safe_integer
          → Rising (token t) (tokens_of k (grants_of db out.1)) (token out.0))

  Advances-none : (t t' : Table) → token t' ≡ token t → Advances t (t', none)
  unfolding tokens_of
  Advances-none t t' e = (omega (arith, e), λ safe. sym e)

  token-update :
      (t : Table) (id : String) (test : LeaseRow → Bool) (change : LeaseRow → LeaseRow)
      → ((r : LeaseRow) → (change r).fencing_token ≡ r.fencing_token)
      → token (update t id test change) ≡ token t
  token-update t id test change h =
      rw (select-update t id test change k)
        (ground (arith, last_token-apply_where test change (select t k) h))

  token-upsert :
      (t : Table) (r : LeaseRow)
      → token (upsert t r) ≡ (if str_eq r.id k then r.fencing_token else token t)
  unfolding last_token
  token-upsert t r = ground (arith, select-upsert t r k)

  grant-Advances :
      (t : Table) (id holder : String) (ttl : ℕ) (metadata : Option String) (now : ℕ)
      → let g = next_grant (select t id) id holder ttl metadata now in
        Advances t (upsert t (row_of g), some g)
  unfolding tokens_of
  grant-Advances t id holder ttl metadata now =
      let g = next_grant (select t id) id holder ttl metadata now in
      let e = token-upsert t (row_of g) in
      elim (Bool-cases (str_eq id k)) [
        | inl hit ↦
            let same : last_token (select t id) ≡ token t =
              ap (λ j. last_token (select t j)) ((eq_iff id k).0 hit) in
            rw (hit, e, hit, same)
              (next_token-le (token t), λ safe. (next_token-lt (token t) safe, refl))
        | inr miss ↦ rw (miss, e, miss) (omega arith, λ safe. refl)
      ]

  step-Advances : (t : Table) (c : ℕ × LeaseCall) → Advances t (step db t c)
  step-Advances t (now, acquires id holder ttl metadata) =
      elim (acquires-cases db t id holder ttl metadata now) [
        | inl e ↦ rw e (Advances-none t t refl)
        | inr (_, _, e) ↦ rw e (grant-Advances t id holder ttl metadata now)
      ]
  step-Advances t (now, renews id holder ttl tok) = elim (renews-cases db t id holder ttl tok now) [
    | inl e ↦ rw e (Advances-none t t refl)
    | inr (_, e) ↦ rw e (Advances-none t _ (token-update t id _ _ (λ r. refl)))
  ]
  step-Advances t (now, releases id holder tok) = elim (releases-cases db t id holder tok now) [
    | inl e ↦ rw e (Advances-none t t refl)
    | inr e ↦ rw e (Advances-none t _ (token-update t id _ _ (λ r. refl)))
  ]

  pub run-token : (t : Table) (cs : List (ℕ × LeaseCall)) → token t ≤ token (run db t cs).0
  unfolding run
  run-token t [] = omega arith
  run-token t (c ∷ cs) = omega (arith, (step-Advances t c).0, run-token (step db t c).0 cs)

  -- Through any history, whoever makes the calls and at whatever times, after which the token of a lease
  -- in the table is still a safe integer: the tokens granted for the lease rise strictly from above the
  -- token that the table held before, and the last of them is the token that it holds after, or without
  -- a grant the token is the one before.
  pub run-Rising :
      (t : Table) (cs : List (ℕ × LeaseCall))
      → token (run db t cs).0 ≤ max_safe_integer
      → Rising (token t) (tokens_of k (run db t cs).1) (token (run db t cs).0)
  unfolding run tokens_of
  run-Rising t [] safe = refl
  run-Rising t (c ∷ cs) safe =
      let t' = (step db t c).0 in
      rw (tokens_of-append k (grants_of db (step db t c).1) (run db t' cs).1) (
        Rising-append (token t) (token t') _ _ _
          ((step-Advances t c).1 (omega (arith, run-token t' cs))) (run-Rising t' cs safe))

  active-token :
      (t : Table) (holder : String) (tok now : ℕ)
      → is_lease_active db t k holder tok now ≡ ok true
      → token t ≡ tok
  unfolding is_lease_active get_lease validate_fencing_token last_token
  active-token t holder tok now h = ground arith

  -- A token that a later one has replaced is not active after any history of calls, at any time.
  pub stale-not-active :
      (t : Table) (cs : List (ℕ × LeaseCall)) (holder : String) (tok now : ℕ)
      → tok < token t
      → is_lease_active db (run db t cs).0 k holder tok now ≢ ok true
  stale-not-active t cs holder tok now h active =
      omega (arith, active-token (run db t cs).0 holder tok now active, run-token t cs)
