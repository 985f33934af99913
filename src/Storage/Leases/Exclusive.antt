-- ===== src/Storage/Leases/Exclusive.antt =====
-- Exclusion: a lease that is held stays with its holder until it expires or the holder gives it up,
-- and can be had again from then on.
use Prim.Native.String.{String}
use text.Mathlib.Text.{◌==◌ as str_eq}
use text.Mathlib.TextEquality.{eq_iff}
use text.Mathlib.TextPositions.{eq_refl}
use inkpi.Base.{
  ℕ, ◌+◌, ◌-◌, ◌<◌, ◌≤◌, ◌≡◌, refl, ap, ◌∙◌, ◌⊎◌, inl, inr, Bool, true, false, Option, none, some,
  ok, List, [], ◌∷◌, arith, Bool-cases, All,
}
use inkpi.Storage.LeaseTable.{LeaseRow, LeaseTable}
use inkpi.Storage.Leases.{
  WriterLeaseGrant, row_of, max_safe_integer, acquire_lease, grant_lease, release,
  validate_lease_arguments, validate_token_option, is_held_by_other, last_token, next_token,
  next_grant, release_where, set_released, is_lease_active, get_lease, validate_fencing_token,
  info_of,
}
use inkpi.Storage.Leases.History.{
  LeaseCall, acquires, renews, releases, step, run, grants_of, acquires-cases, renews-cases,
  releases-cases,
}
use inkpi.Storage.Leases.Fencing.{tokens_of, tokens_of-append}

-- The call is on another lease, or made by another than `holder`.
abbrev pub IsForeign : String → String → LeaseCall → Type 0
IsForeign k holder (acquires id by ttl metadata) =
    (str_eq id k ≡ false) ⊎ (str_eq holder by ≡ false)
IsForeign k holder (renews id by ttl token) = (str_eq id k ≡ false) ⊎ (str_eq holder by ≡ false)
IsForeign k holder (releases id by token) = (str_eq id k ≡ false) ⊎ (str_eq holder by ≡ false)

-- There is no row, or its time is up, or it is the caller's.
abbrev pub IsFreeFor : Option LeaseRow → String → ℕ → Type 0
IsFreeFor none holder now = Unit {0}
IsFreeFor (some r) holder now = (r.expires_at ≤ now) ⊎ (r.holder_id ≡ holder)

next_token-positive : (n : ℕ) → 1 ≤ next_token n
unfolding next_token
next_token-positive n = ground arith

next_token-safe : (n : ℕ) → n < max_safe_integer → next_token n ≡ n + 1
unfolding next_token
next_token-safe n safe = ground arith

module _ (db : LeaseTable) (k : String) where
  open db use {Table, select, upsert, update, changes, select-upsert, select-update, changes-count}

  -- The row stays as it is, and no grant is made for the lease.
  abbrev Keeps : LeaseRow → Table × Option WriterLeaseGrant → Type 0
  Keeps r out = (select out.0 k ≡ some r) × (tokens_of k (grants_of db out.1) ≡ [])

  update-Keeps :
      (t : Table) (r : LeaseRow) (id : String) (test : LeaseRow → Bool)
      (change : LeaseRow → LeaseRow)
      → select t k ≡ some r
      → (str_eq id k ≡ false) ⊎ (test r ≡ false)
      → Keeps r (update t id test change, none)
  unfolding tokens_of
  update-Keeps t r id test change held foreign =
      (rw (select-update t id test change k, held) (ground arith), refl)

  grant-Keeps :
      (t : Table) (r : LeaseRow) (id by : String) (ttl : ℕ) (metadata : Option String) (now : ℕ)
      → select t k ≡ some r
      → now < r.expires_at
      → is_held_by_other (select t id) by now ≡ false
      → (str_eq id k ≡ false) ⊎ (str_eq r.holder_id by ≡ false)
      → Keeps r
          (let g = next_grant (select t id) id by ttl metadata now in (upsert t (row_of g), some g))
  unfolding tokens_of is_held_by_other
  grant-Keeps t r id by ttl metadata now held live free foreign = elim (Bool-cases (str_eq id k)) [
    | inl hit ↦
        let row : select t id ≡ some r = ap (select t) ((eq_iff id k).0 hit) ∙ held in
        let clash : is_held_by_other (some r) by now ≡ false = rw row at free in
        absurd (ground arith)
    | inr miss ↦ (
      rw (select-upsert t (row_of (next_grant (select t id) id by ttl metadata now)) k, miss) held,
      rw miss,
    )
  ]

  step-Keeps :
      (t : Table) (r : LeaseRow) (c : ℕ × LeaseCall)
      → select t k ≡ some r
      → c.0 < r.expires_at
      → IsForeign k r.holder_id c.1
      → Keeps r (step db t c)
  unfolding tokens_of
  step-Keeps t r (now, acquires id by ttl metadata) held live foreign =
      elim (acquires-cases db t id by ttl metadata now) [
        | inl e ↦ rw e (held, refl)
        | inr (free, _, e) ↦ rw e (grant-Keeps t r id by ttl metadata now held live free foreign)
      ]
  step-Keeps t r (now, renews id by ttl token) held live foreign =
      elim (renews-cases db t id by ttl token now) [
        | inl e ↦ rw e (held, refl)
        | inr (_, e) ↦ rw e (update-Keeps t r id _ _ held (ground arith))
      ]
  step-Keeps t r (now, releases id by token) held live foreign =
      elim (releases-cases db t id by token now) [
        | inl e ↦ rw e (held, refl)
        | inr e ↦ rw e (update-Keeps t r id _ _ held (ground arith))
      ]

  run-Keeps :
      (t : Table) (r : LeaseRow) (cs : List (ℕ × LeaseCall))
      → select t k ≡ some r
      → All (λ c. (c.0 < r.expires_at) × IsForeign k r.holder_id c.1) cs
      → (select (run db t cs).0 k ≡ some r) × (tokens_of k (run db t cs).1 ≡ [])
  unfolding run tokens_of
  run-Keeps t r [] held foreign = (held, refl)
  run-Keeps t r (c ∷ cs) held foreign =
      let (kept, quiet) = step-Keeps t r c held foreign.0.0 foreign.0.1 in
      let (after, rest) = run-Keeps (step db t c).0 r cs kept foreign.1 in
      (after, tokens_of-append k (grants_of db (step db t c).1) _ ∙ rw (quiet, rest))

  granted_row :
      (t : Table) (holder : String) (ttl : ℕ) (metadata : Option String) (now : ℕ) (t' : Table)
      (g : WriterLeaseGrant)
      → acquire_lease db t k holder ttl metadata now ≡ ok (t', some g)
      → (select t' k ≡ some (row_of g))
        × (g.holder_id ≡ holder)
        × (g.expires_at ≡ now + ttl)
        × (g.fencing_token ≡ next_token (last_token (select t k)))
  unfolding acquire_lease grant_lease validate_lease_arguments
  granted_row t holder ttl metadata now t' g e = ground (
    arith,
    select-upsert t (row_of (next_grant (select t k) k holder ttl metadata now)) k,
    eq_refl k,
  )

  row-active :
      (t : Table) (r : LeaseRow) (later : ℕ)
      → select t k ≡ some r
      → later < r.expires_at
      → 1 ≤ r.fencing_token
      → r.fencing_token ≤ max_safe_integer
      → is_lease_active db t k r.holder_id r.fencing_token later ≡ ok true
  unfolding is_lease_active get_lease validate_fencing_token info_of
  row-active t r later held live one safe = ground (arith, eq_refl r.holder_id)

  -- From a successful acquisition until the lease runs out, and whatever calls are made meanwhile by
  -- others than its holder or on other leases: it is active under its token, and nobody is granted
  -- it. The token is a safe integer.
  pub acquire_lease-exclusive :
      (t : Table) (holder : String) (ttl : ℕ) (metadata : Option String) (now : ℕ) {t' : Table}
      {g : WriterLeaseGrant} (cs : List (ℕ × LeaseCall)) (later : ℕ)
      → acquire_lease db t k holder ttl metadata now ≡ ok (t', some g)
      → All (λ c. (c.0 < now + ttl) × IsForeign k holder c.1) cs
      → later < now + ttl
      → g.fencing_token ≤ max_safe_integer
      → (is_lease_active db (run db t' cs).0 k holder g.fencing_token later ≡ ok true)
        × (tokens_of k (run db t' cs).1 ≡ [])
  acquire_lease-exclusive t holder ttl metadata now {t'} {g} cs later granted foreign live safe =
      let (row, by, until, token) = granted_row t holder ttl metadata now t' g granted in
      let foreign' : All (λ c. (c.0 < g.expires_at) × IsForeign k g.holder_id c.1) cs =
        rw (until, by) foreign in
      let (kept, quiet) = run-Keeps t' (row_of g) cs row foreign' in
      (
        rw (← by) (
            row-active (run db t' cs).0 (row_of g) later kept (omega (arith, until))
              (omega (arith, token, next_token-positive (last_token (select t k)))) safe),
        quiet,
      )

  positive_ttl :
      (holder : String) (ttl : ℕ) → validate_lease_arguments k holder ttl ≡ ok tt → 0 < ttl
  unfolding validate_lease_arguments
  positive_ttl holder ttl h = ground arith

  released_row :
      (t : Table) (holder : String) (token : Option ℕ) (now : ℕ) (t' : Table)
      → release db t k holder token now ≡ ok (t', true)
      → (r : LeaseRow) × (select t k ≡ some r) × (select t' k ≡ some (set_released (now - 1) r))
  unfolding release validate_lease_arguments validate_token_option
  released_row t holder token now t' e = ground (
    arith,
    changes-count t k (release_where holder token),
    select-update t k (release_where holder token) (set_released (now - 1)) k,
    eq_refl k,
  )

  free-not_held :
      (o : Option LeaseRow) (holder : String) (now : ℕ)
      → IsFreeFor o holder now
      → is_held_by_other o holder now ≡ false
  unfolding is_held_by_other
  free-not_held none holder now free = refl
  free-not_held (some r) holder now (inl over) = ground arith
  free-not_held (some r) holder now (inr own) = rw own (ground (arith, eq_refl holder))

  -- With valid arguments, once the lease has run out or was never held or is the caller's own, and below
  -- the last safe token, an acquisition succeeds, with the token after the last one, and the new holder
  -- is active at once.
  pub acquire_lease-free :
      (t : Table) (holder : String) (ttl : ℕ) (metadata : Option String) (now : ℕ)
      → validate_lease_arguments k holder ttl ≡ ok tt
      → IsFreeFor (select t k) holder now
      → last_token (select t k) < max_safe_integer
      → (t' : Table) × (g : WriterLeaseGrant) × (acquire_lease db t k holder ttl metadata now
          ≡ ok (t', some g))
        × (g.fencing_token ≡ last_token (select t k) + 1)
        × (is_lease_active db t' k holder g.fencing_token now ≡ ok true)
  unfolding acquire_lease grant_lease
  acquire_lease-free t holder ttl metadata now valid free safe =
      let g = next_grant (select t k) k holder ttl metadata now in
      let open_ = free-not_held (select t k) holder now free in
      let done : acquire_lease db t k holder ttl metadata now ≡ ok (upsert t (row_of g), some g) =
        rw (valid, open_) in
      let (row, _, _, token) = granted_row t holder ttl metadata now _ g done in
      let next = next_token-safe (last_token (select t k)) safe in
      (
        upsert t (row_of g),
        g,
        done,
        next,
        row-active _ (row_of g) now row (omega (arith, positive_ttl holder ttl valid))
            (omega (arith, next)) (omega (arith, next)),
      )

  -- After its holder released it, an acquisition by anyone with valid arguments succeeds, and its
  -- token is counted on from the last.
  pub acquire_lease-after_release :
      (t : Table) (holder next : String) (token : Option ℕ) (ttl : ℕ) (metadata : Option String)
      (now later : ℕ) {t' : Table}
      → release db t k holder token now ≡ ok (t', true)
      → now ≤ later
      → validate_lease_arguments k next ttl ≡ ok tt
      → (t'' : Table) × (g : WriterLeaseGrant) × (acquire_lease db t' k next ttl metadata later
          ≡ ok (t'', some g))
        × (g.fencing_token ≡ next_token (last_token (select t k)))
  unfolding acquire_lease grant_lease is_held_by_other last_token
  acquire_lease-after_release t holder next token ttl metadata now later {t'} released le valid =
      let (r, before, after) = released_row t holder token now t' released in
      let g = next_grant (select t' k) k next ttl metadata later in
      let free : is_held_by_other (select t' k) next later ≡ false = rw after (ground arith) in
      (upsert t' (row_of g), g, rw (valid, free), rw (after, before))
