-- ===== src/Storage/Leases/History.antt =====
-- Histories of calls on the lease manager, and what a call does to one row.
use Prim.Native.String.{String}
use inkpi.Base.{
  ℕ, ◌+◌, ◌-◌, ◌<◌, ◌≡◌, ◌⊎◌, Bool, false, Option, none, some, Result, ok, err, List, [], ◌∷◌, ◌++◌,
  arith,
}
use inkpi.Storage.LeaseTable.{LeaseTable}
use inkpi.Storage.Leases.{
  LeaseError, WriterLeaseGrant, row_of, acquire_lease, grant_lease, renew, release,
  validate_lease_arguments, is_held_by_other, next_grant, renew_where, release_where, set_expires,
  set_released,
}

-- A call that changes the table, by lease, holder, duration and metadata or fencing token.
pub data LeaseCall : Type 0 where
  acquires : String → String → ℕ → Option String → LeaseCall
  renews : String → String → ℕ → Option ℕ → LeaseCall
  releases : String → String → Option ℕ → LeaseCall

module _ (db : LeaseTable) where
  open db use {Table, select, upsert, update, changes, select-upsert, select-update}

  -- A call that throws changes nothing, and grants nothing.
  abbrev pub acquired :
      Table → Result LeaseError (Table × Option WriterLeaseGrant) → Table × Option WriterLeaseGrant
  acquired t (ok out) = out
  acquired t (err e) = (t, none)

  abbrev pub changed : Table → Result LeaseError (Table × Bool) → Table × Option WriterLeaseGrant
  changed t (ok (t', done)) = (t', none)
  changed t (err e) = (t, none)

  -- One call, at the time `now`.
  unfoldable pub step : Table → ℕ × LeaseCall → Table × Option WriterLeaseGrant
  step t (now, acquires id holder ttl metadata) =
      acquired t (acquire_lease db t id holder ttl metadata now)
  step t (now, renews id holder ttl token) = changed t (renew db t id holder ttl token now)
  step t (now, releases id holder token) = changed t (release db t id holder token now)

  abbrev pub grants_of : Option WriterLeaseGrant → List WriterLeaseGrant
  grants_of none = []
  grants_of (some g) = g ∷ []

  -- The table after a history, and the grants that it made, in order.
  unfoldable pub run : Table → List (ℕ × LeaseCall) → Table × List WriterLeaseGrant
  run t [] = (t, [])
  run t (c ∷ cs) = let (t', g) = step t c in let (t'', gs) = run t' cs in (t'', grants_of g ++ gs)

  -- What a call comes to: nothing, or one statement over the table.
  pub acquires-cases :
      (t : Table) (id holder : String) (ttl : ℕ) (metadata : Option String) (now : ℕ)
      → let out = step t (now, acquires id holder ttl metadata) in
        let g = next_grant (select t id) id holder ttl metadata now in
        (out ≡ (t, none))
        ⊎ ((is_held_by_other (select t id) holder now ≡ false)
            × (0 < ttl)
            × (out ≡ (upsert t (row_of g), some g)))
  unfolding step acquire_lease grant_lease validate_lease_arguments
  acquires-cases t id holder ttl metadata now = ground arith

  pub renews-cases :
      (t : Table) (id holder : String) (ttl : ℕ) (token : Option ℕ) (now : ℕ)
      → let out = step t (now, renews id holder ttl token) in
        (out ≡ (t, none))
        ⊎ ((0 < ttl)
            × (out ≡ (update t id (renew_where holder token now) (set_expires (now + ttl)), none)))
  unfolding step renew validate_lease_arguments
  renews-cases t id holder ttl token now = ground arith

  pub releases-cases :
      (t : Table) (id holder : String) (token : Option ℕ) (now : ℕ)
      → let out = step t (now, releases id holder token) in
        (out ≡ (t, none))
        ⊎ (out ≡ (update t id (release_where holder token) (set_released (now - 1)), none))
  unfolding step release validate_lease_arguments
  releases-cases t id holder token now = ground arith
