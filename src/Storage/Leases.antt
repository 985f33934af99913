-- ===== src/Storage/Leases.antt =====
-- packages/storage/src/leases.ts: writer leases with fencing tokens. The clock is an argument of each
-- call, in milliseconds; durations are whole.
pub mod History
pub mod Fencing
pub mod Exclusive
mod Examples
use Prim.Native.String.{String}
use text.Mathlib.Text.{◌==◌ as str_eq}
use inkpi.Base.{
  ℕ, suc, ◌+◌, ◌-◌, ◌<◌, ◌≤◌, ◌^◌, ◌%◌, ◌≡◌, Bool, true, false, not, ◌&&◌, ◌||◌, Option, none, some,
  Result, ok, err, ◌>>=◌, ◌>>◌, require, ltb, leb, ◌==◌, if◌then◌else◌,
}
use inkpi.Base.Texts.{is_blank}
use inkpi.Storage.LeaseTable.{LeaseRow, LeaseTable}

pub data LeaseError : Type 0 where
  blank_lease_id blank_holder_id bad_ttl bad_fencing_token : LeaseError

abbrev pub max_safe_integer : ℕ
max_safe_integer = 2 ^ 53 - 1

unfoldable pub validate_lease_arguments : String → String → ℕ → Result LeaseError (Unit {0})
unfolding is_blank
validate_lease_arguments lease_id holder_id ttl = do
  require (not (is_blank lease_id)) blank_lease_id
  require (not (is_blank holder_id)) blank_holder_id
  require (not (ttl == 0)) bad_ttl

unfoldable pub validate_fencing_token : ℕ → Result LeaseError (Unit {0})
validate_fencing_token token =
    require (leb token max_safe_integer && not (ltb token 1)) bad_fencing_token

pub record WriterLeaseGrant : Type 0 where
  pub lease_id : String
  pub holder_id : String
  pub acquired_at : ℕ
  pub expires_at : ℕ
  pub fencing_token : ℕ
  pub metadata : Option String

pub record WriterLeaseInfo : Type 0 where
  pub holder_id : String
  pub acquired_at : ℕ
  pub expires_at : ℕ
  pub fencing_token : ℕ
  pub metadata : Option String

-- `isActive && existing.holder_id !== holderId`
unfoldable pub is_held_by_other : Option LeaseRow → String → ℕ → Bool
is_held_by_other none holder_id now = false
is_held_by_other (some r) holder_id now = ltb now r.expires_at && not (str_eq r.holder_id holder_id)

-- `Math.max(0, Number(existing?.fencing_token ?? 0))`
unfoldable pub last_token : Option LeaseRow → ℕ
last_token none = 0
last_token (some r) = r.fencing_token

-- A token and one, in the arithmetic of a `number`: it stops counting at 2^53.
unfoldable pub next_token : ℕ → ℕ
next_token n = if ltb n (2 ^ 53) then n + 1 else if ltb n (2 ^ 54) && n % 4 == 2 then n + 2 else n

-- The tests of the `WHERE` clauses of `renew` and `release`.
unfoldable pub token_matches : Option ℕ → LeaseRow → Bool
token_matches none r = true
token_matches (some token) r = r.fencing_token == token

unfoldable pub validate_token_option : Option ℕ → Result LeaseError (Unit {0})
unfolding validate_fencing_token
validate_token_option none = ok tt
validate_token_option (some token) = validate_fencing_token token

info_of : LeaseRow → WriterLeaseInfo
info_of r = record {
  holder_id = r.holder_id;
  acquired_at = r.acquired_at;
  expires_at = r.expires_at;
  fencing_token = r.fencing_token;
  metadata = r.metadata;
}

abbrev pub row_of : WriterLeaseGrant → LeaseRow
row_of g = record {
  id = g.lease_id;
  holder_id = g.holder_id;
  acquired_at = g.acquired_at;
  expires_at = g.expires_at;
  fencing_token = g.fencing_token;
  metadata = g.metadata;
}

-- What the statement of `renew` tests and writes.
abbrev pub renew_where : String → Option ℕ → ℕ → LeaseRow → Bool
renew_where holder_id token now r =
    str_eq r.holder_id holder_id && token_matches token r && ltb now r.expires_at

abbrev pub set_expires : ℕ → LeaseRow → LeaseRow
set_expires until r = record r { expires_at = until }

-- And that of `release`, whose `metadata = NULL`.
abbrev pub release_where : String → Option ℕ → LeaseRow → Bool
release_where holder_id token r = str_eq r.holder_id holder_id && token_matches token r

abbrev pub set_released : ℕ → LeaseRow → LeaseRow
set_released until r = record r { expires_at = until; metadata = none }

-- The grant of an acquisition at the time `now`, behind the row `existing`.
abbrev pub next_grant : Option LeaseRow → String → String → ℕ → Option String → ℕ → WriterLeaseGrant
next_grant existing lease_id holder_id ttl metadata now = record {
  lease_id = lease_id;
  holder_id = holder_id;
  acquired_at = now;
  expires_at = now + ttl;
  fencing_token = next_token (last_token existing);
  metadata = metadata;
}

module _ (db : LeaseTable) where
  open db use {Table, select, upsert, update, changes}

  -- What the transaction of `acquireLease` does.
  unfoldable pub grant_lease :
      Table → String → String → ℕ → Option String → ℕ → Table × Option WriterLeaseGrant
  grant_lease t lease_id holder_id ttl metadata now =
      let existing = select t lease_id in
      let grant = next_grant existing lease_id holder_id ttl metadata now in
      if is_held_by_other existing holder_id now
      then (t, none)
      else (upsert t (row_of grant), some grant)

  unfoldable pub acquire_lease :
      Table
      → String
      → String
      → ℕ
      → Option String
      → ℕ
      → Result LeaseError (Table × Option WriterLeaseGrant)
  acquire_lease t lease_id holder_id ttl metadata now = do
    validate_lease_arguments lease_id holder_id ttl
    ok (grant_lease t lease_id holder_id ttl metadata now)

  is_granted : Table × Option WriterLeaseGrant → Bool
  is_granted (t, none) = false
  is_granted (t, some g) = true

  unfoldable pub acquire :
      Table → String → String → ℕ → Option String → ℕ → Result LeaseError (Table × Bool)
  unfolding is_granted
  acquire t lease_id holder_id ttl metadata now = do
    out ← acquire_lease t lease_id holder_id ttl metadata now
    ok (out.0, is_granted out)

  unfoldable pub renew :
      Table → String → String → ℕ → Option ℕ → ℕ → Result LeaseError (Table × Bool)
  unfolding validate_lease_arguments validate_token_option
  renew t lease_id holder_id ttl fencing_token now = do
    validate_lease_arguments lease_id holder_id ttl
    validate_token_option fencing_token
    let test = renew_where holder_id fencing_token now
    ok (update t lease_id test (set_expires (now + ttl)), ltb 0 (changes t lease_id test))

  unfoldable pub release : Table → String → String → Option ℕ → ℕ → Result LeaseError (Table × Bool)
  unfolding validate_lease_arguments validate_token_option
  release t lease_id holder_id fencing_token now = do
    validate_lease_arguments lease_id holder_id 1
    validate_token_option fencing_token
    let test = release_where holder_id fencing_token
    ok (update t lease_id test (set_released (now - 1)), ltb 0 (changes t lease_id test))

  unfoldable pub get_lease : Table → String → Option WriterLeaseInfo
  unfolding info_of
  get_lease t lease_id = elim (select t lease_id) [ none ↦ none | some r ↦ some (info_of r) ]

  unfoldable pub is_lease_active : Table → String → String → ℕ → ℕ → Result LeaseError Bool
  unfolding get_lease validate_fencing_token
  is_lease_active t lease_id holder_id fencing_token now = do
    validate_fencing_token fencing_token
    ok (elim (get_lease t lease_id) [
      | none ↦ false
      | some l ↦
          str_eq l.holder_id holder_id && l.fencing_token == fencing_token && ltb now l.expires_at
    ])

  unfoldable pub is_locked_by_other : Table → String → String → ℕ → Bool
  unfolding get_lease
  is_locked_by_other t lease_id holder_id now = elim (get_lease t lease_id) [
    | none ↦ false
    | some l ↦ ltb now l.expires_at && not (str_eq l.holder_id holder_id)
  ]
