-- ===== src/Storage/Leases/Examples.antt =====
-- Runs of the lease manager over a table that is a function, and the theorems at concrete inputs.
use Prim.Native.String.{String}
use text.Mathlib.Text.{◌==◌ as str_eq}
use inkpi.Base.{
  ℕ, ◌≡◌, ◌≢◌, refl, inl, inr, true, Option, none, some, ok, if◌then◌else◌, List, [], ◌∷◌, arith,
}
use inkpi.Storage.LeaseTable.{LeaseRow, function_table}
use inkpi.Storage.Leases.{
  WriterLeaseGrant, acquire_lease, grant_lease, release, validate_lease_arguments,
  validate_token_option, is_held_by_other, last_token, next_token, token_matches, is_lease_active,
}
use inkpi.Storage.Leases.History.{LeaseCall, acquires, releases, step, run}
use inkpi.Storage.Leases.Fencing.{tokens_of, Rising, run-Rising, stale-not-active}
use inkpi.Storage.Leases.Exclusive.{
  acquire_lease-exclusive, acquire_lease-free, acquire_lease-after_release,
}

abbrev no_rows : String → Option LeaseRow
no_rows k = none

abbrev calls : List (ℕ × LeaseCall)
calls =
    (10, acquires "doc" "ana" 30 none)
    ∷ (20, acquires "doc" "bo" 30 none)
    ∷ (50, acquires "doc" "bo" 30 none)
    ∷ (60, releases "doc" "bo" (some 2))
    ∷ (60, acquires "doc" "ana" 5 none)
    ∷ []

tokens_run : tokens_of "doc" (run function_table no_rows calls).1 ≡ 1 ∷ 2 ∷ 3 ∷ []
unfolding tokens_of run step acquire_lease grant_lease release validate_lease_arguments
    validate_token_option is_held_by_other last_token next_token token_matches
tokens_run = refl

run-Rising_example : Rising 0 (tokens_of "doc" (run function_table no_rows calls).1) 3
unfolding run step acquire_lease grant_lease release validate_lease_arguments validate_token_option
    is_held_by_other last_token next_token token_matches
run-Rising_example = run-Rising function_table "doc" no_rows calls (omega arith)

abbrev held_by_ana : LeaseRow
held_by_ana = record {
  id = "doc";
  holder_id = "ana";
  acquired_at = 10;
  expires_at = 40;
  fencing_token = 1;
  metadata = none;
}

abbrev one_row : String → Option LeaseRow
one_row k = some held_by_ana

abbrev ana_grant : WriterLeaseGrant
ana_grant = record {
  lease_id = "doc";
  holder_id = "ana";
  acquired_at = 10;
  expires_at = 40;
  fencing_token = 1;
  metadata = none;
}

-- The lease was granted again, with the token 2.
abbrev second_row : String → Option LeaseRow
second_row k = some (record held_by_ana { fencing_token = 2 })

stale-not-active_example :
    is_lease_active function_table (run function_table second_row calls).0 "doc" "ana" 1 70
    ≢ ok true
unfolding last_token
stale-not-active_example =
    stale-not-active function_table "doc" second_row calls "ana" 1 70 (omega arith)

abbrev foreign_calls : List (ℕ × LeaseCall)
foreign_calls =
    (20, acquires "doc" "bo" 30 none)
    ∷ (21, releases "doc" "bo" none)
    ∷ (22, acquires "note" "ana" 9 none)
    ∷ []

abbrev ana_table : String → Option LeaseRow
ana_table k = if str_eq "doc" k then some held_by_ana else none

acquire_lease-exclusive_example :
    (is_lease_active function_table (run function_table ana_table foreign_calls).0 "doc" "ana" 1 39
      ≡ ok true)
    × (tokens_of "doc" (run function_table ana_table foreign_calls).1 ≡ [])
unfolding acquire_lease grant_lease validate_lease_arguments is_held_by_other last_token next_token
acquire_lease-exclusive_example =
    acquire_lease-exclusive function_table "doc" no_rows "ana" 30 none 10 {t' = ana_table}
      {g = ana_grant} foreign_calls 39 refl
      ((omega arith, inr refl), ((omega arith, inr refl), ((omega arith, inl refl), tt)))
      (omega arith) (omega arith)

acquire_lease-free_example :
    (t' : String → Option LeaseRow) × (g : WriterLeaseGrant) × (acquire_lease function_table one_row
        "doc" "bo" 30 none 40
      ≡ ok (t', some g))
    × (g.fencing_token ≡ 2)
    × (is_lease_active function_table t' "doc" "bo" g.fencing_token 40 ≡ ok true)
unfolding validate_lease_arguments last_token
acquire_lease-free_example =
    acquire_lease-free function_table "doc" one_row "bo" 30 none 40 refl (inl (omega arith))
      (omega arith)

abbrev released_table : String → Option LeaseRow
released_table k =
    if str_eq "doc" k then some (record held_by_ana { expires_at = 14 }) else some held_by_ana

acquire_lease-after_release_example :
    (t'' : String → Option LeaseRow) × (g : WriterLeaseGrant) × (acquire_lease function_table
        released_table "doc" "bo" 30 none 15
      ≡ ok (t'', some g))
    × (g.fencing_token ≡ 2)
unfolding release validate_lease_arguments validate_token_option token_matches last_token next_token
acquire_lease-after_release_example =
    acquire_lease-after_release function_table "doc" one_row "ana" "bo" none 30 none 15 15
      {t' = released_table} refl (omega arith) refl
