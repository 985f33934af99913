-- ===== src/Storage/LeaseTable.antt =====
-- The table `writer_leases` behind the SQL statements of packages/storage/src/leases.ts. The engine
-- is not part of the repository: what the statements do is a parameter with their documented laws.
use Prim.Native.String.{String}
use text.Mathlib.Text.{◌==◌ as str_eq}
use inkpi.Base.{ℕ, ◌≡◌, refl, Bool, Option, none, some, if◌then◌else◌}

pub record LeaseRow : Type 0 where
  pub id : String
  pub holder_id : String
  pub acquired_at : ℕ
  pub expires_at : ℕ
  pub fencing_token : ℕ
  pub metadata : Option String

abbrev pub apply_where :
    (LeaseRow → Bool) → (LeaseRow → LeaseRow) → Option LeaseRow → Option LeaseRow
apply_where test change none = none
apply_where test change (some r) = some (if test r then change r else r)

abbrev pub count_where : (LeaseRow → Bool) → Option LeaseRow → ℕ
count_where test none = 0
count_where test (some r) = if test r then 1 else 0

pub record LeaseTable : Type 1 where
  pub Table : Type 0
  -- `SELECT * FROM writer_leases WHERE id = ?`
  pub select : Table → String → Option LeaseRow
  -- `INSERT … ON CONFLICT(id) DO UPDATE SET` every other column
  pub upsert : Table → LeaseRow → Table
  -- `UPDATE writer_leases SET … WHERE id = ? AND …`
  pub update : Table → String → (LeaseRow → Bool) → (LeaseRow → LeaseRow) → Table
  -- its `changes`
  pub changes : Table → String → (LeaseRow → Bool) → ℕ
  pub select-upsert :
      (t : Table) (r : LeaseRow) (k : String)
      → select (upsert t r) k ≡ (if str_eq r.id k then some r else select t k)
  pub select-update :
      (t : Table) (id : String) (test : LeaseRow → Bool) (change : LeaseRow → LeaseRow) (k : String)
      → select (update t id test change) k
        ≡ (if str_eq id k then apply_where test change (select t k) else select t k)
  pub changes-count :
      (t : Table) (id : String) (test : LeaseRow → Bool)
      → changes t id test ≡ count_where test (select t id)

-- The laws can be met: a table as a function from identifiers to rows.
abbrev pub function_table : LeaseTable
function_table = record {
  Table = String → Option LeaseRow;
  select = λ t k. t k;
  upsert = λ t r k. if str_eq r.id k then some r else t k;
  update = λ t id test change k. if str_eq id k then apply_where test change (t k) else t k;
  changes = λ t id test. count_where test (t id);
  select-upsert = λ t r k. refl;
  select-update = λ t id test change k. refl;
  changes-count = λ t id test. refl;
}
