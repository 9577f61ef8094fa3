-- ===== src/Prelude/Database.antt =====
-- What the services assume of the database client: a table of rows under a unique text key.
-- `find` is `findUnique` by the key, `write` is `create` under a new key and the write of
-- `update`. No implementation of it stands in the repository.
use Prim.Native.String.{String}
use mathlib.Core.Path.{◌≡◌, refl, ◌∙◌}
use mathlib.Core.Bool.{true, false}
use mathlib.Core.Option.{Option, some}
use afro_pay_stellar.Prelude.Tests.{str_eq, if◌then◌else◌}

pub record Table (Row : Type 0) : Type 1 where
  pub Rows : Type 0
  pub find : String → Rows → Option Row
  pub write : String → Row → Rows → Rows
  pub find-write :
      (k j : String) (r : Row) (t : Rows)
      → find j (write k r t) ≡ (if str_eq k j then some r else find j t)

module _ {Row : Type 0} (table : Table Row) where
  pub find-write_here :
      (k j : String) (r : Row) (t : table.Rows)
      → str_eq k j ≡ true
      → table.find j (table.write k r t) ≡ some r
  find-write_here k j r t h = table.find-write k j r t ∙ rw h refl

  pub find-write_there :
      (k j : String) (r : Row) (t : table.Rows)
      → str_eq k j ≡ false
      → table.find j (table.write k r t) ≡ table.find j t
  find-write_there k j r t h = table.find-write k j r t ∙ rw h refl

-- A table that meets the assumptions.
abbrev pub map_table : (Row : Type 0) → Table Row
map_table Row = record {
  Rows = String → Option Row;
  find = λ k t. t k;
  write = λ k r t j. if str_eq k j then some r else t j;
  find-write = λ k j r t. refl;
}
