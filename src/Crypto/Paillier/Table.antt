-- ===== src/Crypto/Paillier/Table.antt =====
-- crypto/paillier.cc: BigNumTable, a hash map from x * column_length + y to the number in the cell.
-- A hash map is the list of its entries: the code never iterates over it.
pub mod Laws
use private_join_and_compute.Prelude.{
  ℕ, ◌+◌, ◌*◌, Option, none, some, List, [], ◌∷◌, ltb, ◌==◌, if◌then◌else◌,
}
use private_join_and_compute.Util.Result.{Result, ok, ◌>>◌, check, crypto_check}
use private_join_and_compute.Crypto.BigNum.{BigNum}

pub record BigNumTable : Type 0 where
  pub column_length : ℕ
  pub table : List (ℕ × BigNum)

unfoldable pub find : ℕ → List (ℕ × BigNum) → Option BigNum
find key [] = none
find key ((k, num) ∷ rest) = if k == key then some num else find key rest

-- BigNumTable(column_length)
unfoldable pub make_table : ℕ → BigNumTable
make_table column_length = record { column_length = column_length; table = [] }

-- Insert. The insertion into a hash map leaves a key that is there as it was.
unfoldable pub insert : BigNumTable → ℕ → ℕ → BigNum → Result BigNumTable
insert t x y num =
    let key = x * t.column_length + y in
    (do
      check (ltb y t.column_length)
      ok (elim (find key t.table) [
        | none ↦ record t { table = (key, num) ∷ t.table }
        | some old ↦ t
      ]))

-- Get ends the process where the cell is empty.
unfoldable pub get : BigNumTable → ℕ → ℕ → Result BigNum
get t x y = do check (ltb y t.column_length); crypto_check (find (x * t.column_length + y) t.table)
