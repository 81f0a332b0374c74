-- ===== src/Pgx/Rows.antt =====
-- `pgxRows` of pgx/pgxWrapper.go: the rows of pgx as a `RowsScanner`.
pub mod Laws
use onedb.Prelude.{
  ◌%◌, ◌^◌, ap, ℕ, [], ◌∷◌, Bool, ◌≡◌, refl, Option, none, List, map, length, Bytes, All, arith,
}
use onedb.Go.Ints.{ℤ}
use onedb.Go.Outcome.{Error, Outcome, ok, err, panic, out_of_fuel}
use onedb.Go.Types.{GoType, any}
use onedb.Go.Values.{Value}
use onedb.Rows.{Cell, Scanned, RowsScanner}
use onedb.Rows.Script.{holding, IsAny, Reads}

-- `FieldDescription`, which is also that of pgx; an `Oid` has 32 bits.
pub record FieldDescription : Type 0 where
  pub name : Bytes
  pub table : ℕ
  pub attribute_number : ℤ
  pub data_type : ℕ
  pub data_type_size : ℤ
  pub data_type_name : Bytes
  pub modifier : ℤ
  pub format_code : ℤ

-- What the code uses of `pgx.Rows`, for rows with states `R`.
pub record Rower (R : Type 0) : Type 0 where
  pub close : R → R
  pub last_err : R → Option Error
  pub field_descriptions : R → List FieldDescription
  pub fatal : R → Error → R
  pub next : R → R × Bool
  pub values : R → R × Outcome (List Value)

-- `Oid(n)`
oid : ℕ → ℕ
oid n = n % 2 ^ 32

-- The loop of `FieldDescriptions`.
copied_descriptions : List FieldDescription → List FieldDescription
unfolding oid
copied_descriptions [] = []
copied_descriptions (d ∷ descriptions) =
    record d { table = oid d.table; data_type = oid d.data_type } ∷ copied_descriptions descriptions

unfoldable pub field_descriptions : {R : Type 0} → Rower R → R → List FieldDescription
unfolding copied_descriptions
field_descriptions rower r = copied_descriptions (rower.field_descriptions r)

-- The loop of `Columns`.
abbrev pub names_of : List FieldDescription → List Bytes
names_of [] = []
names_of (field ∷ fields) = field.name ∷ names_of fields

abbrev pub column_names : {R : Type 0} → Rower R → R → List Bytes
column_names rower r = names_of (rower.field_descriptions r)

unfoldable pub fatal : {R : Type 0} → Rower R → R → Error → R
fatal rower r e = rower.fatal r e

-- The values of a row, as `Values` gives them.
unfoldable pub row_values : {R : Type 0} → Rower R → R → R × Outcome (List Value)
row_values rower r = rower.values r

-- `*(item.(*interface{})) = vals[i]`, for the rest of `dest` and of `vals`: the values are stored up
-- to the panic of an index out of range, or of a variable that is no `interface{}`.
store_at :
    GoType
    → Cell
    → Value
    → List Cell
    → List Cell × Outcome (Unit {0})
    → List Cell × Outcome (Unit {0})
store_at any c v dest (dest', r) = (holding v ∷ dest', r)
store_at _ c v dest rest = (c ∷ dest, panic)

pub store : List Cell → List Value → List Cell × Outcome (Unit {0})
unfolding store_at
store [] vals = ([], ok tt)
store (c ∷ dest) [] = (c ∷ dest, panic)
store (c ∷ dest) (v ∷ vals) = store_at c.type c v dest (store dest vals)

scanned_values : {R : Type 0} → List Cell → R × Outcome (List Value) → Scanned R
unfolding store
scanned_values dest (r, ok vals) =
    let (dest', result) = store dest vals in record { rows = r; dest = dest'; result = result }
scanned_values dest (r, err e) = record { rows = r; dest = dest; result = err e }
scanned_values dest (r, panic) = record { rows = r; dest = dest; result = panic }
scanned_values dest (r, out_of_fuel) = record { rows = r; dest = dest; result = out_of_fuel }

unfoldable pub pgx_rows : {R : Type 0} → Rower R → RowsScanner R
unfolding scanned_values
pgx_rows rower = record {
  close = λ r. (rower.close r, none);
  columns = λ r. ok (column_names rower r);
  next = rower.next;
  last_err = rower.last_err;
  scanner = record { scan = λ r dest. scanned_values dest (rower.values r) };
}

store-holding :
    (dest : List Cell) (row : List Value)
    → All IsAny dest
    → length dest ≡ length row
    → store dest row ≡ (map holding row, ok tt)
unfolding store store_at
store-holding [] [] plain same = refl
store-holding [] (v ∷ row) plain same = absurd (omega arith)
store-holding (c ∷ dest) [] plain same = absurd (omega arith)
store-holding (c ∷ dest) (v ∷ row) (p, ps) same =
    rw (p, store-holding dest row ps (omega arith)) refl

-- A `Scan` reads a row of pgx that has as many values as there are variables.
pub pgx_rows-Reads :
    {R : Type 0} (rower : Rower R) {r r' : R} (row : List Value)
    → rower.values r ≡ (r', ok row)
    → Reads (pgx_rows rower) r row r'
unfolding pgx_rows scanned_values
pgx_rows-Reads rower row e dest plain same = rw (e, store-holding dest row plain same) refl

-- `FieldDescriptions` has the names that `Columns` has.
names_of-copied :
    (fields : List FieldDescription) → names_of (copied_descriptions fields) ≡ names_of fields
unfolding copied_descriptions
names_of-copied [] = refl
names_of-copied (field ∷ fields) = ap (λ names. field.name ∷ names) (names_of-copied fields)
