-- ===== src/Struct/Result.antt =====
-- `getStruct` and `getStructRow` of dbToStruct.go: a result set into a slice of structs, and the
-- first row into a struct.
pub mod Laws
pub mod Failures
use onedb.Prelude.{ℕ, zero, suc, [], ◌∷◌, ◌++◌, Bool, true, false, List, Bytes, Option, none, some}
use onedb.Go.Outcome.{Error, Outcome, ok, err, panic, out_of_fuel, empty_result_set}
use onedb.Go.Ints.{pos}
use onedb.Go.Types.{
  bool, string, complex64, complex128, signed, unsigned, floating, GoType, basic, unsigned,
  declared,
}
use onedb.Go.Values.{
  Value, nil, bool_value, int_value, uint_value, float_value, complex64_value, complex128_value,
  string_value, other_value, Runtime,
}
use onedb.Rows.{Cell, Scanned, RowsScanner}
use onedb.Rows.Columns.{get_column_names_and_values}
use onedb.Struct.Fields.{Struct, StructFieldInfo, get_item_map, scan_struct}

-- A field of a struct type.
pub record FieldType : Type 0 where
  pub name : Bytes
  pub type : GoType
  pub exported : Bool

-- The zero value of a type, as far as the program can tell values apart.
unfoldable pub zero_value : GoType → Value
zero_value (basic bool) = bool_value false
zero_value (basic string) = string_value []
zero_value (basic (signed k)) = int_value k (pos 0)
zero_value (basic (unsigned k)) = uint_value k 0
zero_value (basic (floating k)) = float_value k 0
zero_value (basic complex64) = complex64_value 0
zero_value (basic complex128) = complex128_value 0
zero_value (declared n k) = other_value (declared n k) 0
zero_value _ = nil

-- `reflect.New(itemType)`
unfoldable pub new_item : List FieldType → Struct
unfolding zero_value
new_item [] = []
new_item (f ∷ fs) =
    record {
      name = f.name;
      place = record {
        can_set = f.exported;
        cell = record { type = f.type; value = zero_value f.type };
      };
    }
    ∷ new_item fs

module _ (rt : Runtime) {S : Type 0} (sc : RowsScanner S) where
  -- The scanner, the slice that the caller passed a pointer to, and the error.
  abbrev Return : Type 0
  Return = S × List Struct × Outcome (Unit {0})

  -- Behind the `Scan` of a round: append and go on, or return the error.
  pub struct_continue :
      (List Cell → S → List Struct → Return) → List Struct → Scanned S × Outcome Struct → Return
  struct_continue next_round result (scanned, ok item) =
      next_round scanned.dest scanned.rows (result ++ item ∷ [])
  struct_continue next_round result (scanned, err e) = (scanned.rows, result, err e)
  struct_continue next_round result (scanned, panic) = (scanned.rows, result, panic)
  struct_continue next_round result (scanned, out_of_fuel) = (scanned.rows, result, out_of_fuel)

  -- A round of the loop, behind its call of `Next`.
  pub struct_round :
      (List Cell → S → List Struct → Return)
      → List StructFieldInfo
      → Struct
      → List Cell
      → List Struct
      → S × Bool
      → Return
  unfolding struct_continue
  struct_round next_round db_to_struct item vals result (s, false) = (s, result, ok tt)
  struct_round next_round db_to_struct item vals result (s, true) =
      struct_continue next_round result (scan_struct rt sc.scanner s vals db_to_struct item)

  -- `for rows.Next()`
  pub struct_rows : ℕ → List StructFieldInfo → Struct → List Cell → S → List Struct → Return
  unfolding struct_round
  struct_rows zero db_to_struct item vals s result = (s, result, out_of_fuel)
  struct_rows (suc fuel) db_to_struct item vals s result =
      struct_round (struct_rows fuel db_to_struct item) db_to_struct item vals result (sc.next s)

  pub struct_body : ℕ → List FieldType → S → List Struct → Outcome (List Bytes × List Cell) → Return
  unfolding struct_rows new_item
  struct_body fuel item_type s result (ok (columns, vals)) =
      let item = new_item item_type in
      struct_rows fuel (get_item_map rt columns item) item vals s result
  struct_body fuel item_type s result (err e) = (s, result, err e)
  struct_body fuel item_type s result panic = (s, result, panic)
  struct_body fuel item_type s result out_of_fuel = (s, result, out_of_fuel)

  -- The fuel bounds the rounds of the loop; `result` is the slice, with structs of `item_type`.
  unfoldable pub get_struct : ℕ → List FieldType → S → List Struct → Return
  unfolding struct_body
  get_struct fuel item_type s result =
      struct_body fuel item_type s result (get_column_names_and_values sc s false)

  -- The scanner, the struct, and the error.
  abbrev RowReturn : Type 0
  RowReturn = S × Struct × Outcome (Unit {0})

  row_return : Struct → Scanned S × Outcome Struct → RowReturn
  row_return result (scanned, ok item) = (scanned.rows, item, ok tt)
  row_return result (scanned, err e) = (scanned.rows, result, err e)
  row_return result (scanned, panic) = (scanned.rows, result, panic)
  row_return result (scanned, out_of_fuel) = (scanned.rows, result, out_of_fuel)

  struct_row_body : S → Struct → Outcome (List Bytes × List Cell) → RowReturn
  unfolding row_return
  struct_row_body s result (ok (columns, vals)) =
      row_return result (scan_struct rt sc.scanner s vals (get_item_map rt columns result) result)
  struct_row_body s result (err e) = (s, result, err e)
  struct_row_body s result panic = (s, result, panic)
  struct_row_body s result out_of_fuel = (s, result, out_of_fuel)

  struct_row_next : Struct → S × Bool → RowReturn
  unfolding struct_row_body
  struct_row_next result (s, false) = (s, result, err empty_result_set)
  struct_row_next result (s, true) =
      struct_row_body s result (get_column_names_and_values sc s false)

  struct_row_start : S → Struct → Option Error → RowReturn
  unfolding struct_row_next
  struct_row_start s result (some e) = (s, result, err e)
  struct_row_start s result none = struct_row_next result (sc.next s)

  -- `rows.Err()`, `rows.Next()` and only then the columns.
  unfoldable pub get_struct_row : S → Struct → RowReturn
  unfolding struct_row_start
  get_struct_row s result = struct_row_start s result (sc.last_err s)
