-- ===== src/Mock/Scanner.antt =====
-- `mockRowsScanner` and `mockScanner` of mockDb.go: a slice of structs, or one struct, as a result
-- set.
pub mod Laws
pub mod Typed
use onedb.Prelude.{
  ℕ, zero, suc, [], ◌∷◌, Bool, true, false, not, ◌&&◌, ◌||◌, Option, none, some, List, length,
  Bytes, get_elem?, ltb, ◌==◌, if◌then◌else◌,
}
use onedb.Go.Outcome.{
  Error, rows_invalid_data, row_invalid_data, invalid_current_row, dest_count, type_mismatch,
  Outcome, ok, err, panic, fail_if,
}
use onedb.Go.Types.{interface, kind_of, kind_eq, type_eq, Interfaces, implements}
use onedb.Rows.{Cell, Scanned, Scanner, RowsScanner}
use onedb.Struct.SetValue.{Place}

-- What the mock is given: a slice of structs, with the interfaces that `reflect` knows and the field
-- names of the struct type, or anything else. A struct is its fields; one that is not exported
-- cannot be read.
pub data MockData : Type 0 where
  structs : Interfaces → List Bytes → List (List Place) → MockData
  not_structs : MockData

-- `position` is `currentRow` plus one, since the source starts at -1. `sliceLen`, `structType` and
-- `structLen` are read off the slice and the names; `known` is what `reflect` knows.
pub record MockRowsScanner : Type 0 where
  pub known : Interfaces
  pub names : List Bytes
  pub slice_value : List (List Place)
  pub position : ℕ
  pub columns_err : Option Error
  pub scan_err : Option Error
  pub err_err : Option Error

-- A scanner with no data, as `&mockRowsScanner{…}` leaves it: `currentRow` is 0.
abbrev pub broken : Option Error → Option Error → MockRowsScanner
broken scan_err err_err = record {
  known = λ n t. false;
  names = [];
  slice_value = [];
  position = 1;
  columns_err = none;
  scan_err = scan_err;
  err_err = err_err;
}

unfoldable pub new_rows_scanner : MockData → MockRowsScanner
new_rows_scanner not_structs = broken (some rows_invalid_data) (some rows_invalid_data)
new_rows_scanner (structs known names rows) = record {
  known = known;
  names = names;
  slice_value = rows;
  position = 0;
  columns_err = none;
  scan_err = none;
  err_err = none;
}

-- `destination.Set(source)`, which panics on an unexported field, and on an interface that the type
-- of the field does not implement.
unfoldable pub can_store : Interfaces → Cell → Place → Bool
unfolding implements
can_store known destination source =
    source.can_set
    && (type_eq destination.type source.cell.type
        || implements known destination.type source.cell.type)

-- The loop of `setDestValue`, from the `i`-th field on: what the variables hold, and the error.
pub set_dest : Interfaces → ℕ → List Place → List Cell → List Cell × Outcome (Unit {0})
unfolding can_store
set_dest known i (source ∷ fields) (destination ∷ dest) =
    let (dest', result) = set_dest known (suc i) fields dest in
    let set : Cell = record destination { value = source.cell.value } in
    if not (type_eq destination.type source.cell.type)
      && not (kind_eq (kind_of destination.type) interface)
    then (destination ∷ dest, err (type_mismatch i))
    else if can_store known destination source
    then (set ∷ dest', result)
    else (destination ∷ dest, panic)
set_dest known i _ dest = (dest, ok tt)

-- `setDestValue`
unfoldable pub set_dest_value : Interfaces → List Place → List Cell → List Cell × Outcome (Unit {0})
unfolding set_dest
set_dest_value known fields dest =
    if length dest == length fields
    then set_dest known 0 fields dest
    else (dest, err (dest_count (length fields) (length dest)))

mock_columns : MockRowsScanner → Outcome (List Bytes)
mock_columns r = fail_if r.columns_err (ok r.names)

mock_next : MockRowsScanner → MockRowsScanner × Bool
mock_next r = (record r { position = suc r.position }, ltb r.position (length r.slice_value))

unfoldable pub scan_row :
    MockRowsScanner → List Cell → Option (List Place) → Scanned MockRowsScanner
scan_row r dest none = record { rows = r; dest = dest; result = err invalid_current_row }
scan_row r dest (some fields) =
    let (dest', result) = set_dest_value r.known fields dest in
    record { rows = r; dest = dest'; result = result }

-- The row at `currentRow`, which is -1 before the first `Next`.
unfoldable pub current : ℕ → List (List Place) → Option (List Place)
current zero rows = none
current (suc row) rows = get_elem? rows row

unfoldable pub scan_checked : MockRowsScanner → List Cell → Option Error → Scanned MockRowsScanner
unfolding scan_row current
scan_checked r dest (some e) = record { rows = r; dest = dest; result = err e }
scan_checked r dest none = scan_row r dest (current r.position r.slice_value)

unfoldable pub mock_scan : MockRowsScanner → List Cell → Scanned MockRowsScanner
unfolding scan_checked
mock_scan r dest = scan_checked r dest r.scan_err

-- `mockRowsScanner` as a `RowsScanner`.
unfoldable pub mock_rows : RowsScanner MockRowsScanner
unfolding mock_columns mock_next mock_scan
mock_rows = record {
  close = λ r. (r, none);
  columns = mock_columns;
  next = mock_next;
  last_err = λ r. r.err_err;
  scanner = record { scan = mock_scan };
}

-- `mockScanner`: a struct behind a pointer, or an error.
pub record MockScanner : Type 0 where
  pub known : Interfaces
  pub struct_value : List Place
  pub scan_err : Option Error

unfoldable pub new_scanner : Interfaces → Option (List Place) → MockScanner
new_scanner known none = record {
  known = known;
  struct_value = [];
  scan_err = some row_invalid_data;
}
new_scanner known (some fields) = record { known = known; struct_value = fields; scan_err = none }

mock_scan_one : MockScanner → List Cell → Option Error → Scanned MockScanner
mock_scan_one s dest (some e) = record { rows = s; dest = dest; result = err e }
mock_scan_one s dest none =
    let (dest', result) = set_dest_value s.known s.struct_value dest in
    record { rows = s; dest = dest'; result = result }

unfoldable pub mock_scanner : Scanner MockScanner
unfolding mock_scan_one
mock_scanner = record { scan = λ s dest. mock_scan_one s dest s.scan_err }
