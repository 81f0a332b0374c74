-- ===== src/Queries.antt =====
-- The query functions of onedb.go over a `Backender`: the check of the result argument, the query,
-- and the writer of the result, with the deferred `Close`.
pub mod Csv
pub mod Dial
pub mod Laws
use onedb.Prelude.{ℕ, [], ◌∷◌, Bool, true, false, Option, none, some, List, Bytes}
use onedb.Go.Outcome.{
  Error, query_is_nil, not_slice_pointer, not_struct_pointer, empty_result_set, Outcome, ok, err,
  panic, out_of_fuel,
}
use onedb.Go.Values.{Value, Runtime}
use onedb.Json.Result.{get_json, get_json_row}
use onedb.Rows.{Cell, Scanner, RowsScanner}
use onedb.Rows.Columns.{get_column_names_and_values}
use onedb.Struct.Fields.{Struct}
use onedb.Struct.Result.{FieldType, get_struct, get_struct_row}

-- `Query`: the text and the arguments.
pub record Query : Type 0 where
  pub query : Bytes
  pub args : List Value

abbrev pub new_query : Bytes → List Value → Query
new_query query args = record { query = query; args = args }

-- `Backender`, for an implementation with states `B`, whose rows and single rows have the states `S`
-- and `T`.
pub record Backender (B S T : Type 0) : Type 0 where
  pub query : B → Query → B × Outcome S
  pub query_row : B → Query → B × T
  pub rows : RowsScanner S
  pub row : Scanner T

-- What a query function leaves: the backend, the rows once they are closed, and its result.
pub record Queried (B S A : Type 0) : Type 0 where
  pub backend : B
  pub closed : Option S
  pub result : A

-- A pointer to a slice of structs, a pointer to a slice of another type, a pointer to a struct, a
-- pointer to another type, a value that is no pointer, or nil.
pub data ResultArg : Type 0 where
  slice_pointer : List FieldType → List Struct → ResultArg
  other_slice_pointer : ResultArg
  struct_pointer : Struct → ResultArg
  other_pointer : ResultArg
  no_pointer : ResultArg
  nil_result : ResultArg

-- The result argument after the call, and the error.
abbrev pub StructResult : Type 0
StructResult = ResultArg × Outcome (Unit {0})

module _ (rt : Runtime) {B S T : Type 0} (bk : Backender B S T) where
  -- `defer rows.Close()` behind a query that returned rows.
  json_queried : (S → S × Outcome Bytes) → B × Outcome S → Queried B S (Outcome Bytes)
  json_queried get (b, ok rows) =
      let (rows', result) = get rows in
      record { backend = b; closed = some (bk.rows.close rows').0; result = result }
  json_queried get (b, err e) = record { backend = b; closed = none; result = err e }
  json_queried get (b, panic) = record { backend = b; closed = none; result = panic }
  json_queried get (b, out_of_fuel) = record { backend = b; closed = none; result = out_of_fuel }

  unfoldable pub query_json : ℕ → B → Query → Queried B S (Outcome Bytes)
  unfolding json_queried
  query_json fuel b q = json_queried (get_json rt bk.rows fuel) (bk.query b q)

  unfoldable pub query_json_row : B → Query → Queried B S (Outcome Bytes)
  unfolding json_queried
  query_json_row b q = json_queried (get_json_row rt bk.rows) (bk.query b q)

  struct_queried :
      ResultArg
      → (S → S × ResultArg × Outcome (Unit {0}))
      → B × Outcome S
      → Queried B S StructResult
  struct_queried arg get (b, ok rows) =
      let (rows', arg', result) = get rows in
      record { backend = b; closed = some (bk.rows.close rows').0; result = (arg', result) }
  struct_queried arg get (b, err e) = record { backend = b; closed = none; result = (arg, err e) }
  struct_queried arg get (b, panic) = record { backend = b; closed = none; result = (arg, panic) }
  struct_queried arg get (b, out_of_fuel) = record {
    backend = b;
    closed = none;
    result = (arg, out_of_fuel);
  }

  refused : B → ResultArg → Outcome (Unit {0}) → Queried B S StructResult
  refused b arg r = record { backend = b; closed = none; result = (arg, r) }

  into_slice :
      List FieldType → S × List Struct × Outcome (Unit {0}) → S × ResultArg × Outcome (Unit {0})
  into_slice item_type (s, result, r) = (s, slice_pointer item_type result, r)

  into_struct : S × Struct × Outcome (Unit {0}) → S × ResultArg × Outcome (Unit {0})
  into_struct (s, item, r) = (s, struct_pointer item, r)

  -- A result that is no struct panics in `NumField`, once the columns are there.
  no_struct : ResultArg → S → Outcome (List Bytes × List Cell) → S × ResultArg × Outcome (Unit {0})
  no_struct arg s (ok _) = (s, arg, panic)
  no_struct arg s (err e) = (s, arg, err e)
  no_struct arg s panic = (s, arg, panic)
  no_struct arg s out_of_fuel = (s, arg, out_of_fuel)

  unfoldable pub query_struct : ℕ → B → ResultArg → Query → Queried B S StructResult
  unfolding struct_queried refused into_slice no_struct
  query_struct fuel b (slice_pointer item_type result) q =
      struct_queried (slice_pointer item_type result)
        (λ rows. into_slice item_type (get_struct rt bk.rows fuel item_type rows result))
        (bk.query b q)
  query_struct fuel b other_slice_pointer q =
      struct_queried other_slice_pointer
        (λ rows.
          no_struct other_slice_pointer rows (get_column_names_and_values bk.rows rows false))
        (bk.query b q)
  query_struct fuel b nil_result q = refused b nil_result panic
  query_struct fuel b arg q = refused b arg (err not_slice_pointer)

  -- `getStructRow` into a variable that is no struct.
  row_no_struct_next : ResultArg → S × Bool → S × ResultArg × Outcome (Unit {0})
  unfolding no_struct
  row_no_struct_next arg (s, false) = (s, arg, err empty_result_set)
  row_no_struct_next arg (s, true) = no_struct arg s (get_column_names_and_values bk.rows s false)

  row_no_struct : ResultArg → S → Option Error → S × ResultArg × Outcome (Unit {0})
  unfolding row_no_struct_next
  row_no_struct arg s (some e) = (s, arg, err e)
  row_no_struct arg s none = row_no_struct_next arg (bk.rows.next s)

  unfoldable pub query_struct_row : B → ResultArg → Query → Queried B S StructResult
  unfolding struct_queried refused into_struct row_no_struct
  query_struct_row b (struct_pointer item) q =
      struct_queried (struct_pointer item)
        (λ rows. into_struct (get_struct_row rt bk.rows rows item)) (bk.query b q)
  query_struct_row b no_pointer q = refused b no_pointer (err not_struct_pointer)
  query_struct_row b nil_result q = refused b nil_result panic
  query_struct_row b arg q =
      struct_queried arg (λ rows. row_no_struct arg rows (bk.rows.last_err rows)) (bk.query b q)

-- What `QueryValues` leaves: the backend, the variables, and the error.
abbrev pub Values : Type 0 → Type 0
Values B = B × List Cell × Outcome (Unit {0})

values_scanned : {B T : Type 0} → Scanner T → List Cell → B × T → Values B
values_scanned row dest (b, s) = let scanned = row.scan s dest in (b, scanned.dest, scanned.result)

-- `none` is a nil query.
unfoldable pub query_values :
    {B S T : Type 0} → Backender B S T → B → Option Query → List Cell → Values B
unfolding values_scanned
query_values bk b none dest = (b, dest, err query_is_nil)
query_values bk b (some q) dest = values_scanned bk.row dest (bk.query_row b q)
