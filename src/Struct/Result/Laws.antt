-- ===== src/Struct/Result/Laws.antt =====
-- Result sets into structs, against a description row by row.
use onedb.Prelude.{
  ℕ, zero, suc, ◌<◌, [], ◌∷◌, ◌++◌, append-nil, append_assoc, ◌≡◌, refl, sym, ap, ◌∙◌, true, false,
  List, map, length, Bytes, none, All, arith,
}
use onedb.Go.Outcome.{Outcome, ok, err, empty_result_set}
use onedb.Go.Values.{Value, Runtime}
use onedb.Json.Result.Laws.{Fits, holding-IsAny, length-holding, new_cells-IsAny, length-new_cells}
use onedb.Rows.{Cell, Scanned, RowsScanner}
use onedb.Rows.Columns.{new_cells, get_column_names_and_values}
use onedb.Rows.Script.{holding, IsAny, Reads, Yields, finished, yields}
use onedb.Struct.Fields.{Struct, get_item_map, scan_struct}
use onedb.Struct.Fields.Laws.{fill_struct, set_fields-fill_struct}
use onedb.Struct.Result.{
  FieldType, new_item, struct_continue, struct_round, struct_rows, struct_body, get_struct,
  row_return, struct_row_body, struct_row_next, struct_row_start, get_struct_row,
}

module _ (rt : Runtime) {S : Type 0} (sc : RowsScanner S) (names : List Bytes) where
  -- Every row fills the fields of `item`.
  abbrev pub Fills : Struct → List (List Value) → List Struct → Type 0
  Fills item [] [] = Unit
  Fills item (row ∷ rows) (filled ∷ more) =
      (fill_struct rt item (map rt.to_lower names) row ≡ ok filled) × Fills item rows more
  Fills item _ _ = ⊥

  scan_struct-fill :
      (s s' : S) (row : List Value) (vals : List Cell) (item : Struct)
      → Reads sc s row s'
      → All IsAny vals
      → length vals ≡ length names
      → Fits names row
      → scan_struct rt sc.scanner s vals (get_item_map rt names item) item ≡ (
        record { rows = s'; dest = map holding row; result = ok tt },
        fill_struct rt item (map rt.to_lower names) row,
      )
  unfolding scan_struct
  scan_struct-fill s s' row vals item reads plain same fits =
      rw (reads vals plain (omega arith)) (rw (set_fields-fill_struct rt names row item fits) refl)

  -- One round that reads a row and fills a struct.
  pub struct_rows_step :
      (fuel : ℕ) {s s' s'' : S} (item : Struct) (vals : List Cell) (row : List Value) (x : Struct)
      (result : List Struct)
      → sc.next s ≡ (s', true)
      → Reads sc s' row s''
      → All IsAny vals
      → length vals ≡ length names
      → Fits names row
      → fill_struct rt item (map rt.to_lower names) row ≡ ok x
      → struct_rows rt sc (suc fuel) (get_item_map rt names item) item vals s result
        ≡ struct_rows rt sc fuel
            (get_item_map rt names item)
            item
            (map holding row)
            s''
            (result ++ x ∷ [])
  unfolding struct_rows struct_round struct_continue
  struct_rows_step fuel {s} {s'} {s''} item vals row x result next reads plain same w f =
      let infos = get_item_map rt names item in
      let loop = struct_rows rt sc fuel infos item in
      let after_scan : Scanned S = record { rows = s''; dest = map holding row; result = ok tt } in
      ap (struct_round rt sc loop infos item vals result) next
      ∙ ap (struct_continue rt sc loop result)
          (scan_struct-fill s' s'' row vals item reads plain same w)
      ∙ ap (λ r. struct_continue rt sc loop result (after_scan, r)) f

  struct_rows-fill :
      (fuel : ℕ) {s t : S} (item : Struct) {rows : List (List Value)} (filled : List Struct)
      (vals : List Cell) (result : List Struct)
      → Yields sc s rows t
      → length rows < fuel
      → All IsAny vals
      → length vals ≡ length names
      → All (Fits names) rows
      → Fills item rows filled
      → struct_rows rt sc fuel (get_item_map rt names item) item vals s result
        ≡ (t, result ++ filled, ok tt)
  unfolding struct_rows struct_round
  struct_rows-fill zero item filled vals result y lt plain same fits f = absurd (omega arith)
  struct_rows-fill (suc fuel) {s} {t} item [] vals result (finished next) lt plain same fits f =
      ap
        (struct_round rt sc (struct_rows rt sc fuel (get_item_map rt names item) item)
          (get_item_map rt names item) item vals result)
        next
      ∙ ap (λ (r : List Struct). let u : S × List Struct × Outcome (Unit {0}) = (t, r, ok tt) in u)
          (sym (append-nil result))
  struct_rows-fill (suc fuel) item (x ∷ filled) vals result (finished next) lt plain same fits f =
      absurd f
  struct_rows-fill (suc fuel) item [] vals result (yields next reads y) lt plain same fits f =
      absurd f
  struct_rows-fill (suc fuel) {s} {t} item (x ∷ filled) vals result
        (yields {row = row} next reads y) lt plain same (w, ws) (f, fs) =
      struct_rows_step fuel item vals row x result next reads plain same w f
      ∙ struct_rows-fill fuel item filled (map holding row) (result ++ x ∷ []) y (omega arith)
          (holding-IsAny row) (omega (arith, length-holding row)) ws fs
      ∙ ap (λ (r : List Struct). let u : S × List Struct × Outcome (Unit {0}) = (t, r, ok tt) in u)
          (append_assoc result (x ∷ []) filled)

  pub struct_columns :
      {s : S}
      → sc.last_err s ≡ none
      → sc.columns s ≡ ok names
      → get_column_names_and_values sc s false ≡ ok (names, new_cells names)
  unfolding get_column_names_and_values
  struct_columns no_err cols = rw (no_err, cols) refl

  -- `getStruct` on a scanner that has no error at the start, gives its column names, and yields
  -- `rows`, each with a value for every column and each filling a fresh struct without a panic:
  -- with more fuel than rows it appends one filled struct for each row, in order, to what the
  -- slice held, returns no error, and the scanner is at its end.
  pub get_struct-fill :
      (fuel : ℕ) {s t : S} (item_type : List FieldType) {rows : List (List Value)}
      (filled result : List Struct)
      → sc.last_err s ≡ none
      → sc.columns s ≡ ok names
      → Yields sc s rows t
      → All (Fits names) rows
      → Fills (new_item item_type) rows filled
      → length rows < fuel
      → get_struct rt sc fuel item_type s result ≡ (t, result ++ filled, ok tt)
  unfolding get_struct struct_body
  get_struct-fill fuel {s} item_type filled result no_err cols y fits f lt =
      ap (struct_body rt sc fuel item_type s result) (struct_columns no_err cols)
      ∙ struct_rows-fill fuel (new_item item_type) filled (new_cells names) result y lt
          (new_cells-IsAny names) (length-new_cells names) fits f

  -- `getStructRow` on a scanner without an error before and after its first `Next`, which is
  -- true, and whose `Scan` reads a row with a value for every column, which fills the given
  -- struct without a panic: it leaves the struct filled and returns no error.
  get_struct_row-fill :
      {s s' s'' : S} (row : List Value) (item filled : Struct)
      → sc.last_err s ≡ none
      → sc.next s ≡ (s', true)
      → sc.last_err s' ≡ none
      → sc.columns s' ≡ ok names
      → Reads sc s' row s''
      → Fits names row
      → fill_struct rt item (map rt.to_lower names) row ≡ ok filled
      → get_struct_row rt sc s item ≡ (s'', filled, ok tt)
  unfolding get_struct_row struct_row_next struct_row_body row_return
  get_struct_row-fill {s} {s'} {s''} row item filled no_err next no_err' cols reads fits f =
      let after_scan : Scanned S = record { rows = s''; dest = map holding row; result = ok tt } in
      ap (struct_row_start rt sc s item) no_err
      ∙ ap (struct_row_next rt sc item) next
      ∙ ap (struct_row_body rt sc s' item) (struct_columns no_err' cols)
      ∙ ap (row_return rt sc item) (
          scan_struct-fill s' s'' row (new_cells names) item reads (new_cells-IsAny names)
            (length-new_cells names) fits)
      ∙ ap (λ r. row_return rt sc item (after_scan, r)) f

-- An empty result set is an error of `getStructRow`, and the struct is left alone.
pub get_struct_row_empty :
    (rt : Runtime) {S : Type 0} (sc : RowsScanner S) {s s' : S} (item : Struct)
    → sc.last_err s ≡ none
    → sc.next s ≡ (s', false)
    → get_struct_row rt sc s item ≡ (s', item, err empty_result_set)
unfolding get_struct_row struct_row_next
get_struct_row_empty rt sc {s} item no_err next =
    ap (struct_row_start rt sc s item) no_err ∙ ap (struct_row_next rt sc item) next
