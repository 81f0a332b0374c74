-- ===== src/Json/Result/Failures.antt =====
-- What `getJSON` returns when a call of the scanner fails.
use onedb.Prelude.{
  ℕ, zero, suc, ◌<◌, [], ◌∷◌, ◌++◌, ◌≡◌, refl, sym, ap, ◌∙◌, Bool, true, List, map, length,
  length-map, Bytes, All, none, some, arith,
}
use onedb.Go.Outcome.{Error, Outcome, ok, err, ◌>>=◌}
use onedb.Go.Values.{Value, Runtime}
use onedb.Json.Scalar.{jsonize}
use onedb.Json.Result.{
  Row, scan_json, json_continue, json_round, json_rows, json_body, get_json, get_json_row,
  json_row_body,
}
use onedb.Json.Result.Laws.{
  Fits, Fits-jsonize, holding-IsAny, length-holding, new_cells-IsAny, length-new_cells,
  json_columns, json_rows_step,
}
use onedb.Rows.{Cell, RowsScanner}
use onedb.Rows.Columns.{new_cells, get_column_names_and_values}
use onedb.Rows.Script.{holding, IsAny, FailsAfter, fails, then_fails}

module _ (rt : Runtime) {S : Type 0} (sc : RowsScanner S) (e : Error) where
  scan_json-fails :
      (s : S) (columns : List Bytes) (vals : List Cell) (comma : Bool) (b : Bytes)
      → (sc.scan s vals).result ≡ err e
      → (scan_json rt sc.scanner s columns vals comma b).buffer ≡ err e
  unfolding scan_json
  scan_json-fails s columns vals comma b h = rw h refl

  round_fails :
      (next_round : List Cell → S → Bytes → S × Outcome Bytes) (row : Row S) (r : Outcome Bytes)
      → r ≡ err e
      → (json_continue rt sc next_round row r).1 ≡ err e
  unfolding json_continue
  round_fails next_round row r h = rw h refl

  json_rows-fails :
      (fuel : ℕ) (columns : List Bytes) {s : S} {rows : List (List Value)} (vals : List Cell)
      (comma : Bool) (b : Bytes)
      → FailsAfter sc e s rows
      → length rows < fuel
      → All IsAny vals
      → length vals ≡ length columns
      → All (Fits columns) rows
      → (json_rows rt sc fuel comma columns vals s b).1 ≡ err e
  unfolding json_rows json_round
  json_rows-fails zero columns vals comma b f lt plain same fits = absurd (omega arith)
  json_rows-fails (suc fuel) columns vals comma b (fails {s' = s'} next scan) lt plain same fits =
      ap (λ r. (json_round rt sc (json_rows rt sc fuel true columns) columns vals comma b r).1) next
      ∙ round_fails (json_rows rt sc fuel true columns)
          (scan_json rt sc.scanner s' columns vals comma b) _
          (scan_json-fails s' columns vals comma b (scan vals))
  json_rows-fails (suc fuel) columns vals comma b (then_fails {row = row} next reads f) lt plain
        same (w, ws) =
      ap (λ (r : S × Outcome Bytes). r.1)
        (json_rows_step rt sc columns fuel row vals comma b next reads plain same w)
      ∙ json_rows-fails fuel columns (map holding row) true _ f (omega arith) (holding-IsAny row)
          (omega (arith, length-holding row)) ws

  -- `getJSON` on a scanner that has no error at the start, gives its column names, and yields
  -- `rows`, each with a value for every column, before a `Scan` fails: with more fuel than rows
  -- it returns the error of that `Scan`, and nothing of what was written for the rows before.
  pub get_json-scan_fails :
      (fuel : ℕ) {s : S} (names : List Bytes) {rows : List (List Value)}
      → sc.last_err s ≡ none
      → sc.columns s ≡ ok names
      → FailsAfter sc e s rows
      → All (Fits names) rows
      → length rows < fuel
      → (get_json rt sc fuel s).1 ≡ err e
  unfolding get_json json_body
  get_json-scan_fails fuel {s} names {rows} no_err cols f fits lt =
      let columns = map jsonize names in
      ap (λ c. (json_body rt sc fuel s c).1) (json_columns rt sc names no_err cols)
      ∙ ap (λ (r : Outcome Bytes). r >>= λ u. ok (u ++ b']' ∷ []))
          (json_rows-fails fuel columns (new_cells names) _ (b'[' ∷ []) f lt (new_cells-IsAny names)
            (length-new_cells names ∙ sym (length-map names jsonize))
            (Fits-jsonize names rows fits))

  -- An error that the scanner already has is returned by both forms before anything is read.
  pub get_json-last_err :
      (fuel : ℕ) {s : S}
      → sc.last_err s ≡ some e
      → (get_json rt sc fuel s ≡ (s, err e)) × (get_json_row rt sc s ≡ (s, err e))
  unfolding get_json json_body get_json_row json_row_body get_column_names_and_values
  get_json-last_err fuel h = (rw h refl, rw h refl)
