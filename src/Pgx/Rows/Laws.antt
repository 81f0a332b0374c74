-- ===== src/Pgx/Rows/Laws.antt =====
-- The rows of pgx through `getJSON` and `writeCSV`.
use onedb.Prelude.{
  ℕ, ◌<◌, [], ◌∷◌, ◌++◌, ◌≡◌, refl, true, false, none, List, map, Bytes, length, All,
}
use onedb.Csv.{CsvOptions, write_csv, csv_record}
use onedb.Csv.Buffer.{new_writer, buffer_writer}
use onedb.Csv.Laws.{csv_lines, write_csv-lines}
use onedb.Go.Outcome.{ok}
use onedb.Go.Values.{Value, Runtime}
use onedb.Json.Result.{get_json}
use onedb.Json.Result.Laws.{Fits, array, get_json-array}
use onedb.Json.Scalar.{jsonize}
use onedb.Pgx.Rows.{column_names, Rower, pgx_rows, pgx_rows-Reads}
use onedb.Rows.Script.{Yields, finished, yields}

module _ {R : Type 0} (rower : Rower R) where
  -- `Next` and `Values` of pgx in turn give the rows, and then `Next` is false.
  pub data Delivers : R → List (List Value) → R → Type 0 where
    exhausted : {r t : R} → rower.next r ≡ (t, false) → Delivers r [] t
    delivers :
        {r r' r'' t : R} {row : List Value} {rows : List (List Value)}
        → rower.next r ≡ (r', true)
        → rower.values r' ≡ (r'', ok row)
        → Delivers r'' rows t
        → Delivers r (row ∷ rows) t

  pub pgx_rows-Yields :
      {r t : R} {rows : List (List Value)} → Delivers r rows t → Yields (pgx_rows rower) r rows t
  unfolding pgx_rows
  pgx_rows-Yields (exhausted next) = finished next
  pgx_rows-Yields (delivers {row = row} next values d) =
      yields next (pgx_rows-Reads rower row values) (pgx_rows-Yields d)

  -- Rows of pgx that have no error at the start and whose `Next` and `Values` deliver rows with a
  -- value for every field: with more fuel than rows, `getJSON` on `pgxRows` returns the array of
  -- their objects, and `writeCSV` on a new `csv.Writer` over a text passes on, behind the text,
  -- the record of the field names and one record for each row, both in order, with nothing left
  -- in the buffer, and both leave the rows at their end.
  pub pgx_rows_results :
      (rt : Runtime) (options : CsvOptions) (fuel : ℕ) {r t : R} {rows : List (List Value)}
      (b : Bytes)
      → rower.last_err r ≡ none
      → Delivers r rows t
      → All (Fits (column_names rower r)) rows
      → length rows < fuel
      → (get_json rt (pgx_rows rower) fuel r
          ≡ (t, ok (array rt (map jsonize (column_names rower r)) rows)))
        × (write_csv rt (pgx_rows rower) buffer_writer options fuel r (new_writer b) ≡ (
          t,
          new_writer (b ++ csv_record (column_names rower r) ++ csv_lines rt options rows),
          ok tt,
        ))
  unfolding pgx_rows
  pgx_rows_results rt options fuel {r} b no_err d fits lt = (
    get_json-array rt (pgx_rows rower) (column_names rower r) fuel no_err refl (pgx_rows-Yields d)
        fits lt,
    write_csv-lines rt options (pgx_rows rower) (column_names rower r) fuel b no_err refl
        (pgx_rows-Yields d) fits lt,
  )
