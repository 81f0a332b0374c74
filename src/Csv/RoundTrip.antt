-- ===== src/Csv/RoundTrip.antt =====
-- What the text means that `writeCSV` writes.
use onedb.Prelude.{
  ℕ, ◌<◌, [], ◌∷◌, ◌++◌, ◌≡◌, ◌≢◌, refl, ap, ◌∙◌, List, map, length, Bytes, none, some, All, arith,
}
use onedb.Go.Outcome.{ok}
use onedb.Go.Values.{Value, Runtime}
use onedb.Csv.{CsvOptions, get_csv_value, write_csv, csv_record}
use onedb.Csv.Buffer.{new_writer, buffer_writer}
use onedb.Csv.Laws.{csv_lines, write_csv-lines}
use onedb.Csv.Reader.{read_csv, in_front, read_csv-csv_record, read_csv-nil}
use onedb.Json.Result.Laws.{Fits}
use onedb.Rows.{RowsScanner}
use onedb.Rows.Script.{Yields}

length-zero : {A : Type 0} (l : List A) → length l ≡ 0 → l ≡ []
length-zero [] h = refl
length-zero (x ∷ l) h = absurd (omega arith)

module _ (rt : Runtime) (options : CsvOptions) (names : List Bytes) (some_name : names ≢ []) where
  abbrev texts : List Value → List Bytes
  texts = map (get_csv_value rt options)

  Fits-some : (row : List Value) → Fits names row → texts row ≢ []
  Fits-some [] fits none_left = some_name (length-zero names fits)
  Fits-some (v ∷ row) fits none_left = cc

  read_csv-csv_lines :
      (rows : List (List Value))
      → All (Fits names) rows
      → read_csv (csv_lines rt options rows) ≡ some (map texts rows)
  read_csv-csv_lines [] fits = read_csv-nil
  read_csv-csv_lines (row ∷ rows) (w, ws) =
      read_csv-csv_record (texts row) (csv_lines rt options rows) (Fits-some row w)
      ∙ ap (in_front (texts row)) (read_csv-csv_lines rows ws)

  -- `writeCSV` on a new `csv.Writer` over an empty text, on a scanner that has no error at the
  -- start, gives at least one column name, and yields `rows`, each with a value for every column:
  -- with more fuel than rows it returns no error, nothing waits in the buffer of the
  -- `csv.Writer`, and the text that it has passed on means to a reader of RFC 4180 exactly the
  -- record of the column names and, in order, one record for each row with the text of each of
  -- its values, whatever commas, quotes and line ends the names and the values hold.
  pub write_csv-read_csv :
      {S : Type 0} (sc : RowsScanner S) (fuel : ℕ) {s t : S} {rows : List (List Value)}
      → sc.last_err s ≡ none
      → sc.columns s ≡ ok names
      → Yields sc s rows t
      → All (Fits names) rows
      → length rows < fuel
      → (out : Bytes) × (write_csv rt sc buffer_writer options fuel s (new_writer [])
          ≡ (t, new_writer out, ok tt))
        × (read_csv out ≡ some (names ∷ map texts rows))
  write_csv-read_csv sc fuel {rows = rows} no_err cols y fits lt = (
    csv_record names ++ csv_lines rt options rows,
    write_csv-lines rt options sc names fuel [] no_err cols y fits lt,
    read_csv-csv_record names (csv_lines rt options rows) some_name
        ∙ ap (in_front names) (read_csv-csv_lines rows fits),
  )
