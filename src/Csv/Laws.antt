-- ===== src/Csv/Laws.antt =====
-- `writeCSV` against the records that it should write.
use onedb.Prelude.{
  ℕ, zero, suc, ◌<◌, [], ◌∷◌, ◌++◌, append-nil, append_assoc, ◌≡◌, refl, sym, ap, ◌∙◌, true, List,
  map, length, Bytes, none, All, arith,
}
use onedb.Go.Outcome.{Outcome, ok}
use onedb.Go.Values.{Value, Runtime}
use onedb.Csv.{
  CsvOptions, get_csv_value, csv_row, scan_csv, csv_written, csv_continue, csv_round, csv_rows,
  csv_body, write_csv, csv_record, written_error,
}
use onedb.Csv.Buffer.{
  CsvBuffer, new_writer, put_all, buffer_writer, flushed, put_all-append, put_all-given,
}
use onedb.Json.Result.Laws.{Fits, holding-IsAny, length-holding, new_cells-IsAny, length-new_cells}
use onedb.Rows.{Cell, RowsScanner}
use onedb.Rows.Columns.{new_cells}
use onedb.Rows.Script.{holding, IsAny, Reads, Yields, finished, yields}
use onedb.Struct.Result.Laws.{struct_columns}

csv_row-holding :
    (rt : Runtime) (options : CsvOptions) (row : List Value)
    → csv_row rt options (map holding row) ≡ map (get_csv_value rt options) row
unfolding csv_row
csv_row-holding rt options [] = refl
csv_row-holding rt options (v ∷ row) =
    ap (λ t. get_csv_value rt options v ∷ t) (csv_row-holding rt options row)

abbrev later : {S : Type 0} → S → Bytes → S × CsvBuffer × Outcome (Unit {0})
later t b = (t, new_writer b, ok tt)

module _ (rt : Runtime) (options : CsvOptions) where
  -- The lines for the rows, one behind the other.
  abbrev pub csv_lines : List (List Value) → Bytes
  csv_lines [] = []
  csv_lines (row ∷ rows) = csv_record (map (get_csv_value rt options) row) ++ csv_lines rows

  module _ {S : Type 0} (sc : RowsScanner S) (names : List Bytes) where
    scan_csv-row :
        (s s' : S) (row : List Value) (vals : List Cell)
        → Reads sc s row s'
        → All IsAny vals
        → length vals ≡ length names
        → Fits names row
        → scan_csv rt sc.scanner s vals options ≡ (
          record { rows = s'; dest = map holding row; result = ok tt },
          ok (map (get_csv_value rt options) row),
        )
    unfolding scan_csv
    scan_csv-row s s' row vals reads plain same fits =
        rw (reads vals plain (omega arith)) (rw (csv_row-holding rt options row) refl)

    -- One round that reads a row and writes a record.
    pub csv_rows_step :
        (fuel : ℕ) {s s' s'' : S} (vals : List Cell) (row : List Value) (b : CsvBuffer)
        → sc.next s ≡ (s', true)
        → Reads sc s' row s''
        → All IsAny vals
        → length vals ≡ length names
        → Fits names row
        → csv_rows rt sc buffer_writer options (suc fuel) vals s b
          ≡ csv_rows rt sc buffer_writer options fuel
              (map holding row)
              s''
              (put_all b (csv_record (map (get_csv_value rt options) row)))
    unfolding csv_rows csv_round csv_continue csv_written buffer_writer
    csv_rows_step fuel {s} {s'} {s''} vals row b next reads plain same w =
        let loop = csv_rows rt sc buffer_writer options fuel in
        ap (csv_round rt sc buffer_writer options loop vals b) next
        ∙ ap (csv_continue rt sc buffer_writer options loop b)
            (scan_csv-row s' s'' row vals reads plain same w)

    csv_rows-lines :
        (fuel : ℕ) {s t : S} {rows : List (List Value)} (vals : List Cell) (b : CsvBuffer)
        → Yields sc s rows t
        → length rows < fuel
        → All IsAny vals
        → length vals ≡ length names
        → All (Fits names) rows
        → csv_rows rt sc buffer_writer options fuel vals s b
          ≡ (t, flushed (put_all b (csv_lines rows)), ok tt)
    unfolding csv_rows csv_round buffer_writer put_all written_error
    csv_rows-lines zero vals b y lt plain same fits = absurd (omega arith)
    csv_rows-lines (suc fuel) {s} {t} vals b (finished next) lt plain same fits =
        ap
          (csv_round rt sc buffer_writer options (csv_rows rt sc buffer_writer options fuel) vals b)
          next
    csv_rows-lines (suc fuel) {s} {t} vals b (yields {row = row} {rows = rows} next reads y) lt
          plain same (w, ws) =
        let line = csv_record (map (get_csv_value rt options) row) in
        csv_rows_step fuel vals row b next reads plain same w
        ∙ csv_rows-lines fuel (map holding row) (put_all b line) y (omega arith) (holding-IsAny row)
            (omega (arith, length-holding row)) ws
        ∙ ap (λ r. (t, flushed r, ok tt)) (put_all-append b line (csv_lines rows))

    -- `writeCSV` on a new `csv.Writer` over a text, on a scanner that has no error at the start,
    -- gives its column names, and yields `rows`, each with a value for every column: with more
    -- fuel than rows it has passed on, behind the text, the record of the column names and one
    -- record for each row, in order, each value as its text, nothing waits in the buffer, it
    -- returns no error, and the scanner is at its end.
    pub write_csv-lines :
        (fuel : ℕ) {s t : S} {rows : List (List Value)} (b : Bytes)
        → sc.last_err s ≡ none
        → sc.columns s ≡ ok names
        → Yields sc s rows t
        → All (Fits names) rows
        → length rows < fuel
        → write_csv rt sc buffer_writer options fuel s (new_writer b)
          ≡ (t, new_writer (b ++ csv_record names ++ csv_lines rows), ok tt)
    unfolding write_csv csv_body csv_written buffer_writer
    write_csv-lines fuel {s} {t} {rows} b no_err cols y fits lt =
        let header = csv_record names in
        ap (csv_body rt sc buffer_writer options fuel s (new_writer b))
          (struct_columns rt sc names no_err cols)
        ∙ csv_rows-lines fuel (new_cells names) (put_all (new_writer b) header) y lt
            (new_cells-IsAny names) (length-new_cells names) fits
        ∙ ap (λ w. (t, flushed w, ok tt)) (put_all-append (new_writer b) header (csv_lines rows))
        ∙ ap (later t) (
            put_all-given (new_writer b) (header ++ csv_lines rows)
            ∙ ap (λ r. r ++ (header ++ csv_lines rows)) (append-nil b)
            ∙ sym (append_assoc b header (csv_lines rows)))
