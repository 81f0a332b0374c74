-- ===== src/Csv/Failures.antt =====
-- What `writeCSV` returns, and what it has written, when a `Scan` fails.
use onedb.Prelude.{
  ℕ, zero, suc, ◌+◌, ◌*◌, ◌<◌, ◌≤◌, ◌++◌, append-nil, ◌≡◌, refl, ap, ◌∙◌, List, map, length,
  length-append, Bytes, All, none, arith,
}
use onedb.Csv.{
  CsvOptions, get_csv_value, scan_csv, csv_written, csv_continue, csv_round, csv_rows, csv_body,
  write_csv, csv_record,
}
use onedb.Csv.Buffer.{
  CsvBuffer, buffer_size, new_writer, put_all, buffer_writer, put_all-append, put_all-given,
  IsBuffering, put_all-IsBuffering, put_all-some_waits, csv_record-some,
}
use onedb.Csv.Laws.{csv_lines, csv_rows_step}
use onedb.Go.Outcome.{Error, Outcome, ok, err}
use onedb.Go.Values.{Value, Runtime}
use onedb.Json.Result.Laws.{Fits, holding-IsAny, length-holding, new_cells-IsAny, length-new_cells}
use onedb.Rows.{Cell, Scanned, RowsScanner}
use onedb.Rows.Columns.{new_cells}
use onedb.Rows.Script.{holding, IsAny, FailsAfter, fails, then_fails}
use onedb.Struct.Result.Laws.{struct_columns}

-- The CSV writer and the error.
abbrev pub Left : Type 0
Left = CsvBuffer × Outcome (Unit {0})

abbrev pub left : {S : Type 0} → S × CsvBuffer × Outcome (Unit {0}) → Left
left (s, w, r) = (w, r)

-- Of the bytes that went into a new CSV writer on `b`, whole buffers are behind `b`, and what is
-- lost is the rest, which is never empty and fits in a buffer.
pub record LosesTail (b bytes : Bytes) (w : CsvBuffer) : Type 0 where
  pub in_order : w.written ++ w.pending ≡ b ++ bytes
  pub blocks : ℕ
  pub whole : length w.written ≡ length b + blocks * buffer_size
  pub some_lost : 1 ≤ length w.pending
  pub bounded : length w.pending ≤ buffer_size

put_all-LosesTail :
    (b bytes : Bytes) → 1 ≤ length bytes → LosesTail b bytes (put_all (new_writer b) bytes)
put_all-LosesTail b bytes some_ =
    let start : IsBuffering (length b) (new_writer b) = record {
      blocks = 0;
      whole = omega arith;
      bounded = omega arith;
    } in
    let end = put_all-IsBuffering (length b) (new_writer b) bytes start in
    record {
      in_order = put_all-given (new_writer b) bytes ∙ ap (λ t. t ++ bytes) (append-nil b);
      blocks = end.blocks;
      whole = end.whole;
      some_lost = put_all-some_waits (new_writer b) bytes some_;
      bounded = end.bounded;
    }

module _ (rt : Runtime) (options : CsvOptions) {S : Type 0} (sc : RowsScanner S) (e : Error) where
  scan_csv-fails :
      (s : S) (vals : List Cell)
      → (sc.scan s vals).result ≡ err e
      → (scan_csv rt sc.scanner s vals options).1 ≡ err e
  unfolding scan_csv
  scan_csv-fails s vals h = rw h refl

  round_fails :
      (next_round : List Cell → S → CsvBuffer → S × CsvBuffer × Outcome (Unit {0})) (b : CsvBuffer)
      (scanned : Scanned S) (r : Outcome (List Bytes))
      → r ≡ err e
      → left (csv_continue rt sc buffer_writer options next_round b (scanned, r)) ≡ (b, err e)
  unfolding csv_continue
  round_fails next_round b scanned r h = rw h refl

  csv_rows-fails :
      (names : List Bytes) (fuel : ℕ) {s : S} {rows : List (List Value)} (vals : List Cell)
      (b : CsvBuffer)
      → FailsAfter sc e s rows
      → length rows < fuel
      → All IsAny vals
      → length vals ≡ length names
      → All (Fits names) rows
      → left (csv_rows rt sc buffer_writer options fuel vals s b)
        ≡ (put_all b (csv_lines rt options rows), err e)
  unfolding csv_rows csv_round put_all
  csv_rows-fails names zero vals b f lt plain same fits = absurd (omega arith)
  csv_rows-fails names (suc fuel) vals b (fails {s' = s'} next scan) lt plain same fits =
      let loop = csv_rows rt sc buffer_writer options fuel in
      let scanned = scan_csv rt sc.scanner s' vals options in
      ap (λ r. left (csv_round rt sc buffer_writer options loop vals b r)) next
      ∙ round_fails loop b scanned.0 scanned.1 (scan_csv-fails s' vals (scan vals))
  csv_rows-fails names (suc fuel) vals b (then_fails {row = row} {rows = rows} next reads f) lt
        plain same (w, ws) =
      let line = csv_record (map (get_csv_value rt options) row) in
      ap left (csv_rows_step rt options sc names fuel vals row b next reads plain same w)
      ∙ csv_rows-fails names fuel (map holding row) (put_all b line) f (omega arith)
          (holding-IsAny row) (omega (arith, length-holding row)) ws
      ∙ ap (λ w. let u : Left = (w, err e) in u) (put_all-append b line (csv_lines rt options rows))

  left_behind :
      (fuel : ℕ) {s : S} (names : List Bytes) {rows : List (List Value)} (b : Bytes)
      → sc.last_err s ≡ none
      → sc.columns s ≡ ok names
      → FailsAfter sc e s rows
      → All (Fits names) rows
      → length rows < fuel
      → left (write_csv rt sc buffer_writer options fuel s (new_writer b))
        ≡ (put_all (new_writer b) (csv_record names ++ csv_lines rt options rows), err e)
  unfolding write_csv csv_body csv_written buffer_writer
  left_behind fuel {s} names {rows} b no_err cols f fits lt =
      let w = new_writer b in
      ap (λ c. left (csv_body rt sc buffer_writer options fuel s w c))
        (struct_columns rt sc names no_err cols)
      ∙ csv_rows-fails names fuel (new_cells names) (put_all w (csv_record names)) f lt
          (new_cells-IsAny names) (length-new_cells names) fits
      ∙ ap (λ w'. let u : Left = (w', err e) in u)
          (put_all-append w (csv_record names) (csv_lines rt options rows))

  -- `writeCSV` on a new `csv.Writer` over a text, on a scanner that has no error at the start,
  -- gives its column names, and yields `rows`, each with a value for every column, before a
  -- `Scan` fails: with more fuel than rows it returns the error of that `Scan`, and of the record
  -- of the column names and the records of the rows before, whole buffers of 4096 bytes have been
  -- passed on behind the text, and the rest, which is at least one byte and at most 4096, is left
  -- in the buffer.
  pub write_csv-scan_fails :
      (fuel : ℕ) {s : S} (names : List Bytes) {rows : List (List Value)} (b : Bytes)
      → sc.last_err s ≡ none
      → sc.columns s ≡ ok names
      → FailsAfter sc e s rows
      → All (Fits names) rows
      → length rows < fuel
      → (w : CsvBuffer) × (left (write_csv rt sc buffer_writer options fuel s (new_writer b))
          ≡ (w, err e))
        × LosesTail b (csv_record names ++ csv_lines rt options rows) w
  write_csv-scan_fails fuel names {rows} b no_err cols f fits lt =
      let bytes = csv_record names ++ csv_lines rt options rows in
      (
        put_all (new_writer b) bytes,
        left_behind fuel names b no_err cols f fits lt,
        put_all-LosesTail b bytes (
            omega (
              arith,
              csv_record-some names,
              length-append (csv_record names) (csv_lines rt options rows),
            )),
      )
