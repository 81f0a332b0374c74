-- ===== src/Queries/Csv.antt =====
-- `QueryWriteCSV` of onedb.go over a `Backender`, and what it writes.
use onedb.Prelude.{ℕ, ◌<◌, ◌++◌, ◌≡◌, ap, ◌∙◌, none, some, List, Bytes, length, All}
use onedb.Csv.{CsvOptions, CsvWriter, write_csv, csv_record}
use onedb.Csv.Buffer.{new_writer, buffer_writer}
use onedb.Csv.Laws.{csv_lines, write_csv-lines}
use onedb.Go.Outcome.{Outcome, ok, err, panic, out_of_fuel}
use onedb.Go.Values.{Value, Runtime}
use onedb.Json.Result.Laws.{Fits}
use onedb.Queries.{Query, Backender, Queried}
use onedb.Rows.Script.{Yields}

module _ (rt : Runtime) {B S T : Type 0} (bk : Backender B S T) (options : CsvOptions) {W : Type 0}
    (cw : CsvWriter W) where
  -- The writer after the call, and the error.
  csv_closing : B → S × W × Outcome (Unit {0}) → Queried B S (W × Outcome (Unit {0}))
  csv_closing b (rows, w, r) = record {
    backend = b;
    closed = some (bk.rows.close rows).0;
    result = (w, r);
  }

  csv_queried : ℕ → W → B × Outcome S → Queried B S (W × Outcome (Unit {0}))
  unfolding csv_closing
  csv_queried fuel w (b, ok rows) = csv_closing b (write_csv rt bk.rows cw options fuel rows w)
  csv_queried fuel w (b, err e) = record { backend = b; closed = none; result = (w, err e) }
  csv_queried fuel w (b, panic) = record { backend = b; closed = none; result = (w, panic) }
  csv_queried fuel w (b, out_of_fuel) = record {
    backend = b;
    closed = none;
    result = (w, out_of_fuel);
  }

  unfoldable pub query_write_csv : ℕ → B → W → Query → Queried B S (W × Outcome (Unit {0}))
  unfolding csv_queried
  query_write_csv fuel b w q = csv_queried fuel w (bk.query b q)

module _ (rt : Runtime) {B S T : Type 0} (bk : Backender B S T) (options : CsvOptions) where
  -- `QueryWriteCSV` on a new `csv.Writer` over a text, over a backend whose query returns a
  -- scanner that has no error at the start, gives its column names, and yields `rows`, each with
  -- a value for every column: with more fuel than rows it has passed on, behind the text, the
  -- record of the column names and one record for each row, in order, nothing waits in the
  -- buffer, it returns no error, and the scanner has been closed at its end.
  pub query_write_csv-lines :
      {b b' : B} {s t : S} (q : Query) (names : List Bytes) (fuel : ℕ) (w : Bytes)
      {rows : List (List Value)}
      → bk.query b q ≡ (b', ok s)
      → bk.rows.last_err s ≡ none
      → bk.rows.columns s ≡ ok names
      → Yields bk.rows s rows t
      → All (Fits names) rows
      → length rows < fuel
      → query_write_csv rt bk options buffer_writer fuel b (new_writer w) q ≡ record {
        backend = b';
        closed = some (bk.rows.close t).0;
        result = (new_writer (w ++ csv_record names ++ csv_lines rt options rows), ok tt);
      }
  unfolding query_write_csv csv_queried csv_closing
  query_write_csv-lines {b' = b'} q names fuel w e no_err cols y fits lt =
      ap (csv_queried rt bk options buffer_writer fuel (new_writer w)) e
      ∙ ap (csv_closing rt bk options buffer_writer b')
          (write_csv-lines rt options bk.rows names fuel w no_err cols y fits lt)
