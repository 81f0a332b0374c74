-- ===== src/Tests/Pgx.antt =====
-- The reconnecting pool, on a pool whose state is the number of calls made, and rows of pgx.
use onedb.Prelude.{
  ℕ, zero, suc, ◌*◌, ◌≤◌, [], ◌∷◌, ◌++◌, ◌≡◌, refl, Bool, true, false, some, none, Option, List,
  map, Bytes, codes, arith,
}
use onedb.Csv.{csv_record, write_csv}
use onedb.Csv.Buffer.{new_writer, buffer_writer}
use onedb.Csv.Laws.{csv_lines}
use onedb.Go.Ints.{pos}
use onedb.Go.Outcome.{foreign, Outcome, ok, panic}
use onedb.Go.Types.{int64}
use onedb.Go.Values.{Value, int_value, string_value}
use onedb.Json.Result.{get_json}
use onedb.Json.Result.Laws.{array}
use onedb.Json.Scalar.{jsonize}
use onedb.Pgx.Reconnect.{
  PgxError, dead_conn, Pool, WithReconnect, millisecond, since, pause, ping, pinged, attempt,
  measured, is_dead, reconnect, query, exec,
}
use onedb.Pgx.Reconnect.Pause.{IsBounded, pause-IsBounded, reconnect_throttled}
use onedb.Pgx.Reconnect.Returns.{pgx_calls_return}
use onedb.Mock.Scanner.{not_structs}
use onedb.Pgx.Backend.{Driver, pgx_query_json}
use onedb.Pgx.Backend.Reconnecting.{query_json_reconnected}
use onedb.Pgx.Copy.{copy_source, copy_from_rows, copy_from_rows-Sends, Sends, values}
use onedb.Pgx.Mock.{
  MockCall, execs, queries, closes, logged, new_pgx_mock, new_pgx_mock-logged, run_mocks,
}
use onedb.Rows.{Cell, Scanned}
use onedb.Pgx.Rows.{FieldDescription, Rower, pgx_rows}
use onedb.Pgx.Rows.Laws.{exhausted, delivers, pgx_rows_results}
use onedb.Queries.{Query, new_query}
use onedb.Tests.Data.{test_runtime, column_names}

-- The first call fails with a dead connection and later ones answer; a second passes between two
-- readings of the clock. The rows and the tag are the query that the pool was sent.
abbrev query_at : ℕ → Query → ℕ × Query × Option PgxError
query_at zero q = (1, q, some dead_conn)
query_at (suc n) q = (suc (suc n), q, none)

abbrev reviving : Pool ℕ Query Query
reviving = record {
  query = query_at;
  exec = query_at;
  rows_err = λ rows. none;
  scan_int = λ p text. (p, pos 2, none);
  now = λ p. (p, 1000 * millisecond);
}

abbrev dead : Pool ℕ Query Query
dead = record {
  query = λ p q. (suc p, q, some dead_conn);
  exec = λ p q. (suc p, q, some dead_conn);
  rows_err = λ rows. none;
  scan_int = λ p text. (p, pos 0, some dead_conn);
  now = λ p. (p, 1000 * millisecond);
}

abbrev fresh : WithReconnect ℕ
fresh = record { db = 0; last_retry = 0; retry_count = 0 }

abbrev with_arguments : Query
with_arguments = new_query (codes "select $1") (int_value int64 (pos 7) ∷ [])

pause-IsBounded_example :
    (IsBounded dead (query dead 5 fresh with_arguments).0
      × (pause (query dead 5 fresh with_arguments).0.retry_count ≤ 10000 * millisecond))
    × (IsBounded dead (exec dead 5 fresh with_arguments).0
        × (pause (exec dead 5 fresh with_arguments).0.retry_count ≤ 10000 * millisecond))
pause-IsBounded_example = pause-IsBounded dead 5 fresh with_arguments (omega arith)

reconnect_throttled_example :
    (reconnect dead fresh
      ≡ (record { db = 0; last_retry = 1000 * millisecond; retry_count = 1 }, false))
    × (reconnect dead (reconnect dead fresh).0
        ≡ (record { db = 0; last_retry = 1000 * millisecond; retry_count = 1 }, false))
unfolding ping pause since
reconnect_throttled_example =
    reconnect_throttled dead fresh {e = dead_conn} refl (omega arith) refl refl (omega arith) refl
      (omega arith)

-- Rows of pgx as the list of those still to come.
abbrev next_row : List (List Value) → List (List Value) × Bool
next_row [] = ([], false)
next_row (row ∷ rows) = (row ∷ rows, true)

abbrev row_values : List (List Value) → List (List Value) × Outcome (List Value)
row_values [] = ([], ok [])
row_values (row ∷ rows) = (rows, ok row)

abbrev described : Bytes → FieldDescription
described name = record {
  name = name;
  table = 0;
  attribute_number = pos 1;
  data_type = 25;
  data_type_size = pos 4;
  data_type_name = codes "text";
  modifier = pos 0;
  format_code = pos 0;
}

abbrev listed_rows : Rower (List (List Value))
listed_rows = record {
  close = λ r. [];
  last_err = λ r. none;
  field_descriptions = λ r. map described column_names;
  fatal = λ r e. r;
  next = next_row;
  values = row_values;
}

abbrev one_row : List (List Value)
one_row = (int_value int64 (pos 1) ∷ string_value (codes "x") ∷ []) ∷ []

pgx_rows_results_example :
    (get_json test_runtime (pgx_rows listed_rows) 2 one_row
      ≡ ([], ok (array test_runtime (map jsonize column_names) one_row)))
    × (write_csv test_runtime
          (pgx_rows listed_rows)
          buffer_writer
          (record { date_only = true })
          2
          one_row
          (new_writer [])
        ≡ (
          [],
          new_writer (
              csv_record column_names
              ++ csv_lines test_runtime (record { date_only = true }) one_row),
          ok tt,
        ))
pgx_rows_results_example =
    pgx_rows_results listed_rows test_runtime (record { date_only = true }) 2 [] refl
      (delivers refl refl (exhausted refl)) (refl, tt) (omega arith)

-- A driver whose rows are lists, on a pool whose queries answer with one row.
abbrev rows_at : ℕ → Query → ℕ × List (List Value) × Option PgxError
rows_at zero q = (1, [], some dead_conn)
rows_at (suc n) q = (suc (suc n), one_row, none)

abbrev reviving_rows : Pool ℕ (List (List Value)) Query
reviving_rows = record {
  query = rows_at;
  exec = query_at;
  rows_err = λ rows. none;
  scan_int = λ p text. (p, pos 2, none);
  now = λ p. (p, 1000 * millisecond);
}

abbrev scan_nothing : Unit {0} → List Cell → Scanned (Unit {0})
scan_nothing s dest = record { rows = s; dest = dest; result = ok tt }

abbrev list_driver : Driver ℕ (List (List Value)) Query (Unit {0}) (Unit {0}) (Unit {0})
list_driver = record {
  query_row = λ p q. (p, tt);
  tx_query = λ x q. (x, [], none);
  tx_query_row = λ x q. (x, tt);
  begin = λ p. (p, ok tt);
  close_pool = λ p. p;
  copy_from = λ p table_name column_names row_src. (p, 0, none);
  tx_exec = λ x q. (x, q, none);
  tx_copy_from = λ x table_name column_names row_src. (x, 0, none);
  commit = λ x. (x, none);
  rollback = λ x. (x, none);
  rower = listed_rows;
  row = record { scan = scan_nothing };
  as_error = λ e. foreign (codes "pgx");
}

query_json_reconnected_example :
    pgx_query_json reviving_rows list_driver test_runtime 2 2 fresh with_arguments ≡ record {
      backend = record { db = 2; last_retry = 1000 * millisecond; retry_count = 0 };
      closed = some [];
      result = ok (array test_runtime (map jsonize column_names) one_row);
    }
unfolding reconnect measured attempt since pause pinged ping is_dead
query_json_reconnected_example =
    query_json_reconnected reviving_rows list_driver test_runtime 0 2 fresh
      (record { db = 1; last_retry = 1000 * millisecond; retry_count = 0 }) with_arguments []
      one_row refl refl refl refl refl refl (delivers refl refl (exhausted refl)) (refl, tt)
      (omega arith)

copy_from_rows-Sends_example :
    (Sends copy_source (copy_from_rows one_row) one_row (record { rows = one_row; idx = pos 1 }))
    × (values (copy_from_rows one_row) ≡ panic)
    × (values (record { rows = one_row; idx = pos 1 }) ≡ panic)
copy_from_rows-Sends_example = copy_from_rows-Sends one_row

abbrev mock_calls : List MockCall
mock_calls = execs with_arguments ∷ queries with_arguments ∷ closes ∷ []

new_pgx_mock-logged_example :
    let (b, es) =
      run_mocks (new_pgx_mock none (some (foreign (codes "exec"))) (not_structs ∷ [])) mock_calls in
    (b.db.methods_run ≡ map logged mock_calls) × (es ≡ none ∷ none ∷ none ∷ [])
new_pgx_mock-logged_example =
    new_pgx_mock-logged none (some (foreign (codes "exec"))) (not_structs ∷ []) mock_calls

-- The clock stands still at a second, so that a revived pool is not asked a second time.
pgx_calls_return_example :
    ((a : Option Query × Option PgxError) × ((query reviving 1001 fresh with_arguments).1 ≡ some a))
    × ((a : Option Query × Option PgxError) × ((exec reviving 1001 fresh with_arguments).1
          ≡ some a))
pgx_calls_return_example =
    pgx_calls_return reviving (1000 * millisecond) (λ p. omega arith) (λ p. omega arith) 1001 fresh
      with_arguments (omega arith) (omega arith)
