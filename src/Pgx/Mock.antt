-- ===== src/Pgx/Mock.antt =====
-- `mockBackend` of pgx/mock.go, over the mock database.
use onedb.Prelude.{
  [], ◌∷◌, ◌++◌, ◌≡◌, refl, ap, ◌∙◌, append-nil, append_assoc, sym, ℕ, Option, none, List, Bytes,
  codes, map,
}
use onedb.Csv.{CsvOptions, CsvWriter}
use onedb.Go.Outcome.{Error, Outcome}
use onedb.Go.Values.{Value, Runtime}
use onedb.Mock.Db.{
  MockDb, MethodsRun, new_mock, save_method_call, query_arguments, query, query_row,
}
use onedb.Mock.Db.Laws.{method_run, query-log, query_row-log}
use onedb.Mock.Scanner.{MockData, MockRowsScanner, mock_rows}
use onedb.Queries.{
  Query, Backender, Queried, ResultArg, StructResult, Values, query_json, query_json_row,
  query_struct, query_struct_row, query_values,
}
use onedb.Queries.Csv.{query_write_csv}
use onedb.Rows.{Cell}

pub record PgxMock : Type 0 where
  pub db : MockDb
  pub copy_from_err : Option Error
  pub exec_err : Option Error

-- `NewMock`, which hands its errors to the mock database and keeps none.
unfoldable pub new_pgx_mock : Option Error → Option Error → List MockData → PgxMock
new_pgx_mock copy_from_err exec_err data' = record {
  db = new_mock copy_from_err exec_err data';
  copy_from_err = none;
  exec_err = none;
}

unfoldable pub saved : Bytes → List Value → PgxMock → PgxMock
saved name arguments b = record b { db = save_method_call name arguments b.db }

unfoldable pub close : PgxMock → PgxMock
unfolding saved
close b = saved (codes "Close") [] b

unfoldable pub exec : PgxMock → Query → PgxMock × Bytes × Option Error
unfolding saved
exec b q = (saved (codes "Exec") (query_arguments q) b, [], b.exec_err)

-- The arguments are the values that are logged.
unfoldable pub copy_from : PgxMock → Value → Value → Value → PgxMock × ℕ × Option Error
unfolding saved
copy_from b table_name column_names row_src =
    (saved (codes "CopyFrom") (table_name ∷ column_names ∷ row_src ∷ []) b, 0, b.copy_from_err)

unfoldable pub pgx_mock : Backender PgxMock MockRowsScanner MockRowsScanner
pgx_mock = record {
  query = λ b q. let (db, rows) = query b.db q in (record b { db = db }, rows);
  query_row = λ b q. let (db, row) = query_row b.db q in (record b { db = db }, row);
  rows = mock_rows;
  row = mock_rows.scanner;
}

module _ (rt : Runtime) where
  unfoldable pub pgx_mock_query_json :
      ℕ → PgxMock → Query → Queried PgxMock MockRowsScanner (Outcome Bytes)
  pgx_mock_query_json fuel b q = query_json rt pgx_mock fuel b q

  unfoldable pub pgx_mock_query_json_row :
      PgxMock → Query → Queried PgxMock MockRowsScanner (Outcome Bytes)
  pgx_mock_query_json_row b q = query_json_row rt pgx_mock b q

  unfoldable pub pgx_mock_query_struct :
      ℕ → PgxMock → ResultArg → Query → Queried PgxMock MockRowsScanner StructResult
  pgx_mock_query_struct fuel b result q = query_struct rt pgx_mock fuel b result q

  unfoldable pub pgx_mock_query_struct_row :
      PgxMock → ResultArg → Query → Queried PgxMock MockRowsScanner StructResult
  pgx_mock_query_struct_row b result q = query_struct_row rt pgx_mock b result q

  unfoldable pub pgx_mock_query_write_csv :
      {W : Type 0}
      → CsvWriter W
      → CsvOptions
      → ℕ
      → PgxMock
      → W
      → Query
      → Queried PgxMock MockRowsScanner (W × Outcome (Unit {0}))
  pgx_mock_query_write_csv cw options fuel b w q = query_write_csv rt pgx_mock options cw fuel b w q

unfoldable pub pgx_mock_query_values : PgxMock → Option Query → List Cell → Values PgxMock
pgx_mock_query_values b q dest = query_values pgx_mock b q dest

-- The calls of the mock, but for the query functions, which make the calls `queries` and `queries_row`.
pub data MockCall : Type 0 where
  closes : MockCall
  execs queries queries_row : Query → MockCall
  copies : Value → Value → Value → MockCall

-- The mock, and the error of `Exec` or of `CopyFrom`.
unfoldable pub run_mock : PgxMock → MockCall → PgxMock × Option Error
unfolding close exec copy_from pgx_mock
run_mock b closes = (close b, none)
run_mock b (execs q) = let (b', tag, e) = exec b q in (b', e)
run_mock b (queries q) = ((pgx_mock.query b q).0, none)
run_mock b (queries_row q) = ((pgx_mock.query_row b q).0, none)
run_mock b (copies table_name column_names row_src) =
    let (b', n, e) = copy_from b table_name column_names row_src in (b', e)

unfoldable pub run_mocks : PgxMock → List MockCall → PgxMock × List (Option Error)
unfolding run_mock
run_mocks b [] = (b, [])
run_mocks b (call ∷ calls) =
    let (b', e) = run_mock b call in let (b'', es) = run_mocks b' calls in (b'', e ∷ es)

-- How a call is logged.
abbrev pub logged : MockCall → MethodsRun
logged closes = method_run (codes "Close") []
logged (execs q) = method_run (codes "Exec") (query_arguments q)
logged (queries q) = method_run (codes "Query") (query_arguments q)
logged (queries_row q) = method_run (codes "QueryRow") (query_arguments q)
logged (copies table_name column_names row_src) =
    method_run (codes "CopyFrom") (table_name ∷ column_names ∷ row_src ∷ [])

abbrev pub no_error : MockCall → Option Error
no_error call = none

-- No error is kept.
abbrev pub IsSilent : PgxMock → Type 0
IsSilent b = (b.copy_from_err ≡ none) × (b.exec_err ≡ none)

-- A call is logged, and has no error.
run_mock-logged :
    (b : PgxMock) (call : MockCall)
    → IsSilent b
    → ((run_mock b call).0.db.methods_run ≡ b.db.methods_run ++ logged call ∷ [])
      × IsSilent (run_mock b call).0
      × ((run_mock b call).1 ≡ none)
unfolding run_mock close exec copy_from saved save_method_call pgx_mock
run_mock-logged b closes h = (refl, h, refl)
run_mock-logged b (execs q) h = (refl, h, h.1)
run_mock-logged b (queries q) h = (query-log b.db q, h, refl)
run_mock-logged b (queries_row q) h = (query_row-log b.db q, h, refl)
run_mock-logged b (copies table_name column_names row_src) h = (refl, h, h.0)

run_mocks-logged :
    (b : PgxMock) (calls : List MockCall)
    → IsSilent b
    → ((run_mocks b calls).0.db.methods_run ≡ b.db.methods_run ++ map logged calls)
      × ((run_mocks b calls).1 ≡ map no_error calls)
unfolding run_mocks
run_mocks-logged b [] h = (sym (append-nil b.db.methods_run), refl)
run_mocks-logged b (call ∷ calls) h =
    let (log, still, e) = run_mock-logged b call h in
    let (logs, es) = run_mocks-logged (run_mock b call).0 calls still in
    (
      logs
          ∙ ap (λ l. l ++ map logged calls) log
          ∙ append_assoc b.db.methods_run (logged call ∷ []) (map logged calls),
      ap (λ o. o ∷ (run_mocks (run_mock b call).0 calls).1) e ∙ ap (λ os. none ∷ os) es,
    )

-- A new pgx mock, whatever errors it is given, after any calls of `Close`, `Exec`, `Query`,
-- `QueryRow` and `CopyFrom`: each call is logged under its name with its arguments, in order, and
-- no `Exec` and no `CopyFrom` has had an error.
pub new_pgx_mock-logged :
    (copy_from_err exec_err : Option Error) (data' : List MockData) (calls : List MockCall)
    → let (b, es) = run_mocks (new_pgx_mock copy_from_err exec_err data') calls in
      (b.db.methods_run ≡ map logged calls) × (es ≡ map no_error calls)
unfolding new_pgx_mock new_mock
new_pgx_mock-logged copy_from_err exec_err data' calls =
    run_mocks-logged (new_pgx_mock copy_from_err exec_err data') calls (refl, refl)
