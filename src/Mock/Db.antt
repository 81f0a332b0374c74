-- ===== src/Mock/Db.antt =====
-- `mockDb` of mockDb.go: the data still to be returned, and the log of the methods run.
pub mod Laws
pub mod Structs
use onedb.Prelude.{
  ℕ, suc, [], ◌∷◌, ◌++◌, Bool, true, false, Option, none, some, List, Bytes, codes, length, text_eq,
  ◌==◌, if◌then◌else◌,
}
use onedb.Go.Outcome.{Error, no_mock_data, Outcome, ok, err}
use onedb.Go.Values.{Value, string_value, Runtime}
use onedb.Rows.{Cell}
use onedb.Mock.Scanner.{MockData, MockRowsScanner, broken, new_rows_scanner, mock_rows}
use onedb.Csv.{CsvOptions, CsvWriter}
use onedb.Queries.Csv.{query_write_csv}
use onedb.Queries.{
  Query, Backender, Queried, ResultArg, StructResult, Values, query_json, query_json_row,
  query_struct, query_struct_row, query_values,
}

pub record MethodsRun : Type 0 where
  pub method_name : Bytes
  pub arguments : List Value

pub record MockDb : Type 0 where
  pub mock_data : List MockData
  pub methods_run : List MethodsRun
  pub close_err : Option Error
  pub exec_err : Option Error

unfoldable pub new_mock : Option Error → Option Error → List MockData → MockDb
new_mock close_err exec_err mock_data = record {
  mock_data = mock_data;
  methods_run = [];
  close_err = close_err;
  exec_err = exec_err;
}

unfoldable pub save_method_call : Bytes → List Value → MockDb → MockDb
save_method_call name arguments r = record r {
  methods_run = r.methods_run ++ record { method_name = name; arguments = arguments } ∷ [];
}

-- The scanner that comes back, with its error if there is no data: `QueryRow` drops that error.
take_data : MockDb → List MockData → MockDb × MockRowsScanner × Option Error
take_data r [] = (r, broken none (some no_mock_data), some no_mock_data)
take_data r (d ∷ rest) = (record r { mock_data = rest }, new_rows_scanner d, none)

unfoldable pub next_scanner : MockDb → MockDb × MockRowsScanner × Option Error
unfolding take_data
next_scanner r = take_data r r.mock_data

abbrev pub query_arguments : Query → List Value
query_arguments q = string_value q.query ∷ q.args

or_error : MockDb × MockRowsScanner × Option Error → MockDb × Outcome MockRowsScanner
or_error (r, scanner, none) = (r, ok scanner)
or_error (r, scanner, some e) = (r, err e)

unfoldable pub query : MockDb → Query → MockDb × Outcome MockRowsScanner
unfolding save_method_call next_scanner or_error
query r q = or_error (next_scanner (save_method_call (codes "Query") (query_arguments q) r))

advanced : MockDb × MockRowsScanner × Option Error → MockDb × MockRowsScanner
advanced (r, scanner, e) = (r, (mock_rows.next scanner).0)

unfoldable pub query_row : MockDb → Query → MockDb × MockRowsScanner
unfolding save_method_call next_scanner advanced
query_row r q = advanced (next_scanner (save_method_call (codes "QueryRow") (query_arguments q) r))

abbrev pub backend : Backender MockDb MockRowsScanner MockRowsScanner
backend = record { query = query; query_row = query_row; rows = mock_rows; row = mock_rows.scanner }

module _ (rt : Runtime) where
  unfoldable pub mock_query_json :
      ℕ → MockDb → Query → Queried MockDb MockRowsScanner (Outcome Bytes)
  mock_query_json fuel r q =
      query_json rt backend fuel (save_method_call (codes "QueryJSON") (query_arguments q) r) q

  unfoldable pub mock_query_json_row :
      MockDb → Query → Queried MockDb MockRowsScanner (Outcome Bytes)
  mock_query_json_row r q =
      query_json_row rt backend (save_method_call (codes "QueryJSONRow") (query_arguments q) r) q

  -- `pointer` is the result argument as it is logged, and `arg` what it points to.
  unfoldable pub mock_query_struct :
      ℕ → MockDb → Value → ResultArg → Query → Queried MockDb MockRowsScanner StructResult
  mock_query_struct fuel r pointer arg q =
      query_struct rt backend fuel
        (save_method_call (codes "QueryStruct") (pointer ∷ query_arguments q) r) arg q

  unfoldable pub mock_query_struct_row :
      MockDb → Value → ResultArg → Query → Queried MockDb MockRowsScanner StructResult
  mock_query_struct_row r pointer arg q =
      query_struct_row rt backend
        (save_method_call (codes "QueryStructRow") (pointer ∷ query_arguments q) r) arg q

  -- `writer` is the `io.Writer` as it is logged, and `cw` and `w` the CSV writer on it.
  unfoldable pub mock_query_write_csv :
      {W : Type 0}
      → CsvWriter W
      → ℕ
      → MockDb
      → Value
      → W
      → CsvOptions
      → Value
      → Query
      → Queried MockDb MockRowsScanner (W × Outcome (Unit {0}))
  mock_query_write_csv cw fuel r writer w options logged_options q =
      query_write_csv rt backend options cw fuel
        (save_method_call (codes "QueryWriteCSV") (writer ∷ logged_options ∷ query_arguments q) r) w
        q

-- `pointer` is the query as it is logged, and `pointers` the result arguments.
unfoldable pub mock_query_values :
    MockDb → Value → List Value → Option Query → List Cell → Values MockDb
mock_query_values r pointer pointers q dest =
    query_values backend (save_method_call (codes "QueryValues") (pointer ∷ pointers) r) q dest

unfoldable pub close : MockDb → MockDb × Option Error
unfolding save_method_call
close r = (save_method_call (codes "Close") [] r, r.close_err)

unfoldable pub execute : MockDb → Query → MockDb × Option Error
unfolding save_method_call
execute r q = (save_method_call (codes "Execute") (query_arguments q) r, r.exec_err)

-- What `VerifyNextCommand` reports to the `testing.T`.
pub data Report : Type 0 where
  passed no_methods wrong_method argument_count : Report
  mismatch_at : List ℕ → Report

mismatches : (Value → Value → Bool) → ℕ → List Value → List Value → List ℕ
mismatches deep_equal i (a ∷ actual) (x ∷ expected) =
    let rest = mismatches deep_equal (suc i) actual expected in
    if deep_equal a x then rest else i ∷ rest
mismatches deep_equal i _ _ = []

report : List ℕ → Report
report [] = passed
report (i ∷ rest) = mismatch_at (i ∷ rest)

-- `verifyArgs`, with `reflect.DeepEqual` as a parameter.
unfoldable pub verify_args : (Value → Value → Bool) → List Value → List Value → Report
unfolding mismatches report
verify_args deep_equal actual expected =
    if length expected == length actual
    then report (mismatches deep_equal 0 actual expected)
    else argument_count

verify_first :
    (Value → Value → Bool) → MockDb → Bytes → List Value → List MethodsRun → MockDb × Report
verify_first deep_equal r name expected [] = (r, no_methods)
verify_first deep_equal r name expected (current ∷ rest) = (
  record r { methods_run = rest },
  if text_eq current.method_name name
      then verify_args deep_equal current.arguments expected
      else wrong_method,
)

unfoldable pub verify_next_command :
    (Value → Value → Bool) → MockDb → Bytes → List Value → MockDb × Report
unfolding verify_first verify_args
verify_next_command deep_equal r name expected =
    verify_first deep_equal r name expected r.methods_run
