-- ===== src/Tests/Db.antt =====
-- The query functions and the mock database on two persons.
use onedb.Prelude.{
  ◌≢◌, zero, suc, Bytes, ◌<◌, ◌^◌, text_eq, ℕ, [], ◌∷◌, ◌++◌, ◌≡◌, ◌↔◌, refl, true, false, some,
  none, map, codes, arith, List, All,
}
use onedb.Csv.{csv_record}
use onedb.Csv.Buffer.{CsvBuffer, new_writer, buffer_writer}
use onedb.Csv.Laws.{csv_lines}
use onedb.Go.Outcome.{no_mock_data, ok, err, panic}
use onedb.Go.Ints.{pos, wrap_signed}
use onedb.Go.Types.{int64, basic, Kind, kind_eq, kind_of, type_eq}
use onedb.Go.Values.{int_value, type_of}
use onedb.Mock.Scanner.Typed.{Holds, scan-Calm, well_typed}
use onedb.Json.Result.{get_json}
use onedb.Json.Result.Failures.{get_json-scan_fails}
use onedb.Json.Result.Laws.{array}
use onedb.Json.Scalar.{jsonize}
use onedb.Mock.Db.{
  MockDb, MethodsRun, query_arguments, mock_query_json, verify_next_command, passed,
}
use onedb.Mock.Db.Laws.{mock_query_json-array, Matches, verify_next_command-passed}
use onedb.Mock.Scanner.{structs, mock_rows, new_rows_scanner, MockRowsScanner}
use onedb.Mock.Scanner.Laws.{at_row, values}
use onedb.Queries.{Query, Backender, new_query, slice_pointer}
use onedb.Mock.Db.{mock_query_struct}
use onedb.Mock.Db.Structs.{IsOf, is_among, struct_of, mock_query_struct-structs}
use onedb.Go.Values.{nil, type_of}
use onedb.Struct.SetValue.{int_bits, set_value, accepts_int}
use onedb.Tests.Data.{no_interfaces, person}
use onedb.Struct.Result.{get_struct, new_item}
use onedb.Struct.Result.Failures.{seen, get_struct-scan_fails}
use onedb.Struct.Fields.Laws.{fill_struct, fill_field}
use onedb.Rows.Script.{then_fails, holding}
use onedb.Rows.{Scanned}
use onedb.Csv.{write_csv}
use onedb.Csv.Failures.{left, LosesTail, write_csv-scan_fails}
use onedb.Queries.Csv.{query_write_csv, query_write_csv-lines}
use onedb.Rows.{Cell, new_cell, RowsScanner}
use onedb.Rows.Script.{fails}
use onedb.Tests.Data.{
  test_runtime, column_names, persons, person_type, person_struct, person_scanner,
  persons-IsExported, persons-Yields, persons-Fits,
}

abbrev select_all : Query
select_all = new_query (codes "select") []

-- A backend that has one result set and no single row.
abbrev one_result : Backender (Unit {0}) MockRowsScanner MockRowsScanner
one_result = record {
  query = λ b q. (b, ok person_scanner);
  query_row = λ b q. (b, person_scanner);
  rows = mock_rows;
  row = mock_rows.scanner;
}

query_write_csv-lines_example :
    query_write_csv test_runtime one_result
      (record { date_only = false })
      buffer_writer
      3
      tt
      (new_writer [])
      select_all
    ≡ record {
      backend = tt;
      closed = some (at_row no_interfaces column_names persons 3);
      result = (
        new_writer (
            csv_record column_names
            ++ csv_lines test_runtime (record { date_only = false }) (map values persons)),
        ok tt,
      );
    }
unfolding mock_rows new_rows_scanner
query_write_csv-lines_example =
    query_write_csv-lines test_runtime one_result (record { date_only = false }) select_all
      column_names 3 [] refl refl refl persons-Yields persons-Fits (omega arith)

abbrev people_mock : MockDb
people_mock = record {
  mock_data = structs no_interfaces column_names persons ∷ [];
  methods_run = [];
  close_err = none;
  exec_err = none;
}

mock_query_json-array_example : mock_query_json test_runtime 3 people_mock select_all ≡ record {
  backend = record people_mock {
    mock_data = [];
    methods_run =
        record { method_name = codes "QueryJSON"; arguments = query_arguments select_all }
        ∷ record { method_name = codes "Query"; arguments = query_arguments select_all }
        ∷ [];
  };
  closed = some (at_row no_interfaces column_names persons 3);
  result = ok (array test_runtime (map jsonize column_names) (map values persons));
}
mock_query_json-array_example =
    mock_query_json-array test_runtime 3 people_mock select_all no_interfaces column_names persons
      [] refl persons-IsExported persons-Fits (omega arith)

person-IsOf : (id : ℕ) (name : Bytes) → id < 2 ^ 63 → IsOf person_type (person id name)
unfolding type_of int_bits
person-IsOf id name h = ((refl, refl, refl, h, refl), ((refl, refl, refl, tt, refl), tt))

persons-IsOf : All (IsOf person_type) persons
persons-IsOf =
    (person-IsOf 1 (codes "a,b") (omega arith), (person-IsOf 2 (codes "<c>") (omega arith), tt))

mock_query_struct-structs_example :
    mock_query_struct test_runtime 3 people_mock nil (slice_pointer person_type []) select_all
    ≡ record {
      backend = record people_mock {
        mock_data = [];
        methods_run =
            record {
              method_name = codes "QueryStruct";
              arguments = nil ∷ query_arguments select_all;
            }
            ∷ record { method_name = codes "Query"; arguments = query_arguments select_all }
            ∷ [];
      };
      closed = some (at_row no_interfaces column_names persons 3);
      result = (
        slice_pointer person_type
            (person_struct 1 (codes "a,b") ∷ person_struct 2 (codes "<c>") ∷ []),
        ok tt,
      );
    }
unfolding struct_of is_among text_eq
mock_query_struct-structs_example =
    mock_query_struct-structs test_runtime person_type (λ x. refl) (refl, (refl, tt)) 3 people_mock
      nil select_all no_interfaces persons [] [] refl persons-IsOf (omega arith)

abbrev empty_mock : MockDb
empty_mock = record { mock_data = []; methods_run = []; close_err = none; exec_err = none }

abbrev closed_call : MethodsRun
closed_call = record { method_name = codes "Close"; arguments = [] }

verify_next_command-passed_example :
    ((verify_next_command
        (λ a x. true)
        (record empty_mock { methods_run = closed_call ∷ [] })
        (codes "Close")
        []).0
      ≡ empty_mock)
    × (((verify_next_command
            (λ a x. true)
            (record empty_mock { methods_run = closed_call ∷ [] })
            (codes "Close")
            []).1
          ≡ passed)
        ↔ ((closed_call.method_name ≡ codes "Close") × Matches (λ a x. true) [] []))
verify_next_command-passed_example =
    verify_next_command-passed (λ a x. true) (record empty_mock { methods_run = closed_call ∷ [] })
      (codes "Close") [] closed_call [] refl

-- The first `Scan` of a broken scanner that still says that there is a row.
abbrev failing_rows : RowsScanner ℕ
failing_rows = record {
  close = λ s. (s, none);
  columns = λ s. ok column_names;
  next = λ s. (s, true);
  last_err = λ s. none;
  scanner = record { scan = λ s dest. record { rows = s; dest = dest; result = err no_mock_data } };
}

get_json-scan_fails_example : (get_json test_runtime failing_rows 1 0).1 ≡ err no_mock_data
get_json-scan_fails_example =
    get_json-scan_fails test_runtime failing_rows no_mock_data 1 column_names refl refl
      (fails refl (λ dest. refl)) tt (omega arith)

-- The first `Scan` reads a person, and the second fails.
abbrev scan_at : ℕ → List Cell → Scanned ℕ
scan_at (suc zero) dest = record {
  rows = 1;
  dest = map holding (values (person 1 (codes "a,b")));
  result = ok tt;
}
scan_at s dest = record { rows = s; dest = dest; result = err no_mock_data }

abbrev second_fails : RowsScanner ℕ
second_fails = record failing_rows {
  next = λ s. (suc s, true);
  scanner = record { scan = scan_at };
}

get_struct-scan_fails_example :
    seen test_runtime second_fails no_mock_data
      (get_struct test_runtime second_fails 2 person_type 0 [])
    ≡ (person_struct 1 (codes "a,b") ∷ [], err no_mock_data)
unfolding new_item fill_struct fill_field set_value text_eq kind_of kind_eq wrap_signed accepts_int
    int_bits
get_struct-scan_fails_example =
    get_struct-scan_fails test_runtime second_fails no_mock_data 2 column_names person_type
      (person_struct 1 (codes "a,b") ∷ []) [] refl refl
      (then_fails {row = values (person 1 (codes "a,b"))} refl (λ dest plain same. refl)
        (fails {s = 1} refl (λ dest. refl)))
      (refl, tt) (refl, tt) (omega arith)

write_csv-scan_fails_example :
    (w : CsvBuffer) × (left (
        write_csv test_runtime second_fails buffer_writer
          (record { date_only = true })
          2
          0
          (new_writer []))
      ≡ (w, err no_mock_data))
    × LosesTail []
        (csv_record column_names
          ++ csv_lines test_runtime
              (record { date_only = true })
              (values (person 1 (codes "a,b")) ∷ []))
        w
write_csv-scan_fails_example =
    write_csv-scan_fails test_runtime (record { date_only = true }) second_fails no_mock_data 2
      column_names [] refl refl
      (then_fails {row = values (person 1 (codes "a,b"))} refl (λ dest plain same. refl)
        (fails {s = 1} refl (λ dest. refl)))
      (refl, tt) (omega arith)

-- Variables of the types of the columns, the second behind an interface.
abbrev typed_variables : List Cell
typed_variables =
    record { type = basic (Kind.signed int64); value = int_value int64 (pos 0) } ∷ new_cell ∷ []

scan-Calm_example :
    Holds no_interfaces typed_variables
      (mock_rows.scan (at_row no_interfaces column_names persons 1) typed_variables).dest
    × ((mock_rows.scan (at_row no_interfaces column_names persons 1) typed_variables).result
        ≢ panic)
unfolding well_typed new_rows_scanner kind_eq kind_of type_of type_eq
scan-Calm_example =
    scan-Calm (at_row no_interfaces column_names persons 1) typed_variables
      (((refl, (refl, tt)), (refl, (refl, tt))), (((refl, (refl, tt)), (refl, (refl, tt))), tt))
      (refl, (refl, tt)) (refl, (refl, tt))
