-- ===== src/Sql.antt =====
-- `sqllibBackend` of sql/sqllibBackend.go: the query functions over a database of the package database/sql.
use onedb.Prelude.{ℕ, [], ◌∷◌, ◌≡◌, refl, Option, none, some, List, Bytes}
use onedb.Csv.{CsvOptions, CsvWriter}
use onedb.Go.Outcome.{Error, query_is_nil, Outcome, ok, err, ◌>>=◌}
use onedb.Go.Values.{Value, Runtime}
use onedb.Queries.{
  Query, Backender, Queried, ResultArg, StructResult, query_json, query_json_row, query_struct,
  query_struct_row,
}
use onedb.Queries.Csv.{query_write_csv}
use onedb.Rows.{RowsScanner, Scanner}

-- What the code uses of database/sql, for databases `D`, rows `S` and single rows `T`; `scan_args` is the
-- `Scan` of a single row, on the arguments themselves.
pub record SqlLib (D S T : Type 0) : Type 0 where
  pub open_database : Bytes → Bytes → Outcome D
  pub ping : D → D × Option Error
  pub close : D → D × Option Error
  pub exec : D → Query → D × Option Error
  pub query : D → Query → D × Outcome S
  pub query_row : D → Query → D × T
  pub rows : RowsScanner S
  pub row : Scanner T
  pub scan_args : T → List Value → T × Outcome (Unit {0})

module _ {D S T : Type 0} (lib : SqlLib D S T) where
  pinged : D × Option Error → Outcome D
  pinged (db, none) = ok db
  pinged (db, some e) = err e

  unfoldable pub new_sqllib : Bytes → Bytes → Outcome D
  unfolding pinged
  new_sqllib driver_name connection_string = do
    db ← lib.open_database driver_name connection_string
    pinged (lib.ping db)

  unfoldable pub sqllib_backend : Backender D S T
  sqllib_backend = record {
    query = lib.query;
    query_row = lib.query_row;
    rows = lib.rows;
    row = lib.row;
  }

  unfoldable pub close : D → D × Option Error
  close b = lib.close b

  unfoldable pub exec : D → Query → D × Option Error
  exec b q = lib.exec b q

  module _ (rt : Runtime) where
    unfoldable pub sql_query_json : ℕ → D → Query → Queried D S (Outcome Bytes)
    sql_query_json fuel b q = query_json rt sqllib_backend fuel b q

    unfoldable pub sql_query_json_row : D → Query → Queried D S (Outcome Bytes)
    sql_query_json_row b q = query_json_row rt sqllib_backend b q

    unfoldable pub sql_query_struct : ℕ → D → ResultArg → Query → Queried D S StructResult
    sql_query_struct fuel b result q = query_struct rt sqllib_backend fuel b result q

    unfoldable pub sql_query_struct_row : D → ResultArg → Query → Queried D S StructResult
    sql_query_struct_row b result q = query_struct_row rt sqllib_backend b result q

    unfoldable pub sql_query_write_csv :
        {W : Type 0}
        → CsvWriter W
        → CsvOptions
        → ℕ
        → D
        → W
        → Query
        → Queried D S (W × Outcome (Unit {0}))
    sql_query_write_csv cw options fuel b w q =
        query_write_csv rt sqllib_backend options cw fuel b w q

  -- `Scan` behind `QueryRow`.
  scanned : List Value → D × T → D × Outcome (Unit {0})
  scanned args (b, t) = let (t', r) = lib.scan_args t args in (b, r)

  -- `QueryValues`, which hands on its list of arguments as one argument; `slice` is that list as an
  -- `interface{}`.
  unfoldable pub sql_query_values : D → Option Query → Value → D × Outcome (Unit {0})
  unfolding scanned
  sql_query_values b none slice = (b, err query_is_nil)
  sql_query_values b (some q) slice = scanned (slice ∷ []) (lib.query_row b q)

  -- Where `Scan` refuses a single argument that is no pointer, as its documentation says, `QueryValues`
  -- has an error for every query.
  sql_query_values-err :
      (slice : Value)
      → ((t : T) → (e : Error) × ((lib.scan_args t (slice ∷ [])).1 ≡ err e))
      → (b : D) (q : Option Query) → (e : Error) × ((sql_query_values b q slice).1 ≡ err e)
  unfolding sql_query_values
  sql_query_values-err slice refuses b none = (query_is_nil, refl)
  sql_query_values-err slice refuses b (some q) = refuses (lib.query_row b q).1
