-- ===== src/Pgx/Backend.antt =====
-- `pgxBackend` and `pgxTx` of pgx/pgx.go: the query functions over the pool that reconnects, and over a
-- transaction.
pub mod Reconnecting
use onedb.Prelude.{ℕ, [], ◌∷◌, Option, none, some, List, Bytes}
use onedb.Csv.{CsvOptions, CsvWriter}
use onedb.Go.Outcome.{Error, Outcome, ok, err, panic, out_of_fuel, ◌>>=◌}
use onedb.Go.Values.{Runtime}
use onedb.Pgx.Reconnect.{PgxError, Pool, WithReconnect, Reply, replied, query, exec}
use onedb.Pgx.Rows.{Rower, pgx_rows}
use onedb.Queries.{
  Query, Backender, Queried, ResultArg, StructResult, Values, query_json, query_json_row,
  query_struct, query_struct_row, query_values,
}
use onedb.Queries.Csv.{query_write_csv}
use onedb.Rows.{Cell, Scanner}

-- The fields of `pgx.ConnConfig` that the code sets; `D` is the type of a dial function.
pub record ConnConfig (D : Type 0) : Type 0 where
  pub host : Bytes
  pub port : ℕ
  pub user : Bytes
  pub password : Bytes
  pub database : Bytes
  pub dial : Option D

pub record ConnPoolConfig (D : Type 0) : Type 0 where
  pub conn_config : ConnConfig D
  pub max_connections : ℕ

module _ {P D : Type 0} (new_conn_pool : ConnPoolConfig D → Outcome P) where
  -- `newPgx`
  connect : ConnConfig D → Outcome (WithReconnect P)
  connect conn_config = do
    db ← new_conn_pool (record { conn_config = conn_config; max_connections = 10 })
    ok (record { db = db; last_retry = 0; retry_count = 0 })

  unfoldable pub new_pgx_from_uri :
      (Bytes → Outcome (ConnConfig D)) → Bytes → Outcome (WithReconnect P)
  unfolding connect
  new_pgx_from_uri parse_uri uri = do conn_config ← parse_uri uri; connect conn_config

  unfoldable pub new_pgx : D → Bytes → ℕ → Bytes → Bytes → Bytes → Outcome (WithReconnect P)
  unfolding connect
  new_pgx dial_tcp server port username password database = connect (record {
    host = server;
    port = port;
    user = username;
    password = password;
    database = database;
    dial = some dial_tcp;
  })

-- What `Query` hands to the query functions: its error, whether or not there are rows beside it, or
-- the rows. A reply with neither is not made.
unfoldable pub row_result :
    {R : Type 0} → (PgxError → Error) → Option (Option R × Option PgxError) → Outcome R
row_result as_error none = out_of_fuel
row_result as_error (some (rows, some e)) = err (as_error e)
row_result as_error (some (some rows, none)) = ok rows
row_result as_error (some (none, none)) = panic

-- The rest of what the code uses of pgx: a query of a single row on a pool, with rows and single rows of
-- the states `R` and `T`; a transaction of the state `X`, which queries as a pool does; copies from a
-- source of the type `K`; and the `error` that an error of pgx is.
pub record Driver (P R G T X K : Type 0) : Type 0 where
  pub query_row : P → Query → P × T
  pub tx_query : X → Query → X × R × Option PgxError
  pub tx_query_row : X → Query → X × T
  pub begin : P → P × Outcome X
  pub close_pool : P → P
  pub copy_from : P → List Bytes → List Bytes → K → P × ℕ × Option PgxError
  pub tx_exec : X → Query → X × G × Option PgxError
  pub tx_copy_from : X → List Bytes → List Bytes → K → X × ℕ × Option PgxError
  pub commit : X → X × Option PgxError
  pub rollback : X → X × Option PgxError
  pub rower : Rower R
  pub row : Scanner T
  pub as_error : PgxError → Error

module _ {P R G T X K : Type 0} (pool : Pool P R G) (driver : Driver P R G T X K) where
  -- The methods of `pgxWithReconnect` that go straight to the pool.
  unfoldable pub wrapper_begin : WithReconnect P → WithReconnect P × Outcome X
  wrapper_begin b = let (db, tx) = driver.begin b.db in (record b { db = db }, tx)

  unfoldable pub wrapper_close : WithReconnect P → WithReconnect P
  wrapper_close b = record b { db = driver.close_pool b.db }

  unfoldable pub wrapper_copy_from :
      WithReconnect P → List Bytes → List Bytes → K → WithReconnect P × ℕ × Option PgxError
  wrapper_copy_from b table_name column_names rows =
      let (db, n, e) = driver.copy_from b.db table_name column_names rows in
      (record b { db = db }, n, e)

  unfoldable pub wrapper_query_row : WithReconnect P → Query → WithReconnect P × T
  wrapper_query_row b q = let (db, t) = driver.query_row b.db q in (record b { db = db }, t)

  -- `pgxBackend`, which is the pool that reconnects; the number bounds the calls of one `Query`.
  unfoldable pub pgx_backend : ℕ → Backender (WithReconnect P) R T
  unfolding row_result wrapper_query_row
  pgx_backend retries = record {
    query =
        λ b q. let (b', reply) = query pool retries b q in (b', row_result driver.as_error reply);
    query_row = wrapper_query_row;
    rows = pgx_rows driver.rower;
    row = driver.row;
  }

  -- Behind `t.tx.Query`.
  tx_queried : X × R × Option PgxError → X × Outcome R
  unfolding row_result replied
  tx_queried (tx, rows, e) = (tx, row_result driver.as_error (some (replied pool rows e)))

  -- `pgxTx`, which does not reconnect.
  unfoldable pub pgx_tx : Backender X R T
  unfolding tx_queried
  pgx_tx = record {
    query = λ tx q. tx_queried (driver.tx_query tx q);
    query_row = driver.tx_query_row;
    rows = pgx_rows driver.rower;
    row = driver.row;
  }

  module _ (rt : Runtime) (retries : ℕ) where
    unfoldable pub pgx_query_json :
        ℕ → WithReconnect P → Query → Queried (WithReconnect P) R (Outcome Bytes)
    pgx_query_json fuel b q = query_json rt (pgx_backend retries) fuel b q

    unfoldable pub pgx_query_json_row :
        WithReconnect P → Query → Queried (WithReconnect P) R (Outcome Bytes)
    pgx_query_json_row b q = query_json_row rt (pgx_backend retries) b q

    unfoldable pub pgx_query_struct :
        ℕ → WithReconnect P → ResultArg → Query → Queried (WithReconnect P) R StructResult
    pgx_query_struct fuel b result q = query_struct rt (pgx_backend retries) fuel b result q

    unfoldable pub pgx_query_struct_row :
        WithReconnect P → ResultArg → Query → Queried (WithReconnect P) R StructResult
    pgx_query_struct_row b result q = query_struct_row rt (pgx_backend retries) b result q

    unfoldable pub pgx_query_write_csv :
        {W : Type 0}
        → CsvWriter W
        → CsvOptions
        → ℕ
        → WithReconnect P
        → W
        → Query
        → Queried (WithReconnect P) R (W × Outcome (Unit {0}))
    pgx_query_write_csv cw options fuel b w q =
        query_write_csv rt (pgx_backend retries) options cw fuel b w q

    unfoldable pub tx_query_json : ℕ → X → Query → Queried X R (Outcome Bytes)
    tx_query_json fuel tx q = query_json rt pgx_tx fuel tx q

    unfoldable pub tx_query_json_row : X → Query → Queried X R (Outcome Bytes)
    tx_query_json_row tx q = query_json_row rt pgx_tx tx q

    unfoldable pub tx_query_struct : ℕ → X → ResultArg → Query → Queried X R StructResult
    tx_query_struct fuel tx result q = query_struct rt pgx_tx fuel tx result q

    unfoldable pub tx_query_struct_row : X → ResultArg → Query → Queried X R StructResult
    tx_query_struct_row tx result q = query_struct_row rt pgx_tx tx result q

    unfoldable pub tx_query_write_csv :
        {W : Type 0}
        → CsvWriter W
        → CsvOptions
        → ℕ
        → X
        → W
        → Query
        → Queried X R (W × Outcome (Unit {0}))
    tx_query_write_csv cw options fuel tx w q = query_write_csv rt pgx_tx options cw fuel tx w q

  unfoldable pub pgx_query_values :
      ℕ → WithReconnect P → Option Query → List Cell → Values (WithReconnect P)
  pgx_query_values retries b q dest = query_values (pgx_backend retries) b q dest

  unfoldable pub tx_query_values : X → Option Query → List Cell → Values X
  tx_query_values tx q dest = query_values pgx_tx tx q dest

  unfoldable pub pgx_begin : WithReconnect P → WithReconnect P × Outcome X
  unfolding wrapper_begin
  pgx_begin b = wrapper_begin b

  unfoldable pub pgx_close : WithReconnect P → WithReconnect P
  unfolding wrapper_close
  pgx_close b = wrapper_close b

  -- The number bounds the calls of `Exec`.
  unfoldable pub pgx_exec : ℕ → WithReconnect P → Query → Reply pool G
  pgx_exec retries b q = exec pool retries b q

  unfoldable pub pgx_copy_from :
      WithReconnect P → List Bytes → List Bytes → K → WithReconnect P × ℕ × Option PgxError
  unfolding wrapper_copy_from
  pgx_copy_from b table_name column_names row_src =
      wrapper_copy_from b table_name column_names row_src

  unfoldable pub tx_commit : X → X × Option PgxError
  tx_commit tx = driver.commit tx

  unfoldable pub tx_rollback : X → X × Option PgxError
  tx_rollback tx = driver.rollback tx

  unfoldable pub tx_exec : X → Query → X × G × Option PgxError
  tx_exec tx q = driver.tx_exec tx q

  unfoldable pub tx_copy_from : X → List Bytes → List Bytes → K → X × ℕ × Option PgxError
  tx_copy_from tx table_name column_names row_src =
      driver.tx_copy_from tx table_name column_names row_src
