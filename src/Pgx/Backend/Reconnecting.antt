-- ===== src/Pgx/Backend/Reconnecting.antt =====
-- `QueryJSON` of the pgx backend over a connection that was dead, and of a transaction on one.
use onedb.Prelude.{ℕ, suc, ◌<◌, [], ◌≡◌, refl, true, none, some, List, map, length, All}
use onedb.Go.Outcome.{ok}
use onedb.Go.Values.{Value, Runtime}
use onedb.Json.Result.Laws.{Fits, array}
use onedb.Json.Scalar.{jsonize}
use onedb.Pgx.Backend.{Driver, row_result, pgx_backend, pgx_query_json}
use onedb.Pgx.Reconnect.{PgxError, Pool, WithReconnect, is_dead, reconnect}
use onedb.Pgx.Reconnect.Retry.{query_retried}
use onedb.Pgx.Rows.{column_names, pgx_rows}
use onedb.Pgx.Rows.Laws.{Delivers, pgx_rows-Yields}
use onedb.Queries.{Query, new_query}
use onedb.Queries.Laws.{query_json-array}

module _ {P R G T X K : Type 0} (pool : Pool P R G) (driver : Driver P R G T X K) where
  -- The backend answers with the rows of the query that was sent again.
  backend_retried :
      (retries : ℕ) (b b' : WithReconnect P) (q : Query) {db db' : P} {e : PgxError}
      (rows rows' : R)
      → pool.query b.db q ≡ (db, rows, some e)
      → is_dead (some e) ≡ true
      → reconnect pool (record b { db = db }) ≡ (b', true)
      → pool.query b'.db (new_query q.query []) ≡ (db', rows', none)
      → pool.rows_err rows' ≡ none
      → (pgx_backend pool driver (suc (suc retries))).query b q ≡ (record b' { db = db' }, ok rows')
  unfolding pgx_backend row_result
  backend_retried retries b b' q {db' = db'} rows rows' fails dead revived answers no_err =
      rw (query_retried pool b b' q retries rows rows' fails dead revived answers, no_err) refl

  -- `QueryJSON` of the pgx backend where the first query finds a dead connection, `reconnect`
  -- revives it, and the query that is sent again, without its arguments, gives rows without an
  -- error that deliver `results`, each with a value for every field: with at least two calls
  -- allowed and more fuel than rows it returns the array of the objects of the rows, and the rows
  -- have been closed at their end.
  pub query_json_reconnected :
      (rt : Runtime) (retries fuel : ℕ) (b b' : WithReconnect P) (q : Query) {db db' : P}
      {e : PgxError} (rows rows' : R) {end : R} {results : List (List Value)}
      → pool.query b.db q ≡ (db, rows, some e)
      → is_dead (some e) ≡ true
      → reconnect pool (record b { db = db }) ≡ (b', true)
      → pool.query b'.db (new_query q.query []) ≡ (db', rows', none)
      → pool.rows_err rows' ≡ none
      → driver.rower.last_err rows' ≡ none
      → Delivers driver.rower rows' results end
      → All (Fits (column_names driver.rower rows')) results
      → length results < fuel
      → pgx_query_json pool driver rt (suc (suc retries)) fuel b q ≡ record {
        backend = record b' { db = db' };
        closed = some (driver.rower.close end);
        result = ok (array rt (map jsonize (column_names driver.rower rows')) results);
      }
  unfolding pgx_query_json pgx_backend pgx_rows
  query_json_reconnected rt retries fuel b b' q {db} {db'} rows rows' fails dead revived answers
        no_err calm d fits lt =
      query_json-array rt (pgx_backend pool driver (suc (suc retries))) q
        (column_names driver.rower rows') fuel
        (backend_retried retries b b' q rows rows' fails dead revived answers no_err) calm refl
        (pgx_rows-Yields driver.rower d) fits lt
