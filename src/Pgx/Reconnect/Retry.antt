-- ===== src/Pgx/Reconnect/Retry.antt =====
-- `Query` over a pool that revives: what it sends again, and what it gives back.
use onedb.Prelude.{ℕ, suc, [], ◌≡◌, refl, true, none, some}
use onedb.Pgx.Reconnect.{
  PgxError, Pool, WithReconnect, is_dead, reconnect, reconnected, replied, queried, query,
}
use onedb.Queries.{Query, new_query}

module _ {P R G : Type 0} (pool : Pool P R G) (b b' : WithReconnect P) (q : Query) {db : P}
    {e : PgxError} where
  -- `Query` where the pool fails with a dead connection, `reconnect` revives it, and the second
  -- query answers: with fuel for two calls the rows of the second query come back, with their own
  -- error, and what the pool has been sent in it is the text of the query without its arguments.
  pub query_retried :
      (fuel : ℕ) {db' : P} (rows rows' : R)
      → pool.query b.db q ≡ (db, rows, some e)
      → is_dead (some e) ≡ true
      → reconnect pool (record b { db = db }) ≡ (b', true)
      → pool.query b'.db (new_query q.query []) ≡ (db', rows', none)
      → query pool (suc (suc fuel)) b q
        ≡ (record b' { db = db' }, some (some rows', pool.rows_err rows'))
  unfolding query queried reconnected replied
  query_retried fuel rows rows' fails dead revived answers = rw (fails, dead, revived, answers) refl
