-- ===== src/Pgx/Reconnect.antt =====
-- `pgxWithReconnect` of pgx/pgxWrapper.go: queries that are repeated once a dead connection answers
-- a ping again, and the growing pause between pings.
pub mod Pause
pub mod Returns
pub mod Retry
use onedb.Prelude.{
  ℕ, zero, suc, ◌+◌, ◌-◌, ◌*◌, ◌^◌, [], ◌∷◌, Bool, true, false, Option, none, some, Bytes, codes,
  ltb, ◌==◌, length, drop, text_eq, if◌then◌else◌,
}
use onedb.Go.Ints.{ℤ, pos, negsuc}
use onedb.Queries.{Query, new_query}

pub data PgxError : Type 0 where
  dead_conn failed_ping : PgxError
  message : Bytes → PgxError

-- What the code uses of `pgx.ConnPool` and of the clock, for a pool with states `P`, rows `R` and
-- command tags `G`. A query returns rows beside its error. The clock reads nanoseconds since the zero
-- time.
pub record Pool (P R G : Type 0) : Type 0 where
  pub query : P → Query → P × R × Option PgxError
  pub exec : P → Query → P × G × Option PgxError
  pub rows_err : R → Option PgxError
  pub scan_int : P → Bytes → P × ℤ × Option PgxError
  pub now : P → P × ℕ

pub record WithReconnect (P : Type 0) : Type 0 where
  pub db : P
  pub last_retry : ℕ
  pub retry_count : ℕ

-- `strings.HasSuffix`
unfoldable pub has_suffix : Bytes → Bytes → Bool
unfolding text_eq
has_suffix s suffix =
    if ltb (length s) (length suffix)
    then false
    else text_eq (drop (length s - length suffix) s) suffix

abbrev pub connection_reset : Bytes
connection_reset = codes "connection reset by peer"

-- The errors after which a connection is tried again.
unfoldable pub is_dead : Option PgxError → Bool
unfolding has_suffix
is_dead none = false
is_dead (some dead_conn) = true
is_dead (some failed_ping) = has_suffix (codes "Failed ping test") connection_reset
is_dead (some (message text)) = has_suffix text connection_reset

abbrev pub millisecond : ℕ
millisecond = 1000000

-- The largest `time.Duration`, at which `time.Since` saturates.
abbrev pub max_duration : ℕ
max_duration = 0x7FFFFFFFFFFFFFFF

-- `time.Since` where the time is not ahead of the clock; a time ahead of it gives 0 here, a negative
-- duration there, and neither is longer than a pause.
unfoldable pub since : ℕ → ℕ → ℕ
since now last = if ltb (now - last) max_duration then now - last else max_duration

unfoldable pub pause : ℕ → ℕ
pause retry_count = millisecond * 10 ^ retry_count

abbrev pub max_retry : ℕ
max_retry = 4

module _ {P R G : Type 0} (pool : Pool P R G) where
  ping_of : P × ℤ × Option PgxError → P × Option PgxError
  ping_of (db, val, some e) = (db, some e)
  ping_of (db, pos n, none) = (db, if n == 2 then none else some failed_ping)
  ping_of (db, negsuc n, none) = (db, some failed_ping)

  unfoldable pub ping : P → P × Option PgxError
  unfolding ping_of
  ping db = ping_of (pool.scan_int db (codes "select 1 + 1"))

  -- Behind the ping.
  unfoldable pub pinged : WithReconnect P → P × Option PgxError → WithReconnect P × Bool
  pinged b (db, none) = (record b { db = db; retry_count = 0 }, true)
  pinged b (db, some e) = (
    record b {
      db = db;
      retry_count = if ltb b.retry_count max_retry then suc b.retry_count else b.retry_count;
    },
    false,
  )

  -- `b.lastRetry = time.Now()`, and the ping.
  unfoldable pub attempt : WithReconnect P → P × ℕ → WithReconnect P × Bool
  unfolding pinged ping
  attempt b (db, now) = pinged (record b { last_retry = now }) (ping db)

  -- Behind the reading of the clock for `time.Since`.
  unfoldable pub measured : WithReconnect P → P × ℕ → WithReconnect P × Bool
  unfolding attempt since pause
  measured b (db, now) =
      if ltb (pause b.retry_count) (since now b.last_retry)
      then attempt b (pool.now db)
      else (record b { db = db }, false)

  unfoldable pub reconnect : WithReconnect P → WithReconnect P × Bool
  unfolding measured
  reconnect b = measured b (pool.now b.db)

  -- The pool, the rows or the tag, if there are any, and the error; `none` is a run out of fuel.
  abbrev pub Reply : Type 0 → Type 0
  Reply A = WithReconnect P × Option (Option A × Option PgxError)

  -- Behind `b.reconnect()`.
  unfoldable pub reconnected :
      {A : Type 0}
      → (WithReconnect P → Reply A)
      → Option A × Option PgxError
      → WithReconnect P × Bool
      → Reply A
  reconnected retry failed (b, true) = retry b
  reconnected retry failed (b, false) = (b, some failed)

  unfoldable pub replied : R → Option PgxError → Option R × Option PgxError
  replied rows none = (some rows, pool.rows_err rows)
  replied rows (some e) = (none, some e)

  -- Behind `b.db.Query`; the query is sent again by `retry`.
  unfoldable pub queried :
      (WithReconnect P → Reply R) → WithReconnect P → P × R × Option PgxError → Reply R
  unfolding reconnected replied is_dead reconnect
  queried retry b (db, rows, e) =
      if is_dead e
      then reconnected retry (replied rows e) (reconnect (record b { db = db }))
      else (record b { db = db }, some (replied rows e))

  -- The fuel bounds the calls of `Query`; a retry sends the text without its arguments.
  unfoldable pub query : ℕ → WithReconnect P → Query → Reply R
  unfolding queried
  query zero b q = (b, none)
  query (suc fuel) b q = queried (λ b'. query fuel b' (new_query q.query [])) b (pool.query b.db q)

  -- Behind `b.db.Exec`.
  unfoldable pub executed :
      (WithReconnect P → Reply G) → WithReconnect P → P × G × Option PgxError → Reply G
  unfolding reconnected is_dead reconnect
  executed retry b (db, tag, e) =
      if is_dead e
      then reconnected retry (some tag, e) (reconnect (record b { db = db }))
      else (record b { db = db }, some (some tag, e))

  -- The fuel bounds the calls of `Exec`.
  unfoldable pub exec : ℕ → WithReconnect P → Query → Reply G
  unfolding executed
  exec zero b q = (b, none)
  exec (suc fuel) b q = executed (λ b'. exec fuel b' q) b (pool.exec b.db q)
