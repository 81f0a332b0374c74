-- ===== src/Redis/Client.antt =====
-- `redisBackend` of redis/redisBackend.go, and the pool of connections that `newConnPool` sets up.
pub mod Store
pub mod Pool
use onedb.Prelude.{
  ℕ, [], ◌∷◌, ◌++◌, ◌*◌, true, false, Option, none, some, List, Bytes, codes, ltb, length, ◌==◌,
  if◌then◌else◌,
}
use onedb.Go.Decimal.{format_int}
use onedb.Go.Ints.{ℤ}
use onedb.Go.Outcome.{Error, Outcome, ok, err, panic, out_of_fuel}
use onedb.Go.Types.{IntKind}
use onedb.Go.Values.{Value, string_value, int_value}
use onedb.Pgx.Reconnect.{since}

-- What the code uses of redigo, of the network and of the clock, for a world `W`, network connections
-- `N`, connections `C` and replies `Y`. The clock reads nanoseconds; `string_of` and `bytes_of` are
-- `redis.String` and `redis.Bytes`.
pub record Redigo (W N C Y : Type 0) : Type 0 where
  pub dial_tcp : W → Bytes → W × Outcome N
  pub new_conn : N → ℕ → ℕ → C
  pub now : W → W × ℕ
  pub pool_get : W → W × C
  pub pool_close : W → W × Option Error
  pub do_command : W → C → Bytes → List Value → W × Y × Option Error
  pub close_conn : W → C → W
  pub string_of : Y → Option Error → Outcome Bytes
  pub bytes_of : Y → Option Error → Outcome Bytes

abbrev second : ℕ
second = 1000000000

-- `redis.Pool`, as far as `newConnPool` sets it; the server is given the instant at which the
-- connection came back to the pool.
pub record PoolConfig (W C : Type 0) : Type 0 where
  pub max_idle : ℤ
  pub max_active : ℤ
  pub dial : W → W × Outcome C
  pub test_on_borrow : W → C → ℕ → W × Option Error

module _ {W N C Y : Type 0} (redigo : Redigo W N C Y) where
  authenticated : C → W × Y × Option Error → W × Outcome C
  authenticated c (w, y, none) = (w, ok c)
  authenticated c (w, y, some e) = (redigo.close_conn w c, err e)

  dialed : Bytes → W × Outcome N → W × Outcome C
  unfolding authenticated
  dialed password (w, err e) = (w, err e)
  dialed password (w, panic) = (w, panic)
  dialed password (w, out_of_fuel) = (w, out_of_fuel)
  dialed password (w, ok tc) =
      let c = redigo.new_conn tc (2 * second) (2 * second) in
      if length password == 0
      then (w, ok c)
      else authenticated c (redigo.do_command w c (codes "AUTH") (string_value password ∷ []))

  -- `Dial` of the pool.
  unfoldable pub dial : Bytes → ℤ → Bytes → W → W × Outcome C
  unfolding dialed
  dial server port password w =
      dialed password (redigo.dial_tcp w (server ++ b':' ∷ format_int port))

  unfoldable pub error_of : W × Y × Option Error → W × Option Error
  error_of (w, y, e) = (w, e)

  -- `TestOnBorrow` of the pool: a connection that came back within a minute is not tested.
  unfoldable pub test_on_borrow : W → C → ℕ → W × Option Error
  unfolding since error_of
  test_on_borrow w c t =
      let (w', now) = redigo.now w in
      if ltb (since now t) (60 * second)
      then (w', none)
      else error_of (redigo.do_command w' c (codes "PING") [])

  unfoldable pub new_conn_pool : Bytes → ℤ → Bytes → ℤ → ℤ → PoolConfig W C
  unfolding dial test_on_borrow
  new_conn_pool server port password max_idle max_connections = record {
    max_idle = max_idle;
    max_active = max_connections;
    dial = dial server port password;
    test_on_borrow = test_on_borrow;
  }

  -- `Close`
  unfoldable pub close : W → W × Option Error
  close w = redigo.pool_close w

  -- `Do`, with its deferred `Close`.
  unfoldable pub run_do : W → Bytes → List Value → W × Y × Option Error
  run_do w command args =
      let (w1, c) = redigo.pool_get w in
      let (w2, y, e) = redigo.do_command w1 c command args in (redigo.close_conn w2 c, y, e)

  unfoldable pub get : W → Bytes → W × Outcome Bytes
  unfolding run_do
  get w key =
      let (w', y, e) = run_do w (codes "GET") (string_value key ∷ []) in (w', redigo.string_of y e)

  -- `json.Unmarshal`, where there is a text.
  unfoldable pub unmarshalled :
      {A : Type 0}
      → (Bytes → A → A × Outcome (Unit {0}))
      → A
      → Outcome Bytes
      → A × Outcome (Unit {0})
  unmarshalled unmarshal result (ok data') = unmarshal data' result
  unmarshalled unmarshal result (err e) = (result, err e)
  unmarshalled unmarshal result panic = (result, panic)
  unmarshalled unmarshal result out_of_fuel = (result, out_of_fuel)

  unfoldable pub get_struct :
      {A : Type 0}
      → (Bytes → A → A × Outcome (Unit {0}))
      → W
      → Bytes
      → A
      → W × A × Outcome (Unit {0})
  unfolding run_do unmarshalled
  get_struct unmarshal w key result =
      let (w', y, e) = run_do w (codes "GET") (string_value key ∷ []) in
      let (result', r) = unmarshalled unmarshal result (redigo.bytes_of y e) in (w', result', r)

  unfoldable pub or_ok : Option Error → Outcome (Unit {0})
  or_ok none = ok tt
  or_ok (some e) = err e

  -- `SETEX`, where `json.Marshal` gave a text.
  unfoldable pub expiring : W → Bytes → ℤ → Outcome Bytes → W × Outcome (Unit {0})
  unfolding run_do or_ok
  expiring w key expire_seconds (err e) = (w, err e)
  expiring w key expire_seconds panic = (w, panic)
  expiring w key expire_seconds out_of_fuel = (w, out_of_fuel)
  expiring w key expire_seconds (ok data') =
      let (w', y, e) =
        run_do w (codes "SETEX")
          (string_value key ∷ int_value IntKind.int expire_seconds ∷ string_value data' ∷ []) in
      (w', or_ok e)

  unfoldable pub set_with_expire :
      {A : Type 0} → (A → Outcome Bytes) → W → Bytes → A → ℤ → W × Outcome (Unit {0})
  unfolding expiring
  set_with_expire marshal w key value expire_seconds = expiring w key expire_seconds (marshal value)

  unfoldable pub del : W → Bytes → W × Option Error
  unfolding run_do error_of
  del w key = error_of (run_do w (codes "DEL") (string_value key ∷ []))
