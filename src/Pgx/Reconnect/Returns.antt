-- ===== src/Pgx/Reconnect/Returns.antt =====
-- `Query` and `Exec` end: each call that they make of themselves comes after a pause.
use onedb.Prelude.{
  ℕ, zero, suc, ◌+◌, ◌-◌, ◌*◌, ◌≤◌, ◌<◌, [], ◌≡◌, refl, Bool, true, false, Bool-cases, inl, inr,
  Option, none, some, arith, ltb, ltb→lt,
}
use onedb.Pgx.Reconnect.{
  PgxError, Pool, WithReconnect, Reply, millisecond, since, pause, ping, pinged, attempt, measured,
  reconnect, reconnected, queried, executed, query, exec, is_dead, replied,
}
use onedb.Pgx.Reconnect.Pause.{pause-suc}
use onedb.Queries.{Query, new_query}

-- The shortest pause.
pub pause_least : (retry_count : ℕ) → millisecond ≤ pause retry_count
unfolding pause
pause_least zero = omega arith
pause_least (suc n) = omega (arith, pause_least n, pause-suc n)

pub since-le : (now last : ℕ) → since now last ≤ now - last
unfolding since
since-le now last = ground arith

-- There is a result.
abbrev pub Returns : {A : Type 0} → Option A → Type 0
Returns {A} r = (a : A) × (r ≡ some a)

module _ {P R G : Type 0} (pool : Pool P R G) (end : ℕ)
    (forward : (p : P) → (pool.now p).1 ≤ (pool.now (pool.now p).0).1)
    (until : (p : P) → (pool.now p).1 ≤ end) where
  pinged_last_retry :
      (b : WithReconnect P) (r : P × Option PgxError)
      → (pinged pool b r).0.last_retry ≡ b.last_retry
  unfolding pinged
  pinged_last_retry b (db, none) = refl
  pinged_last_retry b (db, some e) = refl

  -- A pool that is revived has waited a millisecond or more.
  abbrev Later : WithReconnect P → WithReconnect P × Bool → Type 0
  Later b (b', alive) =
      alive ≡ true → (b.last_retry + millisecond ≤ b'.last_retry) × (b'.last_retry ≤ end)

  measured-Later :
      (b : WithReconnect P) (db : P) (now : ℕ)
      → now ≤ (pool.now db).1
      → Later b (measured pool b (db, now))
  unfolding measured attempt
  measured-Later b db now h =
      elim (Bool-cases (ltb (pause b.retry_count) (since now b.last_retry))) [
        | inl long ↦
            let waited = ltb→lt (pause b.retry_count) (since now b.last_retry) long in
            let (db', now') = pool.now db in
            let same = pinged_last_retry (record b { last_retry = now' }) (ping pool db') in
            rw long (λ alive.
              omega (
                arith,
                same,
                waited,
                pause_least b.retry_count,
                since-le now b.last_retry,
                until db,
              ))
        | inr short ↦ rw short (λ alive. cc)
      ]

  -- One call, behind the first answer of the pool.
  reconnected-Returns :
      {A : Type 0} (retry : WithReconnect P → Reply pool A) (failed : Option A × Option PgxError)
      (b : WithReconnect P) (r : WithReconnect P × Bool) (fuel : ℕ)
      → Later b r
      → end < b.last_retry + suc fuel * millisecond
      → ((b' : WithReconnect P)
          → b'.last_retry ≤ end
          → end < b'.last_retry + fuel * millisecond
          → Returns (retry b').1)
      → Returns (reconnected pool retry failed r).1
  unfolding reconnected
  reconnected-Returns retry failed b (b', true) fuel later enough returns =
      let (after, within) = later refl in returns b' within (omega arith)
  reconnected-Returns retry failed b (b', false) fuel later enough returns = (failed, refl)

  query-Returns :
      (fuel : ℕ) (b : WithReconnect P) (q : Query)
      → b.last_retry ≤ end
      → end < b.last_retry + fuel * millisecond
      → Returns (query pool fuel b q).1
  unfolding query queried reconnect
  query-Returns zero b q h enough = absurd (omega arith)
  query-Returns (suc fuel) b q h enough =
      let (db, rows, e) = pool.query b.db q in
      elim (Bool-cases (is_dead e)) [
        | inl dead ↦ rw dead (
            reconnected-Returns (λ b'. query pool fuel b' (new_query q.query []))
              (replied pool rows e) (record b { db = db })
              (measured pool (record b { db = db }) (pool.now db)) fuel
              (measured-Later (record b { db = db }) (pool.now db).0 (pool.now db).1 (forward db))
              enough (λ b' within more. query-Returns fuel b' (new_query q.query []) within more))
        | inr alive ↦ rw alive (replied pool rows e, refl)
      ]

  exec-Returns :
      (fuel : ℕ) (b : WithReconnect P) (q : Query)
      → b.last_retry ≤ end
      → end < b.last_retry + fuel * millisecond
      → Returns (exec pool fuel b q).1
  unfolding exec executed reconnect
  exec-Returns zero b q h enough = absurd (omega arith)
  exec-Returns (suc fuel) b q h enough =
      let (db, tag, e) = pool.exec b.db q in
      elim (Bool-cases (is_dead e)) [
        | inl dead ↦ rw dead (
            reconnected-Returns (λ b'. exec pool fuel b' q) (some tag, e) (record b { db = db })
              (measured pool (record b { db = db }) (pool.now db)) fuel
              (measured-Later (record b { db = db }) (pool.now db).0 (pool.now db).1 (forward db))
              enough (λ b' within more. exec-Returns fuel b' q within more))
        | inr alive ↦ rw alive ((some tag, e), refl)
      ]

  -- `Query` and `Exec` over a pool whose clock does not go back from one reading to the next and
  -- reads at most `end`: with the last retry not after `end`, and fuel for one call in each
  -- millisecond from the last retry until `end`, both return a result and do not call themselves
  -- without end, whatever the pool answers and however often it dies and revives.
  pub pgx_calls_return :
      (fuel : ℕ) (b : WithReconnect P) (q : Query)
      → b.last_retry ≤ end
      → end < b.last_retry + fuel * millisecond
      → Returns (query pool fuel b q).1 × Returns (exec pool fuel b q).1
  pgx_calls_return fuel b q h enough =
      (query-Returns fuel b q h enough, exec-Returns fuel b q h enough)
