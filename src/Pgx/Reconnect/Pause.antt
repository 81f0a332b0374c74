-- ===== src/Pgx/Reconnect/Pause.antt =====
-- The pause between pings of `reconnect`: how it grows, its bound, and that it is kept.
use onedb.Prelude.{
  [], ℕ, zero, suc, ◌+◌, ◌-◌, ◌*◌, ◌≤◌, ◌<◌, ◌≡◌, refl, sym, ap, ◌∙◌, subst, Bool, true, false,
  Bool-cases, inl, inr, Option, none, some, arith, ltb, ltb→lt, le→ltb, lt→ltb,
}
use native.Mathlib.Nat.{pow-suc}
use onedb.Pgx.Reconnect.{
  PgxError, Pool, WithReconnect, millisecond, max_duration, since, pause, max_retry, ping, pinged,
  attempt, measured, reconnect, reconnected, queried, executed, query, exec, is_dead,
}
use onedb.Queries.{Query, new_query}

ltb_false→le : (a b : ℕ) → ltb a b ≡ false → b ≤ a
ltb_false→le a b h = ground arith

pub pause-suc : (n : ℕ) → pause (suc n) ≡ 10 * pause n
unfolding pause
pause-suc n = rw pow-suc (omega arith)

-- Ten seconds.
pub pause_bound :
    (retry_count : ℕ) → retry_count ≤ max_retry → pause retry_count ≤ 10000 * millisecond
unfolding pause
pause_bound zero h = omega arith
pause_bound (suc zero) h = omega arith
pause_bound (suc (suc zero)) h = omega arith
pause_bound (suc (suc (suc zero))) h = omega arith
pause_bound (suc (suc (suc (suc zero)))) h = omega arith
pause_bound (suc (suc (suc (suc (suc n))))) h = absurd (omega arith)

module _ {P R G : Type 0} (pool : Pool P R G) where
  -- At most four failures are counted.
  abbrev pub IsBounded : WithReconnect P → Type 0
  IsBounded b = b.retry_count ≤ max_retry

  pinged-IsBounded :
      (b : WithReconnect P) (r : P × Option PgxError) → IsBounded b → IsBounded (pinged pool b r).0
  unfolding pinged
  pinged-IsBounded b (db, none) h = omega arith
  pinged-IsBounded b (db, some e) h = elim (Bool-cases (ltb b.retry_count max_retry)) [
    | inl lt ↦ rw lt (ltb→lt b.retry_count max_retry lt)
    | inr ge ↦ rw ge h
  ]

  measured-IsBounded :
      (b : WithReconnect P) (r : P × ℕ) → IsBounded b → IsBounded (measured pool b r).0
  unfolding measured attempt
  measured-IsBounded b (db, now) h =
      elim (Bool-cases (ltb (pause b.retry_count) (since now b.last_retry))) [
        | inl long ↦ rw long (
            pinged-IsBounded (record b { last_retry = (pool.now db).1 }) (ping pool (pool.now db).0)
              h)
        | inr short ↦ rw short h
      ]

  reconnect-IsBounded : (b : WithReconnect P) → IsBounded b → IsBounded (reconnect pool b).0
  unfolding reconnect
  reconnect-IsBounded b h = measured-IsBounded b (pool.now b.db) h

  reconnected-IsBounded :
      {A : Type 0} (retry : WithReconnect P → WithReconnect P × Option (Option A × Option PgxError))
      (failed : Option A × Option PgxError)
      → ((b : WithReconnect P) → IsBounded b → IsBounded (retry b).0)
      → (r : WithReconnect P × Bool) → IsBounded r.0
      → IsBounded (reconnected pool retry failed r).0
  unfolding reconnected
  reconnected-IsBounded retry failed keeps (b, true) h = keeps b h
  reconnected-IsBounded retry failed keeps (b, false) h = h

  query-IsBounded :
      (fuel : ℕ) (b : WithReconnect P) (q : Query) → IsBounded b → IsBounded (query pool fuel b q).0
  unfolding query queried
  query-IsBounded zero b q h = h
  query-IsBounded (suc fuel) b q h = elim (Bool-cases (is_dead (pool.query b.db q).2)) [
    | inl dead ↦ rw dead (
        reconnected-IsBounded (λ b'. query pool fuel b' (new_query q.query [])) _
          (λ b' h'. query-IsBounded fuel b' (new_query q.query []) h')
          (reconnect pool (record b { db = (pool.query b.db q).0 }))
          (reconnect-IsBounded (record b { db = (pool.query b.db q).0 }) h))
    | inr alive ↦ rw alive h
  ]

  exec-IsBounded :
      (fuel : ℕ) (b : WithReconnect P) (q : Query) → IsBounded b → IsBounded (exec pool fuel b q).0
  unfolding exec executed
  exec-IsBounded zero b q h = h
  exec-IsBounded (suc fuel) b q h = elim (Bool-cases (is_dead (pool.exec b.db q).2)) [
    | inl dead ↦ rw dead (
        reconnected-IsBounded (λ b'. exec pool fuel b' q) _ (λ b' h'. exec-IsBounded fuel b' q h')
          (reconnect pool (record b { db = (pool.exec b.db q).0 }))
          (reconnect-IsBounded (record b { db = (pool.exec b.db q).0 }) h))
    | inr alive ↦ rw alive h
  ]

  -- From a count of failed pings of at most 4, `Query` and `Exec`, for any fuel and so for any
  -- number of retries, keep the count at most 4, and the pause before the next ping at most ten
  -- seconds.
  pub pause-IsBounded :
      (fuel : ℕ) (b : WithReconnect P) (q : Query)
      → IsBounded b
      → (IsBounded (query pool fuel b q).0
          × (pause (query pool fuel b q).0.retry_count ≤ 10000 * millisecond))
        × (IsBounded (exec pool fuel b q).0
            × (pause (exec pool fuel b q).0.retry_count ≤ 10000 * millisecond))
  pause-IsBounded fuel b q h =
      let queried' = query-IsBounded fuel b q h in
      let executed' = exec-IsBounded fuel b q h in
      ((queried', pause_bound _ queried'), (executed', pause_bound _ executed'))

  since_short : (now last wait : ℕ) → now ≤ last + wait → ltb wait (since now last) ≡ false
  unfolding since
  since_short now last wait h = elim (Bool-cases (ltb (now - last) max_duration)) [
    | inl short ↦ rw short (le→ltb wait (now - last) (omega arith))
    | inr long ↦
        rw long
          (le→ltb wait max_duration (omega (arith, ltb_false→le (now - last) max_duration long)))
  ]

  -- Where the pause is over, the ping fails, and fewer than four failures are counted,
  -- `reconnect` is false and counts one failure more; a `reconnect` after it, at a time not later
  -- than ten times the old pause after that failure, is false too, makes no ping, and leaves the
  -- count and the time of the failure alone.
  pub reconnect_throttled :
      (b : WithReconnect P) {db1 db2 db3 db4 : P} {t1 t2 t3 : ℕ} {e : PgxError}
      → pool.now b.db ≡ (db1, t1)
      → pause b.retry_count < since t1 b.last_retry
      → pool.now db1 ≡ (db2, t2)
      → ping pool db2 ≡ (db3, some e)
      → b.retry_count < max_retry
      → pool.now db3 ≡ (db4, t3)
      → t3 ≤ t2 + 10 * pause b.retry_count
      → (reconnect pool b
          ≡ (record { db = db3; last_retry = t2; retry_count = suc b.retry_count }, false))
        × (reconnect pool (reconnect pool b).0
            ≡ (record { db = db4; last_retry = t2; retry_count = suc b.retry_count }, false))
  unfolding reconnect measured attempt pinged
  reconnect_throttled b {db1} {db2} {db3} {db4} {t1} {t2} {t3} now1 long now2 fails few now3 early =
      (first, ap (λ r. reconnect pool r.0) first ∙ second)
    where
      failed : WithReconnect P
      failed = record { db = db3; last_retry = t2; retry_count = suc b.retry_count }

      first : reconnect pool b ≡ (failed, false)
      first =
          rw
            (
              now1,
              lt→ltb (pause b.retry_count) (since t1 b.last_retry) long,
              now2,
              fails,
              lt→ltb b.retry_count max_retry few,
            )
            refl

      second : reconnect pool failed ≡ (record failed { db = db4 }, false)
      second =
          rw
            (
              now3,
              since_short t3 t2 (pause (suc b.retry_count))
                  (subst (λ p. t3 ≤ t2 + p) (sym (pause-suc b.retry_count)) early),
            )
            refl
