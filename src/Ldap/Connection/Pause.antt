-- ===== src/Ldap/Connection/Pause.antt =====
-- The bound on the pause between the attempts of `reconnect`.
use onedb.Prelude.{
  ℕ, zero, suc, ◌*◌, ◌≤◌, ◌≡◌, refl, Bool, true, false, Bool-cases, inl, inr, Option, none, some,
  arith, ltb, lt→ltb, ◌+◌, ◌-◌, ◌<◌, if◌then◌else◌,
}
use onedb.Go.Outcome.{Error, Outcome, ok, err, panic, out_of_fuel}
use onedb.Ldap.Connection.{
  Connected, made, refused, ExecRequest, Network, LdapBackend, Reply, is_closed, connected, attempt,
  measured, reconnect, reconnected, failed, searched, query, send, executed, execute, ldap_connect,
}
use onedb.Ldap.Connection.Retry.{query_reconnected}
use onedb.Pgx.Reconnect.{millisecond, max_retry, max_duration, pause, since}
use onedb.Pgx.Reconnect.Pause.{pause_bound}

module _ {W C Q E X : Type 0} (net : Network W C Q E X) where
  -- At most four failures are counted.
  abbrev pub IsBounded : LdapBackend W C → Type 0
  IsBounded b = b.retry_count ≤ max_retry

  counted-IsBounded :
      (b : LdapBackend W C) (w : W)
      → IsBounded b
      → (if ltb b.retry_count max_retry then suc b.retry_count else b.retry_count) ≤ max_retry
  counted-IsBounded b w h = ground arith

  connected-IsBounded :
      (b : LdapBackend W C) (r : W × Connected C) → IsBounded b → IsBounded (connected net b r).0
  unfolding connected
  connected-IsBounded b (w, made l) h = omega arith
  connected-IsBounded b (w, refused e) h = counted-IsBounded b w h

  measured-IsBounded :
      (b : LdapBackend W C) (r : W × ℕ) → IsBounded b → IsBounded (measured net b r).0
  unfolding measured attempt
  measured-IsBounded b (w, now) h =
      elim (Bool-cases (ltb (pause b.retry_count) (since now b.last_retry))) [
        | inl long ↦ rw long (
            connected-IsBounded (record b { last_retry = (net.now w).1 })
              (ldap_connect net (net.now w).0 b.hostname b.port b.binddn b.password) h)
        | inr short ↦ rw short h
      ]

  -- A call that fails is sent again by `retry`, or not at all.
  failed-IsBounded :
      {A : Type 0} (retry : LdapBackend W C → Reply net A) (b : LdapBackend W C) (e : Error)
      → ((b' : LdapBackend W C) → IsBounded b' → IsBounded (retry b').0)
      → IsBounded b
      → IsBounded (failed net retry b e).0
  unfolding failed reconnect
  failed-IsBounded retry b e keeps h = elim (Bool-cases (is_closed e)) [
    | inl closed ↦ rw closed (behind (reconnect net b) (measured-IsBounded b (net.now b.world) h))
    | inr other ↦ rw other h
  ]
    where
      behind :
          (r : LdapBackend W C × Bool) → IsBounded r.0 → IsBounded (reconnected net retry e r).0
      behind (b', true) h' = keeps b' h'
      behind (b', false) h' = h'

  searched-IsBounded :
      (retry : LdapBackend W C → Reply net E) (b : LdapBackend W C) (r : W × Outcome E)
      → ((b' : LdapBackend W C) → IsBounded b' → IsBounded (retry b').0)
      → IsBounded b
      → IsBounded (searched net retry b r).0
  unfolding searched
  searched-IsBounded retry b (w, err e) keeps h =
      failed-IsBounded retry (record b { world = w }) e keeps h
  searched-IsBounded retry b (w, ok entries) keeps h = h
  searched-IsBounded retry b (w, panic) keeps h = h
  searched-IsBounded retry b (w, out_of_fuel) keeps h = h

  executed-IsBounded :
      (retry : LdapBackend W C → Reply net (Unit {0})) (b : LdapBackend W C) (r : W × Option Error)
      → ((b' : LdapBackend W C) → IsBounded b' → IsBounded (retry b').0)
      → IsBounded b
      → IsBounded (executed net retry b r).0
  unfolding executed
  executed-IsBounded retry b (w, some e) keeps h =
      failed-IsBounded retry (record b { world = w }) e keeps h
  executed-IsBounded retry b (w, none) keeps h = h

  query-IsBounded :
      (fuel : ℕ) (b : LdapBackend W C) (q : Option Q)
      → IsBounded b
      → IsBounded (query net fuel b q).0
  unfolding query
  query-IsBounded zero b q h = h
  query-IsBounded (suc fuel) b none h = h
  query-IsBounded (suc fuel) b (some q) h =
      searched-IsBounded (λ b'. query net fuel b' (some q)) b (net.search b.world b.l q)
        (λ b' h'. query-IsBounded fuel b' (some q) h') h

  execute-IsBounded :
      (fuel : ℕ) (b : LdapBackend W C) (r : ExecRequest X)
      → IsBounded b
      → IsBounded (execute net fuel b r).0
  unfolding execute
  execute-IsBounded zero b r h = h
  execute-IsBounded (suc fuel) b r h =
      executed-IsBounded (λ b'. execute net fuel b' r) b (send net b r)
        (λ b' h'. execute-IsBounded fuel b' r h') h

  -- From a count of failed attempts to connect of at most 4, `Query` and `Execute` of the LDAP
  -- backend, for any fuel and so for any number of retries, keep the count at most 4, and the
  -- pause before the next attempt at most ten seconds.
  pub calls-IsBounded :
      (fuel : ℕ) (b : LdapBackend W C) (q : Option Q) (r : ExecRequest X)
      → IsBounded b
      → (IsBounded (query net fuel b q).0
          × (pause (query net fuel b q).0.retry_count ≤ 10000 * millisecond))
        × (IsBounded (execute net fuel b r).0
            × (pause (execute net fuel b r).0.retry_count ≤ 10000 * millisecond))
  calls-IsBounded fuel b q r h =
      let queried = query-IsBounded fuel b q h in
      let executed' = execute-IsBounded fuel b r h in
      ((queried, pause_bound _ queried), (executed', pause_bound _ executed'))

  since_long :
      (now last wait : ℕ)
      → last + wait < now
      → wait < max_duration
      → ltb wait (since now last) ≡ true
  unfolding since
  since_long now last wait late short = elim (Bool-cases (ltb (now - last) max_duration)) [
    | inl within ↦ rw within (lt→ltb wait (now - last) (omega arith))
    | inr beyond ↦ rw beyond (lt→ltb wait max_duration short)
  ]

  -- Once ten seconds have passed, `reconnect` connects.
  reconnect_recovers :
      (b : LdapBackend W C) {w1 w2 w3 : W} {t1 t2 : ℕ} {l : C}
      → IsBounded b
      → net.now b.world ≡ (w1, t1)
      → b.last_retry + 10000 * millisecond < t1
      → net.now w1 ≡ (w2, t2)
      → ldap_connect net w2 b.hostname b.port b.binddn b.password ≡ (w3, made l)
      → reconnect net b ≡ (record b { world = w3; l = l; last_retry = t2; retry_count = 0 }, true)
  unfolding reconnect measured attempt connected
  reconnect_recovers b {t1 = t1} h now1 late now2 connects =
      let short : pause b.retry_count ≤ 10000 * millisecond = pause_bound b.retry_count h in
      rw
        (
          now1,
          since_long t1 b.last_retry (pause b.retry_count) (omega arith) (omega arith),
          now2,
          connects,
        )
        refl

  -- `Query` of the LDAP backend, with at most four failures counted, whose search fails because
  -- the connection is closed more than ten seconds after the last attempt to connect: if the new
  -- connection is made and the search on it answers, then with fuel for two calls the answer
  -- comes back, the new connection is kept, and the count of failures is 0.
  pub query_recovers :
      (fuel : ℕ) (b : LdapBackend W C) (q : Q) (entries : E) {w w1 w2 w3 w4 : W} {e : Error}
      {t1 t2 : ℕ} {l : C}
      → IsBounded b
      → net.search b.world b.l q ≡ (w, err e)
      → is_closed e ≡ true
      → net.now w ≡ (w1, t1)
      → b.last_retry + 10000 * millisecond < t1
      → net.now w1 ≡ (w2, t2)
      → ldap_connect net w2 b.hostname b.port b.binddn b.password ≡ (w3, made l)
      → net.search w3 l q ≡ (w4, ok entries)
      → query net (suc (suc fuel)) b (some q)
        ≡ (record b { world = w4; l = l; last_retry = t2; retry_count = 0 }, some (ok entries))
  query_recovers fuel b q entries {w} h fails closed now1 late now2 connects answers =
      query_reconnected net fuel b _ q entries fails closed
        (reconnect_recovers (record b { world = w }) h now1 late now2 connects) answers
