-- ===== src/Ldap/Connection/Returns.antt =====
-- `Query` and `Execute` end: each call that they make of themselves comes after a pause.
use onedb.Prelude.{
  ℕ, zero, suc, ◌+◌, ◌*◌, ◌≤◌, ◌<◌, ◌≡◌, refl, Bool, true, false, Bool-cases, inl, inr, Option,
  none, some, arith, ltb, ltb→lt,
}
use onedb.Go.Outcome.{Error, query_is_nil, Outcome, ok, err, panic, out_of_fuel}
use onedb.Ldap.Connection.{
  Connected, made, refused, ExecRequest, Network, LdapBackend, Reply, is_closed, ldap_connect,
  connected, attempt, measured, reconnect, reconnected, failed, searched, query, send, executed,
  execute,
}
use onedb.Pgx.Reconnect.{millisecond, since, pause}
use onedb.Pgx.Reconnect.Returns.{Returns, pause_least, since-le}

module _ {W C Q E X : Type 0} (net : Network W C Q E X) (end : ℕ)
    (forward : (w : W) → (net.now w).1 ≤ (net.now (net.now w).0).1)
    (until : (w : W) → (net.now w).1 ≤ end) where
  connected_last_retry :
      (b : LdapBackend W C) (r : W × Connected C) → (connected net b r).0.last_retry ≡ b.last_retry
  unfolding connected
  connected_last_retry b (w, made l) = refl
  connected_last_retry b (w, refused e) = refl

  -- A new connection comes a millisecond or more after the last attempt.
  abbrev Later : LdapBackend W C → LdapBackend W C × Bool → Type 0
  Later b (b', alive) =
      alive ≡ true → (b.last_retry + millisecond ≤ b'.last_retry) × (b'.last_retry ≤ end)

  measured-Later :
      (b : LdapBackend W C) (w : W) (now : ℕ)
      → now ≤ (net.now w).1
      → Later b (measured net b (w, now))
  unfolding measured attempt
  measured-Later b w now h =
      elim (Bool-cases (ltb (pause b.retry_count) (since now b.last_retry))) [
        | inl long ↦
            let waited = ltb→lt (pause b.retry_count) (since now b.last_retry) long in
            let (w', now') = net.now w in
            let same =
              connected_last_retry (record b { last_retry = now' })
                (ldap_connect net w' b.hostname b.port b.binddn b.password) in
            rw long (λ alive.
              omega (
                arith,
                same,
                waited,
                pause_least b.retry_count,
                since-le now b.last_retry,
                until w,
              ))
        | inr short ↦ rw short (λ alive. cc)
      ]

  -- `retry` returns, with fuel for one call less.
  abbrev Ends : {A : Type 0} → (LdapBackend W C → Reply net A) → ℕ → Type 0
  Ends retry fuel =
      (b : LdapBackend W C)
      → b.last_retry ≤ end
      → end < b.last_retry + fuel * millisecond
      → Returns (retry b).1

  reconnected-Returns :
      {A : Type 0} (retry : LdapBackend W C → Reply net A) (e : Error) (b : LdapBackend W C)
      (r : LdapBackend W C × Bool) (fuel : ℕ)
      → Later b r
      → end < b.last_retry + suc fuel * millisecond
      → Ends retry fuel
      → Returns (reconnected net retry e r).1
  unfolding reconnected
  reconnected-Returns retry e b (b', true) fuel later enough returns =
      let (after, within) = later refl in returns b' within (omega arith)
  reconnected-Returns retry e b (b', false) fuel later enough returns = (err e, refl)

  failed-Returns :
      {A : Type 0} (retry : LdapBackend W C → Reply net A) (b : LdapBackend W C) (e : Error)
      (fuel : ℕ)
      → end < b.last_retry + suc fuel * millisecond
      → Ends retry fuel
      → Returns (failed net retry b e).1
  unfolding failed reconnect
  failed-Returns retry b e fuel enough returns = elim (Bool-cases (is_closed e)) [
    | inl closed ↦ rw closed (
        reconnected-Returns retry e b (measured net b (net.now b.world)) fuel
          (measured-Later b (net.now b.world).0 (net.now b.world).1 (forward b.world)) enough
          returns)
    | inr other ↦ rw other (err e, refl)
  ]

  searched-Returns :
      (retry : LdapBackend W C → Reply net E) (b : LdapBackend W C) (r : W × Outcome E) (fuel : ℕ)
      → end < b.last_retry + suc fuel * millisecond
      → Ends retry fuel
      → Returns (searched net retry b r).1
  unfolding searched
  searched-Returns retry b (w, err e) fuel enough returns =
      failed-Returns retry (record b { world = w }) e fuel enough returns
  searched-Returns retry b (w, ok entries) fuel enough returns = (ok entries, refl)
  searched-Returns retry b (w, panic) fuel enough returns = (panic, refl)
  searched-Returns retry b (w, out_of_fuel) fuel enough returns = (out_of_fuel, refl)

  executed-Returns :
      (retry : LdapBackend W C → Reply net (Unit {0})) (b : LdapBackend W C) (r : W × Option Error)
      (fuel : ℕ)
      → end < b.last_retry + suc fuel * millisecond
      → Ends retry fuel
      → Returns (executed net retry b r).1
  unfolding executed
  executed-Returns retry b (w, some e) fuel enough returns =
      failed-Returns retry (record b { world = w }) e fuel enough returns
  executed-Returns retry b (w, none) fuel enough returns = (ok tt, refl)

  query-Returns : (fuel : ℕ) (q : Option Q) → Ends (λ b. query net fuel b q) fuel
  unfolding query
  query-Returns zero q b h enough = absurd (omega arith)
  query-Returns (suc fuel) none b h enough = (err query_is_nil, refl)
  query-Returns (suc fuel) (some q) b h enough =
      searched-Returns (λ b'. query net fuel b' (some q)) b (net.search b.world b.l q) fuel enough
        (query-Returns fuel (some q))

  execute-Returns : (fuel : ℕ) (r : ExecRequest X) → Ends (λ b. execute net fuel b r) fuel
  unfolding execute
  execute-Returns zero r b h enough = absurd (omega arith)
  execute-Returns (suc fuel) r b h enough =
      executed-Returns (λ b'. execute net fuel b' r) b (send net b r) fuel enough
        (execute-Returns fuel r)

  -- `Query` and `Execute` of the LDAP backend over a network whose clock does not go back from
  -- one reading to the next and reads at most `end`: with the last attempt to connect not after
  -- `end`, and fuel for one call in each millisecond from that attempt until `end`, both return
  -- and do not call themselves without end, whatever the network answers and however often the
  -- connection is closed.
  pub ldap_calls_return :
      (fuel : ℕ) (b : LdapBackend W C) (q : Option Q) (r : ExecRequest X)
      → b.last_retry ≤ end
      → end < b.last_retry + fuel * millisecond
      → Returns (query net fuel b q).1 × Returns (execute net fuel b r).1
  ldap_calls_return fuel b q r h enough =
      (query-Returns fuel q b h enough, execute-Returns fuel r b h enough)
