-- ===== src/Ldap/Connection/Retry.antt =====
-- `Query` and `Execute` over a connection that was closed.
use onedb.Prelude.{ℕ, suc, ◌≡◌, refl, true, none, some}
use onedb.Go.Outcome.{Error, ok, err}
use onedb.Ldap.Connection.{
  ExecRequest, Network, LdapBackend, is_closed, reconnect, reconnected, failed, searched, query,
  send, executed, execute,
}

module _ {W C Q E X : Type 0} (net : Network W C Q E X) (fuel : ℕ) (b b' : LdapBackend W C)
    {w w' : W} {e : Error} where
  -- A closed connection is made again.
  pub query_reconnected :
      (q : Q) (entries : E)
      → net.search b.world b.l q ≡ (w, err e)
      → is_closed e ≡ true
      → reconnect net (record b { world = w }) ≡ (b', true)
      → net.search b'.world b'.l q ≡ (w', ok entries)
      → query net (suc (suc fuel)) b (some q) ≡ (record b' { world = w' }, some (ok entries))
  unfolding query searched failed reconnected
  query_reconnected q entries fails closed revived answers =
      rw (fails, closed, revived, answers) refl

  -- The same of `Execute`.
  pub execute_reconnected :
      (r : ExecRequest X)
      → send net b r ≡ (w, some e)
      → is_closed e ≡ true
      → reconnect net (record b { world = w }) ≡ (b', true)
      → send net b' r ≡ (w', none)
      → execute net (suc (suc fuel)) b r ≡ (record b' { world = w' }, some (ok tt))
  unfolding execute executed failed reconnected
  execute_reconnected r fails closed revived answers = rw (fails, closed, revived, answers) refl
