-- ===== src/Ldap/Connection.antt =====
-- The connection of ldap/ldapBackend.go: `ldapConnect`, `NewLDAP`, `reconnect`, `Query`, `Execute`, `Bind`
-- and `Close`.
pub mod Pause
pub mod Retry
pub mod Returns
use onedb.Prelude.{
  ℕ, zero, suc, [], ◌∷◌, ◌++◌, Bool, true, false, Option, none, some, Bytes, codes, ltb,
  if◌then◌else◌,
}
use onedb.Go.Decimal.{format_int}
use onedb.Go.Ints.{ℤ}
use onedb.Go.Outcome.{Error, foreign, query_is_nil, invalid_ldap_exec_type, Outcome, ok, err}
use onedb.Pgx.Reconnect.{has_suffix, since, pause, max_retry}

-- The requests that `Execute` takes, for requests of the library of type `X`; `other_request` is any
-- other value.
pub data ExecRequest (X : Type 0) : Type 0 where
  add del modify password_modify : X → ExecRequest X
  simple_bind : Bytes → Bytes → ExecRequest X
  other_request : ExecRequest X

-- A connection, or the error of the attempt.
pub data Connected (C : Type 0) : Type 0 where
  made : C → Connected C
  refused : Error → Connected C

-- What the code uses of the LDAP library, of the network and of the clock, for a world `W`,
-- connections `C`, search requests `Q`, results `E` and other requests `X`. `dial` makes the connection
-- to an address and the client on it; the clock reads nanoseconds since the zero time.
pub record Network (W C Q E X : Type 0) : Type 0 where
  pub dial : W → Bytes → W × Connected C
  pub start : W → C → W
  pub start_tls : W → C → Bytes → W × Option Error
  pub bind : W → C → Bytes → Bytes → W × Option Error
  pub close : W → C → W
  pub search : W → C → Q → W × Outcome E
  pub add_entry : W → C → X → W × Option Error
  pub del_entry : W → C → X → W × Option Error
  pub modify_entry : W → C → X → W × Option Error
  pub modify_password : W → C → X → W × Option Error
  pub now : W → W × ℕ

-- `ldapBackend`, with the world.
pub record LdapBackend (W C : Type 0) : Type 0 where
  pub world : W
  pub l : C
  pub last_retry : ℕ
  pub retry_count : ℕ
  pub hostname : Bytes
  pub port : ℤ
  pub binddn : Bytes
  pub password : Bytes

-- Does the text of the error end like this? The errors of this repository do not.
unfoldable pub is_closed : Error → Bool
unfolding has_suffix
is_closed (foreign text) = has_suffix text (codes "ldap: connection closed")
is_closed _ = false

module _ {W C Q E X : Type 0} (net : Network W C Q E X) where
  bound : C → W × Option Error → W × Connected C
  bound l (w, none) = (w, made l)
  bound l (w, some e) = (w, refused e)

  secured : Bytes → Bytes → C → W × Option Error → W × Connected C
  unfolding bound
  secured binddn password l (w, none) = bound l (net.bind w l binddn password)
  secured binddn password l (w, some e) = (w, refused e)

  dialed : Bytes → Bytes → Bytes → W × Connected C → W × Connected C
  unfolding secured
  dialed hostname binddn password (w, made l) =
      secured binddn password l (net.start_tls (net.start w l) l hostname)
  dialed hostname binddn password (w, refused e) = (w, refused e)

  unfoldable pub ldap_connect : W → Bytes → ℤ → Bytes → Bytes → W × Connected C
  unfolding dialed
  ldap_connect w hostname port binddn password =
      dialed hostname binddn password (net.dial w (hostname ++ b':' ∷ format_int port))

  fresh : Bytes → ℤ → Bytes → Bytes → W × Connected C → W × Outcome (LdapBackend W C)
  fresh hostname port binddn password (w, made l) = (
    w,
    ok (record {
      world = w;
      l = l;
      last_retry = 0;
      retry_count = 0;
      hostname = hostname;
      port = port;
      binddn = binddn;
      password = password;
    }),
  )
  fresh hostname port binddn password (w, refused e) = (w, err e)

  unfoldable pub new_ldap : W → Bytes → ℤ → Bytes → Bytes → W × Outcome (LdapBackend W C)
  unfolding fresh ldap_connect
  new_ldap w hostname port binddn password =
      fresh hostname port binddn password (ldap_connect w hostname port binddn password)

  -- Behind `ldapConnect`; a failure leaves the old connection in place.
  unfoldable pub connected : LdapBackend W C → W × Connected C → LdapBackend W C × Bool
  connected b (w, made l) = (record b { world = w; l = l; retry_count = 0 }, true)
  connected b (w, refused e) = (
    record b {
      world = w;
      retry_count = if ltb b.retry_count max_retry then suc b.retry_count else b.retry_count;
    },
    false,
  )

  unfoldable pub attempt : LdapBackend W C → W × ℕ → LdapBackend W C × Bool
  unfolding connected
  attempt b (w, now) =
      connected (record b { last_retry = now })
        (ldap_connect w b.hostname b.port b.binddn b.password)

  unfoldable pub measured : LdapBackend W C → W × ℕ → LdapBackend W C × Bool
  unfolding attempt since pause
  measured b (w, now) =
      if ltb (pause b.retry_count) (since now b.last_retry)
      then attempt b (net.now w)
      else (record b { world = w }, false)

  unfoldable pub reconnect : LdapBackend W C → LdapBackend W C × Bool
  unfolding measured
  reconnect b = measured b (net.now b.world)

  -- The result of a call; `none` is a run out of fuel.
  abbrev pub Reply : Type 0 → Type 0
  Reply A = LdapBackend W C × Option (Outcome A)

  -- Behind `l.reconnect()`.
  unfoldable pub reconnected :
      {A : Type 0} → (LdapBackend W C → Reply A) → Error → LdapBackend W C × Bool → Reply A
  reconnected retry e (b, true) = retry b
  reconnected retry e (b, false) = (b, some (err e))

  -- Behind a failing call.
  unfoldable pub failed :
      {A : Type 0} → (LdapBackend W C → Reply A) → LdapBackend W C → Error → Reply A
  unfolding reconnected reconnect is_closed
  failed retry b e = if is_closed e then reconnected retry e (reconnect b) else (b, some (err e))

  -- Behind `l.l.Search`.
  unfoldable pub searched : (LdapBackend W C → Reply E) → LdapBackend W C → W × Outcome E → Reply E
  unfolding failed
  searched retry b (w, err e) = failed retry (record b { world = w }) e
  searched retry b (w, r) = (record b { world = w }, some r)

  -- The fuel bounds the calls of `Query`; `none` is a nil query.
  unfoldable pub query : ℕ → LdapBackend W C → Option Q → Reply E
  unfolding searched
  query zero b q = (b, none)
  query (suc fuel) b none = (b, some (err query_is_nil))
  query (suc fuel) b (some q) = searched (λ b'. query fuel b' (some q)) b (net.search b.world b.l q)

  -- The `switch` on the request.
  unfoldable pub send : LdapBackend W C → ExecRequest X → W × Option Error
  send b (add r) = net.add_entry b.world b.l r
  send b (del r) = net.del_entry b.world b.l r
  send b (modify r) = net.modify_entry b.world b.l r
  send b (password_modify r) = net.modify_password b.world b.l r
  send b (simple_bind username password) = net.bind b.world b.l username password
  send b other_request = (b.world, some invalid_ldap_exec_type)

  unfoldable pub executed :
      (LdapBackend W C → Reply (Unit {0})) → LdapBackend W C → W × Option Error → Reply (Unit {0})
  unfolding failed
  executed retry b (w, none) = (record b { world = w }, some (ok tt))
  executed retry b (w, some e) = failed retry (record b { world = w }) e

  -- The fuel bounds the calls of `Execute`.
  unfoldable pub execute : ℕ → LdapBackend W C → ExecRequest X → Reply (Unit {0})
  unfolding executed send
  execute zero b r = (b, none)
  execute (suc fuel) b r = executed (λ b'. execute fuel b' r) b (send b r)

  unfoldable pub bind : LdapBackend W C → Bytes → Bytes → LdapBackend W C × Option Error
  bind b username password =
      let (w, e) = net.bind b.world b.l username password in (record b { world = w }, e)

  unfoldable pub close : LdapBackend W C → LdapBackend W C
  close b = record b { world = net.close b.world b.l }
