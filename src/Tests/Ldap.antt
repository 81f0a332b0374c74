-- ===== src/Tests/Ldap.antt =====
-- The LDAP backend on a connection that is closed once, and search results with two entries.
use onedb.Prelude.{
  ℕ, zero, suc, ◌*◌, ◌≤◌, arith, [], ◌∷◌, ◌≡◌, refl, some, none, List, Bytes, codes, true, text_eq,
}
use onedb.Go.Ints.{pos}
use onedb.Go.Outcome.{foreign, Outcome, ok, err}
use onedb.Ldap.Connection.{
  made, add, Network, LdapBackend, is_closed, connected, attempt, measured, reconnect, ldap_connect,
  query, execute,
}
use onedb.Ldap.Connection.Pause.{IsBounded, calls-IsBounded, query_recovers}
use onedb.Ldap.Connection.Returns.{ldap_calls_return}
use onedb.Ldap.Connection.Retry.{query_reconnected}
use onedb.Ldap.Results.{
  slice_pointer, struct_pointer, query_struct, query_struct_row, query_struct-fill_entry,
  query_struct_row-fill_entry,
}
use onedb.Ldap.Entries.{
  Entry, LdapField, text_type, texts_type, text, texts, get_field_map, set_columns, set_row_value,
  query_struct_entries, entries_into, append_entry,
}
use onedb.Ldap.Entries.Fill.{IsNamed}
use onedb.Pgx.Reconnect.{millisecond, since, pause, has_suffix}

abbrev account : Bytes → List Bytes → List LdapField
account cn groups =
    record { name = codes "cn"; type = text_type; can_set = true; value = text cn }
    ∷ record { name = codes "groups"; type = texts_type; can_set = true; value = texts groups }
    ∷ []

abbrev account_entry : Bytes → List Bytes → Entry
account_entry cn groups =
    record { name = codes "groups"; values = groups }
    ∷ record { name = codes "cn"; values = cn ∷ [] }
    ∷ []

abbrev two_entries : List Entry
two_entries =
    account_entry (codes "a") (codes "x" ∷ codes "y" ∷ []) ∷ account_entry (codes "b") [] ∷ []

-- The first search fails, and later ones find two entries; the world counts the calls of the network,
-- and the clock reads a minute.
abbrev search_at : ℕ → Unit {0} → Bytes → ℕ × Outcome (List Entry)
search_at zero l q = (1, err (foreign (codes "ldap: connection closed")))
search_at (suc n) l q = (suc (suc n), ok two_entries)

abbrev closed_once : Network ℕ (Unit {0}) Bytes (List Entry) (Unit {0})
closed_once = record {
  dial = λ w address. (suc w, made tt);
  start = λ w l. suc w;
  start_tls = λ w l name. (suc w, none);
  bind = λ w l username password. (suc w, none);
  close = λ w l. w;
  search = search_at;
  add_entry = λ w l r. (w, some (foreign (codes "ldap: connection closed")));
  del_entry = λ w l r. (w, none);
  modify_entry = λ w l r. (w, none);
  modify_password = λ w l r. (w, none);
  now = λ w. (w, 60000 * millisecond);
}

-- The backend at a count of failures.
abbrev backend_at : ℕ → ℕ → ℕ → LdapBackend ℕ (Unit {0})
backend_at world last_retry retry_count = record {
  world = world;
  l = tt;
  last_retry = last_retry;
  retry_count = retry_count;
  hostname = codes "h";
  port = pos 389;
  binddn = [];
  password = [];
}

-- Two names for the common name are too many.
abbrev named_twice : List Entry
named_twice =
    (record { name = codes "cn"; values = codes "b" ∷ codes "c" ∷ [] }
      ∷ record { name = codes "groups"; values = codes "z" ∷ [] }
      ∷ [])
    ∷ two_entries

account-IsNamed : IsNamed (λ s. s) (account [] [])
unfolding text_eq
account-IsNamed = ((refl, tt), (tt, tt))

two_found :
    query closed_once 2 (backend_at 0 0 2) (some (codes "(cn=*)"))
    ≡ (backend_at 6 (60000 * millisecond) 0, some (ok two_entries))
unfolding reconnect measured attempt connected ldap_connect since pause is_closed has_suffix text_eq
two_found =
    query_reconnected closed_once 0 (backend_at 0 0 2) (backend_at 5 (60000 * millisecond) 0)
      (codes "(cn=*)") two_entries refl refl refl refl

query_struct-fill_entry_example :
    query_struct closed_once
      (λ s. s)
      2
      (backend_at 0 0 2)
      (slice_pointer (account [] []) [])
      (some (codes "(cn=*)"))
    ≡ (
      backend_at 6 (60000 * millisecond) 0,
      some (
        slice_pointer
            (account [] [])
            (account (codes "a") (codes "x" ∷ codes "y" ∷ []) ∷ account (codes "b") [] ∷ []),
        ok tt,
      ),
    )
unfolding text_eq
query_struct-fill_entry_example =
    query_struct-fill_entry closed_once (λ s. s) 2 (backend_at 0 0 2)
      (backend_at 6 (60000 * millisecond) 0) (codes "(cn=*)") two_entries (account [] []) []
      two_found account-IsNamed ((refl, refl), ((refl, refl), tt))

query_struct_row-fill_entry_example :
    query_struct_row closed_once
      (λ s. s)
      2
      (backend_at 0 0 2)
      (struct_pointer (account [] []))
      (some (codes "(cn=*)"))
    ≡ (
      backend_at 6 (60000 * millisecond) 0,
      some (struct_pointer (account (codes "a") (codes "x" ∷ codes "y" ∷ [])), ok tt),
    )
unfolding text_eq
query_struct_row-fill_entry_example =
    query_struct_row-fill_entry closed_once (λ s. s) 2 (backend_at 0 0 2)
      (backend_at 6 (60000 * millisecond) 0) (codes "(cn=*)")
      (account_entry (codes "a") (codes "x" ∷ codes "y" ∷ [])) (account_entry (codes "b") [] ∷ [])
      (account [] []) two_found account-IsNamed ((refl, refl), ((refl, refl), tt))

-- The error of the first attribute is dropped, and the attribute behind it is not stored.
named_twice_dropped : query_struct_entries (λ s. s) (account [] []) (ok named_twice) [] ≡ (
  account [] [] ∷ account (codes "a") (codes "x" ∷ codes "y" ∷ []) ∷ account (codes "b") [] ∷ [],
  ok tt,
)
unfolding query_struct_entries entries_into append_entry set_columns get_field_map set_row_value
    text_eq
named_twice_dropped = refl

query_recovers_example :
    query closed_once 2 (backend_at 0 0 4) (some (codes "(cn=*)"))
    ≡ (backend_at 6 (60000 * millisecond) 0, some (ok two_entries))
unfolding is_closed has_suffix ldap_connect text_eq
query_recovers_example =
    query_recovers closed_once 0 (backend_at 0 0 4) (codes "(cn=*)") two_entries (omega arith) refl
      refl refl (omega arith) refl refl refl

calls-IsBounded_example :
    (IsBounded closed_once (query closed_once 5 (backend_at 0 0 4) (some (codes "(cn=*)"))).0
      × (pause (query closed_once 5 (backend_at 0 0 4) (some (codes "(cn=*)"))).0.retry_count
          ≤ 10000 * millisecond))
    × (IsBounded closed_once (execute closed_once 5 (backend_at 0 0 4) (add tt)).0
        × (pause (execute closed_once 5 (backend_at 0 0 4) (add tt)).0.retry_count
            ≤ 10000 * millisecond))
calls-IsBounded_example =
    calls-IsBounded closed_once 5 (backend_at 0 0 4) (some (codes "(cn=*)")) (add tt) (omega arith)

ldap_calls_return_example :
    ((a : Outcome (List Entry)) × ((query closed_once 60001
          (backend_at 0 0 2)
          (some (codes "(cn=*)"))).1
        ≡ some a))
    × ((a : Outcome (Unit {0})) × ((execute closed_once 60001 (backend_at 0 0 2) (add tt)).1
          ≡ some a))
ldap_calls_return_example =
    ldap_calls_return closed_once (60000 * millisecond) (λ w. omega arith) (λ w. omega arith) 60001
      (backend_at 0 0 2) (some (codes "(cn=*)")) (add tt) (omega arith) (omega arith)
