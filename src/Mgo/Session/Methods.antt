-- ===== src/Mgo/Session/Methods.antt =====
-- `fakeSession` and `fakeDatabase` of mgo/fakeBackend.go as a `Sessioner` and a `Databaser`: most of
-- their methods do nothing.
use onedb.Prelude.{[], Bool, Option, none, some, List, map, Bytes}
use onedb.Go.Ints.{ℤ}
use onedb.Go.Values.{Value, nil}
use onedb.Mgo.Backend.Session.{Sessioner, Databaser}
use onedb.Mgo.Session.{
  FakeSession, FakeQuery, MethodReply, querier, DbRef, get_database, on_collection, find_ref,
  database_find_ref,
}

-- An argument of a method, or a struct of mgo.
pub data Argument : Type 0 where
  db_ref : DbRef → Argument
  value : Value → Argument

-- What the code takes from elsewhere: `reflect.DeepEqual`, the order of the keys of a Go map,
-- `mgo.Primary`, `mgo.BuildInfo{}` and `&mgo.GridFS{}`.
pub record Library : Type 0 where
  pub deep_equal : Value → Value → Bool
  pub map_order : List Bytes → List Bytes
  pub primary : ℤ
  pub no_build_info : Argument
  pub empty_grid_fs : Argument

query_reply : FakeSession × MethodReply → FakeSession × Option FakeQuery
query_reply (s, querier q) = (s, some q)
query_reply (s, _) = (s, none)

-- A reference that is nil is a panic.
unfoldable pub found_ref :
    (DbRef → FakeSession × MethodReply) → Argument → FakeSession → FakeSession × Option FakeQuery
unfolding query_reply
found_ref find (db_ref ref) s = query_reply (find ref)
found_ref find (value v) s = (s, none)

module _ (lib : Library) where
  -- There is one session; a database is its name.
  unfoldable pub fake_session : Sessioner FakeSession (Unit {0}) Bytes FakeQuery Argument
  unfolding get_database find_ref found_ref
  fake_session = record {
    build_info = λ w u. (w, some (lib.no_build_info, none));
    clone = λ w u. (w, some u);
    close = λ w u. (w, some tt);
    copy = λ w u. (w, some u);
    database_names = λ w u. (w, some (lib.map_order (map (λ e. e.0) w), none));
    db = λ name w u. ((get_database w name).0, some name);
    ensure_safe = λ safe w u. (w, some tt);
    find_ref = λ ref w u. found_ref (find_ref lib.deep_equal w) ref w;
    fsync = λ async w u. (w, some none);
    fsync_lock = λ w u. (w, some none);
    fsync_unlock = λ w u. (w, some none);
    live_servers = λ w u. (w, some []);
    login = λ cred w u. (w, some none);
    logout_all = λ w u. (w, some tt);
    mode = λ w u. (w, some lib.primary);
    new = λ w u. (w, some u);
    ping = λ w u. (w, some none);
    refresh = λ w u. (w, some tt);
    reset_index_cache = λ w u. (w, some tt);
    run = λ cmd result w u. (w, some none);
    safe = λ w u. (w, some (value nil));
    select_servers = λ tags w u. (w, some tt);
    set_batch = λ n w u. (w, some tt);
    set_bypass_validation = λ bypass w u. (w, some tt);
    set_cursor_timeout = λ d w u. (w, some tt);
    set_mode = λ consistency refresh w u. (w, some tt);
    set_pool_limit = λ limit w u. (w, some tt);
    set_prefetch = λ p w u. (w, some tt);
    set_safe = λ safe w u. (w, some tt);
    set_socket_timeout = λ d w u. (w, some tt);
    set_sync_timeout = λ d w u. (w, some tt);
  }

  -- A collection is its name behind that of its database.
  unfoldable pub fake_database :
      {X : Type 0} → Databaser FakeSession X Bytes (Bytes × Bytes) FakeQuery Argument
  unfolding get_database on_collection database_find_ref found_ref
  fake_database = record {
    add_user = λ username password read_only w d. (w, some none);
    c = λ name w d. ((on_collection w d name (λ c. (c, tt))).0, some (d, name));
    collection_names = λ w d. (w, some (lib.map_order (map (λ e. e.0) (get_database w d).1), none));
    drop_database = λ w d. (w, some none);
    find_ref = λ ref w d. found_ref (database_find_ref lib.deep_equal w d) ref w;
    grid_fs = λ prefix w d. (w, some lib.empty_grid_fs);
    login = λ user pass w d. (w, some none);
    logout = λ w d. (w, some tt);
    remove_user = λ user w d. (w, some none);
    run = λ cmd result w d. (w, some none);
    upsert_user = λ user w d. (w, some none);
    with_session = λ s w d. (w, some d);
  }
