-- ===== src/Mgo/Backend/Session.antt =====
-- `Sessioner` and `Databaser` of mgo/backend.go, and the wrappers that have them. `V` stands for the
-- structs of mgo and for values of type `interface{}`; a duration and an `mgo.Mode` are numbers.
use onedb.Prelude.{Bool, Option, List, Bytes}
use onedb.Go.Ints.{ℤ}
use onedb.Go.Outcome.{Error}
use onedb.Mgo.Backend.{
  Method, Checked, Heap, Ref, on_world, on_session, new_session, new_query, put_session,
}

-- The session `S` gives databases `D` and queries `Q`.
pub record Sessioner (W S D Q V : Type 0) : Type 0 where
  pub build_info : Method W S (Checked V)
  pub clone : Method W S S
  pub close : Method W S (Unit {0})
  pub copy : Method W S S
  pub database_names : Method W S (Checked (List Bytes))
  pub db : Bytes → Method W S D
  pub ensure_safe : V → Method W S (Unit {0})
  pub find_ref : V → Method W S Q
  pub fsync : Bool → Method W S (Option Error)
  pub fsync_lock : Method W S (Option Error)
  pub fsync_unlock : Method W S (Option Error)
  pub live_servers : Method W S (List Bytes)
  pub login : V → Method W S (Option Error)
  pub logout_all : Method W S (Unit {0})
  pub mode : Method W S ℤ
  pub new : Method W S S
  pub ping : Method W S (Option Error)
  pub refresh : Method W S (Unit {0})
  pub reset_index_cache : Method W S (Unit {0})
  pub run : V → V → Method W S (Option Error)
  pub safe : Method W S V
  pub select_servers : (List V) → Method W S (Unit {0})
  pub set_batch : ℤ → Method W S (Unit {0})
  pub set_bypass_validation : Bool → Method W S (Unit {0})
  pub set_cursor_timeout : ℤ → Method W S (Unit {0})
  pub set_mode : ℤ → Bool → Method W S (Unit {0})
  pub set_pool_limit : ℤ → Method W S (Unit {0})
  pub set_prefetch : V → Method W S (Unit {0})
  pub set_safe : V → Method W S (Unit {0})
  pub set_socket_timeout : ℤ → Method W S (Unit {0})
  pub set_sync_timeout : ℤ → Method W S (Unit {0})

-- `X` is `*mgo.Session`.
pub record Databaser (W X D C Q V : Type 0) : Type 0 where
  pub add_user : Bytes → Bytes → Bool → Method W D (Option Error)
  pub c : Bytes → Method W D C
  pub collection_names : Method W D (Checked (List Bytes))
  pub drop_database : Method W D (Option Error)
  pub find_ref : V → Method W D Q
  pub grid_fs : Bytes → Method W D V
  pub login : Bytes → Bytes → Method W D (Option Error)
  pub logout : Method W D (Unit {0})
  pub remove_user : Bytes → Method W D (Option Error)
  pub run : V → V → Method W D (Option Error)
  pub upsert_user : V → Method W D (Option Error)
  pub with_session : X → Method W D D

module _ {W S D Q V : Type 0} where
  -- The methods of `*msession`. `New` puts the new session of mgo into the wrapper that it is called
  -- on, and returns that wrapper.
  unfoldable pub msession : Sessioner W S D Q V → Sessioner (Heap W S Q) Ref D Ref V
  unfolding on_world on_session new_session new_query put_session
  msession m = record {
    build_info = λ h s. on_session m.build_info h s;
    clone = λ h s. new_session (on_session m.clone h s);
    close = λ h s. on_session m.close h s;
    copy = λ h s. new_session (on_session m.copy h s);
    database_names = λ h s. on_session m.database_names h s;
    db = λ name h s. on_session (m.db name) h s;
    ensure_safe = λ safe h s. on_session (m.ensure_safe safe) h s;
    find_ref = λ ref h s. new_query (on_session (m.find_ref ref) h s);
    fsync = λ async h s. on_session (m.fsync async) h s;
    fsync_lock = λ h s. on_session m.fsync_lock h s;
    fsync_unlock = λ h s. on_session m.fsync_unlock h s;
    live_servers = λ h s. on_session m.live_servers h s;
    login = λ cred h s. on_session (m.login cred) h s;
    logout_all = λ h s. on_session m.logout_all h s;
    mode = λ h s. on_session m.mode h s;
    new = λ h s. put_session s (on_session m.new h s);
    ping = λ h s. on_session m.ping h s;
    refresh = λ h s. on_session m.refresh h s;
    reset_index_cache = λ h s. on_session m.reset_index_cache h s;
    run = λ cmd result h s. on_session (m.run cmd result) h s;
    safe = λ h s. on_session m.safe h s;
    select_servers = λ tags h s. on_session (m.select_servers tags) h s;
    set_batch = λ n h s. on_session (m.set_batch n) h s;
    set_bypass_validation = λ bypass h s. on_session (m.set_bypass_validation bypass) h s;
    set_cursor_timeout = λ d h s. on_session (m.set_cursor_timeout d) h s;
    set_mode = λ consistency refresh h s. on_session (m.set_mode consistency refresh) h s;
    set_pool_limit = λ limit h s. on_session (m.set_pool_limit limit) h s;
    set_prefetch = λ p h s. on_session (m.set_prefetch p) h s;
    set_safe = λ safe h s. on_session (m.set_safe safe) h s;
    set_socket_timeout = λ d h s. on_session (m.set_socket_timeout d) h s;
    set_sync_timeout = λ d h s. on_session (m.set_sync_timeout d) h s;
  }

module _ {W S D C Q V : Type 0} where
  -- The methods of `*mdatabase`.
  unfoldable pub mdatabase : Databaser W S D C Q V → Databaser (Heap W S Q) S D C Ref V
  unfolding on_world new_query
  mdatabase m = record {
    add_user = λ username password read_only h d.
        on_world (λ w. m.add_user username password read_only w d) h;
    c = λ name h d. on_world (λ w. m.c name w d) h;
    collection_names = λ h d. on_world (λ w. m.collection_names w d) h;
    drop_database = λ h d. on_world (λ w. m.drop_database w d) h;
    find_ref = λ ref h d. new_query (on_world (λ w. m.find_ref ref w d) h);
    grid_fs = λ prefix h d. on_world (λ w. m.grid_fs prefix w d) h;
    login = λ user pass h d. on_world (λ w. m.login user pass w d) h;
    logout = λ h d. on_world (λ w. m.logout w d) h;
    remove_user = λ user h d. on_world (λ w. m.remove_user user w d) h;
    run = λ cmd result h d. on_world (λ w. m.run cmd result w d) h;
    upsert_user = λ user h d. on_world (λ w. m.upsert_user user w d) h;
    with_session = λ s h d. on_world (λ w. m.with_session s w d) h;
  }
