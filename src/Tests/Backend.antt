-- ===== src/Tests/Backend.antt =====
-- The wrappers of mgo/backend.go on a mgo whose world is the list of the names of the calls, the last
-- first. A session, a query and the like is a number; a new one is 1.
use onedb.Prelude.{ℕ, [], ◌∷◌, ◌++◌, ◌≡◌, refl, none, some, List, Bytes, codes}
use onedb.Go.Ints.{pos}
use onedb.Mgo.Backend.{Method, Heap}
use onedb.Mgo.Backend.Client.{limit, sort, count, counted, find, QueryStep, fetch}
use onedb.Mgo.Backend.Collection.{CollectionMethods, collection_methods}
use onedb.Mgo.Backend.Handles.{clones, copies, Wraps, run_copies, session_handles}
use onedb.Mgo.Backend.Laws.{fetch-wrapped}
use onedb.Mgo.Backend.Query.{Querier, mquery}
use onedb.Mgo.Backend.Session.{Sessioner, msession}

abbrev answers : {A : Type 0} → Bytes → A → Method (List Bytes) ℕ A
answers name a w x = (name ∷ w, some a)

abbrev sessions : Sessioner (List Bytes) ℕ ℕ ℕ ℕ
sessions = record {
  build_info = answers (codes "BuildInfo") (0, none);
  clone = answers (codes "Clone") 1;
  close = answers (codes "Close") tt;
  copy = answers (codes "Copy") 1;
  database_names = answers (codes "DatabaseNames") ([], none);
  db = λ name. answers (codes "DB") 1;
  ensure_safe = λ safe. answers (codes "EnsureSafe") tt;
  find_ref = λ ref. answers (codes "FindRef") 1;
  fsync = λ async. answers (codes "Fsync") none;
  fsync_lock = answers (codes "FsyncLock") none;
  fsync_unlock = answers (codes "FsyncUnlock") none;
  live_servers = answers (codes "LiveServers") [];
  login = λ cred. answers (codes "Login") none;
  logout_all = answers (codes "LogoutAll") tt;
  mode = answers (codes "Mode") (pos 0);
  new = answers (codes "New") 1;
  ping = answers (codes "Ping") none;
  refresh = answers (codes "Refresh") tt;
  reset_index_cache = answers (codes "ResetIndexCache") tt;
  run = λ cmd result. answers (codes "Run") none;
  safe = answers (codes "Safe") 0;
  select_servers = λ tags. answers (codes "SelectServers") tt;
  set_batch = λ n. answers (codes "SetBatch") tt;
  set_bypass_validation = λ bypass. answers (codes "SetBypassValidation") tt;
  set_cursor_timeout = λ d. answers (codes "SetCursorTimeout") tt;
  set_mode = λ consistency refresh. answers (codes "SetMode") tt;
  set_pool_limit = λ limit. answers (codes "SetPoolLimit") tt;
  set_prefetch = λ p. answers (codes "SetPrefetch") tt;
  set_safe = λ safe. answers (codes "SetSafe") tt;
  set_socket_timeout = λ d. answers (codes "SetSocketTimeout") tt;
  set_sync_timeout = λ d. answers (codes "SetSyncTimeout") tt;
}

abbrev collections : CollectionMethods (List Bytes) ℕ ℕ ℕ ℕ ℕ
collections = record {
  count = answers (codes "Count") (pos 7, none);
  create = λ info. answers (codes "Create") none;
  drop_collection = answers (codes "DropCollection") none;
  drop_index = λ key. answers (codes "DropIndex") none;
  drop_index_name = λ name. answers (codes "DropIndexName") none;
  ensure_index = λ index. answers (codes "EnsureIndex") none;
  ensure_index_key = λ key. answers (codes "EnsureIndexKey") none;
  find = λ query. answers (codes "Find") 1;
  find_id = λ id. answers (codes "FindId") 1;
  insert = λ docs. answers (codes "Insert") none;
  update = λ selector update. answers (codes "Update") none;
  update_id = λ id update. answers (codes "UpdateId") none;
  update_all = λ selector update. answers (codes "UpdateAll") (0, none);
  upsert = λ selector update. answers (codes "Upsert") (0, none);
  upsert_id = λ id update. answers (codes "UpsertId") (0, none);
  remove = λ selector. answers (codes "Remove") none;
  remove_id = λ id. answers (codes "RemoveId") none;
  remove_all = λ selector. answers (codes "RemoveAll") (0, none);
  indexes = answers (codes "Indexes") ([], none);
  new_iter = λ session first_batch cursor_id err. answers (codes "NewIter") 1;
  pipe = λ pipeline. answers (codes "Pipe") 0;
  repair = answers (codes "Repair") 1;
  with_session = λ s. answers (codes "With") 1;
}

abbrev queries_ : Querier (List Bytes) ℕ ℕ ℕ
queries_ = record {
  all = λ result. answers (codes "All") none;
  apply = λ change result. answers (codes "Apply") (0, none);
  batch = λ n. answers (codes "Batch") 1;
  comment = λ comment. answers (codes "Comment") 1;
  count = answers (codes "Count") (pos 7, none);
  distinct = λ key result. answers (codes "Distinct") none;
  explain = λ result. answers (codes "Explain") none;
  hint = λ index_key. answers (codes "Hint") 1;
  iter = answers (codes "Iter") 1;
  limit = λ n. answers (codes "Limit") 1;
  log_replay = answers (codes "LogReplay") 1;
  map_reduce = λ job result. answers (codes "MapReduce") (0, none);
  one = λ result. answers (codes "One") none;
  prefetch = λ p. answers (codes "Prefetch") 1;
  select = λ selector. answers (codes "Select") 1;
  set_max_scan = λ n. answers (codes "SetMaxScan") 1;
  set_max_time = λ d. answers (codes "SetMaxTime") 1;
  snapshot = answers (codes "Snapshot") 1;
  sort = λ fields. answers (codes "Sort") 1;
  skip = λ n. answers (codes "Skip") 1;
  tail = λ timeout. answers (codes "Tail") 1;
}

-- One wrapper of a session, and one of a query.
abbrev small_heap : Heap (List Bytes) ℕ ℕ
small_heap = record { world = []; sessions = 5 ∷ []; queries = 9 ∷ [] }

abbrev sorted_three : List (QueryStep ℕ)
sorted_three = sort (codes "age" ∷ []) ∷ limit (pos 3) ∷ []

fetch-wrapped_example :
    (more : List ℕ) × (fetch
        (collection_methods collections)
        (mquery {S = ℕ} queries_)
        (find 4)
        sorted_three
        count
        small_heap
        2
      ≡ (
        record {
          world = codes "Count" ∷ codes "Limit" ∷ codes "Sort" ∷ codes "Find" ∷ [];
          sessions = 5 ∷ [];
          queries = (9 ∷ []) ++ more;
        },
        some (counted (pos 7, none)),
      ))
unfolding fetch
fetch-wrapped_example = fetch-wrapped collections queries_ (find 4) sorted_three count small_heap 2

abbrev copied : Heap (List Bytes) ℕ ℕ
copied = run_copies sessions small_heap (clones 0 ∷ copies 1 ∷ [])

session_handles_example :
    Wraps sessions copied 0 5
    × (((msession sessions).new copied 0).1 ≡ some 0)
    × Wraps sessions ((msession sessions).new copied 0).0 0 1
unfolding run_copies
session_handles_example =
    session_handles sessions (clones 0 ∷ copies 1 ∷ []) small_heap 0 5 1
      (codes "New" ∷ codes "Copy" ∷ codes "Clone" ∷ []) refl refl
