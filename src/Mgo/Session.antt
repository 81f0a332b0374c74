-- ===== src/Mgo/Session.antt =====
-- The fake session of mgo/fakeBackend.go. A session, a database and a collection are pointers in the
-- source; the maps hold each of them once, nothing takes one out, and `Clone`, `Copy`, `New` and `With`
-- return the pointer itself. So a handle is the names by which it was reached.
pub mod View
pub mod Laws
pub mod Log
pub mod Methods
pub mod Query
pub mod Fetch
use onedb.Prelude.{
  [], ◌∷◌, ◌++◌, Bool, true, false, Option, none, some, List, Bytes, codes, if◌then◌else◌,
}
use onedb.Go.Ints.{ℤ, negsuc}
use onedb.Go.Maps.{lookup, insert}
use onedb.Go.Outcome.{not_found, err}
use onedb.Go.Values.{Value, nil, Runtime}
use onedb.Mgo.Convert.{Assigned, Destination, to_variable, convert_assign}
use onedb.Mgo.Scalars.{Reflection}

pub record FakeMongoQuery : Type 0 where
  pub database : Bytes
  pub collection : Bytes
  pub query : Value
  pub returned : Value

-- `query` of the source: what is asked, and what comes back.
pub record StoredQuery : Type 0 where
  pub query : Value
  pub returned : Value

pub record MethodCall : Type 0 where
  pub name : Bytes
  pub args : List Value

abbrev pub new_method_call : Bytes → List Value → MethodCall
new_method_call name args = record { name = name; args = args }

pub record FakeCollection : Type 0 where
  pub q : List StoredQuery
  pub methods_called : List MethodCall

abbrev pub empty_collection : FakeCollection
empty_collection = record { q = []; methods_called = [] }

-- The collections of a database, and the databases of a session.
abbrev pub FakeDatabase : Type 0
FakeDatabase = List (Bytes × FakeCollection)

abbrev pub FakeSession : Type 0
FakeSession = List (Bytes × FakeDatabase)

-- `fakeQuery`
abbrev pub FakeQuery : Type 0
FakeQuery = Value

unfoldable pub found_database :
    FakeSession → Bytes → Option FakeDatabase → FakeSession × FakeDatabase
found_database s name (some d) = (s, d)
found_database s name none = (insert name [] s, [])

-- `getDatabase`, and `fakeSession.DB`.
unfoldable pub get_database : FakeSession → Bytes → FakeSession × FakeDatabase
unfolding found_database
get_database s name = found_database s name (lookup name s)

unfoldable pub found_collection :
    FakeDatabase → Bytes → Option FakeCollection → FakeDatabase × FakeCollection
found_collection d name (some c) = (d, c)
found_collection d name none = (insert name empty_collection d, empty_collection)

-- `getCollection`, and `fakeDatabase.C`.
unfoldable pub get_collection : FakeDatabase → Bytes → FakeDatabase × FakeCollection
unfolding found_collection
get_collection d name = found_collection d name (lookup name d)

-- A method of the collection behind the two names, through its pointer.
unfoldable pub on_collection :
    {A : Type 0}
    → FakeSession
    → Bytes
    → Bytes
    → (FakeCollection → FakeCollection × A)
    → FakeSession × A
unfolding get_database get_collection
on_collection s database collection method =
    let (s', d) = get_database s database in
    let (d', c) = get_collection d collection in
    let (c', a) = method c in (insert database (insert collection c' d') s', a)

-- `c.q = append(c.q, query{…})`
unfoldable pub add_query : FakeMongoQuery → FakeCollection → FakeCollection × Unit {0}
add_query r c = (record c { q = c.q ++ record { query = r.query; returned = r.returned } ∷ [] }, tt)

-- The loop of `NewFakeSession`.
unfoldable pub add_queries : FakeSession → List FakeMongoQuery → FakeSession
unfolding on_collection add_query
add_queries s [] = s
add_queries s (r ∷ query_results) =
    add_queries (on_collection s r.database r.collection (add_query r)).0 query_results

unfoldable pub new_fake_session : List FakeMongoQuery → FakeSession
unfolding add_queries
new_fake_session query_results = add_queries [] query_results

-- The methods of a collection that are logged, each with its arguments as they are logged.
pub data CollectionMethod : Type 0 where
  count drop_collection indexes repair : CollectionMethod
  create drop_index drop_index_name ensure_index ensure_index_key find find_id :
      Value → CollectionMethod
  insert_docs remove remove_id remove_all pipe with_session : Value → CollectionMethod
  update update_id update_all upsert upsert_id : Value → Value → CollectionMethod
  new_iter : Value → Value → Value → Value → CollectionMethod

-- What a method returns: a number, no error, no information and no error, a query, nothing, or the
-- collection itself.
pub data MethodReply : Type 0 where
  number : ℤ → MethodReply
  no_error no_info nothing same_collection : MethodReply
  querier : FakeQuery → MethodReply

unfoldable pub method_call : CollectionMethod → MethodCall
method_call count = new_method_call (codes "Count") []
method_call (create info) = new_method_call (codes "Create") (info ∷ [])
method_call drop_collection = new_method_call (codes "DropCollection") []
method_call (drop_index key) = new_method_call (codes "DropIndex") (key ∷ [])
method_call (drop_index_name name) = new_method_call (codes "DropIndexName") (name ∷ [])
method_call (ensure_index index) = new_method_call (codes "EnsureIndex") (index ∷ [])
method_call (ensure_index_key key) = new_method_call (codes "EnsureIndexKey") (key ∷ [])
method_call (find query) = new_method_call (codes "Find") (query ∷ [])
method_call (find_id id) = new_method_call (codes "FindId") (id ∷ [])
method_call (insert_docs docs) = new_method_call (codes "Insert") (docs ∷ [])
method_call (update selector change) = new_method_call (codes "Update") (selector ∷ change ∷ [])
method_call (update_id id change) = new_method_call (codes "UpdateId") (id ∷ change ∷ [])
method_call (update_all selector change) =
    new_method_call (codes "UpdateAll") (selector ∷ change ∷ [])
method_call (upsert selector change) = new_method_call (codes "Upsert") (selector ∷ change ∷ [])
method_call (upsert_id id change) = new_method_call (codes "UpsertId") (id ∷ change ∷ [])
method_call (remove selector) = new_method_call (codes "Remove") (selector ∷ [])
method_call (remove_id id) = new_method_call (codes "RemoveId") (id ∷ [])
method_call (remove_all selector) = new_method_call (codes "RemoveAll") (selector ∷ [])
method_call indexes = new_method_call (codes "Indexes") []
method_call (new_iter session first_batch cursor_id e) =
    new_method_call (codes "NewIter") (session ∷ first_batch ∷ cursor_id ∷ e ∷ [])
method_call (pipe pipeline) = new_method_call (codes "Pipe") (pipeline ∷ [])
method_call repair = new_method_call (codes "Repair") []
method_call (with_session s) = new_method_call (codes "With") (s ∷ [])

-- `c.find(query)`, with `reflect.DeepEqual` as a parameter.
unfoldable pub find_stored : (Value → Value → Bool) → Value → List StoredQuery → FakeQuery
find_stored deep_equal query [] = nil
find_stored deep_equal query (r ∷ q) =
    if deep_equal r.query query then r.returned else find_stored deep_equal query q

unfoldable pub method_reply :
    (Value → Value → Bool) → FakeCollection → CollectionMethod → MethodReply
unfolding find_stored
method_reply deep_equal c count = number (negsuc 0)
method_reply deep_equal c (find query) = querier (find_stored deep_equal query c.q)
method_reply deep_equal c (find_id id) = querier (find_stored deep_equal id c.q)
method_reply deep_equal c (update_all selector change) = no_info
method_reply deep_equal c (upsert selector change) = no_info
method_reply deep_equal c (upsert_id id change) = no_info
method_reply deep_equal c (remove_all selector) = no_info
method_reply deep_equal c indexes = no_info
method_reply deep_equal c (new_iter session first_batch cursor_id e) = nothing
method_reply deep_equal c (pipe pipeline) = nothing
method_reply deep_equal c repair = nothing
method_reply deep_equal c (with_session s) = same_collection
method_reply deep_equal c method = no_error

-- The call is logged, and answered.
unfoldable pub run_method :
    (Value → Value → Bool) → CollectionMethod → FakeCollection → FakeCollection × MethodReply
unfolding method_call method_reply
run_method deep_equal method c =
    let c' = record c { methods_called = c.methods_called ++ method_call method ∷ [] } in
    (c', method_reply deep_equal c' method)

-- What the session is asked: `DB(name)`, `DB(name).C(name)`, a method of such a collection, and `FindRef`
-- of the session or of a database.
pub record DbRef : Type 0 where
  pub collection : Bytes
  pub id : Value
  pub database : Bytes

pub data SessionCall : Type 0 where
  opens_database : Bytes → SessionCall
  opens_collection : Bytes → Bytes → SessionCall
  calls : Bytes → Bytes → CollectionMethod → SessionCall
  finds_ref : DbRef → SessionCall
  database_finds_ref : Bytes → DbRef → SessionCall

module _ (deep_equal : Value → Value → Bool) where
  unfoldable pub find_ref : FakeSession → DbRef → FakeSession × MethodReply
  unfolding on_collection run_method
  find_ref s ref =
      on_collection s ref.database ref.collection (run_method deep_equal (find_id ref.id))

  unfoldable pub database_find_ref : FakeSession → Bytes → DbRef → FakeSession × MethodReply
  unfolding on_collection run_method
  database_find_ref s database ref =
      on_collection s database ref.collection (run_method deep_equal (find_id ref.id))

  unfoldable pub run_call : FakeSession → SessionCall → FakeSession × MethodReply
  unfolding get_database on_collection run_method find_ref database_find_ref
  run_call s (opens_database name) = ((get_database s name).0, nothing)
  run_call s (opens_collection database name) =
      let opened = on_collection s database name (λ c. (c, nothing)) in opened
  run_call s (calls database collection method) =
      on_collection s database collection (run_method deep_equal method)
  run_call s (finds_ref ref) = find_ref s ref
  run_call s (database_finds_ref database ref) = database_find_ref s database ref

  unfoldable pub run_calls : FakeSession → List SessionCall → FakeSession
  unfolding run_call
  run_calls s [] = s
  run_calls s (call ∷ rest) = run_calls (run_call s call).0 rest

-- What the variable behind the argument holds.
held : Destination → Value
held (to_variable c) = c.value
held _ = nil

-- `fakeQuery.All`, which is also `One`, `Distinct`, `Explain` and the error of `MapReduce`.
unfoldable pub all : Runtime → Reflection → FakeQuery → Destination → Assigned
unfolding convert_assign held
all rt rf nil result = (held result, err not_found)
all rt rf r result = convert_assign rt rf result r
