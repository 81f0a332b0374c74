-- ===== src/Mgo/Session/Laws.antt =====
-- A fake session against the list of its queries and the list of its calls.
use onedb.Prelude.{
  [], ◌∷◌, ◌++◌, append-nil, append_assoc, ◌≡◌, refl, sym, ap, ◌∙◌, Bool, true, false, ◌&&◌,
  Bool-cases, inl, inr, List, Bytes, text_eq, if◌then◌else◌, arith,
}
use onedb.Go.Maps.{lookup}
use onedb.Go.Values.{Value, nil}
use onedb.Mgo.Session.{
  FakeMongoQuery, StoredQuery, MethodCall, FakeCollection, FakeSession, get_database, on_collection,
  add_query, add_queries, new_fake_session, CollectionMethod, find, find_id, method_call,
  find_stored, run_method, method_reply, SessionCall, opens_database, opens_collection, calls,
  finds_ref, database_finds_ref, run_call, run_calls, nothing, querier, find_ref, database_find_ref,
}
use onedb.Mgo.Session.Log.{own_call, method_call_lem}
use onedb.Mgo.Session.View.{
  collection_of, collection_in, found_database-view, on_collection-view, reached_lem,
}

-- The queries of the list for a collection, in order.
abbrev pub stored_for : Bytes → Bytes → List FakeMongoQuery → List StoredQuery
stored_for database collection [] = []
stored_for database collection (r ∷ rest) =
    if text_eq r.database database && text_eq r.collection collection
    then record { query = r.query; returned = r.returned } ∷ stored_for database collection rest
    else stored_for database collection rest

-- The first query of the list that is asked of the collection and deeply equal, and what it returns.
abbrev pub first_match :
    (Value → Value → Bool) → Bytes → Bytes → Value → List FakeMongoQuery → Value
first_match deep_equal database collection query [] = nil
first_match deep_equal database collection query (r ∷ rest) =
    if text_eq r.database database && (text_eq r.collection collection && deep_equal r.query query)
    then r.returned
    else first_match deep_equal database collection query rest

find_stored-first_match :
    (deep_equal : Value → Value → Bool) (j i : Bytes) (query : Value) (rs : List FakeMongoQuery)
    → find_stored deep_equal query (stored_for j i rs) ≡ first_match deep_equal j i query rs
unfolding find_stored
find_stored-first_match deep_equal j i query [] = refl
find_stored-first_match deep_equal j i query (r ∷ rs) =
    ground (arith, find_stored-first_match deep_equal j i query rs)

-- The loop of `NewFakeSession` appends the queries of each collection, and logs nothing.
add_queries-view :
    (s : FakeSession) (rs : List FakeMongoQuery) (j i : Bytes)
    → ((collection_of (add_queries s rs) j i).q ≡ (collection_of s j i).q ++ stored_for j i rs)
      × ((collection_of (add_queries s rs) j i).methods_called
          ≡ (collection_of s j i).methods_called)
unfolding add_queries add_query
add_queries-view s [] j i = (sym (append-nil (collection_of s j i).q), refl)
add_queries-view s (r ∷ rs) j i =
    let s' = (on_collection s r.database r.collection (add_query r)).0 in
    let (queries, log) = add_queries-view s' rs j i in
    let view = on_collection-view s r.database r.collection (add_query r) j i in
    elim (Bool-cases (text_eq r.database j && text_eq r.collection i)) [
      | inl same ↦
          let now : collection_of s' j i ≡ (add_query r (collection_of s j i)).0 =
            rw same at view in
          rw same (
            queries
                ∙ ap (λ c. c.q ++ stored_for j i rs) now
                ∙ append_assoc (collection_of s j i).q
                    (record { query = r.query; returned = r.returned } ∷ []) (stored_for j i rs),
            log ∙ ap (λ c. c.methods_called) now,
          )
      | inr other ↦
          let now : collection_of s' j i ≡ collection_of s j i = rw other at view in
          rw other
            (queries ∙ ap (λ c. c.q ++ stored_for j i rs) now, log ∙ ap (λ c. c.methods_called) now)
    ]

module _ (deep_equal : Value → Value → Bool) where
  -- The calls that reach a collection, in order, each under its own name with its own arguments.
  abbrev pub calls_of : Bytes → Bytes → SessionCall → List MethodCall
  calls_of j i (calls database collection method) =
      if text_eq database j && text_eq collection i then own_call method ∷ [] else []
  calls_of j i (finds_ref ref) =
      if text_eq ref.database j && text_eq ref.collection i
      then own_call (find_id ref.id) ∷ []
      else []
  calls_of j i (database_finds_ref database ref) =
      if text_eq database j && text_eq ref.collection i then own_call (find_id ref.id) ∷ [] else []
  calls_of j i _ = []

  abbrev pub all_calls : Bytes → Bytes → List SessionCall → List MethodCall
  all_calls j i [] = []
  all_calls j i (call ∷ rest) = calls_of j i call ++ all_calls j i rest

  -- The collection with more calls in its log.
  abbrev logged : FakeCollection → List MethodCall → FakeCollection
  logged c more = record c { methods_called = c.methods_called ++ more }

  logged_nil : (c : FakeCollection) → c ≡ logged c []
  logged_nil c = ap (λ l. record c { methods_called = l }) (sym (append-nil c.methods_called))

  logged_if :
      (c : FakeCollection) (call : MethodCall) (b : Bool)
      → (if b then logged c (call ∷ []) else c) ≡ logged c (if b then call ∷ [] else [])
  logged_if c call true = refl
  logged_if c call false = logged_nil c

  unchanged : (c : FakeCollection) (b : Bool) → (if b then c else c) ≡ logged c []
  unchanged c true = logged_nil c
  unchanged c false = logged_nil c

  database-view :
      (s : FakeSession) (name j i : Bytes)
      → collection_of (get_database s name).0 j i ≡ logged (collection_of s j i) []
  unfolding get_database collection_of
  database-view s name j i =
      ap (λ d. collection_in d i) (found_database-view s name j (lookup name s) refl).1
      ∙ logged_nil (collection_of s j i)

  method-view :
      (s : FakeSession) (database collection : Bytes) (method : CollectionMethod) (j i : Bytes)
      → collection_of (on_collection s database collection (run_method deep_equal method)).0 j i
        ≡ logged
            (collection_of s j i)
            (if text_eq database j && text_eq collection i then own_call method ∷ [] else [])
  unfolding run_method
  method-view s database collection method j i =
      on_collection-view s database collection (run_method deep_equal method) j i
      ∙ logged_if (collection_of s j i) (method_call method)
          (text_eq database j && text_eq collection i)
      ∙ ap
          (λ call.
            logged (collection_of s j i)
              (if text_eq database j && text_eq collection i then call ∷ [] else []))
          (method_call_lem method)

  run_call-view :
      (s : FakeSession) (call : SessionCall) (j i : Bytes)
      → collection_of (run_call deep_equal s call).0 j i
        ≡ logged (collection_of s j i) (calls_of j i call)
  unfolding run_call find_ref database_find_ref
  run_call-view s (opens_database name) j i = database-view s name j i
  run_call-view s (opens_collection database name) j i =
      on_collection-view s database name (λ c. (c, nothing)) j i
      ∙ unchanged (collection_of s j i) (text_eq database j && text_eq name i)
  run_call-view s (calls database collection method) j i =
      method-view s database collection method j i
  run_call-view s (finds_ref ref) j i =
      method-view s ref.database ref.collection (find_id ref.id) j i
  run_call-view s (database_finds_ref database ref) j i =
      method-view s database ref.collection (find_id ref.id) j i

  run_calls-view :
      (s : FakeSession) (cs : List SessionCall) (j i : Bytes)
      → collection_of (run_calls deep_equal s cs) j i
        ≡ logged (collection_of s j i) (all_calls j i cs)
  unfolding run_calls
  run_calls-view s [] j i =
      ap (λ l. record (collection_of s j i) { methods_called = l })
        (sym (append-nil (collection_of s j i).methods_called))
  run_calls-view s (call ∷ cs) j i =
      run_calls-view (run_call deep_equal s call).0 cs j i
      ∙ ap (λ c. logged c (all_calls j i cs)) (run_call-view s call j i)
      ∙ ap (λ l. record (collection_of s j i) { methods_called = l })
          (append_assoc (collection_of s j i).methods_called (calls_of j i call) (all_calls j i cs))

  new-view :
      (rs : List FakeMongoQuery) (j i : Bytes)
      → ((collection_of (new_fake_session rs) j i).q ≡ stored_for j i rs)
        × ((collection_of (new_fake_session rs) j i).methods_called ≡ [])
  unfolding new_fake_session collection_of lookup
  new-view rs j i = add_queries-view [] rs j i

  -- The log of a collection of a fake session, after any calls of its databases, collections,
  -- methods and references, holds exactly the calls of methods with the names of that database
  -- and collection, and a `FindId` with the id of each reference to it, in order, each under the
  -- name that mgo gives the method and with all of its arguments.
  pub methods_called-all_calls :
      (rs : List FakeMongoQuery) (cs : List SessionCall) (j i : Bytes)
      → (collection_of (run_calls deep_equal (new_fake_session rs) cs) j i).methods_called
        ≡ all_calls j i cs
  methods_called-all_calls rs cs j i =
      ap (λ c. c.methods_called) (run_calls-view (new_fake_session rs) cs j i)
      ∙ ap (λ l. l ++ all_calls j i cs) (new-view rs j i).1

  -- A fake session made from a list of queries, after any calls of its databases, collections,
  -- methods and references: `Find` on a collection returns what the first query of the list with
  -- the names of that database and collection and a deeply equal query returns, and an empty
  -- result if there is none.
  pub find-first_match :
      (rs : List FakeMongoQuery) (cs : List SessionCall) (j i : Bytes) (query : Value)
      → (run_call deep_equal
          (run_calls deep_equal (new_fake_session rs) cs)
          (calls j i (find query))).1
        ≡ querier (first_match deep_equal j i query rs)
  unfolding run_call on_collection run_method method_reply
  find-first_match rs cs j i query =
      let s = run_calls deep_equal (new_fake_session rs) cs in
      ap (λ c. querier (find_stored deep_equal query c.q))
        (reached_lem s j i ∙ run_calls-view (new_fake_session rs) cs j i)
      ∙ ap (λ q. querier (find_stored deep_equal query q)) (new-view rs j i).0
      ∙ ap querier (find_stored-first_match deep_equal j i query rs)
