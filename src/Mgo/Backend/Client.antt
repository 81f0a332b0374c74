-- ===== src/Mgo/Backend/Client.antt =====
-- A client of a collection, over any implementation of the interfaces: it opens a query, calls a
-- chain of methods on it, and ends the chain.
use onedb.Prelude.{[], ◌∷◌, Option, none, some, List, Bytes}
use onedb.Go.Ints.{ℤ}
use onedb.Go.Outcome.{Error}
use onedb.Mgo.Backend.{Method, Checked}
use onedb.Mgo.Backend.Collection.{CollectionMethods}
use onedb.Mgo.Backend.Query.{Querier}

-- A method that returns the query, to be called in a chain.
pub data QueryStep (V : Type 0) : Type 0 where
  batch limit set_max_scan set_max_time skip : ℤ → QueryStep V
  comment : Bytes → QueryStep V
  hint sort : List Bytes → QueryStep V
  prefetch select : V → QueryStep V
  log_replay snapshot : QueryStep V

-- A method that ends a chain.
pub data QueryEnd (V : Type 0) : Type 0 where
  all one explain : V → QueryEnd V
  distinct : Bytes → V → QueryEnd V
  apply map_reduce : V → V → QueryEnd V
  count iter : QueryEnd V
  tail : ℤ → QueryEnd V

-- What it returns: an error, a number, information, or an iterator.
pub data Reply (I V : Type 0) : Type 0 where
  checked : Option Error → Reply I V
  counted : Checked ℤ → Reply I V
  informed : Checked V → Reply I V
  iterator : I → Reply I V

-- `Find` or `FindId`.
pub data Opening (V : Type 0) : Type 0 where
  find find_id : V → Opening V

-- Go on with what a call returned.
unfoldable pub and_then : {W A B : Type 0} → W × Option A → (W → A → W × Option B) → W × Option B
and_then (w, none) next = (w, none)
and_then (w, some a) next = next w a

module _ {W X C Q I V : Type 0} where
  unfoldable pub open_query : CollectionMethods W X C Q I V → Opening V → Method W C Q
  open_query m (find query) = m.find query
  open_query m (find_id id) = m.find_id id

unfoldable pub replied :
    {W I V A : Type 0} → (A → Reply I V) → W × Option A → W × Option (Reply I V)
replied reply (w, none) = (w, none)
replied reply (w, some a) = (w, some (reply a))

module _ {W Q I V : Type 0} (m : Querier W Q I V) where
  unfoldable pub query_step : QueryStep V → Method W Q Q
  query_step (batch n) = m.batch n
  query_step (limit n) = m.limit n
  query_step (set_max_scan n) = m.set_max_scan n
  query_step (set_max_time d) = m.set_max_time d
  query_step (skip n) = m.skip n
  query_step (comment c) = m.comment c
  query_step (hint index_key) = m.hint index_key
  query_step (sort fields) = m.sort fields
  query_step (prefetch p) = m.prefetch p
  query_step (select selector) = m.select selector
  query_step log_replay = m.log_replay
  query_step snapshot = m.snapshot

  unfoldable pub query_steps : List (QueryStep V) → Method W Q Q
  unfolding query_step and_then
  query_steps [] w q = (w, some q)
  query_steps (s ∷ steps) w q = and_then (query_step s w q) (query_steps steps)

  unfoldable pub query_end : QueryEnd V → Method W Q (Reply I V)
  unfolding replied
  query_end (all result) w q = replied checked (m.all result w q)
  query_end (one result) w q = replied checked (m.one result w q)
  query_end (explain result) w q = replied checked (m.explain result w q)
  query_end (distinct key result) w q = replied checked (m.distinct key result w q)
  query_end (apply change result) w q = replied informed (m.apply change result w q)
  query_end (map_reduce job result) w q = replied informed (m.map_reduce job result w q)
  query_end count w q = replied counted (m.count w q)
  query_end iter w q = replied iterator (m.iter w q)
  query_end (tail timeout) w q = replied iterator (m.tail timeout w q)

unfoldable pub fetch :
    {W X C Q I V : Type 0}
    → CollectionMethods W X C Q I V
    → Querier W Q I V
    → Opening V
    → List (QueryStep V)
    → QueryEnd V
    → Method W C (Reply I V)
unfolding open_query query_steps query_end and_then
fetch cm qm o steps end w c =
    and_then (open_query cm o w c) (λ w' q. and_then (query_steps qm steps w' q) (query_end qm end))
