-- ===== src/Mgo/Backend/Query.antt =====
-- `Querier` of mgo/backend.go, and the wrapper that has it.
use onedb.Prelude.{Option, List, Bytes}
use onedb.Go.Ints.{ℤ}
use onedb.Go.Outcome.{Error}
use onedb.Mgo.Backend.{Method, Checked, Heap, Ref, on_query, put_query}

-- `I` is `*mgo.Iter`.
pub record Querier (W Q I V : Type 0) : Type 0 where
  pub all : V → Method W Q (Option Error)
  pub apply : V → V → Method W Q (Checked V)
  pub batch : ℤ → Method W Q Q
  pub comment : Bytes → Method W Q Q
  pub count : Method W Q (Checked ℤ)
  pub distinct : Bytes → V → Method W Q (Option Error)
  pub explain : V → Method W Q (Option Error)
  pub hint : (List Bytes) → Method W Q Q
  pub iter : Method W Q I
  pub limit : ℤ → Method W Q Q
  pub log_replay : Method W Q Q
  pub map_reduce : V → V → Method W Q (Checked V)
  pub one : V → Method W Q (Option Error)
  pub prefetch : V → Method W Q Q
  pub select : V → Method W Q Q
  pub set_max_scan : ℤ → Method W Q Q
  pub set_max_time : ℤ → Method W Q Q
  pub snapshot : Method W Q Q
  pub sort : (List Bytes) → Method W Q Q
  pub skip : ℤ → Method W Q Q
  pub tail : ℤ → Method W Q I

module _ {W S Q I V : Type 0} where
  -- The methods of `*mquery`. Those that return a query put the query that mgo returns into the wrapper,
  -- and return the wrapper.
  unfoldable pub mquery : Querier W Q I V → Querier (Heap W S Q) Ref I V
  unfolding on_query put_query
  mquery m = record {
    all = λ result h q. on_query (m.all result) h q;
    apply = λ change result h q. on_query (m.apply change result) h q;
    batch = λ n h q. put_query q (on_query (m.batch n) h q);
    comment = λ comment h q. put_query q (on_query (m.comment comment) h q);
    count = λ h q. on_query m.count h q;
    distinct = λ key result h q. on_query (m.distinct key result) h q;
    explain = λ result h q. on_query (m.explain result) h q;
    hint = λ index_key h q. put_query q (on_query (m.hint index_key) h q);
    iter = λ h q. on_query m.iter h q;
    limit = λ n h q. put_query q (on_query (m.limit n) h q);
    log_replay = λ h q. put_query q (on_query m.log_replay h q);
    map_reduce = λ job result h q. on_query (m.map_reduce job result) h q;
    one = λ result h q. on_query (m.one result) h q;
    prefetch = λ p h q. put_query q (on_query (m.prefetch p) h q);
    select = λ selector h q. put_query q (on_query (m.select selector) h q);
    set_max_scan = λ n h q. put_query q (on_query (m.set_max_scan n) h q);
    set_max_time = λ d h q. put_query q (on_query (m.set_max_time d) h q);
    snapshot = λ h q. put_query q (on_query m.snapshot h q);
    sort = λ fields h q. put_query q (on_query (m.sort fields) h q);
    skip = λ n h q. put_query q (on_query (m.skip n) h q);
    tail = λ timeout h q. on_query (m.tail timeout) h q;
  }
