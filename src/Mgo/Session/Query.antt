-- ===== src/Mgo/Session/Query.antt =====
-- `fakeQuery` of mgo/fakeBackend.go as a `Querier`: the methods that return a query return the query
-- itself, and those that have a result store what the query returns.
use onedb.Prelude.{ℕ, Option, none, some, List, get_elem?, set}
use onedb.Go.Ints.{negsuc}
use onedb.Go.Outcome.{Error, Outcome, ok, err, panic, out_of_fuel}
use onedb.Go.Values.{Runtime}
use onedb.Mgo.Backend.{Checked}
use onedb.Mgo.Backend.Query.{Querier}
use onedb.Mgo.Convert.{Assigned, Destination, to_variable, no_pointer}
use onedb.Mgo.Scalars.{Reflection}
use onedb.Mgo.Session.{FakeQuery, all}
use onedb.Rows.{Cell}

-- The variables of the caller.
abbrev pub Memory : Type 0
Memory = List Cell

-- An argument: a pointer to a variable, or what is no such pointer.
pub data Target : Type 0 where
  variable : ℕ → Target
  nowhere : Destination → Target

abbrev pub Stored : Type 0
Stored = Memory × Option (Option Error)

unfoldable pub error_of : Memory → Outcome (Unit {0}) → Stored
error_of m (ok u) = (m, some none)
error_of m (err e) = (m, some (some e))
error_of m panic = (m, none)
error_of m out_of_fuel = (m, none)

-- The variable holds what is assigned to it.
unfoldable pub assigned : Memory → ℕ → Cell → Assigned → Stored
unfolding error_of
assigned m i c (v, r) = error_of (set m i (record c { value = v })) r

module _ (rt : Runtime) (rf : Reflection) where
  at_variable : Memory → FakeQuery → ℕ → Option Cell → Stored
  unfolding assigned all
  at_variable m q i none = (m, none)
  at_variable m q i (some c) = assigned m i c (all rt rf q (to_variable c))

  -- `q.All(result)`
  unfoldable pub stored : Memory → FakeQuery → Target → Stored
  unfolding at_variable all error_of
  stored m q (variable i) = at_variable m q i (get_elem? m i)
  stored m q (nowhere d) = error_of m (all rt rf q d).1

  with_info : Stored → Memory × Option (Checked Target)
  with_info (m, none) = (m, none)
  with_info (m, some e) = (m, some (nowhere no_pointer, e))

  -- The iterators are nil.
  unfoldable pub fake_query : Querier Memory FakeQuery (Unit {0}) Target
  unfolding stored with_info
  fake_query = record {
    all = λ result m q. stored m q result;
    apply = λ change result m q. (m, some (nowhere no_pointer, none));
    batch = λ n m q. (m, some q);
    comment = λ comment m q. (m, some q);
    count = λ m q. (m, some (negsuc 0, none));
    distinct = λ key result m q. stored m q result;
    explain = λ result m q. stored m q result;
    hint = λ index_key m q. (m, some q);
    iter = λ m q. (m, some tt);
    limit = λ n m q. (m, some q);
    log_replay = λ m q. (m, some q);
    map_reduce = λ job result m q. with_info (stored m q result);
    one = λ result m q. stored m q result;
    prefetch = λ p m q. (m, some q);
    select = λ selector m q. (m, some q);
    set_max_scan = λ n m q. (m, some q);
    set_max_time = λ d m q. (m, some q);
    snapshot = λ m q. (m, some q);
    sort = λ fields m q. (m, some q);
    skip = λ n m q. (m, some q);
    tail = λ timeout m q. (m, some tt);
  }
