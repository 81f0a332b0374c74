-- ===== src/Mgo/Session/Fetch.antt =====
-- A query of the fake session and what its `One` stores.
use onedb.Prelude.{
  ℕ, zero, suc, [], ◌∷◌, ◌≡◌, refl, sym, ap, ◌∙◌, subst, Bool, Option, none, some, List, Bytes,
  get_elem?, set,
}
use mathlib.Core.Option.{some-injective}
use onedb.Go.Outcome.{Error}
use onedb.Mgo.Backend.Client.{
  QueryStep, batch, limit, set_max_scan, set_max_time, skip, comment, hint, sort, prefetch, select,
  log_replay, snapshot, one, Reply, checked, and_then, query_step, query_steps, replied, query_end,
}
use onedb.Mgo.Session.Query.{Memory, Target, variable, fake_query, assigned}
use onedb.Go.Ints.{ℤ}
use onedb.Go.Types.{GoType}
use onedb.Go.Values.{Value, nil, int_value, uint_value, Runtime}
use onedb.Mgo.Convert.{to_variable}
use onedb.Mgo.Convert.Laws.{number, exact, IsInteger, Stores, convert_assign-exact}
use onedb.Mgo.Scalars.{Reflection}
use onedb.Mgo.Session.{
  FakeMongoQuery, FakeQuery, MethodReply, SessionCall, calls, find, new_fake_session, querier,
  run_call, run_calls, all,
}
use onedb.Mgo.Session.Laws.{first_match, find-first_match}
use onedb.Struct.SetValue.Laws.{InRange}

query_of : MethodReply → FakeQuery
query_of (querier r) = r
query_of _ = nil

set-same : {A : Type 0} (xs : List A) (i : ℕ) (x : A) → get_elem? xs i ≡ some x → set xs i x ≡ xs
set-same [] i x h = refl
set-same (y ∷ xs) zero x h = ap (λ a. a ∷ xs) (sym (some-injective y x h))
set-same (y ∷ xs) (suc i) x h = ap (λ l. y ∷ l) (set-same xs i x h)

module _ (rt : Runtime) (rf : Reflection) where
  all-exact :
      (src : Value) (z : ℤ) (t : GoType) (old : Value)
      → number src ≡ some z
      → InRange src
      → IsInteger t
      → Stores old (exact t z) (all rt rf src (to_variable (record { type = t; value = old })))
  unfolding all
  all-exact (int_value k n) z t old e r i = convert_assign-exact rt rf (int_value k n) z t old e r i
  all-exact (uint_value k n) z t old e r i =
      convert_assign-exact rt rf (uint_value k n) z t old e r i
  all-exact src z t old e r i = cc

  query_step-fake :
      (s : QueryStep Target) (m : Memory) (q : FakeQuery)
      → query_step (fake_query rt rf) s m q ≡ (m, some q)
  unfolding query_step fake_query
  query_step-fake (batch n) m q = refl
  query_step-fake (limit n) m q = refl
  query_step-fake (set_max_scan n) m q = refl
  query_step-fake (set_max_time d) m q = refl
  query_step-fake (skip n) m q = refl
  query_step-fake (comment c) m q = refl
  query_step-fake (hint index_key) m q = refl
  query_step-fake (sort fields) m q = refl
  query_step-fake (prefetch p) m q = refl
  query_step-fake (select selector) m q = refl
  query_step-fake log_replay m q = refl
  query_step-fake snapshot m q = refl

  -- The query is there after any chain, and nothing is stored.
  query_steps-fake :
      (steps : List (QueryStep Target)) (m : Memory) (q : FakeQuery)
      → query_steps (fake_query rt rf) steps m q ≡ (m, some q)
  unfolding query_steps and_then
  query_steps-fake [] m q = refl
  query_steps-fake (s ∷ steps) m q = rw (query_step-fake s m q) (query_steps-fake steps m q)

  -- The variable holds the value, or there is an error and nothing is stored.
  abbrev pub Fetches :
      Memory → ℕ → GoType → Option Value → Memory × Option (Reply (Unit {0}) Target) → Type 0
  Fetches m i t (some v) r = r ≡ (set m i (record { type = t; value = v }), some (checked none))
  Fetches m i t none r = (e : Error) × (r ≡ (m, some (checked (some e))))

  one-Fetches :
      (m : Memory) (i : ℕ) (t : GoType) (old : Value) (q : FakeQuery) (o : Option Value)
      → get_elem? m i ≡ some (record { type = t; value = old })
      → Stores old o (all rt rf q (to_variable (record { type = t; value = old })))
      → Fetches m i t o (query_end (fake_query rt rf) (one (variable i)) m q)
  unfolding query_end replied fake_query assigned
  one-Fetches m i t old q (some v) here stores = rw (here, stores) refl
  one-Fetches m i t old q none here (e, stores) =
      (e, rw (here, stores) (ap (λ l. (l, some (checked (some e)))) (set-same m i _ here)))

  -- A fake session made from a list of queries, after any calls of its databases, collections,
  -- methods and references, where the first query of the list with the names of a database and a
  -- collection and a deeply equal query returns an integer in the range of its type: `Find` on
  -- that collection gives a query on which any chain of `Sort`, `Limit` and the like, and then
  -- `One` into a variable of a predeclared integer type, stores that number without an error if
  -- the variable can hold it, and otherwise returns an error and leaves all variables as they
  -- were.
  pub find_one-exact :
      (deep_equal : Value → Value → Bool) (rs : List FakeMongoQuery) (cs : List SessionCall)
      (j i : Bytes) (query src : Value) (z : ℤ) (t : GoType) (old : Value) (q : FakeQuery)
      (steps : List (QueryStep Target)) (m : Memory) (k : ℕ)
      → first_match deep_equal j i query rs ≡ src
      → number src ≡ some z
      → InRange src
      → IsInteger t
      → get_elem? m k ≡ some (record { type = t; value = old })
      → (run_call deep_equal
          (run_calls deep_equal (new_fake_session rs) cs)
          (calls j i (find query))).1
        ≡ querier q
      → Fetches m k t (exact t z) (
          and_then
            (query_steps (fake_query rt rf) steps m q)
            (query_end (fake_query rt rf) (one (variable k))))
  unfolding query_of and_then
  find_one-exact deep_equal rs cs j i query src z t old q steps m k first e r integer here found =
      let same : src ≡ q =
        sym first ∙ ap query_of (sym (find-first_match deep_equal rs cs j i query) ∙ found) in
      let stores =
        subst
          (λ (x : Value).
            Stores old (exact t z) (all rt rf x (to_variable (record { type = t; value = old }))))
          same (all-exact src z t old e r integer) in
      rw (query_steps-fake steps m q) (one-Fetches m k t old q (exact t z) here stores)
