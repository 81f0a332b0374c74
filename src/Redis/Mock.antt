-- ===== src/Redis/Mock.antt =====
-- `redisMock` of redis/mockBackend.go, over the mock database.
use onedb.Prelude.{
  [], ◌∷◌, ◌++◌, ◌≡◌, refl, ap, ◌∙◌, append-nil, append_assoc, sym, ℕ, Option, none, List, Bytes,
  codes, map,
}
use onedb.Go.Ints.{ℤ}
use onedb.Go.Outcome.{Error, invalid_result_type, Outcome, err, panic}
use onedb.Go.Types.{IntKind}
use onedb.Go.Values.{Value, nil, string_value, int_value, Runtime}
use onedb.Mock.Db.{
  MockDb, MethodsRun, new_mock, save_method_call, mock_query_json, mock_query_struct,
  mock_query_struct_row,
}
use onedb.Mock.Scanner.{MockData, MockRowsScanner}
use onedb.Queries.{
  Queried, new_query, ResultArg, struct_pointer, other_pointer, no_pointer, nil_result,
  StructResult,
}

pub record RedisMock : Type 0 where
  pub db : MockDb
  pub do_result : Value
  pub do_err : Option Error
  pub del_err : Option Error
  pub set_err : Option Error

-- `NewMock`, which leaves its errors out; the result of `Do` is the data of the mock database.
unfoldable pub new_redis_mock : Option Error → Option Error → MockData → Option Error → RedisMock
new_redis_mock del_err save_err do_result do_err = record {
  db = new_mock none none (do_result ∷ []);
  do_result = nil;
  do_err = none;
  del_err = none;
  set_err = none;
}

unfoldable pub saved : Bytes → List Value → RedisMock → RedisMock
saved name arguments r = record r { db = save_method_call name arguments r.db }

unfoldable pub close : RedisMock → RedisMock × Option Error
unfolding saved
close r = (saved (codes "Close") [] r, none)

unfoldable pub set_with_expire : RedisMock → Bytes → Value → ℤ → RedisMock × Option Error
unfolding saved
set_with_expire r key value expire_seconds =
    (saved (codes "SetWithExpire") (value ∷ int_value IntKind.int expire_seconds ∷ []) r, r.set_err)

unfoldable pub del : RedisMock → Bytes → RedisMock × Option Error
unfolding saved
del r key = (saved (codes "Del") (string_value key ∷ []) r, r.del_err)

unfoldable pub run_do : RedisMock → Bytes → List Value → RedisMock × Value × Option Error
unfolding saved
run_do r command args = (saved (codes "Do") (string_value command ∷ args) r, r.do_result, r.do_err)

module _ (rt : Runtime) (fuel : ℕ) where
  unfoldable pub get : RedisMock → Bytes → RedisMock × Outcome Bytes
  get r key =
      let queried = mock_query_json rt fuel r.db (new_query key []) in
      (record r { db = queried.backend }, queried.result)

  answered : RedisMock → Queried MockDb MockRowsScanner StructResult → RedisMock × StructResult
  answered r queried = (record r { db = queried.backend }, queried.result)

  -- `pointer` is the result argument as it is logged. `IsPointer` panics on the nil type.
  unfoldable pub get_struct : RedisMock → Bytes → Value → ResultArg → RedisMock × StructResult
  unfolding answered
  get_struct r key pointer nil_result = (r, (nil_result, panic))
  get_struct r key pointer no_pointer = (r, (no_pointer, err invalid_result_type))
  get_struct r key pointer other_pointer = (r, (other_pointer, err invalid_result_type))
  get_struct r key pointer (struct_pointer item) =
      answered r (mock_query_struct_row rt r.db pointer (struct_pointer item) (new_query key []))
  get_struct r key pointer arg =
      answered r (mock_query_struct rt fuel r.db pointer arg (new_query key []))

-- The calls that are only logged.
pub data LoggedCall : Type 0 where
  closes : LoggedCall
  sets : Bytes → Value → ℤ → LoggedCall
  dels : Bytes → LoggedCall
  does : Bytes → List Value → LoggedCall

-- The result, which is nil but for `Do`, and the error.
unfoldable pub run_logged : RedisMock → LoggedCall → RedisMock × Value × Option Error
unfolding close set_with_expire del run_do
run_logged r closes = let (r', e) = close r in (r', nil, e)
run_logged r (sets key value expire_seconds) =
    let (r', e) = set_with_expire r key value expire_seconds in (r', nil, e)
run_logged r (dels key) = let (r', e) = del r key in (r', nil, e)
run_logged r (does command args) = run_do r command args

unfoldable pub run_all_logged :
    RedisMock → List LoggedCall → RedisMock × List (Value × Option Error)
unfolding run_logged
run_all_logged r [] = (r, [])
run_all_logged r (call ∷ calls) =
    let (r', v, e) = run_logged r call in
    let (r'', replies) = run_all_logged r' calls in (r'', (v, e) ∷ replies)

-- The log of a call: `SetWithExpire` without its key.
abbrev pub logged : LoggedCall → MethodsRun
logged closes = record { method_name = codes "Close"; arguments = [] }
logged (sets key value expire_seconds) = record {
  method_name = codes "SetWithExpire";
  arguments = value ∷ int_value IntKind.int expire_seconds ∷ [];
}
logged (dels key) = record { method_name = codes "Del"; arguments = string_value key ∷ [] }
logged (does command args) = record {
  method_name = codes "Do";
  arguments = string_value command ∷ args;
}

abbrev pub silent : LoggedCall → Value × Option Error
silent call = (nil, none)

-- A mock on which these calls were made.
abbrev pub with_log : RedisMock → List MethodsRun → RedisMock
with_log r log = record r { db = record r.db { methods_run = log } }

abbrev IsSilent : RedisMock → Type 0
IsSilent r = (r.do_result ≡ nil) × (r.do_err ≡ none) × (r.del_err ≡ none) × (r.set_err ≡ none)

run_logged-silent :
    (r : RedisMock) (call : LoggedCall)
    → IsSilent r
    → run_logged r call ≡ (with_log r (r.db.methods_run ++ logged call ∷ []), nil, none)
unfolding run_logged close set_with_expire del run_do saved save_method_call
run_logged-silent r closes (no_result, no_do, no_del, no_set) = refl
run_logged-silent r (sets key value expire_seconds) (no_result, no_do, no_del, no_set) =
    rw no_set refl
run_logged-silent r (dels key) (no_result, no_do, no_del, no_set) = rw no_del refl
run_logged-silent r (does command args) (no_result, no_do, no_del, no_set) =
    rw (no_result, no_do) refl

run_all_logged-silent :
    (r : RedisMock) (calls : List LoggedCall)
    → IsSilent r
    → run_all_logged r calls ≡ (with_log r (r.db.methods_run ++ map logged calls), map silent calls)
unfolding run_all_logged
run_all_logged-silent r [] h = ap (λ l. (with_log r l, [])) (sym (append-nil r.db.methods_run))
run_all_logged-silent r (call ∷ calls) h =
    ap
      (λ (p : RedisMock × Value × Option Error).
        let (r', v, e) = p in ((run_all_logged r' calls).0, (v, e) ∷ (run_all_logged r' calls).1))
      (run_logged-silent r call h)
    ∙ ap (λ p. (p.0, silent call ∷ p.1))
        (run_all_logged-silent (with_log r (r.db.methods_run ++ logged call ∷ [])) calls h)
    ∙ ap (λ l. (with_log r l, silent call ∷ map silent calls))
        (append_assoc r.db.methods_run (logged call ∷ []) (map logged calls))

-- The errors of `NewMock`.
pub new_redis_mock-silent :
    (del_err save_err do_err : Option Error) (do_result : MockData) (calls : List LoggedCall)
    → let r = new_redis_mock del_err save_err do_result do_err in
      run_all_logged r calls ≡ (with_log r (map logged calls), map silent calls)
unfolding new_redis_mock new_mock
new_redis_mock-silent del_err save_err do_err do_result calls =
    run_all_logged-silent (new_redis_mock del_err save_err do_result do_err) calls
      (refl, refl, refl, refl)
