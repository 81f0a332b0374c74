-- ===== src/Tests/Redis.antt =====
-- The redis client on a server that is an association list beside the number of borrowed connections.
use onedb.Prelude.{
  ℕ, suc, ◌-◌, [], ◌∷◌, ◌≡◌, refl, Option, none, some, List, Bytes, codes, text_eq, if◌then◌else◌,
  arith,
}
use onedb.Go.Ints.{pos}
use onedb.Go.Maps.{lookup, insert, lookup-insert, or_default}
use onedb.Go.Outcome.{Error, Outcome, ok, err}
use onedb.Go.Values.{Value, string_value, int_value}
use onedb.Redis.Client.{Redigo, get, get_struct, set_with_expire}
use onedb.Redis.Client.Pool.{ClientCall, run_client, IsCounted, run_client-borrowed}
use onedb.Redis.Client.Store.{
  StoreCall, sets, dels, run_store, IsStore, get-map_after, get_struct-set, read,
}

-- The keys with their texts, none for a key that was deleted, and the borrowed connections.
abbrev Server : Type 0
Server = List (Bytes × Option Bytes) × ℕ

abbrev Reply : Type 0
Reply = Option Bytes

abbrev stored : Server → Bytes → Option Bytes
stored s k = or_default none (lookup k s.0)

abbrev get_command : Server → List Value → Server × Reply × Option Error
get_command s (string_value key ∷ []) = (s, stored s key, none)
get_command s _ = (s, none, none)

abbrev setex_command : Server → List Value → Server × Reply × Option Error
setex_command (m, n) (string_value key ∷ int_value k z ∷ string_value text ∷ []) =
    ((insert key (some text) m, n), none, none)
setex_command s _ = (s, none, none)

abbrev del_command : Server → List Value → Server × Reply × Option Error
del_command (m, n) (string_value key ∷ []) = ((insert key none m, n), none, none)
del_command s _ = (s, none, none)

abbrev command_at : Server → Unit {0} → Bytes → List Value → Server × Reply × Option Error
command_at s c command args =
    if text_eq command (codes "GET")
    then get_command s args
    else if text_eq command (codes "SETEX")
    then setex_command s args
    else if text_eq command (codes "DEL")
    then del_command s args
    else (s, none, none)

abbrev taken : Server → Server × Unit {0}
taken (m, n) = ((m, suc n), tt)

abbrev given_back : Server → Unit {0} → Server
given_back (m, n) c = (m, n - 1)

abbrev reply_text : Reply → Option Error → Outcome Bytes
reply_text y (some e) = err e
reply_text y none = read y

abbrev local : Redigo Server (Unit {0}) (Unit {0}) Reply
local = record {
  dial_tcp = λ w address. (w, ok tt);
  new_conn = λ tc read_timeout write_timeout. tt;
  now = λ w. (w, 0);
  pool_get = taken;
  pool_close = λ w. (w, none);
  do_command = command_at;
  close_conn = given_back;
  string_of = reply_text;
  bytes_of = reply_text;
}

insert-stored :
    (s : Server) (key k : Bytes) (v : Option Bytes)
    → or_default none (lookup k (insert key v s.0)) ≡ (if text_eq key k then v else stored s k)
insert-stored s key k v = rw (lookup-insert key k v s.0) (ground arith)

local-IsStore : IsStore local stored
unfolding text_eq
local-IsStore = record {
  keeps_get = λ w k. refl;
  keeps_close = λ w c k. refl;
  gets = λ w c key. (refl, refl);
  sets = λ w c key text n. (refl, λ k. insert-stored w key k (some text));
  dels = λ w c key. (refl, λ k. insert-stored w key k none);
}

abbrev borrowed : Server → ℕ
borrowed s = s.1

abbrev three_calls : List (StoreCall Bytes)
three_calls =
    sets (codes "a") (codes "x") 9 ∷ sets (codes "b") (codes "y") 9 ∷ dels (codes "b") ∷ []

abbrev plain : Bytes → Outcome Bytes
plain s = ok s

abbrev replaced : Bytes → Bytes → Bytes × Outcome (Unit {0})
replaced s old = (s, ok tt)

get-map_after_example :
    (get local (run_store local plain ([], 0) three_calls) (codes "a")).1 ≡ ok (codes "x")
unfolding text_eq
get-map_after_example =
    get-map_after local plain stored local-IsStore ([], 0) three_calls (codes "a")

get_struct-set_example :
    let (w, r) = set_with_expire local plain ([], 0) (codes "a") (codes "x") (pos 10) in
    (r ≡ ok tt)
    × ((get_struct local replaced w (codes "a") []).1 ≡ codes "x")
    × ((get_struct local replaced w (codes "a") []).2 ≡ ok tt)
get_struct-set_example =
    get_struct-set local plain stored local-IsStore replaced ([], 0) (codes "a") (codes "x") [] 9
      refl refl

local-IsCounted : IsCounted local borrowed
local-IsCounted = record {
  borrows = λ w. refl;
  runs = λ w c command args. kept w c command args;
  gives_back = λ w c. refl;
}
  where
    kept :
        (w : Server) (c : Unit {0}) (command : Bytes) (args : List Value)
        → borrowed (command_at w c command args).0 ≡ borrowed w
    kept w c command args = ground arith

abbrev five_calls : List (ClientCall Bytes)
five_calls =
    ClientCall.sets (codes "a") (codes "x") (pos 9)
    ∷ ClientCall.gets (codes "b")
    ∷ ClientCall.gets_struct (codes "a") []
    ∷ ClientCall.does (codes "PING") []
    ∷ ClientCall.dels (codes "a")
    ∷ []

run_client-borrowed_example : (run_client local plain replaced ([], 3) five_calls).1 ≡ 3
run_client-borrowed_example =
    run_client-borrowed local plain replaced borrowed local-IsCounted ([], 3) five_calls
