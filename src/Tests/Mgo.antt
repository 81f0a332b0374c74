-- ===== src/Tests/Mgo.antt =====
-- A fake session with two queries, and conversions of integers and Booleans.
use onedb.Prelude.{some, [], ◌∷◌, ◌≡◌, refl, Bool, false, none, List, Bytes, codes, text_eq, arith}
use onedb.Go.Ints.{pos, negsuc}
use onedb.Go.Outcome.{ok}
use onedb.Go.Strconv.{syntax_error}
use onedb.Go.Types.{int16, int64, basic, Kind}
use onedb.Go.Values.{Value, nil, int_value, string_value}
use onedb.Mgo.Scalars.{Reflection}
use onedb.Mgo.Convert.RoundTrip.{assign, assign-assign}
use onedb.Mgo.Session.{
  FakeMongoQuery, new_fake_session, new_method_call, SessionCall, opens_collection, calls,
  finds_ref, count, find, remove, run_calls, run_call, querier,
}
use onedb.Go.Types.{int32}
use onedb.Go.Maps.{lookup, insert}
use onedb.Mgo.Backend.Client.{sort, limit, one, checked, and_then, query_steps, query_end}
use onedb.Mgo.Session.Query.{fake_query, variable}
use onedb.Mgo.Session.Fetch.{find_one-exact}
use onedb.Mgo.Session.View.{collection_of}
use onedb.Mgo.Session.Laws.{methods_called-all_calls, find-first_match}
use onedb.Struct.SetValue.{int_bits, uint_bits}
use onedb.Tests.Data.{test_runtime}

-- Equality of strings.
abbrev same_text : Value → Value → Bool
same_text (string_value s) (string_value t) = text_eq s t
same_text _ _ = false

abbrev text : Bytes → Value
text s = string_value s

abbrev stored_query : Bytes → Bytes → Bytes → FakeMongoQuery
stored_query collection query returned = record {
  database = codes "shop";
  collection = collection;
  query = text query;
  returned = text returned;
}

abbrev two_queries : List FakeMongoQuery
two_queries =
    stored_query (codes "carts") (codes "a") (codes "first")
    ∷ stored_query (codes "users") (codes "a") (codes "second")
    ∷ stored_query (codes "users") (codes "a") (codes "third")
    ∷ []

abbrev three_calls : List SessionCall
three_calls =
    calls (codes "shop") (codes "users") count
    ∷ calls (codes "shop") (codes "carts") (remove (text (codes "b")))
    ∷ finds_ref
        (record { collection = codes "users"; id = text (codes "c"); database = codes "shop" })
    ∷ opens_collection (codes "other") (codes "users")
    ∷ []

find-first_match_example :
    (run_call same_text
      (run_calls same_text (new_fake_session two_queries) three_calls)
      (calls (codes "shop") (codes "users") (find (text (codes "a"))))).1
    ≡ querier (text (codes "second"))
unfolding text_eq
find-first_match_example =
    find-first_match same_text two_queries three_calls (codes "shop") (codes "users")
      (text (codes "a"))

methods_called-all_calls_example :
    (collection_of
      (run_calls same_text (new_fake_session two_queries) three_calls)
      (codes "shop")
      (codes "users")).methods_called
    ≡ new_method_call (codes "Count") []
      ∷ new_method_call (codes "FindId") (text (codes "c") ∷ [])
      ∷ []
unfolding text_eq
methods_called-all_calls_example =
    methods_called-all_calls same_text two_queries three_calls (codes "shop") (codes "users")

-- A `reflect` without declared types, and floats that nothing parses.
abbrev no_declared_types : Reflection
no_declared_types = record {
  underlying = λ v. nil;
  declare = λ t v. v;
  assignable_to = λ t u. false;
  convert = λ t v. none;
  declared_pointer = λ t old src. (old, ok tt);
  format_float = λ k x. codes "0";
  parse_float = λ k s. syntax_error;
}

-- 300 of an `int16` into an `int32`.
abbrev number_query : FakeMongoQuery
number_query = record {
  database = codes "shop";
  collection = codes "users";
  query = text (codes "a");
  returned = int_value int16 (pos 300);
}

find_one-exact_example :
    and_then
      (query_steps
        (fake_query test_runtime no_declared_types)
        (sort (codes "name" ∷ []) ∷ limit (pos 1) ∷ [])
        (record { type = basic (Kind.signed int32); value = nil } ∷ [])
        (int_value int16 (pos 300)))
      (query_end (fake_query test_runtime no_declared_types) (one (variable 0)))
    ≡ (
      record { type = basic (Kind.signed int32); value = int_value int32 (pos 300) } ∷ [],
      some (checked none),
    )
unfolding int_bits uint_bits text_eq run_call run_calls lookup insert new_fake_session
find_one-exact_example =
    find_one-exact test_runtime no_declared_types same_text (number_query ∷ []) three_calls
      (codes "shop") (codes "users") (text (codes "a")) (int_value int16 (pos 300)) (pos 300)
      (basic (Kind.signed int32)) nil (int_value int16 (pos 300))
      (sort (codes "name" ∷ []) ∷ limit (pos 1) ∷ [])
      (record { type = basic (Kind.signed int32); value = nil } ∷ []) 0 refl refl (omega arith) tt
      refl refl

assign-assign_example :
    ((assign test_runtime no_declared_types (basic Kind.string) nil (int_value int64 (negsuc 41))).1
      ≡ ok tt)
    × (assign test_runtime no_declared_types
          (basic (Kind.signed int64))
          nil
          (assign test_runtime no_declared_types
            (basic Kind.string)
            nil
            (int_value int64 (negsuc 41))).0
        ≡ (int_value int64 (negsuc 41), ok tt))
unfolding int_bits
assign-assign_example =
    assign-assign test_runtime no_declared_types (int_value int64 (negsuc 41))
      (basic (Kind.signed int64)) nil nil refl (omega arith)
