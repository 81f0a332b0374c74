-- ===== src/Queries/Laws.antt =====
-- The query functions end to end, over any backend.
use onedb.Prelude.{ℕ, ◌<◌, ◌++◌, ◌≡◌, refl, ap, ◌∙◌, none, some, List, map, Bytes, length, All}
use onedb.Go.Outcome.{Error, query_is_nil, not_slice_pointer, not_struct_pointer, Outcome, ok, err}
use onedb.Go.Values.{Value, Runtime}
use onedb.Json.Result.{get_json}
use onedb.Json.Result.Laws.{Fits, array, get_json-array}
use onedb.Json.Scalar.{jsonize}
use onedb.Queries.{
  Query, Backender, Queried, slice_pointer, no_pointer, StructResult, query_json, query_json_row,
  query_struct, query_struct_row, query_values, json_queried, struct_queried, into_slice,
}
use onedb.Rows.{Cell}
use onedb.Rows.Script.{Yields}
use onedb.Struct.Fields.{Struct}
use onedb.Struct.Result.{FieldType, new_item, get_struct}
use onedb.Struct.Result.Laws.{Fills, get_struct-fill}

module _ (rt : Runtime) {B S T : Type 0} (bk : Backender B S T) {b b' : B} {s t : S} (q : Query)
    (names : List Bytes) where
  -- `QueryJSON` over a backend whose query returns a scanner that has no error at the start,
  -- gives its column names, and yields `rows`, each with a value for every column: with more fuel
  -- than rows it returns the array of their objects, and the scanner has been closed at its end.
  pub query_json-array :
      (fuel : ℕ) {rows : List (List Value)}
      → bk.query b q ≡ (b', ok s)
      → bk.rows.last_err s ≡ none
      → bk.rows.columns s ≡ ok names
      → Yields bk.rows s rows t
      → All (Fits names) rows
      → length rows < fuel
      → query_json rt bk fuel b q ≡ record {
        backend = b';
        closed = some (bk.rows.close t).0;
        result = ok (array rt (map jsonize names) rows);
      }
  unfolding query_json json_queried
  query_json-array fuel {rows} e no_err cols y fits lt =
      ap (json_queried rt bk (get_json rt bk.rows fuel)) e
      ∙ ap closing (get_json-array rt bk.rows names fuel no_err cols y fits lt)
    where
      closing : S × Outcome Bytes → Queried B S (Outcome Bytes)
      closing (s', r) = record { backend = b'; closed = some (bk.rows.close s').0; result = r }

  -- `QueryStruct` with a pointer to a slice of structs, over a backend whose query returns a
  -- scanner that has no error at the start, gives its column names, and yields `rows`, each with
  -- a value for every column and each filling a fresh struct without a panic: with more fuel than
  -- rows the slice has one more struct for each row, in order, there is no error, and the scanner
  -- has been closed at its end.
  pub query_struct-fill :
      (fuel : ℕ) (item_type : List FieldType) {rows : List (List Value)}
      (filled result : List Struct)
      → bk.query b q ≡ (b', ok s)
      → bk.rows.last_err s ≡ none
      → bk.rows.columns s ≡ ok names
      → Yields bk.rows s rows t
      → All (Fits names) rows
      → Fills rt bk.rows names (new_item item_type) rows filled
      → length rows < fuel
      → query_struct rt bk fuel b (slice_pointer item_type result) q ≡ record {
        backend = b';
        closed = some (bk.rows.close t).0;
        result = (slice_pointer item_type (result ++ filled), ok tt);
      }
  unfolding query_struct struct_queried into_slice
  query_struct-fill fuel item_type {rows} filled result e no_err cols y fits f lt =
      ap
        (struct_queried rt bk (slice_pointer item_type result)
          (λ rows'. into_slice rt bk item_type (get_struct rt bk.rows fuel item_type rows' result)))
        e
      ∙ ap closing
          (get_struct-fill rt bk.rows names fuel item_type filled result no_err cols y fits f lt)
    where
      closing : S × List Struct × Outcome (Unit {0}) → Queried B S StructResult
      closing (s', r, o) = record {
        backend = b';
        closed = some (bk.rows.close s').0;
        result = (slice_pointer item_type r, o);
      }

module _ (rt : Runtime) {B S T : Type 0} (bk : Backender B S T) (b : B) (q : Query) where
  -- A result argument that is no pointer, a nil query, and a failing query: the error comes back,
  -- the result argument is left alone, nothing is left open, and the backend is not asked if the
  -- argument or the query is refused.
  pub query_refusals :
      (fuel : ℕ) (dest : List Cell)
      → (query_struct rt bk fuel b no_pointer q
          ≡ record { backend = b; closed = none; result = (no_pointer, err not_slice_pointer) })
        × (query_struct_row rt bk b no_pointer q
            ≡ record { backend = b; closed = none; result = (no_pointer, err not_struct_pointer) })
        × (query_values bk b none dest ≡ (b, dest, err query_is_nil))
        × ((b' : B) (e : Error)
            → bk.query b q ≡ (b', err e)
            → (query_json rt bk fuel b q ≡ record { backend = b'; closed = none; result = err e })
              × (query_json_row rt bk b q ≡ record { backend = b'; closed = none; result = err e }))
  unfolding query_struct query_struct_row query_values query_json query_json_row json_queried
  query_refusals fuel dest = (refl, refl, refl, λ b' e h. (rw h refl, rw h refl))
