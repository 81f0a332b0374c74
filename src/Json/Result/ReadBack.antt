-- ===== src/Json/Result/ReadBack.antt =====
-- `getJSON`, and what the document that it returns means.
use onedb.Prelude.{
  ℕ, ◌<◌, [], ◌∷◌, ◌++◌, ◌≡◌, refl, inl, inr, Option, none, some, List, map, length, Bytes, codes,
  text_eq, All, arith, if◌then◌else◌,
}
use onedb.Go.Outcome.{ok}
use onedb.Go.Values.{Value, Runtime}
use onedb.Json.Reader.Document.{json_object, Json, Object, is_stop, member, objects}
use onedb.Json.Reader.Document.Laws.{
  Ends, IsPlain, member-value, json_object-members, objects-array,
}
use onedb.Json.Reader.Items.{Stops, SpellsAll}
use onedb.Json.Result.{get_json}
use onedb.Json.Result.Fields.{members}
use onedb.Json.Result.Laws.{Fits, object, array, get_json-array}
use onedb.Json.Result.Texts.{Shows}
use onedb.Json.Result.Shown.{shown, IsReadable, json_text-shown}
use onedb.Json.Scalar.{jsonize, json_text}
use onedb.Rows.{RowsScanner}
use onedb.Rows.Script.{Yields}

-- The members for a row: one for each value that is not written as `null`.
abbrev with_member : Bytes → Option Json → Object → Object
with_member name none o = o
with_member name (some j) o = (name, j) ∷ o

unfoldable pub row_object : Runtime → List Bytes → List Value → Object
row_object rt (name ∷ names) (v ∷ row) = with_member name (shown rt v) (row_object rt names row)
row_object rt _ _ = []

Stops-Ends : (s : Bytes) → Stops member b'}' s → Ends s
unfolding is_stop
Stops-Ends s (c, t, e, inl comma) = (c, t, e, ground arith)
Stops-Ends s (c, t, e, inr close) = (c, t, e, ground arith)

module _ (rt : Runtime) where
  abbrev AllSpell : List Bytes → Object → Type 0
  AllSpell = SpellsAll member b'}' b'"'

  member-spelled :
      (name x : Bytes) (o : Option Json) (xs : List Bytes) (l : Object)
      → All IsPlain name
      → Shows x o
      → AllSpell xs l
      → AllSpell
          (if text_eq x (codes "null") then xs else (jsonize name ++ x) ∷ xs)
          (with_member name o l)
  unfolding jsonize text_eq
  member-spelled name x none xs l plain h hs = rw h hs
  member-spelled name x (some j) xs l plain (shows, reads) hs =
      rw shows
        (((_, refl), λ s stops. member-value name x s j plain (reads s (Stops-Ends s stops))), hs)

  members-spelled :
      (names : List Bytes) (row : List Value)
      → All (All IsPlain) names
      → All (IsReadable rt) row
      → AllSpell (members rt (map jsonize names) row) (row_object rt names row)
  unfolding members row_object
  members-spelled [] row plain h = tt
  members-spelled (name ∷ names) [] plain h = tt
  members-spelled (name ∷ names) (v ∷ row) (p, plain) (r, h) =
      member-spelled name (json_text rt v) (shown rt v) (members rt (map jsonize names) row)
        (row_object rt names row) p (json_text-shown rt v r) (members-spelled names row plain h)

  objects-spelled :
      (names : List Bytes) (rows : List (List Value))
      → All (All IsPlain) names
      → All (All (IsReadable rt)) rows
      → SpellsAll json_object b']' b'{'
          (map (object rt (map jsonize names)) rows)
          (map (row_object rt names) rows)
  objects-spelled names [] plain h = tt
  objects-spelled names (row ∷ rows) plain (r, h) = (
    (
      (_, refl),
      λ s stops.
          json_object-members (members rt (map jsonize names) row) (row_object rt names row) s
            (members-spelled names row plain r),
    ),
    objects-spelled names rows plain h,
  )

  -- `getJSON` on a scanner that has no error at the start, gives its column names, which hold no
  -- quote, backslash or control character, and yields `rows`, each with a value for every column,
  -- of kinds whose text does not come from the runtime or times that the runtime writes as plain
  -- text between quotes: with more fuel than rows it returns a text that a JSON reader takes for
  -- an array with one object for each row, in order, whose members are the columns in order with
  -- their values, those left out that are nil or an empty `[]byte`.
  pub get_json-objects :
      {S : Type 0} (sc : RowsScanner S) {s t : S} (names : List Bytes) (fuel : ℕ)
      {rows : List (List Value)}
      → sc.last_err s ≡ none
      → sc.columns s ≡ ok names
      → Yields sc s rows t
      → All (Fits names) rows
      → All (All IsPlain) names
      → All (All (IsReadable rt)) rows
      → length rows < fuel
      → (out : Bytes) × (get_json rt sc fuel s ≡ (t, ok out))
        × (objects out ≡ some (map (row_object rt names) rows))
  get_json-objects sc names fuel {rows = rows} no_err cols y fits plain readable lt = (
    array rt (map jsonize names) rows,
    get_json-array rt sc names fuel no_err cols y fits lt,
    objects-array (map (object rt (map jsonize names)) rows) (map (row_object rt names) rows)
        (objects-spelled names rows plain readable),
  )
