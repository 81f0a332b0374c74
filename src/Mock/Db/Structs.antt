-- ===== src/Mock/Db/Structs.antt =====
-- Structs through the mock and back: what `QueryStruct` makes of the structs that a mock is given.
use onedb.Prelude.{
  ℕ, suc, ◌<◌, [], ◌∷◌, ◌++◌, append_assoc, ◌≡◌, refl, sym, ap, ◌∙◌, Bool, true, false, some, List,
  map, Bytes, codes, length, length-map, length-append, text_eq, text_eq_refl, All, arith, ◌||◌,
}
use onedb.Go.Outcome.{Outcome, ok}
use onedb.Go.Values.{Value, type_of, Runtime}
use onedb.Mock.Db.{
  MethodsRun, MockDb, save_method_call, query_arguments, backend, mock_query_struct,
}
use onedb.Mock.Db.Laws.{method_run, query-first, Fits-values}
use onedb.Mock.Scanner.{MockData, structs, MockRowsScanner, new_rows_scanner, mock_rows}
use onedb.Mock.Scanner.Laws.{values, IsExported, at_row, Yields-new_rows_scanner}
use onedb.Queries.{Query, Queried, slice_pointer, StructResult}
use onedb.Queries.Laws.{query_struct-fill}
use onedb.Go.Types.{Interfaces, GoType}
use onedb.Struct.Fields.{Field, Struct}
use onedb.Struct.Fields.Laws.{column_value, fill_field, fill_struct}
use onedb.Struct.Result.{FieldType, new_item, zero_value}
use onedb.Struct.Result.Laws.{Fills}
use onedb.Struct.SetValue.{Place}
use onedb.Struct.SetValue.Laws.{InRange, FloatsWiden, set_value_same_type}

abbrev pub names_of : List FieldType → List Bytes
names_of = map (λ f. f.name)

-- The fields are of the types, which are exported, and hold values of them.
abbrev pub IsOf : List FieldType → List Place → Type 0
IsOf [] [] = Unit
IsOf (f ∷ fs) (p ∷ ps) =
    ((f.exported ≡ true)
      × (p.can_set ≡ true)
      × (p.cell.type ≡ f.type)
      × InRange p.cell.value
      × (type_of p.cell.value ≡ some f.type))
    × IsOf fs ps
IsOf _ _ = ⊥

-- The struct with these fields.
unfoldable pub struct_of : List FieldType → List Place → Struct
struct_of (f ∷ fs) (p ∷ ps) = record { name = f.name; place = p } ∷ struct_of fs ps
struct_of _ _ = []

unfoldable pub is_among : Bytes → List Bytes → Bool
is_among name [] = false
is_among name (n ∷ ns) = text_eq n name || is_among name ns

module _ (rt : Runtime) where
  -- No two names are the same in lower case, nor is one among those in front.
  abbrev pub AreNew : List Bytes → List Bytes → Type 0
  AreNew done [] = Unit
  AreNew done (name ∷ names) =
      (is_among (rt.to_lower name) done ≡ false) × AreNew (done ++ rt.to_lower name ∷ []) names

  column_value-append :
      (name : Bytes) (done columns : List Bytes) (done_values row : List Value)
      → length done ≡ length done_values
      → is_among (rt.to_lower name) done ≡ false
      → column_value rt name (done ++ columns) (done_values ++ row)
        ≡ column_value rt name columns row
  unfolding is_among
  column_value-append name [] columns [] row h new = refl
  column_value-append name [] columns (v ∷ vs) row h new = absurd (omega arith)
  column_value-append name (c ∷ done) columns [] row h new = absurd (omega arith)
  column_value-append name (c ∷ done) columns (v ∷ vs) row h new =
      let same : length done ≡ length vs = omega arith in
      let differs : text_eq c (rt.to_lower name) ≡ false = ground arith in
      let later : is_among (rt.to_lower name) done ≡ false = ground arith in
      rw differs (column_value-append name done columns vs row same later)

  column_value-head :
      (name : Bytes) (columns : List Bytes) (v : Value) (row : List Value)
      → column_value rt name (rt.to_lower name ∷ columns) (v ∷ row) ≡ some v
  column_value-head name columns v row = rw (text_eq_refl (rt.to_lower name)) refl

  -- The place of the field, with the value in it, is the place of the struct that was given.
  fill_field-same :
      (f : FieldType) (p : Place) (old : Value)
      → FloatsWiden rt
      → f.exported ≡ true
      → p.can_set ≡ true
      → p.cell.type ≡ f.type
      → InRange p.cell.value
      → type_of p.cell.value ≡ some f.type
      → fill_field rt
          (record {
            name = f.name;
            place = record { can_set = f.exported; cell = record { type = f.type; value = old } };
          })
          (some p.cell.value)
        ≡ ok (record { name = f.name; place = p })
  unfolding fill_field
  fill_field-same f p old widen exported settable typed range dynamic =
      rw (exported, set_value_same_type rt p.cell.value old widen range dynamic)
        (ap (λ b. field b f.type) (sym settable) ∙ ap (λ t. field p.can_set t) (sym typed))
    where
      field : Bool → GoType → Outcome Field
      field b t = ok (record {
        name = f.name;
        place = record { can_set = b; cell = record { type = t; value = p.cell.value } };
      })

  fill_struct-struct_of :
      (fs : List FieldType) (ps : List Place) (done : List Bytes) (done_values : List Value)
      → FloatsWiden rt
      → IsOf fs ps
      → length done ≡ length done_values
      → AreNew done (names_of fs)
      → fill_struct rt
          (new_item fs)
          (done ++ map rt.to_lower (names_of fs))
          (done_values ++ values ps)
        ≡ ok (struct_of fs ps)
  unfolding fill_struct new_item struct_of
  fill_struct-struct_of [] [] done done_values widen h same new = refl
  fill_struct-struct_of [] (p ∷ ps) done done_values widen h same new = absurd h
  fill_struct-struct_of (f ∷ fs) [] done done_values widen h same new = absurd h
  fill_struct-struct_of (f ∷ fs) (p ∷ ps) done done_values widen
        ((exported, settable, typed, range, dynamic), h) same (first, new) =
      let columns = map rt.to_lower (names_of fs) in
      let name = rt.to_lower f.name in
      let v = p.cell.value in
      let value =
        column_value-append f.name done (name ∷ columns) done_values (v ∷ values ps) same first
        ∙ column_value-head f.name columns v (values ps) in
      let longer : length (done ++ name ∷ []) ≡ length (done_values ++ v ∷ []) =
        omega (arith, length-append done (name ∷ []), length-append done_values (v ∷ [])) in
      let rest =
        fill_struct-struct_of fs ps (done ++ name ∷ []) (done_values ++ v ∷ []) widen h longer
          new in
      let rest' =
        ap (λ c. fill_struct rt (new_item fs) c (done_values ++ v ∷ values ps))
          (sym (append_assoc done (name ∷ []) columns))
        ∙ ap (fill_struct rt (new_item fs) ((done ++ name ∷ []) ++ columns))
            (sym (append_assoc done_values (v ∷ []) (values ps)))
        ∙ rest in
      rw
        (
          value,
          fill_field-same f p (zero_value f.type) widen exported settable typed range dynamic,
          rest',
        )
        refl

  length-IsOf :
      (fs : List FieldType) (ps : List Place) → IsOf fs ps → length (names_of fs) ≡ length ps
  length-IsOf [] [] h = refl
  length-IsOf [] (p ∷ ps) h = absurd h
  length-IsOf (f ∷ fs) [] h = absurd h
  length-IsOf (f ∷ fs) (p ∷ ps) (_, h) = ap suc (length-IsOf fs ps h)

  IsExported-IsOf : (fs : List FieldType) (ps : List Place) → IsOf fs ps → All IsExported ps
  IsExported-IsOf [] [] h = tt
  IsExported-IsOf [] (p ∷ ps) h = absurd h
  IsExported-IsOf (f ∷ fs) [] h = absurd h
  IsExported-IsOf (f ∷ fs) (p ∷ ps) ((_, settable, _, _, _), h) =
      (settable, IsExported-IsOf fs ps h)

  module _ (fs : List FieldType) (widen : FloatsWiden rt) (new : AreNew [] (names_of fs)) where
    Fills-struct_of :
        (rows : List (List Place))
        → All (IsOf fs) rows
        → Fills rt mock_rows (names_of fs) (new_item fs) (map values rows) (map (struct_of fs) rows)
    Fills-struct_of [] h = tt
    Fills-struct_of (ps ∷ rows) (h, hs) =
        (fill_struct-struct_of fs ps [] [] widen h refl new, Fills-struct_of rows hs)

    rows_fit :
        (rows : List (List Place))
        → All (IsOf fs) rows
        → All (λ row. length (names_of fs) ≡ length row) rows × All (All IsExported) rows
    rows_fit [] h = (tt, tt)
    rows_fit (ps ∷ rows) (h, hs) =
        let (fit, exported) = rows_fit rows hs in
        ((length-IsOf fs ps h, fit), (IsExported-IsOf fs ps h, exported))

    -- `QueryStruct`, with a pointer to a slice of structs, of a mock whose next data is a slice
    -- of structs of the same type, whose fields are exported, have names that differ in lower
    -- case, and hold values of their types: where a 32-bit float survives the conversion to 64
    -- bits and back, and with more fuel than structs, exactly those structs are appended to the
    -- slice, there is no error, and the mock has one slice less and the two calls in its log.
    pub mock_query_struct-structs :
        (fuel : ℕ) (r : MockDb) (pointer : Value) (q : Query) (known : Interfaces)
        (rows : List (List Place)) (rest : List MockData) (result : List Struct)
        → r.mock_data ≡ structs known (names_of fs) rows ∷ rest
        → All (IsOf fs) rows
        → length rows < fuel
        → mock_query_struct rt fuel r pointer (slice_pointer fs result) q ≡ record {
          backend = record r {
            mock_data = rest;
            methods_run =
                r.methods_run
                ++ method_run (codes "QueryStruct") (pointer ∷ query_arguments q)
                  ∷ method_run (codes "Query") (query_arguments q)
                  ∷ [];
          };
          closed = some (at_row known (names_of fs) rows (suc (length rows)));
          result = (slice_pointer fs (result ++ map (struct_of fs) rows), ok tt);
        }
    unfolding mock_query_struct save_method_call mock_rows new_rows_scanner
    mock_query_struct-structs fuel r pointer q known rows rest result h is_of lt =
        let names = names_of fs in
        let logged = save_method_call (codes "QueryStruct") (pointer ∷ query_arguments q) r in
        let (fit, exported) = rows_fit rows is_of in
        let run =
          query_struct-fill rt backend q names fuel fs (map (struct_of fs) rows) result
            (query-first logged q (structs known names rows) rest h) refl refl
            (Yields-new_rows_scanner known names rows exported) (Fits-values names rows fit)
            (Fills-struct_of rows is_of) (omega (arith, length-map rows values)) in
        run
        ∙ ap
            (λ (log : List MethodsRun).
              let u : Queried MockDb MockRowsScanner StructResult = record {
                backend = record r { mock_data = rest; methods_run = log };
                closed = some (at_row known names rows (suc (length rows)));
                result = (slice_pointer fs (result ++ map (struct_of fs) rows), ok tt);
              } in
              u)
            (append_assoc r.methods_run
              (method_run (codes "QueryStruct") (pointer ∷ query_arguments q) ∷ [])
              (method_run (codes "Query") (query_arguments q) ∷ []))
