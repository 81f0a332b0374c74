-- ===== src/Struct/Fields/Laws.antt =====
-- The map from fields to columns, and one row, against a description field by field.
use onedb.Prelude.{
  ℕ, zero, suc, [], ◌∷◌, ◌++◌, append_assoc, ◌≡◌, refl, ap, ◌∙◌, ◌⊎◌, List, map, Bytes, length,
  Option, none, some, get_elem?, set, get_elem?-append_self, set-append_self, length-append,
  length-map, text_eq, arith, inl, inr, Bool-cases, if◌then◌else◌,
}
use onedb.Go.Outcome.{Outcome, ok, err, panic, out_of_fuel, ◌>>=◌}
use onedb.Go.Values.{Value, Runtime}
use onedb.Rows.Script.{holding}
use onedb.Struct.SetValue.{set_value}
use onedb.Struct.Fields.{
  Field, Struct, db_index_from, get_db_index, add_info, field_infos, get_item_map, set_field,
  set_fields,
}

module _ (rt : Runtime) where
  -- The value of the first column with the name of the field.
  abbrev pub column_value : Bytes → List Bytes → List Value → Option Value
  column_value name (column ∷ columns) (v ∷ row) =
      if text_eq column (rt.to_lower name) then some v else column_value name columns row
  column_value name _ _ = none

  -- The field with the value stored, or left alone if no column has its name.
  unfoldable pub fill_field : Field → Option Value → Outcome Field
  fill_field field none = ok field
  fill_field field (some src) = do
    v ← set_value rt field.place src
    ok (record field {
      place = record field.place { cell = record field.place.cell { value = v } };
    })

  -- Every field in turn gets the value of its column.
  unfoldable pub fill_struct : Struct → List Bytes → List Value → Outcome Struct
  fill_struct [] columns row = ok []
  fill_struct (field ∷ fields) columns row = do
    field' ← fill_field field (column_value field.name columns row)
    fields' ← fill_struct fields columns row
    ok (field' ∷ fields')

  -- `getDBIndex` finds an index exactly if a column has the name, and it is that of its value.
  abbrev pub Found : List Value → Option ℕ → Option Value → Type 0
  Found row index value =
      ((index ≡ none) × (value ≡ none))
      ⊎ ((j : ℕ) × (v : Value) × (index ≡ some j) × (value ≡ some v) × (get_elem? row j ≡ some v))

  db_index_from-Found :
      (name : Bytes) (columns : List Bytes) (done row : List Value)
      → length columns ≡ length row
      → Found
          (done ++ row)
          (db_index_from rt name (length done) columns)
          (column_value name columns row)
  unfolding db_index_from
  db_index_from-Found name [] done [] f = inl (refl, refl)
  db_index_from-Found name [] done (v ∷ row) f = absurd (omega arith)
  db_index_from-Found name (column ∷ columns) done [] f = absurd (omega arith)
  db_index_from-Found name (column ∷ columns) done (v ∷ row) f =
      let next = db_index_from-Found name columns (done ++ v ∷ []) row (omega arith) in
      let here : Found (done ++ v ∷ row) (some (length done)) (some v) =
        inr (length done, v, refl, refl, get_elem?-append_self done v row) in
      let len : length (done ++ v ∷ []) ≡ suc (length done) =
        omega (arith, length-append done (v ∷ [])) in
      elim (Bool-cases (text_eq column (rt.to_lower name))) [
        | inl same ↦ rw same here
        | inr other ↦ rw other (rw (append_assoc, len) at next)
      ]

  -- For a row with a value for every column, `getDBIndex` finds no index exactly where no column
  -- has the name of the field in lower case, and otherwise the index at which the row holds the
  -- value of the first such column.
  pub get_db_index-Found :
      (name : Bytes) (columns : List Bytes) (row : List Value)
      → length columns ≡ length row
      → Found row (get_db_index rt name columns) (column_value name columns row)
  unfolding get_db_index
  get_db_index-Found name columns row f = db_index_from-Found name columns [] row f

get_elem?-holding :
    (row : List Value) (j : ℕ) {v : Value}
    → get_elem? row j ≡ some v
    → get_elem? (map holding row) j ≡ some (holding v)
get_elem?-holding [] j h = cc
get_elem?-holding (w ∷ row) zero h = ground arith
get_elem?-holding (w ∷ row) (suc j) h = get_elem?-holding row j h

abbrev after : Struct → Outcome Struct → Outcome Struct
after done r = r >>= λ fields. ok (done ++ fields)

after_cons :
    (done : Struct) (field : Field) (r : Outcome Struct)
    → after (done ++ field ∷ []) r ≡ after done (r >>= λ fields. ok (field ∷ fields))
after_cons done field (ok fields) = ap ok (append_assoc done (field ∷ []) fields)
after_cons done field (err e) = refl
after_cons done field panic = refl
after_cons done field out_of_fuel = refl

after_nil : (r : Outcome Struct) → after [] r ≡ r
after_nil (ok fields) = refl
after_nil (err e) = refl
after_nil panic = refl
after_nil out_of_fuel = refl

-- The field with a new value.
abbrev stored : Field → Value → Field
stored field v = record field {
  place = record field.place { cell = record field.place.cell { value = v } };
}

-- A field that is stored in place, and then the rest of the loop.
fill_step :
    (r : Outcome Value) (done : Struct) (field : Field) (fields : Struct) (rest : Outcome Struct)
    (loop : Struct → Outcome Struct)
    → ((f : Field) → loop (done ++ f ∷ fields) ≡ after done (rest >>= λ fs. ok (f ∷ fs)))
    → ((r >>= λ v. ok (set (done ++ field ∷ fields) (length done) (stored field v))) >>= loop)
      ≡ after done ((r >>= λ v. ok (stored field v)) >>= λ f. rest >>= λ fs. ok (f ∷ fs))
fill_step (ok v) done field fields rest loop h =
    ap loop (set-append_self done field (stored field v) fields) ∙ h (stored field v)
fill_step (err e) done field fields rest loop h = refl
fill_step panic done field fields rest loop h = refl
fill_step out_of_fuel done field fields rest loop h = refl

module _ (rt : Runtime) (columns : List Bytes) (row : List Value)
    (fits : length columns ≡ length row) where
  -- The loop over the fields behind `done`, in a struct whose first fields are `done`.
  abbrev Loops : Struct → Struct → Type 0
  Loops done fields =
      set_fields rt (done ++ fields) (field_infos rt (length done) fields columns) (map holding row)
      ≡ after done (fill_struct rt fields columns row)

  Loops-cons :
      (done : Struct) (field : Field) (fields : Struct)
      → Loops (done ++ field ∷ []) fields
      → set_fields rt
          (done ++ field ∷ fields)
          (field_infos rt (suc (length done)) fields columns)
          (map holding row)
        ≡ after done (fill_struct rt fields columns row >>= λ fs. ok (field ∷ fs))
  Loops-cons done field fields h =
      let len : length (done ++ field ∷ []) ≡ suc (length done) =
        omega (arith, length-append done (field ∷ [])) in
      rw (append_assoc done (field ∷ []) fields, len) at h
      ∙ after_cons done field (fill_struct rt fields columns row)

  Loops-field :
      (done : Struct) (field : Field) (fields : Struct) (index : Option ℕ) (value : Option Value)
      → Found rt row index value
      → ((f : Field) → Loops (done ++ f ∷ []) fields)
      → set_fields rt
          (done ++ field ∷ fields)
          (add_info rt field
            (length done)
            index
            (field_infos rt (suc (length done)) fields columns))
          (map holding row)
        ≡ after done (
            fill_field rt field value >>= λ f.
            fill_struct rt fields columns row >>= λ fs. ok (f ∷ fs))
  unfolding add_info fill_field set_fields set_field
  Loops-field done field fields index value (inl (e, f)) rest =
      rw (e, f) (Loops-cons done field fields (rest field))
  Loops-field done field fields index value (inr (j, v, e, f, g)) rest =
      let infos = field_infos rt (suc (length done)) fields columns in
      rw (e, f)
        (rw (get_elem?-append_self done field fields, get_elem?-holding row j g)
          (fill_step (set_value rt field.place v) done field fields
            (fill_struct rt fields columns row) (λ item. set_fields rt item infos (map holding row))
            (λ f'. Loops-cons done f' fields (rest f'))))

  Loops-head :
      (done : Struct) (field : Field) (fields : Struct)
      → ((f : Field) → Loops (done ++ f ∷ []) fields)
      → Loops done (field ∷ fields)
  unfolding field_infos fill_struct
  Loops-head done field fields rest =
      Loops-field done field fields (get_db_index rt field.name columns)
        (column_value rt field.name columns row) (get_db_index-Found rt field.name columns row fits)
        rest

  Loops-all : (done fields : Struct) → Loops done fields
  Loops-all done [] = unfold set_fields field_infos fill_struct in refl
  Loops-all done (field ∷ fields) =
      Loops-head done field fields (λ f. Loops-all (done ++ f ∷ []) fields)

-- For a row with a value for every column, the two passes of the source, which find a column
-- index for each field and then store by index, do what one pass over the fields does: each field
-- gets the value of the first column whose name in lower case is that of the field in lower case,
-- other fields are left alone, and the first panic in the order of the fields is the result.
pub set_fields-fill_struct :
    (rt : Runtime) (names : List Bytes) (row : List Value) (item : Struct)
    → length names ≡ length row
    → set_fields rt item (get_item_map rt names item) (map holding row)
      ≡ fill_struct rt item (map rt.to_lower names) row
unfolding get_item_map
set_fields-fill_struct rt names row item fits =
    let columns = map rt.to_lower names in
    Loops-all rt columns row (length-map names rt.to_lower ∙ fits) [] item
    ∙ after_nil (fill_struct rt item columns row)
