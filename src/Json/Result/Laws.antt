-- ===== src/Json/Result/Laws.antt =====
-- A whole result set: `getJSON` and `getJSONRow` against the array, or object, of the rows.
use onedb.Prelude.{
  ℕ, zero, suc, ◌<◌, [], ◌∷◌, ◌++◌, append-nil, append_assoc, ◌≡◌, refl, sym, ap, ◌∙◌, Bool, true,
  false, List, map, length, length-map, Bytes, All, arith, if◌then◌else◌, none,
}
use onedb.Go.Outcome.{Outcome, ok, ◌>>=◌}
use onedb.Go.Values.{Value, Runtime}
use onedb.Json.Scalar.{jsonize}
use onedb.Json.Result.{
  Row, json_round, json_continue, json_body, json_row_next, json_row_body, scan_json, json_rows,
  get_json, get_json_row,
}
use onedb.Json.Result.Fields.{commas, comma_join, members, write_fields-members}
use onedb.Rows.{Cell, RowsScanner}
use onedb.Rows.Columns.{new_cells, get_column_names_and_values}
use onedb.Rows.Script.{holding, IsAny, Reads, Yields, finished, yields}

-- Put the brackets of an object behind what was written.
enclose : (b m : Bytes) (o c : ℕ) → ((b ++ o ∷ []) ++ m) ++ c ∷ [] ≡ b ++ o ∷ (m ++ c ∷ [])
enclose b m o c = append_assoc (b ++ o ∷ []) m (c ∷ []) ∙ append_assoc b (o ∷ []) (m ++ c ∷ [])

pub holding-IsAny : (row : List Value) → All IsAny (map holding row)
holding-IsAny [] = tt
holding-IsAny (v ∷ row) = (refl, holding-IsAny row)

pub length-holding : (row : List Value) → length (map holding row) ≡ length row
length-holding [] = refl
length-holding (v ∷ row) = ap suc (length-holding row)

pub new_cells-IsAny : (names : List Bytes) → All IsAny (new_cells names)
unfolding new_cells
new_cells-IsAny [] = tt
new_cells-IsAny (n ∷ names) = (refl, new_cells-IsAny names)

pub length-new_cells : (names : List Bytes) → length (new_cells names) ≡ length names
unfolding new_cells
length-new_cells [] = refl
length-new_cells (n ∷ names) = ap suc (length-new_cells names)

-- The rows are as wide as the columns.
abbrev pub Fits : List Bytes → List Value → Type 0
Fits columns row = length columns ≡ length row

pub Fits-jsonize :
    (names : List Bytes) (rows : List (List Value))
    → All (Fits names) rows
    → All (Fits (map jsonize names)) rows
Fits-jsonize names [] h = tt
Fits-jsonize names (row ∷ rows) (h, hs) = (length-map names jsonize ∙ h, Fits-jsonize names rows hs)

module _ (rt : Runtime) where
  -- The object for a row.
  abbrev pub object : List Bytes → List Value → Bytes
  object columns row = b'{' ∷ (comma_join (members rt columns row) ++ b'}' ∷ [])

  -- The array for a result set.
  abbrev pub array : List Bytes → List (List Value) → Bytes
  array columns rows = b'[' ∷ (comma_join (map (object columns) rows) ++ b']' ∷ [])

  module _ {S : Type 0} (sc : RowsScanner S) (columns : List Bytes) where
    scan_json-object :
        (s s' : S) (row : List Value) (vals : List Cell) (comma : Bool) (b : Bytes)
        → Reads sc s row s'
        → All IsAny vals
        → length vals ≡ length columns
        → Fits columns row
        → scan_json rt sc.scanner s columns vals comma b ≡ record {
          rows = s';
          vals = map holding row;
          buffer = ok ((if comma then b ++ b',' ∷ [] else b) ++ object columns row);
        }
    unfolding scan_json
    scan_json-object s s' row vals comma b reads plain same fits =
        let start = (if comma then b ++ b',' ∷ [] else b) in
        rw (reads vals plain (omega arith)) (
          rw (write_fields-members rt columns row true (start ++ b'{' ∷ []) fits) (
            ap
              (λ (t : Bytes).
                let r : Row S = record { rows = s'; vals = map holding row; buffer = ok t } in r)
              (enclose start (comma_join (members rt columns row)) b'{' b'}')))

    -- One round that reads a row.
    pub json_rows_step :
        (fuel : ℕ) {s s' s'' : S} (row : List Value) (vals : List Cell) (comma : Bool) (b : Bytes)
        → sc.next s ≡ (s', true)
        → Reads sc s' row s''
        → All IsAny vals
        → length vals ≡ length columns
        → Fits columns row
        → json_rows rt sc (suc fuel) comma columns vals s b
          ≡ json_rows rt sc fuel true columns
              (map holding row)
              s''
              ((if comma then b ++ b',' ∷ [] else b) ++ object columns row)
    unfolding json_rows json_round json_continue
    json_rows_step fuel {s} {s'} {s''} row vals comma b next reads plain same fits =
        ap (json_round rt sc (json_rows rt sc fuel true columns) columns vals comma b) next
        ∙ ap (λ (r : Row S). json_continue rt sc (json_rows rt sc fuel true columns) r r.buffer)
            (scan_json-object s' s'' row vals comma b reads plain same fits)

    json_rows_end :
        (fuel : ℕ) {s s' : S} (vals : List Cell) (comma : Bool) (b : Bytes)
        → sc.next s ≡ (s', false)
        → json_rows rt sc (suc fuel) comma columns vals s b ≡ (s', ok b)
    unfolding json_rows
    json_rows_end fuel {s} {s'} vals comma b next =
        ap (json_round rt sc (json_rows rt sc fuel true columns) columns vals comma b) next

    joined_object :
        (comma : Bool) (b o : Bytes) (os : List Bytes)
        → (((if comma then b ++ b',' ∷ [] else b) ++ o) ++ commas os)
          ≡ b ++ (if comma then commas (o ∷ os) else comma_join (o ∷ os))
    joined_object true b o os =
        append_assoc (b ++ b',' ∷ []) o (commas os) ∙ append_assoc b (b',' ∷ []) (o ++ commas os)
    joined_object false b o os = append_assoc b o (commas os)

    json_rows-objects :
        (fuel : ℕ) {s t : S} {rows : List (List Value)} (vals : List Cell) (comma : Bool)
        (b : Bytes)
        → Yields sc s rows t
        → length rows < fuel
        → All IsAny vals
        → length vals ≡ length columns
        → All (Fits columns) rows
        → json_rows rt sc fuel comma columns vals s b ≡ (
          t,
          ok (
              b
              ++ (if comma
                  then commas (map (object columns) rows)
                  else comma_join (map (object columns) rows))),
        )
    json_rows-objects zero vals comma b y lt plain same fits = absurd (omega arith)
    json_rows-objects (suc fuel) {s} {t} vals comma b (finished next) lt plain same fits =
        json_rows_end fuel vals comma b next ∙ ap (λ (u : Bytes). (t, ok u)) (nothing comma)
      where
        nothing : (c : Bool) → b ≡ b ++ (if c then [] else [])
        nothing true = sym (append-nil b)
        nothing false = sym (append-nil b)
    json_rows-objects (suc fuel) {s} {t} vals comma b
          (yields {row = row} {rows = rows} next reads y) lt plain same (f, fits) =
        let b' = (if comma then b ++ b',' ∷ [] else b) ++ object columns row in
        json_rows_step fuel row vals comma b next reads plain same f
        ∙ json_rows-objects fuel (map holding row) true b' y (omega arith) (holding-IsAny row)
            (omega (arith, length-holding row)) fits
        ∙ ap (λ (u : Bytes). (t, ok u))
            (joined_object comma b (object columns row) (map (object columns) rows))

  module _ {S : Type 0} (sc : RowsScanner S) {s : S} (names : List Bytes) where
    pub json_columns :
        sc.last_err s ≡ none
        → sc.columns s ≡ ok names
        → get_column_names_and_values sc s true ≡ ok (map jsonize names, new_cells names)
    unfolding get_column_names_and_values
    json_columns no_err cols = rw (no_err, cols) refl

    -- `getJSON` on a scanner that has no error at the start, gives its column names, and yields
    -- `rows`, each with a value for every column: with more fuel than rows it returns the array
    -- of the objects of the rows, in order, and the scanner is at its end. The error of the
    -- scanner after the last row makes no difference.
    pub get_json-array :
        (fuel : ℕ) {t : S} {rows : List (List Value)}
        → sc.last_err s ≡ none
        → sc.columns s ≡ ok names
        → Yields sc s rows t
        → All (Fits names) rows
        → length rows < fuel
        → get_json rt sc fuel s ≡ (t, ok (array (map jsonize names) rows))
    unfolding get_json json_body
    get_json-array fuel {t} {rows} no_err cols y fits lt =
        let columns = map jsonize names in
        ap (json_body rt sc fuel s) (json_columns no_err cols)
        ∙ ap close (
            json_rows-objects sc columns fuel (new_cells names) false (b'[' ∷ []) y lt
              (new_cells-IsAny names) (length-new_cells names ∙ sym (length-map names jsonize))
              (Fits-jsonize names rows fits))
      where
        close : S × Outcome Bytes → S × Outcome Bytes
        close (t', b) = (t', b >>= λ u. ok (u ++ b']' ∷ []))

    -- `getJSONRow` on a scanner that has no error at the start, gives its column names, and whose
    -- first `Next` is true and `Scan` reads a row with a value for every column: it returns the
    -- object of that row, and the scanner stands behind the `Scan`.
    get_json_row-object :
        {s' s'' : S} (row : List Value)
        → sc.last_err s ≡ none
        → sc.columns s ≡ ok names
        → sc.next s ≡ (s', true)
        → Reads sc s' row s''
        → Fits names row
        → get_json_row rt sc s ≡ (s'', ok (object (map jsonize names) row))
    unfolding get_json_row json_row_body json_row_next
    get_json_row-object {s'} {s''} row no_err cols next reads fits =
        let columns = map jsonize names in
        ap (json_row_body rt sc s) (json_columns no_err cols)
        ∙ ap (json_row_next rt sc columns (new_cells names)) next
        ∙ ap (λ (r : Row S). (r.rows, r.buffer))
            (scan_json-object sc columns s' s'' row (new_cells names) false [] reads
              (new_cells-IsAny names) (length-new_cells names ∙ sym (length-map names jsonize))
              (length-map names jsonize ∙ fits))
