-- ===== src/Json/Result.antt =====
-- `scanJSON`, `getJSON` and `getJSONRow` of dbToJson.go: a result set as a JSON text.
pub mod Fields
pub mod Laws
pub mod Failures
pub mod Texts
pub mod Shown
pub mod ReadBack
use onedb.Prelude.{
  ℕ, zero, suc, [], ◌∷◌, ◌++◌, Bool, true, false, List, Bytes, codes, text_eq, if◌then◌else◌,
}
use onedb.Go.Outcome.{Outcome, ok, err, panic, out_of_fuel, ◌>>=◌}
use onedb.Go.Values.{Runtime}
use onedb.Json.Scalar.{get_json_value}
use onedb.Rows.{Cell, RowsScanner, Scanner}
use onedb.Rows.Columns.{get_column_names_and_values}

-- The scanner and the variables after the `Scan`, and the buffer or the error.
pub record Row (S : Type 0) : Type 0 where
  pub rows : S
  pub vals : List Cell
  pub buffer : Outcome Bytes

module _ (rt : Runtime) where
  -- The loop over `vals`, with `firstColumn` and the buffer. `columns[i]` panics past the end.
  pub write_fields : List Bytes → List Cell → Bool → Bytes → Outcome Bytes
  write_fields columns [] first b = ok b
  write_fields [] (v ∷ vals) first b = do
    json_value ← get_json_value rt v.value
    if text_eq json_value (codes "null") then write_fields [] vals first b else panic
  write_fields (column ∷ columns) (v ∷ vals) first b = do
    json_value ← get_json_value rt v.value
    let null = text_eq json_value (codes "null")
    let comma = if first then [] else b',' ∷ []
    write_fields columns vals (if null then first else false)
        (if null then b else b ++ (comma ++ (column ++ json_value)))

  pub scan_json : {S : Type 0} → Scanner S → S → List Bytes → List Cell → Bool → Bytes → Row S
  unfolding write_fields
  scan_json sc s columns vals write_comma b =
      let b' = (if write_comma then b ++ b',' ∷ [] else b) ++ b'{' ∷ [] in
      let scanned = sc.scan s vals in
      record {
        rows = scanned.rows;
        vals = scanned.dest;
        buffer = (do
          _ ← scanned.result
          fields ← write_fields columns scanned.dest true b'
          ok (fields ++ b'}' ∷ []));
      }

  module _ {S : Type 0} (sc : RowsScanner S) where
    -- Behind the `Scan` of a round: the next round, or the error.
    pub json_continue :
        (List Cell → S → Bytes → S × Outcome Bytes) → Row S → Outcome Bytes → S × Outcome Bytes
    json_continue next_round row (ok b) = next_round row.vals row.rows b
    json_continue next_round row (err e) = (row.rows, err e)
    json_continue next_round row panic = (row.rows, panic)
    json_continue next_round row out_of_fuel = (row.rows, out_of_fuel)

    -- A round of the loop, behind its call of `Next`.
    pub json_round :
        (List Cell → S → Bytes → S × Outcome Bytes)
        → List Bytes
        → List Cell
        → Bool
        → Bytes
        → S × Bool
        → S × Outcome Bytes
    unfolding scan_json json_continue
    json_round next_round columns vals write_comma b (s, false) = (s, ok b)
    json_round next_round columns vals write_comma b (s, true) =
        let row = scan_json sc.scanner s columns vals write_comma b in
        json_continue next_round row row.buffer

    -- `for rows.Next()`; the arguments in front of the variables are `writeComma` and the columns.
    pub json_rows : ℕ → Bool → List Bytes → List Cell → S → Bytes → S × Outcome Bytes
    unfolding json_round
    json_rows zero write_comma columns vals s b = (s, out_of_fuel)
    json_rows (suc fuel) write_comma columns vals s b =
        json_round (json_rows fuel true columns) columns vals write_comma b (sc.next s)

    json_body : ℕ → S → Outcome (List Bytes × List Cell) → S × Outcome Bytes
    unfolding json_rows
    json_body fuel s (ok (columns, vals)) =
        let (s', b) = json_rows fuel false columns vals s (b'[' ∷ []) in
        (s', b >>= λ t. ok (t ++ b']' ∷ []))
    json_body fuel s (err e) = (s, err e)
    json_body fuel s panic = (s, panic)
    json_body fuel s out_of_fuel = (s, out_of_fuel)

    -- The fuel bounds the rounds of the loop.
    unfoldable pub get_json : ℕ → S → S × Outcome Bytes
    unfolding json_body
    get_json fuel s = json_body fuel s (get_column_names_and_values sc s true)

    json_row_next : List Bytes → List Cell → S × Bool → S × Outcome Bytes
    unfolding scan_json
    json_row_next columns vals (s, false) = (s, ok [])
    json_row_next columns vals (s, true) =
        let row = scan_json sc.scanner s columns vals false [] in (row.rows, row.buffer)

    json_row_body : S → Outcome (List Bytes × List Cell) → S × Outcome Bytes
    unfolding json_row_next
    json_row_body s (ok (columns, vals)) = json_row_next columns vals (sc.next s)
    json_row_body s (err e) = (s, err e)
    json_row_body s panic = (s, panic)
    json_row_body s out_of_fuel = (s, out_of_fuel)

    unfoldable pub get_json_row : S → S × Outcome Bytes
    unfolding json_row_body
    get_json_row s = json_row_body s (get_column_names_and_values sc s true)
