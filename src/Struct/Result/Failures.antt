-- ===== src/Struct/Result/Failures.antt =====
-- What `getStruct` returns when a `Scan` fails.
use onedb.Prelude.{
  ℕ, zero, suc, ◌<◌, [], ◌∷◌, ◌++◌, append-nil, append_assoc, ◌≡◌, refl, sym, ap, ◌∙◌, List, map,
  length, Bytes, All, none, arith,
}
use onedb.Go.Outcome.{Error, Outcome, ok, err}
use onedb.Go.Values.{Value, Runtime}
use onedb.Json.Result.Laws.{Fits, holding-IsAny, length-holding, new_cells-IsAny, length-new_cells}
use onedb.Rows.{Cell, Scanned, RowsScanner}
use onedb.Rows.Columns.{new_cells}
use onedb.Rows.Script.{holding, IsAny, FailsAfter, fails, then_fails}
use onedb.Struct.Fields.{Struct, StructFieldInfo, get_item_map, scan_struct}
use onedb.Struct.Result.{
  FieldType, new_item, struct_continue, struct_round, struct_rows, struct_body, get_struct,
}
use onedb.Struct.Result.Laws.{Fills, struct_rows_step, struct_columns}

module _ (rt : Runtime) {S : Type 0} (sc : RowsScanner S) (e : Error) where
  -- What the caller has: the slice and the error.
  abbrev pub Seen : Type 0
  Seen = List Struct × Outcome (Unit {0})

  abbrev pub Return : Type 0
  Return = S × List Struct × Outcome (Unit {0})

  abbrev pub seen : Return → Seen
  seen (s, result, r) = (result, r)

  scan_struct-fails :
      (s : S) (infos : List StructFieldInfo) (vals : List Cell) (item : Struct)
      → (sc.scan s vals).result ≡ err e
      → (scan_struct rt sc.scanner s vals infos item).1 ≡ err e
  unfolding scan_struct
  scan_struct-fails s infos vals item h = rw h refl

  round_fails :
      (next_round : List Cell → S → List Struct → Return) (result : List Struct)
      (scanned : Scanned S) (r : Outcome Struct)
      → r ≡ err e
      → seen (struct_continue rt sc next_round result (scanned, r)) ≡ (result, err e)
  unfolding struct_continue
  round_fails next_round result scanned r h = rw h refl

  module _ (names : List Bytes) (item : Struct) where
    struct_rows-fails :
        (fuel : ℕ) {s : S} {rows : List (List Value)} (filled : List Struct) (vals : List Cell)
        (result : List Struct)
        → FailsAfter sc e s rows
        → length rows < fuel
        → All IsAny vals
        → length vals ≡ length names
        → All (Fits names) rows
        → Fills rt sc names item rows filled
        → seen (struct_rows rt sc fuel (get_item_map rt names item) item vals s result)
          ≡ (result ++ filled, err e)
    unfolding struct_rows struct_round
    struct_rows-fails zero filled vals result f lt plain same fits fill = absurd (omega arith)
    struct_rows-fails (suc fuel) (x ∷ filled) vals result (fails next scan) lt plain same fits
          fill =
        absurd fill
    struct_rows-fails (suc fuel) [] vals result (fails {s' = s'} next scan) lt plain same fits
          fill =
        let infos = get_item_map rt names item in
        let loop = struct_rows rt sc fuel infos item in
        let scanned = scan_struct rt sc.scanner s' vals infos item in
        ap (λ r. seen (struct_round rt sc loop infos item vals result r)) next
        ∙ round_fails loop result scanned.0 scanned.1
            (scan_struct-fails s' infos vals item (scan vals))
        ∙ ap (λ (l : List Struct). let u : Seen = (l, err e) in u) (sym (append-nil result))
    struct_rows-fails (suc fuel) [] vals result (then_fails next reads f) lt plain same fits fill =
        absurd fill
    struct_rows-fails (suc fuel) (x ∷ filled) vals result (then_fails {row = row} next reads f) lt
          plain same (w, ws) (fill, more) =
        ap seen
          (struct_rows_step rt sc names fuel item vals row x result next reads plain same w fill)
        ∙ struct_rows-fails fuel filled (map holding row) (result ++ x ∷ []) f (omega arith)
            (holding-IsAny row) (omega (arith, length-holding row)) ws more
        ∙ ap (λ (l : List Struct). let u : Seen = (l, err e) in u)
            (append_assoc result (x ∷ []) filled)

  -- `getStruct` on a scanner that has no error at the start, gives its column names, and yields
  -- `rows`, each with a value for every column and each filling a fresh struct without a panic,
  -- before a `Scan` fails: with more fuel than rows it returns the error of that `Scan`, and the
  -- structs of the rows before have been appended to the slice all the same.
  pub get_struct-scan_fails :
      (fuel : ℕ) {s : S} (names : List Bytes) (item_type : List FieldType)
      {rows : List (List Value)} (filled result : List Struct)
      → sc.last_err s ≡ none
      → sc.columns s ≡ ok names
      → FailsAfter sc e s rows
      → All (Fits names) rows
      → Fills rt sc names (new_item item_type) rows filled
      → length rows < fuel
      → seen (get_struct rt sc fuel item_type s result) ≡ (result ++ filled, err e)
  unfolding get_struct struct_body
  get_struct-scan_fails fuel {s} names item_type filled result no_err cols f fits fill lt =
      ap (λ c. seen (struct_body rt sc fuel item_type s result c))
        (struct_columns rt sc names no_err cols)
      ∙ struct_rows-fails names (new_item item_type) fuel filled (new_cells names) result f lt
          (new_cells-IsAny names) (length-new_cells names) fits fill
