-- ===== src/Mock/Scanner/Laws.antt =====
-- What a `Scan` of the mock stores, and the rows that it yields.
use onedb.Prelude.{
  ℕ, suc, ◌+◌, ◌<◌, [], ◌∷◌, ◌++◌, ◌≡◌, refl, sym, ap, ◌∙◌, Bool, true, false, not, ◌&&◌, ◌||◌,
  List, map, length, length-map, Bytes, some, get_elem?, All, arith, ==_refl, lt→ltb, le→ltb,
  get_elem?-append_self, length-append, append_assoc, append-nil,
}
use onedb.Go.Outcome.{Outcome, ok}
use onedb.Go.Types.{GoType, interface, any, kind_of, kind_eq, type_eq, Interfaces, implements}
use onedb.Go.Values.{Value}
use onedb.Rows.{Cell, Scanned}
use onedb.Rows.Script.{holding, IsAny, Reads, Yields, finished, yields}
use onedb.Struct.SetValue.{Place}
use onedb.Mock.Scanner.{
  structs, MockRowsScanner, new_rows_scanner, can_store, set_dest, set_dest_value, mock_rows,
  scan_row,
}

-- The values of a struct's fields.
abbrev pub values : List Place → List Value
values = map (λ p. p.cell.value)

abbrev pub IsExported : Place → Type 0
IsExported p = p.can_set ≡ true

types_pass : (t : GoType) → (not (type_eq any t) && not (kind_eq (kind_of any) interface)) ≡ false
unfolding kind_eq kind_of
types_pass t = and_false (not (type_eq any t))
  where
    and_false : (b : Bool) → (b && false) ≡ false
    and_false true = refl
    and_false false = refl

stores_any : (known : Interfaces) (t : GoType) → (type_eq any t || implements known any t) ≡ true
unfolding implements
stores_any known t = ground arith

set_dest-holding :
    (known : Interfaces) (i : ℕ) (fields : List Place) (dest : List Cell)
    → All IsExported fields
    → All IsAny dest
    → length dest ≡ length fields
    → set_dest known i fields dest ≡ (map holding (values fields), ok tt)
unfolding set_dest can_store
set_dest-holding known i [] [] e a h = refl
set_dest-holding known i [] (d ∷ dest) e a h = absurd (omega arith)
set_dest-holding known i (f ∷ fields) [] e a h = absurd (omega arith)
set_dest-holding known i (f ∷ fields) (d ∷ dest) (e, es) (a, as_) h =
    let ih = set_dest-holding known (suc i) fields dest es as_ (omega arith) in
    rw (a, types_pass f.cell.type, e, stores_any known f.cell.type, ih) refl

-- A `Scan` into as many `interface{}` variables as there are fields stores the fields.
set_dest_value-holding :
    (known : Interfaces) (fields : List Place) (dest : List Cell)
    → All IsExported fields
    → All IsAny dest
    → length dest ≡ length fields
    → set_dest_value known fields dest ≡ (map holding (values fields), ok tt)
unfolding set_dest_value
set_dest_value-holding known fields dest e a h =
    rw (h, ==_refl (length fields)) (set_dest-holding known 0 fields dest e a h)

-- The scanner at its `n`-th row.
abbrev pub at_row : Interfaces → List Bytes → List (List Place) → ℕ → MockRowsScanner
at_row known names rows n = record (new_rows_scanner (structs known names rows)) { position = n }

module _ (known : Interfaces) (names : List Bytes) (every : List (List Place)) where
  next-more :
      (n : ℕ)
      → n < length every
      → mock_rows.next (at_row known names every n) ≡ (at_row known names every (suc n), true)
  unfolding mock_rows new_rows_scanner
  next-more n h = rw (lt→ltb n (length every) h) refl

  next-end :
      mock_rows.next (at_row known names every (length every))
      ≡ (at_row known names every (suc (length every)), false)
  unfolding mock_rows new_rows_scanner
  next-end = rw (le→ltb (length every) (length every) (omega arith)) refl

  pub Reads-row :
      (n : ℕ) (row : List Place)
      → get_elem? every n ≡ some row
      → All IsExported row
      → Reads mock_rows
          (at_row known names every (suc n))
          (values row)
          (at_row known names every (suc n))
  unfolding mock_rows new_rows_scanner
  Reads-row n row h e dest plain same =
      let same' : length dest ≡ length row = same ∙ length-map row (λ p. p.cell.value) in
      ap (scan_row (at_row known names every (suc n)) dest) h
      ∙ ap
          (λ (r : List Cell × Outcome (Unit {0})).
            let u : Scanned MockRowsScanner = record {
              rows = at_row known names every (suc n);
              dest = r.0;
              result = r.1;
            } in
            u)
          (set_dest_value-holding known row dest e plain same')

  Yields-from :
      (done rows : List (List Place))
      → every ≡ done ++ rows
      → All (All IsExported) rows
      → Yields mock_rows
          (at_row known names every (length done))
          (map values rows)
          (at_row known names every (suc (length every)))
  Yields-from done [] h e =
      let len : length every ≡ length done = ap length (h ∙ append-nil done) in
      finished (rw (← len) next-end)
  Yields-from done (row ∷ rows) h (e, es) =
      let len : length every ≡ length done + suc (length rows) =
        ap length h ∙ length-append done (row ∷ rows) in
      let here : get_elem? every (length done) ≡ some row =
        rw h (get_elem?-append_self done row rows) in
      let len' : length (done ++ row ∷ []) ≡ suc (length done) =
        omega (arith, length-append done (row ∷ [])) in
      let rest =
        Yields-from (done ++ row ∷ []) rows (h ∙ sym (append_assoc done (row ∷ []) rows)) es in
      yields (next-more (length done) (omega arith)) (Reads-row (length done) row here e)
        (rw len' at rest)

-- A scanner over a slice of structs yields the values of the fields of each struct, in order.
pub Yields-new_rows_scanner :
    (known : Interfaces) (names : List Bytes) (rows : List (List Place))
    → All (All IsExported) rows
    → Yields mock_rows
        (new_rows_scanner (structs known names rows))
        (map values rows)
        (at_row known names rows (suc (length rows)))
unfolding new_rows_scanner
Yields-new_rows_scanner known names rows e = Yields-from known names rows [] rows refl e
