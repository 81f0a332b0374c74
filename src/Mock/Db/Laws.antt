-- ===== src/Mock/Db/Laws.antt =====
-- The mock database end to end: its results, what it keeps, and the verification of its log.
use onedb.Prelude.{
  ℕ, suc, ◌<◌, [], ◌∷◌, ◌++◌, append_assoc, ◌≡◌, ◌≢◌, refl, sym, ap, ◌∙◌, ◌↔◌, Bool, true, Option,
  none, some, List, map, Bytes, codes, length, length-map, text_eq, text_eq→eq, text_eq_refl, All,
  arith, ◌==◌, ==_iff, Bool-cases, inl, inr,
}
use onedb.Go.Outcome.{Error, no_mock_data, invalid_current_row, Outcome, ok, err}
use onedb.Go.Types.{Interfaces}
use onedb.Go.Values.{Value, Runtime}
use onedb.Json.Result.Laws.{Fits, array}
use onedb.Json.Scalar.{jsonize}
use onedb.Rows.{Cell}
use onedb.Struct.SetValue.{Place}
use onedb.Mock.Scanner.{MockData, structs, MockRowsScanner, new_rows_scanner, mock_rows}
use onedb.Mock.Scanner.Laws.{values, IsExported, at_row, Yields-new_rows_scanner}
use onedb.Mock.Db.{
  MethodsRun, MockDb, Report, passed, save_method_call, query_arguments, query, query_row, backend,
  mock_query_json, mock_query_values, verify_args, verify_next_command, mismatches, report,
  take_data, or_error, next_scanner, advanced,
}
use onedb.Queries.{Query, Queried, query_values}
use onedb.Queries.Laws.{query_json-array}

abbrev pub method_run : Bytes → List Value → MethodsRun
method_run name arguments = record { method_name = name; arguments = arguments }

pub Fits-values :
    (names : List Bytes) (rows : List (List Place))
    → All (λ row. length names ≡ length row) rows
    → All (Fits names) (map values rows)
Fits-values names [] h = tt
Fits-values names (row ∷ rows) (h, hs) =
    (h ∙ sym (length-map row (λ p. p.cell.value)), Fits-values names rows hs)

pub query-first :
    (r : MockDb) (q : Query) (d : MockData) (rest : List MockData)
    → r.mock_data ≡ d ∷ rest
    → query r q ≡ (
      record (save_method_call (codes "Query") (query_arguments q) r) { mock_data = rest },
      ok (new_rows_scanner d),
    )
unfolding query
query-first r q d rest h =
    ap (λ m. or_error (take_data (save_method_call (codes "Query") (query_arguments q) r) m)) h

-- `QueryJSON` of a mock whose next data is a slice of structs with exported fields, as many as
-- there are names, and with more fuel than structs: it returns the array of the structs, closes
-- the scanner at its end, takes the data off the list, and appends the call of `QueryJSON` and
-- the `Query` in it to the log.
pub mock_query_json-array :
    (rt : Runtime) (fuel : ℕ) (r : MockDb) (q : Query) (known : Interfaces) (names : List Bytes)
    (rows : List (List Place)) (rest : List MockData)
    → r.mock_data ≡ structs known names rows ∷ rest
    → All (All IsExported) rows
    → All (λ row. length names ≡ length row) rows
    → length rows < fuel
    → mock_query_json rt fuel r q ≡ record {
      backend = record r {
        mock_data = rest;
        methods_run =
            r.methods_run
            ++ method_run (codes "QueryJSON") (query_arguments q)
              ∷ method_run (codes "Query") (query_arguments q)
              ∷ [];
      };
      closed = some (at_row known names rows (suc (length rows)));
      result = ok (array rt (map jsonize names) (map values rows));
    }
unfolding mock_query_json save_method_call mock_rows new_rows_scanner
mock_query_json-array rt fuel r q known names rows rest h e w lt =
    let logged = save_method_call (codes "QueryJSON") (query_arguments q) r in
    let run =
      query_json-array rt backend q names fuel
        (query-first logged q (structs known names rows) rest h) refl refl
        (Yields-new_rows_scanner known names rows e) (Fits-values names rows w)
        (omega (arith, length-map rows values)) in
    run
    ∙ ap
        (λ (log : List MethodsRun).
          let u : Queried MockDb MockRowsScanner (Outcome Bytes) = record {
            backend = record r { mock_data = rest; methods_run = log };
            closed = some (at_row known names rows (suc (length rows)));
            result = ok (array rt (map jsonize names) (map values rows));
          } in
          u)
        (append_assoc r.methods_run (method_run (codes "QueryJSON") (query_arguments q) ∷ [])
          (method_run (codes "Query") (query_arguments q) ∷ []))

-- What is taken off the data leaves the log alone.
take_data-log : (r : MockDb) (d : List MockData) → (take_data r d).0.methods_run ≡ r.methods_run
unfolding take_data
take_data-log r [] = refl
take_data-log r (x ∷ d) = refl

or_error-log :
    (s : MockDb × MockRowsScanner × Option Error) → (or_error s).0.methods_run ≡ s.0.methods_run
unfolding or_error
or_error-log (r, scanner, none) = refl
or_error-log (r, scanner, some e) = refl

pub query-log :
    (r : MockDb) (q : Query)
    → (query r q).0.methods_run
      ≡ r.methods_run ++ method_run (codes "Query") (query_arguments q) ∷ []
unfolding query next_scanner save_method_call
query-log r q =
    let saved = save_method_call (codes "Query") (query_arguments q) r in
    or_error-log (take_data saved r.mock_data) ∙ take_data-log saved r.mock_data

pub query_row-log :
    (r : MockDb) (q : Query)
    → (query_row r q).0.methods_run
      ≡ r.methods_run ++ method_run (codes "QueryRow") (query_arguments q) ∷ []
unfolding query_row next_scanner advanced save_method_call
query_row-log r q =
    take_data-log (save_method_call (codes "QueryRow") (query_arguments q) r) r.mock_data

-- With no data left in the mock, `Query` returns an error of its own, but `QueryRow` drops it:
-- `QueryValues` then reports an invalid row instead, and stores nothing.
pub no_data :
    (r : MockDb) (q : Query) (pointer : Value) (pointers : List Value) (dest : List Cell)
    → r.mock_data ≡ []
    → ((query r q).1 ≡ err no_mock_data)
      × ((mock_query_values r pointer pointers (some q) dest).1 ≡ dest)
      × ((mock_query_values r pointer pointers (some q) dest).2 ≡ err invalid_current_row)
unfolding query query_row mock_query_values query_values mock_rows save_method_call
no_data r q pointer pointers dest h = (rw h refl, rw h refl, rw h refl)

-- Each actual argument is deeply equal to the one expected at its place.
abbrev pub Matches : (Value → Value → Bool) → List Value → List Value → Type 0
Matches deep_equal [] [] = Unit
Matches deep_equal (a ∷ actual) (x ∷ expected) =
    (deep_equal a x ≡ true) × Matches deep_equal actual expected
Matches deep_equal _ _ = ⊥

module _ (deep_equal : Value → Value → Bool) where
  report-cons : (i : ℕ) (rest : List ℕ) → report (i ∷ rest) ≢ passed
  unfolding report
  report-cons i rest = cc

  mismatches-Matches :
      (i : ℕ) (actual expected : List Value)
      → length expected ≡ length actual
      → (report (mismatches deep_equal i actual expected) ≡ passed)
        ↔ Matches deep_equal actual expected
  unfolding mismatches
  mismatches-Matches i [] [] h = (λ _. tt, λ _. unfold report in refl)
  mismatches-Matches i [] (x ∷ expected) h = absurd (omega arith)
  mismatches-Matches i (a ∷ actual) [] h = absurd (omega arith)
  mismatches-Matches i (a ∷ actual) (x ∷ expected) h =
      let rest = mismatches-Matches (suc i) actual expected (omega arith) in
      elim (Bool-cases (deep_equal a x)) [
        | inl same ↦ rw same (λ p. (refl, rest.0 p), λ m. rest.1 m.1)
        | inr differ ↦ rw differ (
          λ p. absurd (report-cons i (mismatches deep_equal (suc i) actual expected) p),
          λ m. cc (m.0),
        )
      ]

  Matches-length :
      (actual expected : List Value)
      → Matches deep_equal actual expected
      → length expected ≡ length actual
  Matches-length [] [] m = refl
  Matches-length [] (x ∷ expected) m = absurd m
  Matches-length (a ∷ actual) [] m = absurd m
  Matches-length (a ∷ actual) (x ∷ expected) (e, m) = ap suc (Matches-length actual expected m)

  verify_args-Matches :
      (actual expected : List Value)
      → (verify_args deep_equal actual expected ≡ passed) ↔ Matches deep_equal actual expected
  unfolding verify_args
  verify_args-Matches actual expected = elim (Bool-cases (length expected == length actual)) [
    | inl same ↦
        rw same
          (mismatches-Matches 0 actual expected ((==_iff (length expected) (length actual)).0 same))
    | inr differ ↦ rw differ (
      λ p. cc,
      λ m.
          cc (
            differ,
            (==_iff (length expected) (length actual)).1 (Matches-length actual expected m),
          ),
    )
  ]

  -- On a log that is not empty, `VerifyNextCommand` takes the oldest call off, and it passes
  -- exactly if that call has the expected name and as many arguments as expected, each deeply
  -- equal to the one expected at its place.
  pub verify_next_command-passed :
      (r : MockDb) (name : Bytes) (expected : List Value) (current : MethodsRun)
      (rest : List MethodsRun)
      → r.methods_run ≡ current ∷ rest
      → ((verify_next_command deep_equal r name expected).0 ≡ record r { methods_run = rest })
        × (((verify_next_command deep_equal r name expected).1 ≡ passed)
            ↔ ((current.method_name ≡ name) × Matches deep_equal current.arguments expected))
  unfolding verify_next_command
  verify_next_command-passed r name expected current rest h =
      let args = verify_args-Matches current.arguments expected in
      rw h (
        refl,
        elim (Bool-cases (text_eq current.method_name name)) [
          | inl same ↦
              rw same (λ p. (text_eq→eq current.method_name name same, args.0 p), λ m. args.1 m.1)
          | inr differ ↦ rw differ (
            λ p. absurd (wrong_method-ne p),
            λ m.
                cc (differ, ap (text_eq current.method_name) m.0, text_eq_refl current.method_name),
          )
        ],
      )
    where
      wrong_method-ne : Report.wrong_method ≢ passed
      wrong_method-ne = cc
