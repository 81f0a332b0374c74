-- ===== src/Csv.antt =====
-- `writeCSV`, `scanCSV` and `getCSVValue` of dbToCSV.go, over a CSV writer; and how
-- `encoding/csv` writes a record.
pub mod Buffer
pub mod Laws
pub mod Reader
pub mod RoundTrip
pub mod Failures
use onedb.Prelude.{
  ℕ, zero, suc, [], ◌∷◌, ◌++◌, ◌≡◌, refl, Bool, true, false, ◌&&◌, ◌||◌, Option, none, some, List,
  Bytes, codes, leb, ◌==◌, text_eq, if◌then◌else◌,
}
use onedb.Go.Outcome.{Error, Outcome, ok, err, panic, out_of_fuel, ◌>>=◌}
use onedb.Go.Values.{Value, nil, bool_value, time_value, string_value, Runtime, sprint}
use onedb.Json.Utf8.{decode_rune}
use onedb.Rows.{Cell, Scanned, Scanner, RowsScanner}
use onedb.Rows.Columns.{get_column_names_and_values}

pub record CsvOptions : Type 0 where
  pub date_only : Bool

-- `csv.Writer`, for an implementation with states `W`.
pub record CsvWriter (W : Type 0) : Type 0 where
  pub write : W → List Bytes → W × Option Error
  pub flush : W → W
  pub last_err : W → Option Error

abbrev pub csv_time : Bytes
csv_time = codes "2006-01-02 15:04:05.999"

abbrev pub csv_date : Bytes
csv_date = codes "2006-01-02"

unfoldable pub get_csv_value : Runtime → CsvOptions → Value → Bytes
get_csv_value rt options nil = []
get_csv_value rt options (bool_value true) = codes "true"
get_csv_value rt options (bool_value false) = codes "false"
get_csv_value rt options (time_value t) =
    rt.format_time (if options.date_only then csv_date else csv_time) t
get_csv_value rt options (string_value s) = s
get_csv_value rt options v = sprint rt v

unfoldable pub csv_row : Runtime → CsvOptions → List Cell → List Bytes
unfolding get_csv_value
csv_row rt options [] = []
csv_row rt options (c ∷ vals) = get_csv_value rt options c.value ∷ csv_row rt options vals

-- The scanner and the variables after the `Scan`, and the row or the error.
unfoldable pub scan_csv :
    {S : Type 0}
    → Runtime
    → Scanner S
    → S
    → List Cell
    → CsvOptions
    → Scanned S × Outcome (List Bytes)
unfolding csv_row
scan_csv rt sc s vals options =
    let scanned = sc.scan s vals in
    (scanned, scanned.result >>= λ _. ok (csv_row rt options scanned.dest))

module _ (rt : Runtime) {S W : Type 0} (sc : RowsScanner S) (cw : CsvWriter W)
    (options : CsvOptions) where
  -- The scanner, the writer, and the error.
  abbrev Return : Type 0
  Return = S × W × Outcome (Unit {0})

  -- Behind a `Write`.
  unfoldable pub csv_written : (W → Return) → S → W × Option Error → Return
  csv_written next s (w, none) = next w
  csv_written next s (w, some e) = (s, w, err e)

  -- Behind the `Scan` of a round.
  unfoldable pub csv_continue :
      (List Cell → S → W → Return) → W → Scanned S × Outcome (List Bytes) → Return
  unfolding csv_written
  csv_continue next_round w (scanned, ok row) =
      csv_written (next_round scanned.dest scanned.rows) scanned.rows (cw.write w row)
  csv_continue next_round w (scanned, err e) = (scanned.rows, w, err e)
  csv_continue next_round w (scanned, panic) = (scanned.rows, w, panic)
  csv_continue next_round w (scanned, out_of_fuel) = (scanned.rows, w, out_of_fuel)

  unfoldable pub written_error : Option Error → Outcome (Unit {0})
  written_error none = ok tt
  written_error (some e) = err e

  -- A round of the loop, behind its call of `Next`; at the end the writer is flushed.
  unfoldable pub csv_round : (List Cell → S → W → Return) → List Cell → W → S × Bool → Return
  unfolding csv_continue written_error
  csv_round next_round vals w (s, false) =
      let w' = cw.flush w in (s, w', written_error (cw.last_err w'))
  csv_round next_round vals w (s, true) =
      csv_continue next_round w (scan_csv rt sc.scanner s vals options)

  -- `for rows.Next()`
  unfoldable pub csv_rows : ℕ → List Cell → S → W → Return
  unfolding csv_round
  csv_rows zero vals s w = (s, w, out_of_fuel)
  csv_rows (suc fuel) vals s w = csv_round (csv_rows fuel) vals w (sc.next s)

  unfoldable pub csv_body : ℕ → S → W → Outcome (List Bytes × List Cell) → Return
  unfolding csv_rows csv_written
  csv_body fuel s w (ok (headers, vals)) =
      csv_written (λ w'. csv_rows fuel vals s w') s (cw.write w headers)
  csv_body fuel s w (err e) = (s, w, err e)
  csv_body fuel s w panic = (s, w, panic)
  csv_body fuel s w out_of_fuel = (s, w, out_of_fuel)

  -- The fuel bounds the rounds of the loop.
  unfoldable pub write_csv : ℕ → S → W → S × W × Outcome (Unit {0})
  unfolding csv_body
  write_csv fuel s w = csv_body fuel s w (get_column_names_and_values sc s false)

-- Does the field hold a comma, a quote, or a line end?
pub has_special : Bytes → Bool
has_special [] = false
has_special (c ∷ field) = c == b',' || (c == b'"' || (c == 13 || (c == 10 || has_special field)))

-- `unicode.IsSpace`
is_space : ℕ → Bool
is_space r =
    (leb 9 r && leb r 13)
    || (r == 32
        || (r == 0x85
            || (r == 0xA0
                || (r == 0x1680
                    || ((leb 0x2000 r && leb r 0x200A)
                        || (r == 0x2028
                            || (r == 0x2029 || (r == 0x202F || (r == 0x205F || r == 0x3000)))))))))

-- `fieldNeedsQuotes` of `encoding/csv`.
pub field_needs_quotes : Bytes → Bool
unfolding has_special is_space
field_needs_quotes [] = false
field_needs_quotes (c ∷ field) =
    text_eq (c ∷ field) (codes "\\.")
    || (has_special (c ∷ field) || is_space (decode_rune (c ∷ field)).0)

-- Quotes are doubled.
pub double_quotes : Bytes → Bytes
double_quotes [] = []
double_quotes (c ∷ field) =
    if c == b'"' then b'"' ∷ b'"' ∷ double_quotes field else c ∷ double_quotes field

pub csv_field : Bytes → Bytes
unfolding field_needs_quotes double_quotes
csv_field field =
    if field_needs_quotes field then b'"' ∷ (double_quotes field ++ b'"' ∷ []) else field

unfoldable pub csv_rest : List Bytes → Bytes
unfolding csv_field
csv_rest [] = 10 ∷ []
csv_rest (field ∷ record_) = b',' ∷ (csv_field field ++ csv_rest record_)

-- One record, with its line end.
unfoldable pub csv_record : List Bytes → Bytes
unfolding csv_field csv_rest
csv_record [] = 10 ∷ []
csv_record (field ∷ record_) = csv_field field ++ csv_rest record_

csv_record_runs :
    csv_record (codes "a,b" ∷ [] ∷ codes "say \"x\"" ∷ codes "plain" ∷ [])
    ≡ codes "\"a,b\",,\"say \"\"x\"\"\",plain" ++ 10 ∷ []
unfolding csv_record decode_rune text_eq
csv_record_runs = refl
