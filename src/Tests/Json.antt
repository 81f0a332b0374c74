-- ===== src/Tests/Json.antt =====
-- The JSON and CSV writers on two persons, and on texts.
use onedb.Prelude.{ℕ, ◌≤◌, [], ◌∷◌, ◌++◌, ◌≡◌, refl, true, some, map, Bytes, codes, arith, All}
use onedb.Go.Outcome.{ok}
use onedb.Json.Base64.{encode_byte_slice}
use onedb.Json.Base64.RoundTrip.{unbase64, encode_byte_slice_reads}
use onedb.Json.Escape.{encode_string}
use onedb.Json.Escape.Safe.{IsSafe, encode_string-IsSafe}
use onedb.Json.Escape.Text.{sanitize, utf8, encode_string_reads, encode_string_text}
use onedb.Json.Reader.{json_string}
use onedb.Json.Result.{get_json}
use onedb.Json.Result.Laws.{array, get_json-array}
use onedb.Json.Scalar.{jsonize}
use onedb.Mock.Scanner.{mock_rows, new_rows_scanner}
use onedb.Mock.Scanner.Laws.{at_row, values}
use onedb.Csv.{write_csv}
use onedb.Csv.Buffer.{new_writer, buffer_writer}
use onedb.Csv.{get_csv_value}
use onedb.Csv.Reader.{read_csv}
use onedb.Csv.RoundTrip.{write_csv-read_csv}
use onedb.Go.Ints.{pos}
use onedb.Go.Values.{sprint}
use onedb.Json.Reader.Document.{objects, number, text}
use onedb.Json.Reader.Document.Laws.{IsPlain}
use onedb.Json.Escape.RoundTrip.{sanitized, clean}
use onedb.Json.Utf8.{decode_rune}
use onedb.Json.Result.ReadBack.{row_object, get_json-objects}
use onedb.Json.Result.Shown.{shown}
use onedb.Tests.Data.{
  no_interfaces, test_runtime, column_names, persons, person_scanner, persons-Yields, persons-Fits,
}

get_json-array_example : get_json test_runtime mock_rows 3 person_scanner ≡ (
  at_row no_interfaces column_names persons 3,
  ok (array test_runtime (map jsonize column_names) (map values persons)),
)
unfolding mock_rows new_rows_scanner
get_json-array_example =
    get_json-array test_runtime mock_rows column_names 3 refl refl persons-Yields persons-Fits
      (omega arith)

encode_string_text_example :
    ((t : Bytes) × (encode_string (utf8 (0x22 ∷ 0x20AC ∷ [])) ≡ some t)
      × (json_string t ≡ some (utf8 (0x22 ∷ 0x20AC ∷ []))))
encode_string_text_example =
    encode_string_text (0x22 ∷ 0x20AC ∷ []) (ground arith, (ground arith, tt))

encode_string_reads_example :
    ((t : Bytes) × (encode_string (0x22 ∷ 0xFF ∷ []) ≡ some t)
      × (json_string t ≡ some (sanitize (0x22 ∷ 0xFF ∷ []))))
encode_string_reads_example = encode_string_reads (0x22 ∷ 0xFF ∷ [])

encode_string-IsSafe_example : ((t : Bytes) × (encode_string (codes "<a>") ≡ some t) × All IsSafe t)
encode_string-IsSafe_example = encode_string-IsSafe (codes "<a>")

encode_byte_slice_reads_example :
    ((t : Bytes) × (encode_byte_slice (0 ∷ 255 ∷ []) ≡ ok (b'"' ∷ (t ++ b'"' ∷ [])))
      × (unbase64 t ≡ some (0 ∷ 255 ∷ [])))
encode_byte_slice_reads_example =
    encode_byte_slice_reads (0 ∷ 255 ∷ []) (λ e. cc) (omega arith, (omega arith, tt))

-- A name with a comma is read back.
write_csv-read_csv_example :
    (out : Bytes) × (write_csv test_runtime mock_rows buffer_writer
        (record { date_only = true })
        3
        person_scanner
        (new_writer [])
      ≡ (at_row no_interfaces column_names persons 3, new_writer out, ok tt))
    × (read_csv out
        ≡ some
            (column_names ∷ (codes "1" ∷ codes "a,b" ∷ []) ∷ (codes "2" ∷ codes "<c>" ∷ []) ∷ []))
unfolding mock_rows new_rows_scanner get_csv_value sprint
write_csv-read_csv_example =
    write_csv-read_csv test_runtime (record { date_only = true }) column_names (λ e. cc) mock_rows 3
      refl refl persons-Yields persons-Fits (omega arith)

letter-IsPlain : (c : ℕ) → b'a' ≤ c → IsPlain c
letter-IsPlain c h = (omega arith, λ e. omega arith, λ e. omega arith)

column_names-IsPlain : All (All IsPlain) column_names
column_names-IsPlain = (
  (letter-IsPlain b'i' (omega arith), (letter-IsPlain b'd' (omega arith), tt)),
  (
    (
      letter-IsPlain b'n' (omega arith),
      (
        letter-IsPlain b'a' (omega arith),
        (letter-IsPlain b'm' (omega arith), (letter-IsPlain b'e' (omega arith), tt)),
      ),
    ),
    tt,
  ),
)

get_json-objects_example :
    (out : Bytes) × (get_json test_runtime mock_rows 3 person_scanner
      ≡ (at_row no_interfaces column_names persons 3, ok out))
    × (objects out
        ≡ some (
            ((codes "id", number (pos 1)) ∷ (codes "name", text (codes "a,b")) ∷ [])
            ∷ ((codes "id", number (pos 2)) ∷ (codes "name", text (codes "<c>")) ∷ [])
            ∷ []))
unfolding mock_rows new_rows_scanner row_object shown sanitized clean decode_rune
get_json-objects_example =
    get_json-objects test_runtime mock_rows column_names 3 refl refl persons-Yields persons-Fits
      column_names-IsPlain ((omega arith, (tt, tt)), ((omega arith, (tt, tt)), tt)) (omega arith)
