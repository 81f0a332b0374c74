-- ===== src/Tests/Data.antt =====
-- A result set of two persons, scanners over it, and a runtime whose floats have one format.
use onedb.Prelude.{false, ℕ, [], ◌∷◌, true, List, map, Bytes, codes, text_eq, refl, All}
use onedb.Go.Ints.{pos, wrap_signed}
use onedb.Go.Types.{any, Interfaces, int64, kind_of, kind_eq, GoType, basic, Kind}
use onedb.Go.Values.{Value, int_value, string_value, Runtime}
use onedb.Mock.Scanner.{MockRowsScanner, new_rows_scanner, mock_rows}
use onedb.Mock.Scanner.Laws.{at_row, values, IsExported, Yields-new_rows_scanner}
use onedb.Json.Result.Laws.{Fits}
use onedb.Rows.Script.{Yields}
use onedb.Struct.Fields.{Struct}
use onedb.Struct.Result.{FieldType, new_item}
use onedb.Struct.Fields.Laws.{fill_struct, fill_field}
use onedb.Struct.Result.Laws.{Fills}
use onedb.Struct.SetValue.{Place, set_value, accepts_int, int_bits}

abbrev pub test_runtime : Runtime
test_runtime = record {
  format_time = λ layout t. layout;
  sprint_other = λ v. codes "{}";
  to_lower = λ s. s;
  widen_float = λ x. x;
  narrow_float = λ x. x;
  declared_elem = λ n. any;
}

-- No declared interfaces.
abbrev pub no_interfaces : Interfaces
no_interfaces = λ n t. false

abbrev pub column_names : List Bytes
column_names = codes "id" ∷ codes "name" ∷ []

abbrev pub place : GoType → Value → Place
place t v = record { can_set = true; cell = record { type = t; value = v } }

abbrev pub person : ℕ → Bytes → List Place
person id name =
    place (basic (Kind.signed int64)) (int_value int64 (pos id))
    ∷ place (basic Kind.string) (string_value name)
    ∷ []

abbrev pub persons : List (List Place)
persons = person 1 (codes "a,b") ∷ person 2 (codes "<c>") ∷ []

abbrev pub person_scanner : MockRowsScanner
person_scanner = at_row no_interfaces column_names persons 0

abbrev pub person_type : List FieldType
person_type =
    record { name = codes "id"; type = basic (Kind.signed int64); exported = true }
    ∷ record { name = codes "name"; type = basic Kind.string; exported = true }
    ∷ []

-- The struct with the values.
abbrev pub person_struct : ℕ → Bytes → Struct
person_struct id name =
    record {
      name = codes "id";
      place = place (basic (Kind.signed int64)) (int_value int64 (pos id));
    }
    ∷ record { name = codes "name"; place = place (basic Kind.string) (string_value name) }
    ∷ []

pub persons-IsExported : All (All IsExported) persons
persons-IsExported = ((refl, (refl, tt)), ((refl, (refl, tt)), tt))

pub persons-Fits : All (Fits column_names) (map values persons)
persons-Fits = (refl, (refl, tt))

pub persons-Yields :
    Yields mock_rows person_scanner
      (map values persons)
      (at_row no_interfaces column_names persons 3)
unfolding new_rows_scanner
persons-Yields = Yields-new_rows_scanner no_interfaces column_names persons persons-IsExported

pub persons-Fills :
    Fills test_runtime mock_rows column_names
      (new_item person_type)
      (map values persons)
      (person_struct 1 (codes "a,b") ∷ person_struct 2 (codes "<c>") ∷ [])
unfolding new_item fill_struct fill_field set_value text_eq kind_of kind_eq wrap_signed accepts_int
    int_bits
persons-Fills = (refl, (refl, tt))
