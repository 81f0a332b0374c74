-- ===== src/Tests/Struct.antt =====
-- Structs filled from two persons, and single values stored in fields.
use onedb.Prelude.{[], ◌∷◌, ◌≡◌, refl, map, codes, arith, if◌then◌else◌}
use onedb.Go.Ints.{negsuc}
use onedb.Go.Outcome.{ok, panic}
use onedb.Go.Types.{int16, int64, uint8, basic, declared, pointer, Kind, kind_of, kind_eq, type_eq}
use onedb.Go.Values.{Runtime, bytes_value, int_value, uint_value, nil, type_of}
use onedb.Mock.Scanner.{mock_rows, new_rows_scanner}
use onedb.Mock.Scanner.Laws.{at_row, values}
use onedb.Rows.Script.{holding}
use onedb.Struct.Fields.{get_item_map, set_fields}
use onedb.Struct.Fields.Laws.{fill_struct, set_fields-fill_struct}
use onedb.Struct.Result.{get_struct}
use onedb.Struct.Result.Laws.{get_struct-fill}
use onedb.Struct.SetValue.{set_pointer, set_value, accepts_int, int_bits, uint_bits}
use onedb.Struct.SetValue.Laws.{set_value_signed, set_value_same_type}
use onedb.Tests.Data.{
  no_interfaces, test_runtime, column_names, person, place, persons, person_type, person_struct,
  person_scanner, persons-Yields, persons-Fits, persons-Fills,
}

get_struct-fill_example : get_struct test_runtime mock_rows 3 person_type person_scanner [] ≡ (
  at_row no_interfaces column_names persons 3,
  person_struct 1 (codes "a,b") ∷ person_struct 2 (codes "<c>") ∷ [],
  ok tt,
)
unfolding mock_rows new_rows_scanner
get_struct-fill_example =
    get_struct-fill test_runtime mock_rows column_names 3 person_type
      (person_struct 1 (codes "a,b") ∷ person_struct 2 (codes "<c>") ∷ []) [] refl refl
      persons-Yields persons-Fits persons-Fills (omega arith)

set_fields-fill_struct_example :
    set_fields test_runtime
      (person_struct 0 [])
      (get_item_map test_runtime column_names (person_struct 0 []))
      (map holding (values (person 1 (codes "x"))))
    ≡ fill_struct test_runtime
        (person_struct 0 [])
        (map (λ s. s) column_names)
        (values (person 1 (codes "x")))
set_fields-fill_struct_example =
    set_fields-fill_struct test_runtime column_names (values (person 1 (codes "x")))
      (person_struct 0 []) refl

set_value_signed_example :
    set_value test_runtime (place (basic (Kind.signed int64)) nil) (int_value int16 (negsuc 4))
    ≡ ok (if accepts_int int16 (Kind.signed int64) then int_value int64 (negsuc 4) else nil)
set_value_signed_example =
    set_value_signed test_runtime int16 (negsuc 4) (basic (Kind.signed int64)) int64 nil
      (unfold kind_of in refl) (unfold int_bits in omega arith)

set_value_same_type_example :
    set_value test_runtime (place (basic (Kind.unsigned uint8)) nil) (uint_value uint8 255)
    ≡ ok (uint_value uint8 255)
set_value_same_type_example =
    set_value_same_type test_runtime (uint_value uint8 255) nil (λ x. refl)
      (unfold uint_bits in omega arith) (unfold type_of in refl)

-- A field of a declared slice of bytes, such as `json.RawMessage`, takes bytes.
abbrev byte_elements : Runtime
byte_elements = record test_runtime { declared_elem = λ n. basic (Kind.unsigned uint8) }

raw_message_set :
    set_value byte_elements (place (declared 1 Kind.slice) nil) (bytes_value (1 ∷ []))
    ≡ ok (bytes_value (1 ∷ []))
unfolding set_value kind_of kind_eq
raw_message_set = refl

-- A pointer to it is not set, and `reflect` panics.
raw_message_pointer :
    set_value byte_elements (place (pointer (declared 1 Kind.slice)) nil) (bytes_value (1 ∷ []))
    ≡ panic
unfolding set_value kind_of kind_eq set_pointer type_eq
raw_message_pointer = refl
