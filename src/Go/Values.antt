-- ===== src/Go/Values.antt =====
-- The values that an `interface{}` holds, by dynamic type, and what the program uses of the
-- standard library on them.
use onedb.Prelude.{ℕ, Bytes, Bool, true, false, Option, none, some, codes}
use onedb.Go.Ints.{ℤ}
use onedb.Go.Decimal.{format_int, format_uint}
use onedb.Go.Types.{
  IntKind, UintKind, uint8, FloatKind, GoType, Kind, basic, pointer, slice_of, time_type,
}

-- A float is its bit pattern and a `time.Time` a numbered instant; `pointer_to t v` points to a
-- variable of type `t` that holds `v`, and `other_value t n` is a value of any other type `t`.
pub data Value : Type 0 where
  nil : Value
  bool_value : Bool → Value
  bytes_value : Bytes → Value
  time_value : ℕ → Value
  int_value : IntKind → ℤ → Value
  uint_value : UintKind → ℕ → Value
  float_value : FloatKind → ℕ → Value
  complex64_value : ℕ → Value
  complex128_value : ℕ → Value
  string_value : Bytes → Value
  pointer_to : GoType → Value → Value
  other_value : GoType → ℕ → Value

-- `reflect.TypeOf`, which is nil for the nil interface.
unfoldable pub type_of : Value → Option GoType
type_of nil = none
type_of (bool_value b) = some (basic Kind.bool)
type_of (bytes_value s) = some (slice_of (basic (Kind.unsigned uint8)))
type_of (time_value t) = some time_type
type_of (int_value k z) = some (basic (Kind.signed k))
type_of (uint_value k n) = some (basic (Kind.unsigned k))
type_of (float_value k x) = some (basic (Kind.floating k))
type_of (complex64_value z) = some (basic Kind.complex64)
type_of (complex128_value z) = some (basic Kind.complex128)
type_of (string_value s) = some (basic Kind.string)
type_of (pointer_to t v) = some (pointer t)
type_of (other_value t n) = some t

-- `time.Time.Format`, `%v` of the values that are not rendered here, `strings.ToLower`, and the
-- conversions between the float formats; and what `Elem` of a declared pointer or slice type
-- returns.
pub record Runtime : Type 0 where
  pub format_time : Bytes → ℕ → Bytes
  pub sprint_other : Value → Bytes
  pub to_lower : Bytes → Bytes
  pub widen_float : ℕ → ℕ
  pub narrow_float : ℕ → ℕ
  pub declared_elem : ℕ → GoType

-- `fmt.Sprintf("%v", v)`.
unfoldable pub sprint : Runtime → Value → Bytes
unfolding format_int format_uint
sprint rt nil = codes "<nil>"
sprint rt (bool_value true) = codes "true"
sprint rt (bool_value false) = codes "false"
sprint rt (int_value k z) = format_int z
sprint rt (uint_value k n) = format_uint n
sprint rt (string_value s) = s
sprint rt v = rt.sprint_other v
