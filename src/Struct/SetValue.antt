-- ===== src/Struct/SetValue.antt =====
-- `setValue` of dbToStruct.go: one column value into one struct field.
pub mod Laws
use onedb.Prelude.{ℕ, Bool, true, false, ◌&&◌, none, some, if◌then◌else◌}
use onedb.Go.Outcome.{Outcome, ok, panic}
use onedb.Go.Ints.{ℤ, wrap_signed, wrap_unsigned}
use onedb.Go.Types.{
  IntKind, int, int8, int16, int32, int64, UintKind, uint, uint8, uint16, uint32, uint64, FloatKind,
  float32, float64, Kind, ptr, slice, struct, signed, unsigned, floating, GoType, basic, declared,
  pointer, slice_of, time_type, kind_of, kind_eq, type_eq,
}
use onedb.Go.Values.{
  Value, nil, bool_value, bytes_value, time_value, int_value, uint_value, float_value, string_value,
  pointer_to, type_of, Runtime,
}
use onedb.Rows.{Cell}

-- A variable that `reflect` reaches; an unexported field cannot be set.
pub record Place : Type 0 where
  pub can_set : Bool
  pub cell : Cell

-- The bits of a signed word less its sign, and of an unsigned word; `int` and `uint` have 64.
unfoldable pub int_bits : IntKind → ℕ
int_bits int = 63
int_bits int8 = 7
int_bits int16 = 15
int_bits int32 = 31
int_bits int64 = 63

unfoldable pub uint_bits : UintKind → ℕ
uint_bits uint = 64
uint_bits uint8 = 8
uint_bits uint16 = 16
uint_bits uint32 = 32
uint_bits uint64 = 64

-- The kinds that the case of a signed source type names.
unfoldable pub accepts_int : IntKind → Kind → Bool
accepts_int int8 (signed k) = true
accepts_int int16 (signed int8) = false
accepts_int int16 (signed k) = true
accepts_int int32 (signed int8) = false
accepts_int int32 (signed int16) = false
accepts_int int32 (signed k) = true
accepts_int int64 (signed int64) = true
accepts_int int64 (signed int) = true
accepts_int int (signed int) = true
accepts_int int (signed int64) = true
accepts_int _ _ = false

unfoldable pub accepts_uint : UintKind → Kind → Bool
accepts_uint uint8 (unsigned k) = true
accepts_uint uint16 (unsigned uint8) = false
accepts_uint uint16 (unsigned k) = true
accepts_uint uint32 (unsigned uint8) = false
accepts_uint uint32 (unsigned uint16) = false
accepts_uint uint32 (unsigned k) = true
accepts_uint uint64 (unsigned uint64) = true
accepts_uint uint64 (unsigned uint) = true
accepts_uint uint (unsigned uint64) = true
accepts_uint uint (unsigned uint) = true
accepts_uint _ _ = false

unfoldable pub accepts_float : FloatKind → Kind → Bool
accepts_float float32 (floating k) = true
accepts_float float64 (floating float64) = true
accepts_float _ _ = false

-- `dest.SetInt` and `dest.SetUint` keep the low bits; they panic on another kind.
set_int : Kind → ℤ → Outcome Value
unfolding int_bits
set_int (signed k) z = ok (int_value k (wrap_signed (int_bits k) z))
set_int _ z = panic

set_uint : Kind → ℕ → Outcome Value
unfolding uint_bits
set_uint (unsigned k) n = ok (uint_value k (wrap_unsigned (uint_bits k) n))
set_uint _ n = panic

-- `dest.SetFloat` on a 64-bit pattern.
set_float : Runtime → Kind → ℕ → Outcome Value
set_float rt (floating float32) x = ok (float_value float32 (rt.narrow_float x))
set_float rt (floating float64) x = ok (float_value float64 x)
set_float rt _ x = panic

is_pointer : GoType → Bool
is_pointer t = kind_eq (kind_of t) ptr

-- `Elem` of a pointer or slice type; it is asked of no other.
elem : Runtime → GoType → GoType
elem rt (pointer t) = t
elem rt (slice_of t) = t
elem rt (declared n k) = rt.declared_elem n
elem rt t = t

-- `dest.Set(reflect.ValueOf(&v))` for a `v` of type `t`, which panics unless the type of `dest` is
-- the pointer type to `t` or declared as it.
unfoldable pub set_pointer : Runtime → GoType → GoType → Value → Outcome Value
unfolding is_pointer elem
set_pointer rt dest t v =
    if is_pointer dest && type_eq (elem rt dest) t then ok (pointer_to t v) else panic

-- The kind behind a pointer type, and the kind of another type.
root_kind : Runtime → GoType → Kind
unfolding is_pointer elem
root_kind rt t = if is_pointer t then kind_of (elem rt t) else kind_of t

-- Is the type a slice of bytes?
is_bytes : Runtime → GoType → Bool
unfolding elem
is_bytes rt t = kind_eq (kind_of t) slice && kind_eq (kind_of (elem rt t)) (unsigned uint8)

is_bytes_pointer : Runtime → GoType → Bool
unfolding is_pointer root_kind elem
is_bytes_pointer rt t =
    is_pointer t
    && (kind_eq (root_kind rt t) slice && kind_eq (kind_of (elem rt (elem rt t))) (unsigned uint8))

-- What the variable of type `t` holds after the `switch`; `old` is what it held before.
unfoldable pub set_by_type : Runtime → GoType → Value → Value → Outcome Value
unfolding accepts_int accepts_uint accepts_float set_int set_uint set_float set_pointer root_kind
    is_pointer is_bytes is_bytes_pointer
set_by_type rt t old nil = ok old
set_by_type rt t old (bool_value b) =
    if kind_eq (kind_of t) Kind.bool
    then ok (bool_value b)
    else if is_pointer t && kind_eq (root_kind rt t) Kind.bool
    then set_pointer rt t (basic Kind.bool) (bool_value b)
    else ok old
set_by_type rt t old (bytes_value s) =
    if is_bytes rt t
    then ok (bytes_value s)
    else if is_bytes_pointer rt t
    then set_pointer rt t (slice_of (basic (unsigned uint8))) (bytes_value s)
    else ok old
set_by_type rt t old (float_value float32 x) =
    if accepts_float float32 (kind_of t)
    then set_float rt (kind_of t) (rt.widen_float x)
    else if is_pointer t && accepts_float float32 (root_kind rt t)
    then set_pointer rt t (basic (floating float32)) (float_value float32 x)
    else ok old
set_by_type rt t old (float_value float64 x) =
    if accepts_float float64 (kind_of t)
    then set_float rt (kind_of t) x
    else if is_pointer t && accepts_float float64 (root_kind rt t)
    then set_pointer rt t (basic (floating float64)) (float_value float64 x)
    else ok old
set_by_type rt t old (int_value k z) =
    if accepts_int k (kind_of t)
    then set_int (kind_of t) z
    else if is_pointer t && accepts_int k (root_kind rt t)
    then set_pointer rt t (basic (signed k)) (int_value k z)
    else ok old
set_by_type rt t old (uint_value k n) =
    if accepts_uint k (kind_of t)
    then set_uint (kind_of t) n
    else if is_pointer t && accepts_uint k (root_kind rt t)
    then set_pointer rt t (basic (unsigned k)) (uint_value k n)
    else ok old
set_by_type rt t old (string_value s) =
    if kind_eq (kind_of t) Kind.string
    then ok (string_value s)
    else if is_pointer t && kind_eq (root_kind rt t) Kind.string
    then set_pointer rt t (basic Kind.string) (string_value s)
    else ok old
set_by_type rt t old (time_value i) =
    if kind_eq (kind_of t) struct
    then (if type_eq t time_type then ok (time_value i) else panic)
    else if is_pointer t && kind_eq (root_kind rt t) struct
    then set_pointer rt t time_type (time_value i)
    else ok old
set_by_type rt t old v = elim (type_of v) [
  | none ↦ ok old
  | some u ↦ if type_eq t u then ok v else ok old
]

-- What `dest` holds after `setValue(dest, &src)`.
unfoldable pub set_value : Runtime → Place → Value → Outcome Value
unfolding set_by_type
set_value rt dest src =
    if dest.can_set then set_by_type rt dest.cell.type dest.cell.value src else ok dest.cell.value
