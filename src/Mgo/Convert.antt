-- ===== src/Mgo/Convert.antt =====
-- `convertAssign` of mgo/fakeBackend.go, and the functions that it calls.
pub mod Laws
pub mod RoundTrip
use onedb.Prelude.{
  zero, [], ◌∷◌, Bool, true, false, ◌&&◌, ◌||◌, Option, none, some, Bytes, codes, if◌then◌else◌,
}
use onedb.Go.Outcome.{
  destination_nil, destination_no_pointer, unsupported_scan, conversion_syntax, conversion_range,
  Outcome, ok, err, panic, out_of_fuel,
}
use onedb.Go.Strconv.{Parsed, parsed, syntax_error, range_error, parse_int, parse_uint}
use onedb.Go.Types.{
  uint8, Kind, bool, string, ptr, struct, signed, unsigned, floating, GoType, basic, declared,
  pointer, slice_of, any, kind_of, kind_eq, type_eq,
}
use onedb.Go.Values.{
  Value, nil, bool_value, bytes_value, time_value, int_value, uint_value, float_value, string_value,
  pointer_to, type_of, Runtime,
}
use onedb.Mgo.Scalars.{Reflection, content, as_string, as_bytes, convert_bool, is_scalar}
use onedb.Rows.{Cell}
use onedb.Struct.Result.{zero_value}
use onedb.Struct.SetValue.{int_bits, uint_bits}

-- What the variable holds after the call, and the error.
abbrev pub Assigned : Type 0
Assigned = Value × Outcome (Unit {0})

-- The argument `dest`: a pointer to a variable, a nil pointer to a type, or no pointer.
pub data Destination : Type 0 where
  to_variable : Cell → Destination
  nil_pointer : GoType → Destination
  no_pointer : Destination

abbrev pub rfc3339_nano : Bytes
rfc3339_nano = codes "2006-01-02T15:04:05.999999999Z07:00"

-- The cases without `reflect`: what is stored, if the types are among them.
pub common_case : Runtime → Value → GoType → Option Value
common_case rt (string_value s) (basic string) = some (string_value s)
common_case rt (string_value s) (slice_of (basic (unsigned uint8))) = some (bytes_value s)
common_case rt (bytes_value s) (basic string) = some (string_value s)
common_case rt (bytes_value s) any = some (bytes_value s)
common_case rt (bytes_value s) (slice_of (basic (unsigned uint8))) = some (bytes_value s)
common_case rt (time_value t) (declared zero struct) = some (time_value t)
common_case rt (time_value t) (basic string) = some (string_value (rt.format_time rfc3339_nano t))
common_case rt (time_value t) (slice_of (basic (unsigned uint8))) =
    some (bytes_value (rt.format_time rfc3339_nano t))
common_case rt nil any = some nil
common_case rt nil (slice_of (basic (unsigned uint8))) = some (bytes_value [])
common_case rt _ _ = none

module _ (rt : Runtime) (rf : Reflection) where
  bool_assigned : Value → Outcome Bool → Assigned
  bool_assigned old (ok b) = (bool_value b, ok tt)
  bool_assigned old (err e) = (old, err e)
  bool_assigned old panic = (old, panic)
  bool_assigned old out_of_fuel = (old, out_of_fuel)

  stored : Option Value → Option Assigned
  stored none = none
  stored (some v) = some (v, ok tt)

  stored_bytes : Option Bytes → Option Assigned
  stored_bytes none = none
  stored_bytes (some s) = some (bytes_value s, ok tt)

  -- The `switch` on the type of `dest`.
  pub by_type : GoType → Value → Value → Option Assigned
  unfolding is_scalar bool_assigned stored_bytes content
  by_type (basic string) old src =
      if is_scalar (content rt rf src)
      then some (string_value (as_string rt rf src), ok tt)
      else none
  by_type (slice_of (basic (unsigned uint8))) old src = stored_bytes (as_bytes rt rf src)
  by_type (basic bool) old src = some (bool_assigned old (convert_bool rt rf src))
  by_type any old src = some (src, ok tt)
  by_type _ old src = none

  -- Is one of the types declared, or composite?
  is_basic : GoType → Bool
  is_basic (basic k) = true
  is_basic _ = false

  assignable : GoType → GoType → Bool
  unfolding is_basic
  assignable t u =
      type_eq t u
      || (type_eq u any || (if is_basic t && is_basic u then false else rf.assignable_to t u))

  by_kind_equal : GoType → Value → GoType → Option Assigned
  unfolding stored
  by_kind_equal t src u =
      if kind_eq (kind_of t) (kind_of u) then stored (rf.convert t src) else none

  -- `Set`, or `Convert` for types of the same kind; there is no type behind nil.
  pub reflected : GoType → Value → Option GoType → Option Assigned
  unfolding assignable by_kind_equal
  reflected t src none = none
  reflected t src (some u) = if assignable u t then some (src, ok tt) else by_kind_equal t src u

  -- `SetInt`, `SetUint` and `SetFloat` on a variable of the type.
  set_content : GoType → Value → Value
  set_content (basic k) v = v
  set_content t v = rf.declare t v

  number_assigned : {A : Type 0} → (A → Value) → GoType → Value → Bytes → Parsed A → Assigned
  unfolding set_content
  number_assigned wrap t old s (parsed a) = (set_content t (wrap a), ok tt)
  number_assigned wrap t old s syntax_error = (old, err (conversion_syntax s))
  number_assigned wrap t old s range_error = (old, err (conversion_range s))

  -- The `switch` on the kind of the variable, but for pointer types.
  pub by_kind : Kind → GoType → Value → Value → Assigned
  unfolding number_assigned
  by_kind (signed k) t old src =
      number_assigned (int_value k) t old (as_string rt rf src)
        (parse_int (int_bits k) (as_string rt rf src))
  by_kind (unsigned k) t old src =
      number_assigned (uint_value k) t old (as_string rt rf src)
        (parse_uint (uint_bits k) (as_string rt rf src))
  by_kind (floating k) t old src =
      number_assigned (float_value k) t old (as_string rt rf src)
        (rf.parse_float k (as_string rt rf src))
  by_kind string t old (string_value s) = (set_content t (string_value s), ok tt)
  by_kind string t old (bytes_value s) = (set_content t (string_value s), ok tt)
  by_kind ptr t old src = rf.declared_pointer t old src
  by_kind _ t old src = (old, err unsupported_scan)

  or_else : Option Assigned → Assigned → Assigned
  or_else (some r) last = r
  or_else none last = last

  -- What stands before the `switch` on the kind.
  pub attempts : GoType → Value → Value → Assigned → Assigned
  unfolding common_case by_type reflected or_else stored
  attempts t old src last =
      or_else (stored (common_case rt src t))
        (or_else (by_type t old src) (or_else (reflected t src (type_of src)) last))

  -- A new variable behind the pointer gets the value, unless it is nil.
  behind_pointer : GoType → Value → Assigned → Assigned
  behind_pointer t nil r = (nil, ok tt)
  behind_pointer t src (v, r) = (pointer_to t v, r)

  pub convert_variable : GoType → Value → Value → Assigned
  unfolding attempts by_kind behind_pointer
  convert_variable (pointer t) old src =
      attempts (pointer t) old src (behind_pointer t src (convert_variable t (zero_value t) src))
  convert_variable t old src = attempts t old src (by_kind (kind_of t) t old src)

  -- The cases without `reflect` on a nil pointer; two of them do not look at it.
  nil_common : Value → GoType → Option (Outcome (Unit {0}))
  nil_common (time_value t) (declared zero struct) = some panic
  nil_common (time_value t) (basic string) = some panic
  nil_common src t = elim (common_case rt src t) [
    | none ↦ none
    | some v ↦ some (err destination_nil)
  ]

  nil_bool : Outcome Bool → Outcome (Unit {0})
  nil_bool (ok b) = panic
  nil_bool (err e) = err e
  nil_bool panic = panic
  nil_bool out_of_fuel = out_of_fuel

  nil_bytes : Option Bytes → Outcome (Unit {0})
  nil_bytes none = err destination_nil
  nil_bytes (some s) = panic

  -- Behind them: the `switch` on the type stores through the nil pointer.
  nil_by_type : Value → GoType → Outcome (Unit {0})
  unfolding nil_bool nil_bytes is_scalar content
  nil_by_type src (basic string) =
      if is_scalar (content rt rf src) then panic else err destination_nil
  nil_by_type src (slice_of (basic (unsigned uint8))) = nil_bytes (as_bytes rt rf src)
  nil_by_type src (basic bool) = nil_bool (convert_bool rt rf src)
  nil_by_type src any = panic
  nil_by_type src _ = err destination_nil

  nil_result : Value → GoType → Option (Outcome (Unit {0})) → Outcome (Unit {0})
  unfolding nil_by_type
  nil_result src t (some r) = r
  nil_result src t none = nil_by_type src t

  unfoldable pub convert_assign : Destination → Value → Assigned
  unfolding convert_variable nil_result nil_common
  convert_assign (to_variable c) src = convert_variable c.type c.value src
  convert_assign (nil_pointer t) src = (nil, nil_result src t (nil_common src t))
  convert_assign no_pointer src = (nil, err destination_no_pointer)
