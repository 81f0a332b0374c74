-- ===== src/Mgo/Convert/RoundTrip.antt =====
-- Values through a string and back.
use onedb.Prelude.{ℕ, ◌^◌, ◌<◌, ◌≡◌, refl, true, false, lt→ltb, text_eq, arith}
use onedb.Go.Decimal.{format_int, format_uint}
use onedb.Go.Ints.{ℤ, magnitude}
use onedb.Go.Outcome.{ok}
use onedb.Go.Strconv.{parse_bool}
use onedb.Go.Strconv.RoundTrip.{parse_int-format, parse_uint-format_uint}
use onedb.Go.Types.{
  IntKind, UintKind, bool, string, signed, unsigned, GoType, basic, kind_of, type_eq, kind_eq,
}
use onedb.Go.Values.{Value, bool_value, int_value, uint_value, string_value, type_of, Runtime}
use onedb.Mgo.Convert.{
  Assigned, to_variable, convert_variable, convert_assign, by_kind_equal, number_assigned,
  bool_assigned,
}
use onedb.Mgo.Scalars.{Reflection, as_string, read_bool, convert_bool}
use onedb.Struct.SetValue.{int_bits, uint_bits}
use onedb.Struct.SetValue.Laws.{InRange}

-- The predeclared type of a Boolean or an integer.
abbrev pub Scalar : Value → GoType → Type 0
Scalar (bool_value b) t = t ≡ basic bool
Scalar (int_value k z) t = t ≡ basic (signed k)
Scalar (uint_value k n) t = t ≡ basic (unsigned k)
Scalar _ t = ⊥

module _ (rt : Runtime) (rf : Reflection) where
  -- `convertAssign` into a variable of the type.
  abbrev pub assign : GoType → Value → Value → Assigned
  assign t old src = convert_assign rt rf (to_variable (record { type = t; value = old })) src

  int_read :
      (k : IntKind) (old : Value) (z : ℤ)
      → magnitude z < 2 ^ int_bits k
      → assign (basic (signed k)) old (string_value (format_int z)) ≡ (int_value k z, ok tt)
  unfolding convert_assign convert_variable type_of kind_of type_eq kind_eq as_string by_kind_equal
      number_assigned
  int_read k old z h =
      rw (parse_int-format (int_bits k) z, lt→ltb (magnitude z) (2 ^ int_bits k) h) refl

  uint_read :
      (k : UintKind) (old : Value) (n : ℕ)
      → n < 2 ^ uint_bits k
      → assign (basic (unsigned k)) old (string_value (format_uint n)) ≡ (uint_value k n, ok tt)
  unfolding convert_assign convert_variable type_of kind_of type_eq kind_eq as_string by_kind_equal
      number_assigned
  uint_read k old n h =
      rw (parse_uint-format_uint (uint_bits k) n, lt→ltb n (2 ^ uint_bits k) h) refl

  -- `convertAssign` of a Boolean, or of an integer in the range of its type, into a string
  -- variable has no error, and of that string into a variable of the predeclared type of the
  -- value gives the value back.
  pub assign-assign :
      (v : Value) (t : GoType) (old older : Value)
      → Scalar v t
      → InRange v
      → ((assign (basic string) older v).1 ≡ ok tt)
        × (assign t old (assign (basic string) older v).0 ≡ (v, ok tt))
  unfolding convert_assign convert_variable as_string parse_bool text_eq read_bool bool_assigned
      convert_bool
  assign-assign (bool_value true) t old older s r = (refl, rw s refl)
  assign-assign (bool_value false) t old older s r = (refl, rw s refl)
  assign-assign (int_value k z) t old older s r = (refl, rw s (int_read k old z r))
  assign-assign (uint_value k n) t old older s r = (refl, rw s (uint_read k old n r))
  assign-assign v t old older s r = ground arith
