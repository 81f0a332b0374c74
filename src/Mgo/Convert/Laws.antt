-- ===== src/Mgo/Convert/Laws.antt =====
-- Integers through `convertAssign`: nothing is lost.
use onedb.Prelude.{
  ℕ, ◌^◌, ◌<◌, ◌≡◌, refl, ap, subst, Bytes, Bool, true, false, Bool-cases, inl, inr, Option, none,
  some, ltb, lt→ltb, arith, if◌then◌else◌,
}
use mathlib.Core.Option.{some-injective}
use onedb.Go.Decimal.{format_int, format_uint}
use onedb.Go.Ints.{ℤ, pos, negsuc, magnitude}
use onedb.Go.Outcome.{Error, conversion_syntax, conversion_range, ok, err}
use onedb.Go.Strconv.{Parsed, parsed, syntax_error, range_error, parse_int, parse_uint}
use onedb.Go.Strconv.RoundTrip.{parse_int-format, parse_uint-negative, parse_uint-format_uint}
use onedb.Go.Types.{
  IntKind, UintKind, int_kind_eq, uint_kind_eq, Kind, signed, unsigned, GoType, basic, type_eq,
  kind_eq, kind_of,
}
use onedb.Go.Values.{Value, int_value, uint_value, type_of, Runtime}
use onedb.Mgo.Convert.{
  Assigned, to_variable, convert_variable, convert_assign, number_assigned, by_kind_equal,
  set_content,
}
use onedb.Mgo.Scalars.{Reflection, as_string}
use onedb.Struct.SetValue.{int_bits, uint_bits}
use onedb.Struct.SetValue.Laws.{InRange}

-- The integer that a value is.
abbrev pub number : Value → Option ℤ
number (int_value k z) = some z
number (uint_value k n) = some (pos n)
number _ = none

-- The value of an integer type that is the integer, if there is one.
abbrev pub exact : GoType → ℤ → Option Value
exact (basic (signed k)) z =
    if ltb (magnitude z) (2 ^ int_bits k) then some (int_value k z) else none
exact (basic (unsigned k)) (pos n) = if ltb n (2 ^ uint_bits k) then some (uint_value k n) else none
exact _ _ = none

abbrev pub IsInteger : GoType → Type 0
IsInteger (basic (signed k)) = Unit
IsInteger (basic (unsigned k)) = Unit
IsInteger _ = ⊥

-- The value is stored, or it is an error and the variable is left alone.
abbrev pub Stores : Value → Option Value → Assigned → Type 0
Stores old (some v) r = r ≡ (v, ok tt)
Stores old none r = (e : Error) × (r ≡ (old, err e))

int_kind_eq→eq : (j k : IntKind) → int_kind_eq j k ≡ true → j ≡ k
unfolding int_kind_eq
int_kind_eq→eq j k h = ground arith

int_kind_eq_flip : (j k : IntKind) → int_kind_eq j k ≡ false → int_kind_eq k j ≡ false
unfolding int_kind_eq
int_kind_eq_flip j k h = ground arith

uint_kind_eq→eq : (j k : UintKind) → uint_kind_eq j k ≡ true → j ≡ k
unfolding uint_kind_eq
uint_kind_eq→eq j k h = ground arith

uint_kind_eq_flip : (j k : UintKind) → uint_kind_eq j k ≡ false → uint_kind_eq k j ≡ false
unfolding uint_kind_eq
uint_kind_eq_flip j k h = ground arith

module _ (rt : Runtime) (rf : Reflection) where
  number_assigned-Stores :
      {A : Type 0} (wrap : A → Value) (k : Kind) (old : Value) (s : Bytes) (b : Bool) (a : A)
      (p : Parsed A)
      → p ≡ (if b then parsed a else range_error)
      → Stores old
          (if b then some (wrap a) else none)
          (number_assigned rt rf wrap (basic k) old s p)
  unfolding number_assigned set_content
  number_assigned-Stores wrap k old s true a p h = rw h refl
  number_assigned-Stores wrap k old s false a p h = (conversion_range s, rw h refl)

  -- A failing parse leaves the variable alone.
  syntax_Stores :
      {A : Type 0} (wrap : A → Value) (k : Kind) (old : Value) (s : Bytes) (p : Parsed A)
      → p ≡ syntax_error
      → Stores old none (number_assigned rt rf wrap (basic k) old s p)
  unfolding number_assigned
  syntax_Stores wrap k old s p h = (conversion_syntax s, rw h refl)

  signed-signed :
      (j k : IntKind) (z : ℤ) (old : Value)
      → magnitude z < 2 ^ int_bits j
      → Stores old
          (exact (basic (signed k)) z)
          (convert_variable rt rf (basic (signed k)) old (int_value j z))
  unfolding convert_variable type_of kind_of type_eq kind_eq as_string by_kind_equal
  signed-signed j k z old h = elim (Bool-cases (int_kind_eq j k)) [
    | inl same ↦
        let e = int_kind_eq→eq j k same in
        rw
          (
            lt→ltb (magnitude z) (2 ^ int_bits k) (subst (λ i. magnitude z < 2 ^ int_bits i) e h),
            same,
          )
          (ap (λ i. let r : Assigned = (int_value i z, ok tt) in r) e)
    | inr differ ↦
        rw (differ, int_kind_eq_flip j k differ)
          (number_assigned-Stores (int_value k) (signed k) old (format_int z)
            (ltb (magnitude z) (2 ^ int_bits k)) z (parse_int (int_bits k) (format_int z))
            (parse_int-format (int_bits k) z))
  ]

  unsigned-unsigned :
      (j k : UintKind) (n : ℕ) (old : Value)
      → n < 2 ^ uint_bits j
      → Stores old
          (exact (basic (unsigned k)) (pos n))
          (convert_variable rt rf (basic (unsigned k)) old (uint_value j n))
  unfolding convert_variable type_of kind_of type_eq kind_eq as_string by_kind_equal
  unsigned-unsigned j k n old h = elim (Bool-cases (uint_kind_eq j k)) [
    | inl same ↦
        let e = uint_kind_eq→eq j k same in
        rw (lt→ltb n (2 ^ uint_bits k) (subst (λ i. n < 2 ^ uint_bits i) e h), same)
          (ap (λ i. let r : Assigned = (uint_value i n, ok tt) in r) e)
    | inr differ ↦
        rw (differ, uint_kind_eq_flip j k differ)
          (number_assigned-Stores (uint_value k) (unsigned k) old (format_uint n)
            (ltb n (2 ^ uint_bits k)) n (parse_uint (uint_bits k) (format_uint n))
            (parse_uint-format_uint (uint_bits k) n))
  ]

  signed-unsigned :
      (j : IntKind) (k : UintKind) (z : ℤ) (old : Value)
      → Stores old
          (exact (basic (unsigned k)) z)
          (convert_variable rt rf (basic (unsigned k)) old (int_value j z))
  unfolding convert_variable type_of kind_of type_eq kind_eq as_string by_kind_equal format_int
      format_uint
  signed-unsigned j k (pos n) old =
      number_assigned-Stores (uint_value k) (unsigned k) old (format_uint n)
        (ltb n (2 ^ uint_bits k)) n (parse_uint (uint_bits k) (format_uint n))
        (parse_uint-format_uint (uint_bits k) n)
  signed-unsigned j k (negsuc n) old =
      syntax_Stores (uint_value k) (unsigned k) old (format_int (negsuc n))
        (parse_uint (uint_bits k) (format_int (negsuc n))) (parse_uint-negative (uint_bits k) n)

  unsigned-signed :
      (j : UintKind) (k : IntKind) (n : ℕ) (old : Value)
      → Stores old
          (exact (basic (signed k)) (pos n))
          (convert_variable rt rf (basic (signed k)) old (uint_value j n))
  unfolding convert_variable type_of kind_of type_eq kind_eq as_string by_kind_equal format_int
      format_uint
  unsigned-signed j k n old =
      number_assigned-Stores (int_value k) (signed k) old (format_uint n) (ltb n (2 ^ int_bits k))
        (pos n) (parse_int (int_bits k) (format_uint n)) (parse_int-format (int_bits k) (pos n))

  -- `convertAssign` of an integer in the range of its own type into a variable of a predeclared
  -- integer type: if the variable can hold the number, it holds it and there is no error; if not,
  -- there is an error and the variable holds what it held before.
  pub convert_assign-exact :
      (src : Value) (z : ℤ) (t : GoType) (old : Value)
      → number src ≡ some z
      → InRange src
      → IsInteger t
      → Stores old
          (exact t z)
          (convert_assign rt rf (to_variable (record { type = t; value = old })) src)
  unfolding convert_assign
  convert_assign-exact (int_value j z') z (basic (signed k)) old e r i =
      subst
        (λ y.
          Stores old (exact (basic (signed k)) y)
            (convert_variable rt rf (basic (signed k)) old (int_value j z')))
        (some-injective z' z e) (signed-signed j k z' old r)
  convert_assign-exact (int_value j z') z (basic (unsigned k)) old e r i =
      subst
        (λ y.
          Stores old (exact (basic (unsigned k)) y)
            (convert_variable rt rf (basic (unsigned k)) old (int_value j z')))
        (some-injective z' z e) (signed-unsigned j k z' old)
  convert_assign-exact (uint_value j n) z (basic (signed k)) old e r i =
      subst
        (λ y.
          Stores old (exact (basic (signed k)) y)
            (convert_variable rt rf (basic (signed k)) old (uint_value j n)))
        (some-injective (pos n) z e) (unsigned-signed j k n old)
  convert_assign-exact (uint_value j n) z (basic (unsigned k)) old e r i =
      subst
        (λ y.
          Stores old (exact (basic (unsigned k)) y)
            (convert_variable rt rf (basic (unsigned k)) old (uint_value j n)))
        (some-injective (pos n) z e) (unsigned-unsigned j k n old r)
  convert_assign-exact src z t old e r i = ground arith
