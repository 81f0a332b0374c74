-- ===== src/Go/Types.antt =====
-- The part of `reflect.Kind` and `reflect.Type` that the program looks at, on a 64-bit platform.
use onedb.Prelude.{
  ℕ, ◌==◌, ==_refl, ◌≡◌, refl, ap, Bool, true, false, ◌&&◌, Option, none, some, arith,
}

pub data IntKind : Type 0 where
  int int8 int16 int32 int64 : IntKind

pub data UintKind : Type 0 where
  uint uint8 uint16 uint32 uint64 : UintKind

pub data FloatKind : Type 0 where
  float32 float64 : FloatKind

-- `other_kind n` stands for arrays, channels, functions and maps.
pub data Kind : Type 0 where
  bool string complex64 complex128 interface ptr slice struct : Kind
  signed : IntKind → Kind
  unsigned : UintKind → Kind
  floating : FloatKind → Kind
  other_kind : ℕ → Kind

-- A predeclared type, a declared type (numbered, with the kind of its underlying type), a pointer
-- or slice type, or `interface{}`.
pub data GoType : Type 0 where
  basic : Kind → GoType
  declared : ℕ → Kind → GoType
  pointer : GoType → GoType
  slice_of : GoType → GoType
  any : GoType

-- `reflect.Type.Kind`.
unfoldable pub kind_of : GoType → Kind
kind_of (basic k) = k
kind_of (declared n k) = k
kind_of (pointer t) = ptr
kind_of (slice_of t) = slice
kind_of any = interface

-- `reflect.Type.Elem`, which panics on a type of another kind.
unfoldable pub elem_type : GoType → Option GoType
elem_type (pointer t) = some t
elem_type (slice_of t) = some t
elem_type _ = none

-- `time.Time`.
abbrev pub time_type : GoType
time_type = declared 0 struct

unfoldable pub int_kind_eq : IntKind → IntKind → Bool
int_kind_eq int int = true
int_kind_eq int8 int8 = true
int_kind_eq int16 int16 = true
int_kind_eq int32 int32 = true
int_kind_eq int64 int64 = true
int_kind_eq _ _ = false

unfoldable pub uint_kind_eq : UintKind → UintKind → Bool
uint_kind_eq uint uint = true
uint_kind_eq uint8 uint8 = true
uint_kind_eq uint16 uint16 = true
uint_kind_eq uint32 uint32 = true
uint_kind_eq uint64 uint64 = true
uint_kind_eq _ _ = false

unfoldable pub float_kind_eq : FloatKind → FloatKind → Bool
float_kind_eq float32 float32 = true
float_kind_eq float64 float64 = true
float_kind_eq _ _ = false

-- `==` on kinds.
unfoldable pub kind_eq : Kind → Kind → Bool
unfolding int_kind_eq uint_kind_eq float_kind_eq
kind_eq bool bool = true
kind_eq string string = true
kind_eq complex64 complex64 = true
kind_eq complex128 complex128 = true
kind_eq interface interface = true
kind_eq ptr ptr = true
kind_eq slice slice = true
kind_eq struct struct = true
kind_eq (signed j) (signed k) = int_kind_eq j k
kind_eq (unsigned j) (unsigned k) = uint_kind_eq j k
kind_eq (floating j) (floating k) = float_kind_eq j k
kind_eq (other_kind m) (other_kind n) = m == n
kind_eq _ _ = false

-- `==` on types.
unfoldable pub type_eq : GoType → GoType → Bool
unfolding kind_eq
type_eq (basic j) (basic k) = kind_eq j k
type_eq (declared m j) (declared n k) = (m == n) && kind_eq j k
type_eq (pointer t) (pointer u) = type_eq t u
type_eq (slice_of t) (slice_of u) = type_eq t u
type_eq any any = true
type_eq _ _ = false

-- `reflect.Type.Implements`: does a type implement the declared interface of that number?
abbrev pub Interfaces : Type 0
Interfaces = ℕ → GoType → Bool

-- A type implements `interface{}` whatever its methods are.
unfoldable pub implements : Interfaces → GoType → GoType → Bool
unfolding kind_eq
implements known any t = true
implements known (declared n k) t = kind_eq k interface && known n t
implements known _ t = false

kind_eq_refl : (k : Kind) → kind_eq k k ≡ true
unfolding kind_eq
kind_eq_refl k = ground arith

pub type_eq_refl : (t : GoType) → type_eq t t ≡ true
unfolding type_eq
type_eq_refl (basic k) = kind_eq_refl k
type_eq_refl (declared n k) = rw (==_refl n) (kind_eq_refl k)
type_eq_refl (pointer t) = type_eq_refl t
type_eq_refl (slice_of t) = type_eq_refl t
type_eq_refl any = refl

kind_eq→eq : (j k : Kind) → kind_eq j k ≡ true → j ≡ k
unfolding kind_eq
kind_eq→eq j k h = ground arith

pub type_eq→eq : (t u : GoType) → type_eq t u ≡ true → t ≡ u
unfolding type_eq
type_eq→eq (basic j) (basic k) h = ap basic (kind_eq→eq j k h)
type_eq→eq (declared m j) (declared n k) h = ground (arith, kind_eq→eq j k)
type_eq→eq (pointer t) (pointer u) h = ap pointer (type_eq→eq t u h)
type_eq→eq (slice_of t) (slice_of u) h = ap slice_of (type_eq→eq t u h)
type_eq→eq any any h = refl
type_eq→eq t u h = cc
