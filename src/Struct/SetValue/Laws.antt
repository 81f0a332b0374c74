-- ===== src/Struct/SetValue/Laws.antt =====
-- What `setValue` stores, and where it panics.
use onedb.Prelude.{
  ℕ, ◌<◌, ◌^◌, ◌≡◌, ◌≢◌, refl, ap, ◌∙◌, subst, true, false, ◌⊎◌, inl, inr, arith, some,
  if◌then◌else◌, Bool-cases,
}
use mathlib.Core.Option.{some-injective}
use onedb.Go.Outcome.{Outcome, ok, panic}
use onedb.Go.Ints.{ℤ, magnitude, wrap_signed-id, wrap_unsigned-id}
use onedb.Go.Types.{
  IntKind, int, int8, int16, int32, int64, UintKind, uint, uint8, uint16, uint32, uint64, float32,
  float64, Kind, ptr, signed, unsigned, GoType, basic, pointer, time_type, kind_of, kind_eq,
  type_eq, type_eq_refl, type_eq→eq,
}
use onedb.Go.Values.{
  Value, nil, bool_value, bytes_value, time_value, int_value, uint_value, float_value, string_value,
  pointer_to, other_value, complex64_value, complex128_value, type_of, Runtime,
}
use onedb.Struct.SetValue.{
  Place, int_bits, uint_bits, accepts_int, accepts_uint, set_pointer, set_value,
}

-- A wider word holds what fits the narrower one.
int_room :
    (j k : IntKind) (m : ℕ)
    → accepts_int j (signed k) ≡ true
    → m < 2 ^ int_bits j
    → m < 2 ^ int_bits k
unfolding accepts_int int_bits
int_room int int m h lt = lt
int_room int int64 m h lt = lt
int_room int8 int8 m h lt = lt
int_room int8 _ m h lt = omega arith
int_room int16 int16 m h lt = lt
int_room int16 int8 m h lt = cc
int_room int16 _ m h lt = omega arith
int_room int32 int32 m h lt = lt
int_room int32 int64 m h lt = omega arith
int_room int32 int m h lt = omega arith
int_room int64 int64 m h lt = lt
int_room int64 int m h lt = lt
int_room _ _ m h lt = cc

-- A signed column value in the range of its own type, stored in a settable signed field: the
-- field holds the same number if the source names its kind for the type of the value, and
-- otherwise what it held before; nothing is truncated.
pub set_value_signed :
    (rt : Runtime) (j : IntKind) (z : ℤ) (t : GoType) (k : IntKind) (old : Value)
    → kind_of t ≡ signed k
    → magnitude z < 2 ^ int_bits j
    → set_value rt
        (record { can_set = true; cell = record { type = t; value = old } })
        (int_value j z)
      ≡ ok (if accepts_int j (signed k) then int_value k z else old)
unfolding set_value kind_eq
set_value_signed rt j z t k old kind fits = elim (Bool-cases (accepts_int j (signed k))) [
  | inl wide ↦
      rw (kind, wide)
        (ap (λ u. ok (int_value k u))
          (wrap_signed-id (int_bits k) z (int_room j k (magnitude z) wide fits)))
  | inr narrow ↦ rw (kind, narrow) refl
]

uint_room :
    (j k : UintKind) (m : ℕ)
    → accepts_uint j (unsigned k) ≡ true
    → m < 2 ^ uint_bits j
    → m < 2 ^ uint_bits k
unfolding accepts_uint uint_bits
uint_room uint uint m h lt = lt
uint_room uint uint64 m h lt = lt
uint_room uint8 uint8 m h lt = lt
uint_room uint8 _ m h lt = omega arith
uint_room uint16 uint16 m h lt = lt
uint_room uint16 uint8 m h lt = cc
uint_room uint16 _ m h lt = omega arith
uint_room uint32 uint32 m h lt = lt
uint_room uint32 uint64 m h lt = omega arith
uint_room uint32 uint m h lt = omega arith
uint_room uint64 uint64 m h lt = lt
uint_room uint64 uint m h lt = lt
uint_room _ _ m h lt = cc

-- An unsigned column value in the range of its own type, stored in a settable unsigned field: the
-- field holds the same number if the source names its kind for the type of the value, and
-- otherwise what it held before; nothing is truncated.
set_value_unsigned :
    (rt : Runtime) (j : UintKind) (n : ℕ) (t : GoType) (k : UintKind) (old : Value)
    → kind_of t ≡ unsigned k
    → n < 2 ^ uint_bits j
    → set_value rt
        (record { can_set = true; cell = record { type = t; value = old } })
        (uint_value j n)
      ≡ ok (if accepts_uint j (unsigned k) then uint_value k n else old)
unfolding set_value kind_eq
set_value_unsigned rt j n t k old kind fits = elim (Bool-cases (accepts_uint j (unsigned k))) [
  | inl wide ↦
      rw (kind, wide)
        (ap (λ u. ok (uint_value k u))
          (wrap_unsigned-id (uint_bits k) n (uint_room j k n wide fits)))
  | inr narrow ↦ rw (kind, narrow) refl
]

-- The value is in the range of its own type.
abbrev pub InRange : Value → Type 0
InRange (int_value k z) = magnitude z < 2 ^ int_bits k
InRange (uint_value k n) = n < 2 ^ uint_bits k
InRange _ = Unit

accepts_int_same : (k : IntKind) → accepts_int k (signed k) ≡ true
unfolding accepts_int
accepts_int_same k = ground arith

accepts_uint_same : (k : UintKind) → accepts_uint k (unsigned k) ≡ true
unfolding accepts_uint
accepts_uint_same k = ground arith

-- A 32-bit float survives the way through 64 bits.
abbrev pub FloatsWiden : Runtime → Type 0
FloatsWiden rt = (x : ℕ) → rt.narrow_float (rt.widen_float x) ≡ x

-- `setValue` into a settable variable of type `t`.
abbrev stored : Runtime → GoType → Value → Value → Outcome Value
stored rt t old v =
    set_value rt (record { can_set = true; cell = record { type = t; value = old } }) v

stored_int :
    (rt : Runtime) (k : IntKind) (z : ℤ) (old : Value)
    → magnitude z < 2 ^ int_bits k
    → stored rt (basic (signed k)) old (int_value k z) ≡ ok (int_value k z)
stored_int rt k z old r =
    set_value_signed rt k z (basic (signed k)) k old (unfold kind_of in refl) r
    ∙ rw (accepts_int_same k) refl

stored_uint :
    (rt : Runtime) (k : UintKind) (n : ℕ) (old : Value)
    → n < 2 ^ uint_bits k
    → stored rt (basic (unsigned k)) old (uint_value k n) ≡ ok (uint_value k n)
stored_uint rt k n old r =
    set_value_unsigned rt k n (basic (unsigned k)) k old (unfold kind_of in refl) r
    ∙ rw (accepts_uint_same k) refl

-- The variable of type `t` ends up holding `v`.
abbrev Stores : Runtime → Value → Value → GoType → Type 0
Stores rt old v t = stored rt t old v ≡ ok v

at_type :
    (rt : Runtime) (old v : Value) {u t : GoType}
    → some u ≡ some t
    → Stores rt old v u
    → Stores rt old v t
at_type rt old v {u} {t} h = subst (Stores rt old v) (some-injective u t h)

-- A column value in the range of its own type, whose dynamic type is the type of a settable
-- field, is stored in the field as it is, where the conversion of a 32-bit float to 64 bits and
-- back gives the same float.
pub set_value_same_type :
    (rt : Runtime) (v : Value) {t : GoType} (old : Value)
    → FloatsWiden rt
    → InRange v
    → type_of v ≡ some t
    → set_value rt (record { can_set = true; cell = record { type = t; value = old } }) v ≡ ok v
unfolding set_value type_of kind_of kind_eq
set_value_same_type rt nil old fw r h = cc
set_value_same_type rt (bool_value b) old fw r h = at_type rt old (bool_value b) h (refl)
set_value_same_type rt (bytes_value s) old fw r h = at_type rt old (bytes_value s) h (refl)
set_value_same_type rt (time_value i) old fw r h =
    at_type rt old (time_value i) h ((rw (type_eq_refl time_type) refl))
set_value_same_type rt (int_value k z) old fw r h =
    at_type rt old (int_value k z) h ((stored_int rt k z old r))
set_value_same_type rt (uint_value k n) old fw r h =
    at_type rt old (uint_value k n) h ((stored_uint rt k n old r))
set_value_same_type rt (float_value float32 x) old fw r h =
    at_type rt old (float_value float32 x) h ((ap (λ y. ok (float_value float32 y)) (fw x)))
set_value_same_type rt (float_value float64 x) old fw r h =
    at_type rt old (float_value float64 x) h (refl)
set_value_same_type rt (complex64_value z) old fw r h =
    at_type rt old (complex64_value z) h ((rw (type_eq_refl (basic Kind.complex64)) refl))
set_value_same_type rt (complex128_value z) old fw r h =
    at_type rt old (complex128_value z) h ((rw (type_eq_refl (basic Kind.complex128)) refl))
set_value_same_type rt (string_value s) old fw r h = at_type rt old (string_value s) h (refl)
set_value_same_type rt (pointer_to u v) old fw r h =
    at_type rt old (pointer_to u v) h ((rw (type_eq_refl (pointer u)) refl))
set_value_same_type rt (other_value u n) old fw r h =
    at_type rt old (other_value u n) h ((rw (type_eq_refl u) refl))

-- A nil column value, and any value for a field that cannot be set, leave the field alone.
pub set_value_skips :
    (rt : Runtime) (dest : Place) (v : Value)
    → (dest.can_set ≡ false) ⊎ (v ≡ nil)
    → set_value rt dest v ≡ ok dest.cell.value
unfolding set_value
set_value_skips rt dest v (inl h) = rw h refl
set_value_skips rt dest v (inr h) = rw h (ground arith)

accepts_int_ptr : (j : IntKind) → accepts_int j ptr ≡ false
unfolding accepts_int
accepts_int_ptr j = ground arith

type_ne : (t u : GoType) → t ≢ u → type_eq t u ≡ false
type_ne t u ne = elim (Bool-cases (type_eq t u)) [
  | inl same ↦ absurd (ne (type_eq→eq t u same))
  | inr differ ↦ differ
]

-- A signed column value, and a settable field that points to another signed type which the source
-- names as wide enough for the value: `setValue` panics.
pub set_value_wider_pointer :
    (rt : Runtime) (j k : IntKind) (z : ℤ) (old : Value)
    → accepts_int j (signed k) ≡ true
    → j ≢ k
    → set_value rt
        (record {
          can_set = true;
          cell = record { type = pointer (basic (signed k)); value = old };
        })
        (int_value j z)
      ≡ panic
unfolding set_value kind_of kind_eq set_pointer type_eq
set_value_wider_pointer rt j k z old h ne =
    rw (accepts_int_ptr j, h)
      (rw (type_ne (pointer (basic (signed k))) (pointer (basic (signed j))) (λ e. ne (cc))) refl)
