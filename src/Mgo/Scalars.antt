-- ===== src/Mgo/Scalars.antt =====
-- `asString`, `asBytes` and `convertBool` of mgo/fakeBackend.go: what a value is as a text, as bytes, and as
-- a Boolean.
use onedb.Prelude.{ℕ, zero, suc, Bool, true, false, Option, none, some, Bytes, codes}
use onedb.Go.Decimal.{format_int, format_uint}
use onedb.Go.Ints.{pos}
use onedb.Go.Outcome.{not_bool, Outcome, ok, err}
use onedb.Go.Strconv.{Parsed, parsed, parse_bool}
use onedb.Go.Types.{FloatKind, GoType}
use onedb.Go.Values.{
  Value, bool_value, bytes_value, int_value, uint_value, float_value, string_value, other_value,
  Runtime, sprint,
}

-- What the code uses of `reflect` on declared types, and of `strconv` on floats. `underlying` is the
-- content of a value of a declared type, `declare` a value of such a type with the content;
-- `assignable_to` and `convert` answer for types of which one is declared or composite, `convert` with
-- no value where the types are not convertible; `declared_pointer` is the whole conversion into a
-- variable of a declared pointer type.
pub record Reflection : Type 0 where
  pub underlying : Value → Value
  pub declare : GoType → Value → Value
  pub assignable_to : GoType → GoType → Bool
  pub convert : GoType → Value → Option Value
  pub declared_pointer : GoType → Value → Value → Value × Outcome (Unit {0})
  pub format_float : FloatKind → ℕ → Bytes
  pub parse_float : FloatKind → Bytes → Parsed ℕ

-- The kinds that are stored in a string as `asString` gives them.
unfoldable pub is_scalar : Value → Bool
is_scalar (bool_value b) = true
is_scalar (int_value k z) = true
is_scalar (uint_value k n) = true
is_scalar (float_value k x) = true
is_scalar _ = false

module _ (rt : Runtime) (rf : Reflection) where
  -- The content that `reflect` shows.
  unfoldable pub content : Value → Value
  content (other_value t n) = rf.underlying (other_value t n)
  content v = v

  unfoldable pub content_text : Value → Value → Bytes
  content_text src (int_value k z) = format_int z
  content_text src (uint_value k n) = format_uint n
  content_text src (float_value k x) = rf.format_float k x
  content_text src (bool_value true) = codes "true"
  content_text src (bool_value false) = codes "false"
  content_text src _ = sprint rt src

  unfoldable pub as_string : Value → Bytes
  unfolding content_text content
  as_string (string_value s) = s
  as_string (bytes_value s) = s
  as_string src = content_text src (content src)

  unfoldable pub content_bytes : Value → Option Bytes
  content_bytes (int_value k z) = some (format_int z)
  content_bytes (uint_value k n) = some (format_uint n)
  content_bytes (float_value k x) = some (rf.format_float k x)
  content_bytes (bool_value true) = some (codes "true")
  content_bytes (bool_value false) = some (codes "false")
  content_bytes (string_value s) = some s
  content_bytes _ = none

  unfoldable pub as_bytes : Value → Option Bytes
  unfolding content_bytes content
  as_bytes src = content_bytes (content src)

  unfoldable pub read_bool : Parsed Bool → Outcome Bool
  read_bool (parsed b) = ok b
  read_bool _ = err not_bool

  unfoldable pub content_bool : Value → Outcome Bool
  content_bool (int_value k (pos zero)) = ok false
  content_bool (int_value k (pos (suc zero))) = ok true
  content_bool (uint_value k zero) = ok false
  content_bool (uint_value k (suc zero)) = ok true
  content_bool _ = err not_bool

  unfoldable pub convert_bool : Value → Outcome Bool
  unfolding read_bool content_bool content
  convert_bool (bool_value b) = ok b
  convert_bool (string_value s) = read_bool (parse_bool s)
  convert_bool (bytes_value s) = read_bool (parse_bool s)
  convert_bool src = content_bool (content src)
