-- ===== src/Json/Reader/Document.antt =====
-- A reader of a JSON array of flat objects, after RFC 8259. It says what such a text means, and is not
-- code of the repository. It reads no white space, no fractions and no exponents; it takes a sign
-- `+` and zeros in front of a number, which RFC 8259 does not allow.
pub mod Laws
use onedb.Prelude.{
  ℕ, [], ◌∷◌, ◌≡◌, refl, Bool, true, false, List, length, Option, none, some, Bytes, codes, text_eq,
  ◌==◌, ◌||◌, if◌then◌else◌,
}
use onedb.Go.Ints.{ℤ}
use onedb.Go.Strconv.{Parsed, parsed, syntax_error, range_error, parse_int}
use onedb.Json.Reader.{body}
use onedb.Json.Reader.Literal.{literal}
use onedb.Json.Reader.Items.{Read, expect, list}

pub data Json : Type 0 where
  null : Json
  boolean : Bool → Json
  number : ℤ → Json
  text : Bytes → Json

-- A number or a word ends at a comma or a closing bracket.
unfoldable pub is_stop : ℕ → Bool
is_stop c = c == b',' || (c == b'}' || c == b']')

pub lexeme : Bytes → Bytes × Bytes
unfolding is_stop
lexeme [] = ([], [])
lexeme (c ∷ s) = if is_stop c then ([], c ∷ s) else (c ∷ (lexeme s).0, (lexeme s).1)

unfoldable pub word : Bytes → Option Json
word s =
    if text_eq s (codes "true")
    then some (boolean true)
    else if text_eq s (codes "false")
    then some (boolean false)
    else if text_eq s (codes "null")
    then some null
    else none

unfoldable pub number_or_word : Bytes → Parsed ℤ → Option Json
unfolding word
number_or_word s (parsed z) = some (number z)
number_or_word s range_error = none
number_or_word s syntax_error = word s

-- Numbers of up to 64 bits and a sign.
unfoldable pub scalar : Bytes → Option Json
unfolding number_or_word
scalar s = number_or_word s (parse_int 64 s)

behind_scalar : Option Json → Bytes → Read Json
behind_scalar none s = none
behind_scalar (some j) s = some (j, s)

behind_text : Read Bytes → Read Json
behind_text none = none
behind_text (some (s, rest)) = some (text s, rest)

pub value : Bytes → Read Json
unfolding literal lexeme scalar behind_scalar behind_text
value [] = none
value (c ∷ s) =
    if c == b'"'
    then behind_text (literal body s)
    else let (x, rest) = lexeme (c ∷ s) in behind_scalar (scalar x) rest

-- A member of an object: its name and its value.
pub named : Bytes → Option Bytes → Read (Bytes × Json)
unfolding value
named name none = none
named name (some s) = elim (value s) [ none ↦ none | some (j, rest) ↦ some ((name, j), rest) ]

pub behind_name : Read Bytes → Read (Bytes × Json)
unfolding named expect
behind_name none = none
behind_name (some (name, s)) = named name (expect b':' s)

pub member : Bytes → Read (Bytes × Json)
unfolding behind_name
member [] = none
member (c ∷ s) = if c == b'"' then behind_name (literal body s) else none

abbrev pub Object : Type 0
Object = List (Bytes × Json)

pub json_object : Bytes → Read Object
unfolding list member
json_object [] = none
json_object (c ∷ s) = if c == b'{' then list member b'}' (length s) s else none

pub json_array : Bytes → Read (List Object)
unfolding json_object
json_array [] = none
json_array (c ∷ s) = if c == b'[' then list json_object b']' (length s) s else none

pub whole : Read (List Object) → Option (List Object)
whole (some (l, [])) = some l
whole _ = none

-- The objects of the array. The lists have fuel for an item per byte.
unfoldable pub objects : Bytes → Option (List Object)
unfolding json_array whole
objects s = whole (json_array s)

objects_run :
    objects (codes "[{\"a\":1,\"b\":\"x\\ny\"},{},{\"a\":-20,\"c\":true}]")
    ≡ some (
        ((codes "a", number (ℤ.pos 1)) ∷ (codes "b", text (b'x' ∷ 10 ∷ b'y' ∷ [])) ∷ [])
        ∷ []
        ∷ ((codes "a", number (ℤ.negsuc 19)) ∷ (codes "c", boolean true) ∷ [])
        ∷ [])
unfolding objects parse_int text_eq
objects_run = refl
