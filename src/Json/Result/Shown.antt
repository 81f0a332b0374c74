-- ===== src/Json/Result/Shown.antt =====
-- What a JSON reader makes of the result of `getJSONValue`, for each kind of value.
use onedb.Prelude.{◌<◌, ◌^◌, [], ◌∷◌, ◌++◌, ◌≡◌, refl, true, false, Option, none, some, Bytes, All}
use onedb.Go.Decimal.{format_int}
use onedb.Go.Ints.{pos, magnitude}
use onedb.Go.Types.{uint, uint8, uint16, uint32, uint64}
use onedb.Go.Values.{
  Value, nil, bool_value, bytes_value, time_value, int_value, uint_value, float_value,
  complex64_value, complex128_value, string_value, pointer_to, other_value, Runtime, sprint,
}
use onedb.Json.Base64.{base64, encode_byte_slice}
use onedb.Json.Escape.Text.{sanitize}
use onedb.Json.Reader.Document.{Json, boolean, number, text}
use onedb.Json.Reader.Document.Laws.{IsPlain}
use onedb.Json.Scalar.{json_time, get_json_value, json_text, text_of}
use onedb.Json.Result.Texts.{
  Shows, inside, Shows-number, Shows-bool, Shows-string, Shows-bytes, Shows-time,
}

-- The member for a value, if it has one: an empty `[]byte` has none, and a `uint` is a string.
unfoldable pub shown : Runtime → Value → Option Json
shown rt nil = none
shown rt (bool_value b) = some (boolean b)
shown rt (bytes_value []) = none
shown rt (bytes_value (c ∷ s)) = some (text (base64 (c ∷ s)))
shown rt (int_value k z) = some (number z)
shown rt (uint_value uint8 n) = some (number (pos n))
shown rt (uint_value uint16 n) = some (number (pos n))
shown rt (uint_value uint32 n) = some (number (pos n))
shown rt (uint_value uint64 n) = some (number (pos n))
shown rt (string_value s) = some (text (sanitize s))
shown rt (time_value t) = some (text (inside (rt.format_time json_time t)))
shown rt v = some (text (sanitize (sprint rt v)))

-- An integer of up to 64 bits, a slice of bytes, a time whose text is plain between quotes, as the
-- layout asks for, or any other value whose text is made here: floats and complex numbers are written
-- as the runtime formats them.
abbrev pub IsReadable : Runtime → Value → Type 0
IsReadable rt (bytes_value s) = All (λ c. c < 256) s
IsReadable rt (int_value k z) = magnitude z < 2 ^ 64
IsReadable rt (uint_value k n) = n < 2 ^ 64
IsReadable rt (time_value t) =
    (p : Bytes) × (rt.format_time json_time t ≡ b'"' ∷ (p ++ b'"' ∷ [])) × All IsPlain p
IsReadable rt (float_value k x) = ⊥
IsReadable rt (complex64_value z) = ⊥
IsReadable rt (complex128_value z) = ⊥
IsReadable rt _ = Unit

pub json_text-shown :
    (rt : Runtime) (v : Value) → IsReadable rt v → Shows (json_text rt v) (shown rt v)
unfolding json_text get_json_value shown text_of sprint format_int encode_byte_slice
json_text-shown rt nil h = refl
json_text-shown rt (bool_value true) h = Shows-bool true
json_text-shown rt (bool_value false) h = Shows-bool false
json_text-shown rt (bytes_value []) h = refl
json_text-shown rt (bytes_value (c ∷ s)) h = Shows-bytes c s h
json_text-shown rt (int_value k z) h = Shows-number z h
json_text-shown rt (uint_value uint n) h = Shows-string (sprint rt (uint_value uint n))
json_text-shown rt (uint_value uint8 n) h = Shows-number (pos n) h
json_text-shown rt (uint_value uint16 n) h = Shows-number (pos n) h
json_text-shown rt (uint_value uint32 n) h = Shows-number (pos n) h
json_text-shown rt (uint_value uint64 n) h = Shows-number (pos n) h
json_text-shown rt (time_value t) (p, e, plain) = Shows-time (rt.format_time json_time t) p e plain
json_text-shown rt (float_value k x) h = absurd h
json_text-shown rt (complex64_value z) h = absurd h
json_text-shown rt (complex128_value z) h = absurd h
json_text-shown rt (string_value s) h = Shows-string s
json_text-shown rt (pointer_to t v) h = Shows-string (sprint rt (pointer_to t v))
json_text-shown rt (other_value t n) h = Shows-string (sprint rt (other_value t n))
