-- ===== src/Json/Scalar.antt =====
-- `getJSONValue` and `jsonize` of dbToJson.go: one value, and one column name.
use onedb.Prelude.{[], ◌∷◌, ◌++◌, ◌≡◌, refl, ap, Option, none, some, true, false, Bytes, codes}
use onedb.Go.Outcome.{Outcome, ok, out_of_fuel}
use onedb.Go.Types.{uint8, uint16, uint32, uint64}
use onedb.Go.Values.{
  Value, nil, bool_value, bytes_value, time_value, int_value, uint_value, float_value,
  complex64_value, complex128_value, string_value, Runtime, sprint,
}
use onedb.Json.Escape.{encode_string}
use onedb.Json.Escape.Text.{encode_string_reads}
use onedb.Json.Base64.{encode_byte_slice}
use onedb.Json.Base64.RoundTrip.{encode_byte_slice_total}

unfoldable pub returned : Option Bytes → Outcome Bytes
returned none = out_of_fuel
returned (some t) = ok t

-- The layout that `getJSONValue` hands to `time.Time.Format`, quotes included.
abbrev pub json_time : Bytes
json_time = codes "\"2006-01-02 15:04:05.999\""

-- The list of integer and float types does not name `uint`, which falls to the default case.
unfoldable pub get_json_value : Runtime → Value → Outcome Bytes
unfolding returned
get_json_value rt nil = ok (codes "null")
get_json_value rt (bool_value true) = ok (codes "true")
get_json_value rt (bool_value false) = ok (codes "false")
get_json_value rt (bytes_value s) = encode_byte_slice s
get_json_value rt (time_value t) = ok (rt.format_time json_time t)
get_json_value rt (uint_value uint8 n) = ok (sprint rt (uint_value uint8 n))
get_json_value rt (uint_value uint16 n) = ok (sprint rt (uint_value uint16 n))
get_json_value rt (uint_value uint32 n) = ok (sprint rt (uint_value uint32 n))
get_json_value rt (uint_value uint64 n) = ok (sprint rt (uint_value uint64 n))
get_json_value rt (int_value k z) = ok (sprint rt (int_value k z))
get_json_value rt (float_value k x) = ok (sprint rt (float_value k x))
get_json_value rt (complex64_value z) = ok (sprint rt (complex64_value z))
get_json_value rt (complex128_value z) = ok (sprint rt (complex128_value z))
get_json_value rt (string_value s) = returned (encode_string s)
get_json_value rt v = returned (encode_string (sprint rt v))

unfoldable pub jsonize : Bytes → Bytes
jsonize column = b'"' ∷ (column ++ b'"' ∷ b':' ∷ [])

-- A result that is there.
abbrev IsOk : Outcome Bytes → Type 0
IsOk r = (t : Bytes) × (r ≡ ok t)

string_IsOk : (s : Bytes) → IsOk (returned (encode_string s))
unfolding returned
string_IsOk s = let (t, e, _) = encode_string_reads s in (t, ap returned e)

-- `getJSONValue` returns a text for every value: no loop in it runs out of fuel, and none panics.
get_json_value_total : (rt : Runtime) (v : Value) → (t : Bytes) × (get_json_value rt v ≡ ok t)
unfolding get_json_value
get_json_value_total rt nil = (codes "null", refl)
get_json_value_total rt (bool_value true) = (codes "true", refl)
get_json_value_total rt (bool_value false) = (codes "false", refl)
get_json_value_total rt (bytes_value s) = encode_byte_slice_total s
get_json_value_total rt (time_value t) = (rt.format_time json_time t, refl)
get_json_value_total rt (uint_value uint8 n) = (sprint rt (uint_value uint8 n), refl)
get_json_value_total rt (uint_value uint16 n) = (sprint rt (uint_value uint16 n), refl)
get_json_value_total rt (uint_value uint32 n) = (sprint rt (uint_value uint32 n), refl)
get_json_value_total rt (uint_value uint64 n) = (sprint rt (uint_value uint64 n), refl)
get_json_value_total rt (int_value k z) = (sprint rt (int_value k z), refl)
get_json_value_total rt (float_value k x) = (sprint rt (float_value k x), refl)
get_json_value_total rt (complex64_value z) = (sprint rt (complex64_value z), refl)
get_json_value_total rt (complex128_value z) = (sprint rt (complex128_value z), refl)
get_json_value_total rt (string_value s) = string_IsOk s
get_json_value_total rt v = string_IsOk (sprint rt v)

unfoldable pub text_of : Outcome Bytes → Bytes
text_of (ok t) = t
text_of _ = []

-- What `getJSONValue` returns.
unfoldable pub json_text : Runtime → Value → Bytes
unfolding text_of
json_text rt v = text_of (get_json_value rt v)

ok-text_of : (r : Outcome Bytes) {t : Bytes} → r ≡ ok t → r ≡ ok (text_of r)
unfolding text_of
ok-text_of r e = rw e refl

pub get_json_value-text : (rt : Runtime) (v : Value) → get_json_value rt v ≡ ok (json_text rt v)
unfolding json_text
get_json_value-text rt v = ok-text_of (get_json_value rt v) (get_json_value_total rt v).1
