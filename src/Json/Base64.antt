-- ===== src/Json/Base64.antt =====
-- `encodeByteSlice` of dbToJson.go, with the standard encoding of `encoding/base64`: the direct
-- call for short slices, and the streaming encoder for long ones.
pub mod RoundTrip
use onedb.Prelude.{
  ℕ, zero, suc, ◌+◌, ◌-◌, ◌*◌, ◌/◌, ◌%◌, [], ◌∷◌, ◌++◌, ◌≡◌, refl, Option, none, some, true, false,
  Bytes, codes, length, get_or, take, drop, ltb, ◌==◌, if◌then◌else◌,
}
use onedb.Go.Outcome.{Outcome, ok, out_of_fuel}

abbrev pub alphabet : Bytes
alphabet = codes "ABCDEFGHIJKLMNOPQRSTUVWXYZabcdefghijklmnopqrstuvwxyz0123456789+/"

-- The letter of the six bits that `k` counts.
unfoldable pub letter : ℕ → ℕ
letter k = get_or alphabet k 0

unfoldable pub triple : ℕ → ℕ → ℕ → Bytes
unfolding letter
triple a b c =
    letter (a / 4)
    ∷ letter (a % 4 * 16 + b / 16)
    ∷ letter (b % 16 * 4 + c / 64)
    ∷ letter (c % 64)
    ∷ []

-- `base64.StdEncoding.Encode`.
unfoldable pub base64 : Bytes → Bytes
unfolding letter triple
base64 [] = []
base64 (a ∷ []) = letter (a / 4) ∷ letter (a % 4 * 16) ∷ b'=' ∷ b'=' ∷ []
base64 (a ∷ b ∷ []) =
    letter (a / 4) ∷ letter (a % 4 * 16 + b / 16) ∷ letter (b % 16 * 4) ∷ b'=' ∷ []
base64 (a ∷ b ∷ c ∷ s) = triple a b c ++ base64 s

-- How much the streaming encoder takes at a time: its buffer of 1024 letters holds 768 bytes.
pub chunk : ℕ → ℕ
chunk n = if ltb n 768 then n - n % 3 else 768

-- `enc.Write` and `enc.Close`: whole chunks, then what is left.
pub stream : ℕ → Bytes → Option Bytes
unfolding base64 chunk
stream zero p = none
stream (suc fuel) p = elim (ltb (length p) 3) [
  | true ↦ some (base64 p)
  | false ↦ elim (stream fuel (drop (chunk (length p)) p)) [
    | none ↦ none
    | some rest ↦ some (base64 (take (chunk (length p)) p) ++ rest)
  ]
]

wrap : Option Bytes → Outcome Bytes
wrap none = out_of_fuel
wrap (some t) = ok (b'"' ∷ (t ++ b'"' ∷ []))

-- Each chunk takes a byte or more, so a round for each byte and one for the end are enough.
unfoldable pub encode_byte_slice : Bytes → Outcome Bytes
unfolding stream base64 wrap
encode_byte_slice s =
    if length s == 0
    then ok (codes "null")
    else if ltb (length s) 1024
    then wrap (some (base64 s))
    else wrap (stream (suc (length s)) s)

encode_byte_slice_runs : encode_byte_slice (codes "onedb!!") ≡ ok (codes "\"b25lZGIhIQ==\"")
unfolding encode_byte_slice
encode_byte_slice_runs = refl
