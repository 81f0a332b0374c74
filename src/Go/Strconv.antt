-- ===== src/Go/Strconv.antt =====
-- `strconv.ParseUint`, `ParseInt` and `ParseBool`, in base ten.
pub mod RoundTrip
use onedb.Prelude.{
  ℕ, zero, suc, ◌+◌, ◌-◌, ◌*◌, ◌^◌, [], ◌∷◌, Bool, true, false, ◌||◌, List, Bytes, codes, ltb, ◌==◌,
  text_eq, if◌then◌else◌,
}
use onedb.Go.Ints.{ℤ, pos, negsuc}

-- What a parser returns: the value, or `ErrSyntax`, or `ErrRange`.
pub data Parsed (A : Type 0) : Type 0 where
  parsed : A → Parsed A
  syntax_error range_error : Parsed A

-- The loop of `ParseUint`, for numbers up to `max`. A number that times ten goes past 64 bits is past
-- `max` too.
pub scan_uint : ℕ → Bytes → ℕ → Parsed ℕ
scan_uint max [] n = parsed n
scan_uint max (c ∷ s) n =
    let m = n * 10 + (c - b'0') in
    if ltb c b'0' || ltb b'9' c
    then syntax_error
    else if ltb max m
    then range_error
    else scan_uint max s m

-- `ParseUint(s, 10, bits)`
unfoldable pub parse_uint : ℕ → Bytes → Parsed ℕ
unfolding scan_uint
parse_uint bits [] = syntax_error
parse_uint bits (c ∷ s) = scan_uint (2 ^ bits - 1) (c ∷ s) 0

-- The number with its sign, if it fits a signed word whose magnitudes have `bits` bits.
pub signed_range : ℕ → Bool → Parsed ℕ → Parsed ℤ
signed_range bits negative syntax_error = syntax_error
signed_range bits negative range_error = range_error
signed_range bits false (parsed n) = if ltb n (2 ^ bits) then parsed (pos n) else range_error
signed_range bits true (parsed zero) = parsed (pos 0)
signed_range bits true (parsed (suc n)) =
    if ltb n (2 ^ bits) then parsed (negsuc n) else range_error

-- `ParseInt(s, 10, bits)`, for `suc bits`.
unfoldable pub parse_int : ℕ → Bytes → Parsed ℤ
unfolding parse_uint signed_range
parse_int bits [] = syntax_error
parse_int bits (c ∷ s) =
    if c == b'+'
    then signed_range bits false (parse_uint (suc bits) s)
    else if c == b'-'
    then signed_range bits true (parse_uint (suc bits) s)
    else signed_range bits false (parse_uint (suc bits) (c ∷ s))

-- Is the text one of these?
one_of : Bytes → List Bytes → Bool
one_of s [] = false
one_of s (t ∷ ts) = text_eq s t || one_of s ts

-- `ParseBool`
unfoldable pub parse_bool : Bytes → Parsed Bool
unfolding one_of
parse_bool s =
    if one_of s
      (codes "1" ∷ codes "t" ∷ codes "T" ∷ codes "true" ∷ codes "TRUE" ∷ codes "True" ∷ [])
    then parsed true
    else if one_of s
        (codes "0" ∷ codes "f" ∷ codes "F" ∷ codes "false" ∷ codes "FALSE" ∷ codes "False" ∷ [])
    then parsed false
    else syntax_error
