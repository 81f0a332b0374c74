-- ===== src/Json/Escape.antt =====
-- `encodeString` of dbToJson.go: the loop over the bytes of a Go string that writes a JSON string
-- literal. The proofs are in the modules below.
pub mod Pieces
pub mod RoundTrip
pub mod Text
pub mod Safe
use onedb.Prelude.{
  ℕ, zero, suc, ◌+◌, ◌-◌, ◌/◌, ◌%◌, [], ◌∷◌, ◌++◌, ◌≡◌, refl, Bool, true, false, ◌&&◌, ◌||◌, not,
  Option, none, some, Bytes, codes, length, get_or, take, drop, ltb, leb, ◌==◌, if◌then◌else◌,
}
use onedb.Json.Utf8.{decode_rune, rune_error}

-- `var hex`
abbrev pub hex : Bytes
hex = codes "0123456789abcdef"

-- `s[lo:hi]`
abbrev pub slice : Bytes → ℕ → ℕ → Bytes
slice s lo hi = take (hi - lo) (drop lo s)

-- The variables of the loop: `start`, `i` and the buffer `e`.
pub record Cursor : Type 0 where
  pub start : ℕ
  pub i : ℕ
  pub e : Bytes

-- The test of a byte below `utf8.RuneSelf` that is copied.
pub is_plain : ℕ → Bool
is_plain b =
    leb 0x20 b
    && (not (b == b'\\')
        && (not (b == b'"') && (not (b == b'<') && (not (b == b'>') && not (b == b'&')))))

-- The `switch b` on a byte that is not copied.
pub escape_byte : ℕ → Bytes
escape_byte b =
    if b == b'\\'
    then b'\\' ∷ b ∷ []
    else if b == b'"'
    then b'\\' ∷ b ∷ []
    else if b == 10
    then b'\\' ∷ b'n' ∷ []
    else if b == 13
    then b'\\' ∷ b'r' ∷ []
    else if b == 9
    then b'\\' ∷ b't' ∷ []
    else codes "\\u00" ++ get_or hex (b / 16) 0 ∷ get_or hex (b % 16) 0 ∷ []

-- `if start < i { e.WriteString(s[start:i]) }`
pub flush : Bytes → Cursor → Bytes
flush s c = if ltb c.start c.i then c.e ++ slice s c.start c.i else c.e

-- Write the pending slice and `text`, and go on behind `size` bytes.
pub replace : Bytes → Cursor → Bytes → ℕ → Cursor
unfolding flush
replace s c text size = record { start = c.i + size; i = c.i + size; e = flush s c ++ text }

-- One round of the loop.
pub round : Bytes → Cursor → Cursor
unfolding is_plain escape_byte replace
round s c =
    let b = get_or s c.i 0 in
    let (r, size) = decode_rune (drop c.i s) in
    if ltb b 0x80
    then (if is_plain b then record c { i = c.i + 1 } else replace s c (escape_byte b) 1)
    else if r == rune_error && size == 1
    then replace s c (codes "\\ufffd") size
    else if r == 0x2028 || r == 0x2029
    then replace s c (codes "\\u202" ++ get_or hex (r % 16) 0 ∷ []) size
    else record c { i = c.i + size }

-- `for i := 0; i < len(s);`, and what follows the loop; `none` if the fuel runs out.
pub encode_loop : ℕ → Bytes → Cursor → Option Bytes
unfolding round flush
encode_loop zero s c = none
encode_loop (suc fuel) s c = elim (ltb c.i (length s)) [
  | true ↦ encode_loop fuel s (round s c)
  | false ↦ some ((if ltb c.start (length s) then c.e ++ drop c.start s else c.e) ++ b'"' ∷ [])
]

-- Each round reads a byte or more, so a round for each byte and one for the end are enough.
unfoldable pub encode_string : Bytes → Option Bytes
unfolding encode_loop
encode_string s = encode_loop (suc (length s)) s (record { start = 0; i = 0; e = b'"' ∷ [] })

encode_string_runs :
    encode_string (codes "a<\"\n" ++ 0xE2 ∷ 0x80 ∷ 0xA8 ∷ 0xFF ∷ b'z' ∷ [])
    ≡ some (codes "\"a\\u003c\\\"\\n\\u2028\\ufffdz\"")
unfolding encode_string decode_rune
encode_string_runs = refl
