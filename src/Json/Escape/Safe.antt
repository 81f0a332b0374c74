-- ===== src/Json/Escape/Safe.antt =====
-- No byte of the output of `encodeString` can end a script or start a tag.
use onedb.Prelude.{
  ℕ, zero, suc, ◌≤◌, ◌<◌, [], ◌∷◌, ◌++◌, ◌≡◌, ◌≢◌, refl, sym, ◌∙◌, Bool, true, false, not, ◌&&◌,
  ◌||◌, Option, none, some, Bytes, codes, length, drop, get_or, All, All-append, arith, ltb, ◌==◌,
  ◌%◌, if◌then◌else◌, Bool-cases, holds_below, holds_below_at, inl, inr, leb,
}
use onedb.Json.Utf8.{decode_rune, encode_rune, rune_error, encode_decode_rune}
use onedb.Json.Escape.{encode_string, escape_byte, is_plain, hex}
use onedb.Json.Escape.Pieces.{piece, escaped, quoted, encode_string-pieces}
use onedb.Json.Escape.RoundTrip.{wide, encode_rune-high, piece-ascii}
use onedb.Json.Escape.Text.{encode_string_reads}
use onedb.Json.Reader.{before}

-- No control byte, and none of `<`, `>` and `&`.
abbrev pub IsSafe : ℕ → Type 0
IsSafe c = (0x20 ≤ c) × (c ≢ b'<') × (c ≢ b'>') × (c ≢ b'&')

-- The same test, for tables over the ASCII bytes.
safe_byte : ℕ → Bool
safe_byte c = leb 0x20 c && (not (c == b'<') && (not (c == b'>') && not (c == b'&')))

safe_bytes : Bytes → Bool
safe_bytes [] = true
safe_bytes (c ∷ p) = safe_byte c && safe_bytes p

safe_bytes-IsSafe : (p : Bytes) → safe_bytes p ≡ true → All IsSafe p
unfolding safe_bytes safe_byte
safe_bytes-IsSafe [] h = tt
safe_bytes-IsSafe (c ∷ p) h = (ground arith, safe_bytes-IsSafe p (ground arith))

abbrev ascii_piece : ℕ → Bytes
ascii_piece b = if is_plain b then b ∷ [] else escape_byte b

ascii_table : holds_below 128 (λ b. safe_bytes (ascii_piece b)) ≡ true
unfolding holds_below safe_bytes safe_byte is_plain escape_byte
ascii_table = refl

hex_table : holds_below 16 (λ k. safe_byte (get_or hex k 0)) ≡ true
unfolding holds_below safe_byte
hex_table = refl

unicode-safe : (k : ℕ) → k < 16 → safe_bytes (codes "\\u202" ++ get_or hex k 0 ∷ []) ≡ true
unfolding safe_bytes
unicode-safe k h =
    rw (holds_below_at 16 (λ j. safe_byte (get_or hex j 0)) k hex_table h)
      (unfold safe_byte in refl)

All-high : (p : Bytes) → All (λ c. 0x80 ≤ c) p → All IsSafe p
All-high [] h = tt
All-high (c ∷ p) (h, hs) = (omega arith, All-high p hs)

piece_wide-IsSafe : (b : ℕ) (d : Bytes) → ltb b 0x80 ≡ false → All IsSafe (piece (b ∷ d)).1
unfolding piece
piece_wide-IsSafe b d high =
    let (r, n) = decode_rune (b ∷ d) in
    elim (Bool-cases (r == rune_error && n == 1)) [
      | inl e ↦ rw (high, e) (omega arith)
      | inr valid ↦
          let (spelled, _, above) = encode_decode_rune (b ∷ d) r n refl (wide b d high valid) in
          elim (Bool-cases (r == 0x2028 || r == 0x2029)) [
            | inl e ↦
                rw (high, valid, e) (safe_bytes-IsSafe _ (unicode-safe (r % 16) (omega arith)))
            | inr e ↦
                rw (high, valid, e)
                  (rw spelled (All-high (encode_rune r) (encode_rune-high r above)))
          ]
    ]

piece-IsSafe : (b : ℕ) (d : Bytes) → All IsSafe (piece (b ∷ d)).1
piece-IsSafe b d = elim (Bool-cases (ltb b 0x80)) [
  | inl ascii ↦
      let a : b < 0x80 = ground arith in
      let ok = holds_below_at 128 (λ c. safe_bytes (ascii_piece c)) b ascii_table a in
      rw (piece-ascii b d a).0 (safe_bytes-IsSafe (ascii_piece b) ok)
  | inr high ↦ piece_wide-IsSafe b d high
]

-- A text is safe if the writer ends with it.
EndsSafe : Option Bytes → Type 0
EndsSafe none = Unit
EndsSafe (some t) = All IsSafe t

before-EndsSafe : (p : Bytes) (o : Option Bytes) → All IsSafe p → EndsSafe o → EndsSafe (before p o)
unfolding EndsSafe
before-EndsSafe p none h k = tt
before-EndsSafe p (some t) h k = All-append IsSafe p t h k

escaped-EndsSafe : (fuel : ℕ) (d : Bytes) → EndsSafe (escaped fuel d)
unfolding escaped
escaped-EndsSafe zero d = unfold EndsSafe in tt
escaped-EndsSafe (suc fuel) [] = unfold EndsSafe in tt
escaped-EndsSafe (suc fuel) (b ∷ d) =
    before-EndsSafe (piece (b ∷ d)).1 (escaped fuel (drop (piece (b ∷ d)).0 (b ∷ d)))
      (piece-IsSafe b d) (escaped-EndsSafe fuel (drop (piece (b ∷ d)).0 (b ∷ d)))

quoted-EndsSafe : (o : Option Bytes) → EndsSafe o → EndsSafe (quoted o)
unfolding EndsSafe
quoted-EndsSafe none h = tt
quoted-EndsSafe (some t) h = (omega arith, All-append IsSafe t (b'"' ∷ []) h (omega arith))

-- `encodeString` returns for every byte string, and no byte of the result is a control byte, `<`,
-- `>` or `&`.
pub encode_string-IsSafe : (s : Bytes) → (t : Bytes) × (encode_string s ≡ some t) × All IsSafe t
unfolding EndsSafe
encode_string-IsSafe s =
    let (t, e, _) = encode_string_reads s in
    let safe = quoted-EndsSafe (escaped (suc (length s)) s) (escaped-EndsSafe (suc (length s)) s) in
    (t, e, rw (sym (encode_string-pieces s) ∙ e) at safe)
