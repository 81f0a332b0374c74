-- ===== src/Json/Escape/RoundTrip.antt =====
-- What a JSON reader makes of the output of `encodeString`.
use onedb.Prelude.{
  ℕ, zero, suc, ◌%◌, ◌≤◌, ◌<◌, [], ◌∷◌, ◌++◌, ◌≡◌, refl, ap, Bool, true, false, ◌&&◌, ◌||◌, Option,
  some, Bytes, codes, length, take, drop, length-drop, All, text_eq, text_eq→eq, holds_below,
  holds_below_at, inl, inr, arith, ltb, ◌==◌, if◌then◌else◌, Bool-cases, get_or,
}
use onedb.Json.Utf8.{
  decode_rune, encode_rune, rune_error, decode_rune_width, decode_rune_single, decode_rune_ascii,
  encode_decode_rune,
}
use onedb.Json.Reader.{Mode, body, drive, Means, Means-append, Means-byte, before}
use onedb.Json.Escape.{hex, escape_byte, is_plain}
use onedb.Json.Escape.Pieces.{piece, escaped}

-- The first rune as it is read back: itself, or U+FFFD for a byte that starts no rune.
unfoldable pub clean : Bytes → Bytes
clean d =
    let (r, size) = decode_rune d in
    if r == rune_error && size == 1 then encode_rune rune_error else take size d

-- Does the escape of an ASCII byte stand for that byte?
escape_ok : ℕ → Bool
escape_ok b =
    is_plain b
    || (elim (drive body (escape_byte b)) [ some (body, out) ↦ text_eq out (b ∷ []) | _ ↦ false ])

escape_table : holds_below 128 escape_ok ≡ true
unfolding holds_below escape_ok is_plain escape_byte drive text_eq encode_rune
escape_table = refl

Means-escape_byte : (b : ℕ) → b < 128 → is_plain b ≡ false → Means (escape_byte b) (b ∷ [])
unfolding escape_ok
Means-escape_byte b h p =
    found (drive body (escape_byte b)) (rw p at (holds_below_at 128 escape_ok b escape_table h))
  where
    found :
        (o : Option (Mode × Bytes))
        → (elim o [ some (body, out) ↦ text_eq out (b ∷ []) | _ ↦ false ]) ≡ true
        → o ≡ some (body, b ∷ [])
    found (some (body, out)) e = ap (λ t. some (body, t)) (text_eq→eq out (b ∷ []) e)
    found _ e = cc

-- Bytes above ASCII may stand in a literal as they are.
Means-high : (p : Bytes) → All (λ c. 0x80 ≤ c) p → Means p p
Means-high [] h = unfold drive in refl
Means-high (c ∷ p) (h, hs) =
    Means-append (c ∷ []) p (c ∷ []) p (Means-byte c (omega arith) (omega arith) (omega arith))
      (Means-high p hs)

pub encode_rune-high : (r : ℕ) → 0x80 ≤ r → All (λ c. 0x80 ≤ c) (encode_rune r)
unfolding encode_rune
encode_rune-high r h = ground arith

Means-fffd : Means (codes "\\ufffd") (encode_rune rune_error)
unfolding drive encode_rune
Means-fffd = refl

Means-202 :
    (r : ℕ)
    → (r == 0x2028 || r == 0x2029) ≡ true
    → Means (codes "\\u202" ++ get_or hex (r % 16) 0 ∷ []) (encode_rune r)
unfolding drive encode_rune
Means-202 r h = elim (Bool-cases (r == 0x2028)) [
  | inl e ↦ let q : r ≡ 0x2028 = ground arith in rw q refl
  | inr e ↦ let q : r ≡ 0x2029 = ground arith in rw q refl
]

Means-plain : (b : ℕ) → is_plain b ≡ true → Means (b ∷ []) (b ∷ [])
unfolding is_plain
Means-plain b h = Means-byte b (ground arith) (ground arith) (ground arith)

Means-ascii : (b : ℕ) → b < 0x80 → Means (if is_plain b then b ∷ [] else escape_byte b) (b ∷ [])
Means-ascii b h = elim (Bool-cases (is_plain b)) [
  | inl e ↦ rw e (Means-plain b e)
  | inr e ↦ rw e (Means-escape_byte b h e)
]

-- A rune that is no error takes more than one byte, unless it is ASCII.
pub wide :
    (b : ℕ) (d : Bytes)
    → ltb b 0x80 ≡ false
    → ((decode_rune (b ∷ d)).0 == rune_error && (decode_rune (b ∷ d)).1 == 1) ≡ false
    → 1 < (decode_rune (b ∷ d)).1
wide b d high valid = ground (arith, decode_rune_width b d, decode_rune_single b d)

pub piece-ascii :
    (b : ℕ) (d : Bytes)
    → b < 0x80
    → ((piece (b ∷ d)).1 ≡ (if is_plain b then b ∷ [] else escape_byte b))
      × (clean (b ∷ d) ≡ b ∷ [])
unfolding piece clean
piece-ascii b d h = ground (arith, decode_rune_ascii b d h)

Means-wide : (b : ℕ) (d : Bytes) → ltb b 0x80 ≡ false → Means (piece (b ∷ d)).1 (clean (b ∷ d))
unfolding piece clean
Means-wide b d high =
    let (r, n) = decode_rune (b ∷ d) in
    elim (Bool-cases (r == rune_error && n == 1)) [
      | inl e ↦ rw (high, e) Means-fffd
      | inr valid ↦
          let (spelled, _, above) = encode_decode_rune (b ∷ d) r n refl (wide b d high valid) in
          elim (Bool-cases (r == 0x2028 || r == 0x2029)) [
            | inl e ↦ rw (high, valid, e) (rw spelled (Means-202 r e))
            | inr e ↦
                rw (high, valid, e)
                  (rw spelled (Means-high (encode_rune r) (encode_rune-high r above)))
          ]
    ]

-- The text of a piece stands for its rune.
Means-piece : (b : ℕ) (d : Bytes) → Means (piece (b ∷ d)).1 (clean (b ∷ d))
Means-piece b d = elim (Bool-cases (ltb b 0x80)) [
  | inl ascii ↦
      let a : b < 0x80 = ground arith in
      let e = piece-ascii b d a in rw (e.0, e.1) (Means-ascii b a)
  | inr high ↦ Means-wide b d high
]

-- The bytes of a text with U+FFFD for each byte that is part of no rune.
unfoldable pub sanitized : ℕ → Bytes → Bytes
sanitized zero d = []
sanitized (suc fuel) [] = []
sanitized (suc fuel) (b ∷ d) =
    clean (b ∷ d) ++ sanitized fuel (drop (decode_rune (b ∷ d)).1 (b ∷ d))

pub piece-width : (b : ℕ) (d : Bytes) → (piece (b ∷ d)).0 ≡ (decode_rune (b ∷ d)).1
unfolding piece
piece-width b d = ground (arith, decode_rune_ascii b d)

-- What is written for `d`, and that it stands for the sanitized text.
abbrev pub Written : ℕ → Bytes → Bytes → Type 0
Written fuel d t = (escaped fuel d ≡ some t) × Means t (sanitized fuel d)

Written-step :
    (fuel b : ℕ) (d t : Bytes)
    → Written fuel (drop (decode_rune (b ∷ d)).1 (b ∷ d)) t
    → Written (suc fuel) (b ∷ d) ((piece (b ∷ d)).1 ++ t)
unfolding escaped sanitized
Written-step fuel b d t (e, m) =
    let n = (decode_rune (b ∷ d)).1 in
    (
      rw (piece-width b d) (ap (before (piece (b ∷ d)).1) e),
      Means-append (piece (b ∷ d)).1 t (clean (b ∷ d)) (sanitized fuel (drop n (b ∷ d)))
          (Means-piece b d) m,
    )

-- With fuel for every byte the pieces end, and stand for the sanitized text.
pub escaped_total : (fuel : ℕ) (d : Bytes) → length d < fuel → (t : Bytes) × Written fuel d t
escaped_total zero d h = absurd (omega arith)
escaped_total (suc fuel) [] h = ([], (unfold escaped in refl, unfold sanitized drive in refl))
escaped_total (suc fuel) (b ∷ d) h =
    let n = (decode_rune (b ∷ d)).1 in
    let (t, w) =
      escaped_total fuel (drop n (b ∷ d))
        (omega (arith, length-drop n (b ∷ d), decode_rune_width b d)) in
    ((piece (b ∷ d)).1 ++ t, Written-step fuel b d t w)
