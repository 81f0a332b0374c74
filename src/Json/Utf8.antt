-- ===== src/Json/Utf8.antt =====
-- `unicode/utf8`: decoding the first rune of a string, and the encoding of a rune.
use onedb.Prelude.{
  ℕ, ◌+◌, ◌*◌, ◌/◌, ◌%◌, ◌≤◌, ◌<◌, [], ◌∷◌, ◌++◌, ◌≡◌, ◌⊎◌, Bool, ◌&&◌, Bytes, length, take, arith,
  ltb, leb, ◌==◌, if◌then◌else◌,
}

-- U+FFFD, which also marks an error when it comes with width 1.
abbrev pub rune_error : ℕ
rune_error = 0xFFFD

abbrev pub in_range : ℕ → ℕ → ℕ → Bool
in_range lo hi b = leb lo b && leb b hi

-- The range of the second byte depends on the first.
second_lo : ℕ → ℕ
second_lo p = if p == 0xE0 then 0xA0 else if p == 0xF0 then 0x90 else 0x80

second_hi : ℕ → ℕ
second_hi p = if p == 0xED then 0x9F else if p == 0xF4 then 0x8F else 0xBF

decode_two : ℕ → Bytes → ℕ × ℕ
decode_two p [] = (rune_error, 1)
decode_two p (b ∷ _) = if in_range 0x80 0xBF b then (p % 32 * 64 + b % 64, 2) else (rune_error, 1)

decode_three : ℕ → Bytes → ℕ × ℕ
unfolding second_lo second_hi
decode_three p [] = (rune_error, 1)
decode_three p (b ∷ []) = (rune_error, 1)
decode_three p (b ∷ c ∷ _) =
    if in_range (second_lo p) (second_hi p) b && in_range 0x80 0xBF c
    then (p % 16 * 4096 + b % 64 * 64 + c % 64, 3)
    else (rune_error, 1)

decode_four : ℕ → Bytes → ℕ × ℕ
unfolding second_lo second_hi
decode_four p [] = (rune_error, 1)
decode_four p (b ∷ []) = (rune_error, 1)
decode_four p (b ∷ c ∷ []) = (rune_error, 1)
decode_four p (b ∷ c ∷ d ∷ _) =
    if in_range (second_lo p) (second_hi p) b && (in_range 0x80 0xBF c && in_range 0x80 0xBF d)
    then (p % 8 * 262144 + b % 64 * 4096 + c % 64 * 64 + d % 64, 4)
    else (rune_error, 1)

-- `utf8.DecodeRuneInString`: the first rune and its width in bytes.
unfoldable pub decode_rune : Bytes → ℕ × ℕ
unfolding decode_two decode_three decode_four
decode_rune [] = (rune_error, 0)
decode_rune (p ∷ s) =
    if ltb p 0x80
    then (p, 1)
    else if ltb p 0xC2
    then (rune_error, 1)
    else if ltb p 0xE0
    then decode_two p s
    else if ltb p 0xF0
    then decode_three p s
    else if ltb p 0xF5
    then decode_four p s
    else (rune_error, 1)

-- The bytes of a rune.
unfoldable pub encode_rune : ℕ → Bytes
encode_rune r =
    if ltb r 0x80
    then r ∷ []
    else if ltb r 0x800
    then (0xC0 + r / 64) ∷ (0x80 + r % 64) ∷ []
    else if ltb r 0x10000
    then (0xE0 + r / 4096) ∷ (0x80 + r / 64 % 64) ∷ (0x80 + r % 64) ∷ []
    else (0xF0 + r / 262144) ∷ (0x80 + r / 4096 % 64) ∷ (0x80 + r / 64 % 64) ∷ (0x80 + r % 64) ∷ []

-- A Unicode scalar value: no surrogate.
abbrev pub IsScalar : ℕ → Type 0
IsScalar r = (r < 0xD800) ⊎ ((0xE000 ≤ r) × (r < 0x110000))

-- A rune that was encoded is decoded, whatever follows.
pub decode-encode_rune :
    (r : ℕ) (rest : Bytes)
    → IsScalar r
    → decode_rune (encode_rune r ++ rest) ≡ (r, length (encode_rune r))
unfolding decode_rune encode_rune
decode-encode_rune r rest h = ground arith

-- What a decoder that read more than one byte has found.
abbrev pub Spelled : Bytes → ℕ → ℕ → Type 0
Spelled s r n = (take n s ≡ encode_rune r) × (n ≤ length s) × (0x80 ≤ r)

module _ (p r n : ℕ) where
  two_Spelled :
      (s : Bytes) → 0xC2 ≤ p → p < 0xE0 → decode_two p s ≡ (r, n) → 1 < n → Spelled (p ∷ s) r n
  unfolding decode_two encode_rune
  two_Spelled [] l u e h = ground arith
  two_Spelled (b ∷ s) l u e h = ground arith

  three_Spelled :
      (s : Bytes) → 0xE0 ≤ p → p < 0xF0 → decode_three p s ≡ (r, n) → 1 < n → Spelled (p ∷ s) r n
  unfolding decode_three encode_rune
  three_Spelled [] l u e h = ground arith
  three_Spelled (b ∷ []) l u e h = ground arith
  three_Spelled (b ∷ c ∷ s) l u e h = ground arith

  four_Spelled :
      (s : Bytes) → 0xF0 ≤ p → p < 0xF5 → decode_four p s ≡ (r, n) → 1 < n → Spelled (p ∷ s) r n
  unfolding decode_four encode_rune
  four_Spelled [] l u e h = ground arith
  four_Spelled (b ∷ []) l u e h = ground arith
  four_Spelled (b ∷ c ∷ []) l u e h = ground arith
  four_Spelled (b ∷ c ∷ d ∷ s) l u e h = ground arith

abbrev decoders : ℕ → Bytes → ℕ × ℕ
decoders p s =
    if ltb p 0x80
    then (p, 1)
    else if ltb p 0xC2
    then (rune_error, 1)
    else if ltb p 0xE0
    then decode_two p s
    else if ltb p 0xF0
    then decode_three p s
    else if ltb p 0xF5
    then decode_four p s
    else (rune_error, 1)

decoders-Spelled :
    (p : ℕ) (s : Bytes) (r n : ℕ) → decoders p s ≡ (r, n) → 1 < n → Spelled (p ∷ s) r n
decoders-Spelled p s r n e h =
    ground (arith, two_Spelled p r n s, three_Spelled p r n s, four_Spelled p r n s)

-- A rune wider than a byte was spelled by its own encoding, and is not ASCII.
pub encode_decode_rune : (s : Bytes) (r n : ℕ) → decode_rune s ≡ (r, n) → 1 < n → Spelled s r n
unfolding decode_rune
encode_decode_rune [] r n e h = ground arith
encode_decode_rune (p ∷ s) r n e h = decoders-Spelled p s r n e h

-- The width of a rune: at most four bytes, and at least one unless nothing is left.
pub decode_rune_width :
    (p : ℕ) (s : Bytes) → (1 ≤ (decode_rune (p ∷ s)).1) × ((decode_rune (p ∷ s)).1 ≤ 4)
unfolding decode_rune
decode_rune_width p [] = ground arith
decode_rune_width p (b ∷ []) = ground arith
decode_rune_width p (b ∷ c ∷ []) = ground arith
decode_rune_width p (b ∷ c ∷ d ∷ s) = ground arith

-- A byte that starts no rune is an error.
pub decode_rune_single :
    (p : ℕ) (s : Bytes)
    → 0x80 ≤ p
    → (decode_rune (p ∷ s)).1 ≡ 1
    → (decode_rune (p ∷ s)).0 ≡ rune_error
unfolding decode_rune
decode_rune_single p [] h e = ground arith
decode_rune_single p (b ∷ []) h e = ground arith
decode_rune_single p (b ∷ c ∷ []) h e = ground arith
decode_rune_single p (b ∷ c ∷ d ∷ s) h e = ground arith

pub decode_rune_ascii : (p : ℕ) (s : Bytes) → p < 0x80 → decode_rune (p ∷ s) ≡ (p, 1)
unfolding decode_rune
decode_rune_ascii p s h = ground arith

pub encode_rune_width :
    (r : ℕ)
    → (1 ≤ length (encode_rune r))
      × (length (encode_rune r) ≡ 1 → encode_rune r ≡ r ∷ [])
      × (length (encode_rune r) ≡ 1 → r < 0x80)
unfolding encode_rune
encode_rune_width r = ground arith
