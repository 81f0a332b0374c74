-- ===== src/Json/Base64/RoundTrip.antt =====
-- Both ways to encode agree, and a decoder gets the bytes back.
use onedb.Prelude.{
  ℕ, zero, suc, ◌+◌, ◌-◌, ◌*◌, ◌/◌, ◌%◌, ◌≤◌, ◌<◌, [], ◌∷◌, ◌++◌, ◌≡◌, ◌≢◌, refl, sym, ap, ◌∙◌,
  Bool, true, false, ◌&&◌, Option, none, some, Bytes, codes, length, take, drop, take-append-drop,
  length-drop, length-take_le, All, inl, inr, arith, ltb, leb, ◌==◌, if◌then◌else◌, Bool-cases,
  holds_below, holds_below_at,
}
use onedb.Go.Outcome.{ok}
use onedb.Json.Base64.{letter, triple, base64, chunk, stream, encode_byte_slice}

-- Whole triples are encoded apart from what follows.
base64-append : (k : ℕ) (s t : Bytes) → length s ≡ 3 * k → base64 (s ++ t) ≡ base64 s ++ base64 t
unfolding base64 triple
base64-append k [] t h = refl
base64-append k (a ∷ []) t h = absurd (omega arith)
base64-append k (a ∷ b ∷ []) t h = absurd (omega arith)
base64-append zero (a ∷ b ∷ c ∷ s) t h = absurd (omega arith)
base64-append (suc k) (a ∷ b ∷ c ∷ s) t h =
    ap (λ u. triple a b c ++ u) (base64-append k s t (omega arith))

chunk_fits : (n : ℕ) → 3 ≤ n → (chunk n ≡ 3 * (chunk n / 3)) × (1 ≤ chunk n) × (chunk n ≤ n)
unfolding chunk
chunk_fits n h = ground arith

-- The streaming encoder writes what the direct call writes.
stream-base64 : (fuel : ℕ) (p : Bytes) → length p < fuel → stream fuel p ≡ some (base64 p)
unfolding stream
stream-base64 zero p h = absurd (omega arith)
stream-base64 (suc fuel) p h = elim (Bool-cases (ltb (length p) 3)) [
  | inl short ↦ rw (short, stream) refl
  | inr long ↦
      let n = chunk (length p) in
      let (whole, some_byte, fits) = chunk_fits (length p) (ground arith) in
      let ih = stream-base64 fuel (drop n p) (omega (arith, length-drop n p)) in
      let joined =
        base64-append (n / 3) (take n p) (drop n p) (omega (arith, length-take_le n p)) in
      rw (long, stream, ih) (ap some (sym joined ∙ ap base64 (take-append-drop n p)))
]

-- A decoder after RFC 4648; not code of the repository.
sextet : ℕ → Option ℕ
sextet c =
    if leb b'A' c && leb c b'Z'
    then some (c - b'A')
    else if leb b'a' c && leb c b'z'
    then some (c - b'a' + 26)
    else if leb b'0' c && leb c b'9'
    then some (c - b'0' + 52)
    else if c == b'+'
    then some 62
    else if c == b'/'
    then some 63
    else none

infixl 5 ◌>>=◌
abbrev ◌>>=◌ : {A B : Type 0} → Option A → (A → Option B) → Option B
none >>= f = none
some a >>= f = f a

last_one : ℕ → ℕ → Option Bytes
last_one w x = do a ← sextet w; b ← sextet x; some ((a * 4 + b / 16) ∷ [])

last_two : ℕ → ℕ → ℕ → Option Bytes
last_two w x y = do
  a ← sextet w
  b ← sextet x
  c ← sextet y
  some ((a * 4 + b / 16) ∷ (b % 16 * 16 + c / 4) ∷ [])

group : ℕ → ℕ → ℕ → ℕ → Option Bytes → Option Bytes
group w x y z more = do
  a ← sextet w
  b ← sextet x
  c ← sextet y
  d ← sextet z
  rest ← more
  some ((a * 4 + b / 16) ∷ (b % 16 * 16 + c / 4) ∷ (c % 4 * 64 + d) ∷ rest)

-- The bytes that a base64 text stands for.
unfoldable pub unbase64 : Bytes → Option Bytes
unfolding sextet last_one last_two group
unbase64 [] = some []
unbase64 (w ∷ x ∷ y ∷ z ∷ s) =
    if z == b'='
    then (if y == b'=' then last_one w x else last_two w x y)
    else group w x y z (unbase64 s)
unbase64 _ = none

letter_ok : ℕ → Bool
letter_ok k =
    (elim (sextet (letter k)) [ none ↦ false | some j ↦ j == k ])
    && leb (letter k) 122
    && (if letter k == b'=' then false else true)

letter_table : holds_below 64 letter_ok ≡ true
unfolding holds_below letter_ok sextet letter
letter_table = refl

sextet-letter : (k : ℕ) → k < 64 → (sextet (letter k) ≡ some k) × ((letter k == b'=') ≡ false)
unfolding letter_ok
sextet-letter k h = ground (arith, holds_below_at 64 letter_ok k letter_table h)

module _ (i j k l : ℕ) (hi : i < 64) (hj : j < 64) (hk : k < 64) (hl : l < 64) where
  last_two-letters :
      last_two (letter i) (letter j) (letter k)
      ≡ some ((i * 4 + j / 16) ∷ (j % 16 * 16 + k / 4) ∷ [])
  unfolding last_two
  last_two-letters =
      rw ((sextet-letter i hi).0) (rw ((sextet-letter j hj).0) (rw ((sextet-letter k hk).0) refl))

  group-letters :
      (rest : Bytes)
      → group (letter i) (letter j) (letter k) (letter l) (some rest)
        ≡ some ((i * 4 + j / 16) ∷ (j % 16 * 16 + k / 4) ∷ (k % 4 * 64 + l) ∷ rest)
  unfolding group
  group-letters rest =
      rw ((sextet-letter i hi).0) (
        rw ((sextet-letter j hj).0)
          (rw ((sextet-letter k hk).0) (rw ((sextet-letter l hl).0) refl)))

last_one-letters :
    (i j : ℕ) → i < 64 → j < 64 → last_one (letter i) (letter j) ≡ some ((i * 4 + j / 16) ∷ [])
unfolding last_one
last_one-letters i j hi hj = rw ((sextet-letter i hi).0) (rw ((sextet-letter j hj).0) refl)

-- The three bytes of a group, in front of the rest.
bytes_eq :
    {a b c a' b' c' : ℕ} (s : Bytes)
    → a ≡ a'
    → b ≡ b'
    → c ≡ c'
    → ◌≡◌ {A = Option Bytes} (some (a ∷ b ∷ c ∷ s)) (some (a' ∷ b' ∷ c' ∷ s))
bytes_eq s p q r = cc

two_eq :
    {a b a' b' : ℕ}
    → a ≡ a'
    → b ≡ b'
    → ◌≡◌ {A = Option Bytes} (some (a ∷ b ∷ [])) (some (a' ∷ b' ∷ []))
two_eq p q = cc

pub unbase64-base64 : (s : Bytes) → All (λ c. c < 256) s → unbase64 (base64 s) ≡ some s
unfolding base64 triple unbase64
unbase64-base64 [] h = refl
unbase64-base64 (a ∷ []) (ha, _) =
    last_one-letters (a / 4) (a % 4 * 16) (omega arith) (omega arith)
    ∙ ap (λ t. some (t ∷ [])) (omega arith)
unbase64-base64 (a ∷ b ∷ []) (ha, (hb, _)) =
    let k = b % 16 * 4 in
    rw ((sextet-letter k (omega arith)).1) (
      last_two-letters (a / 4) (a % 4 * 16 + b / 16) k 0 (omega arith) (omega arith) (omega arith)
        (omega arith)
      ∙ two_eq (omega arith) (omega arith))
unbase64-base64 (a ∷ b ∷ c ∷ s) (ha, (hb, (hc, hs))) =
    rw ((sextet-letter (c % 64) (omega arith)).1, unbase64-base64 s hs)
      (group-letters (a / 4) (a % 4 * 16 + b / 16) (b % 16 * 4 + c / 64) (c % 64) (omega arith)
          (omega arith) (omega arith) (omega arith) s
        ∙ bytes_eq s (omega arith) (omega arith) (omega arith))

pub encode_byte_slice-base64 :
    (c : ℕ) (s : Bytes) → encode_byte_slice (c ∷ s) ≡ ok (b'"' ∷ (base64 (c ∷ s) ++ b'"' ∷ []))
unfolding encode_byte_slice
encode_byte_slice-base64 c s =
    let full : (length (c ∷ s) == 0) ≡ false = ground arith in
    let all = stream-base64 (suc (length (c ∷ s))) (c ∷ s) (omega arith) in
    elim (Bool-cases (ltb (length (c ∷ s)) 1024)) [
      | inl e ↦ rw (full, e) refl
      | inr e ↦ rw (full, e, all) refl
    ]

-- `encodeByteSlice` on a non-empty slice of bytes, below 1024 bytes or above, returns a base64
-- text between quotes that a base64 decoder turns back into the slice.
pub encode_byte_slice_reads :
    (s : Bytes)
    → s ≢ []
    → All (λ c. c < 256) s
    → (t : Bytes) × (encode_byte_slice s ≡ ok (b'"' ∷ (t ++ b'"' ∷ []))) × (unbase64 t ≡ some s)
encode_byte_slice_reads [] n h = absurd (n refl)
encode_byte_slice_reads (c ∷ s) n h =
    (base64 (c ∷ s), encode_byte_slice-base64 c s, unbase64-base64 (c ∷ s) h)

pub encode_byte_slice_total : (s : Bytes) → (t : Bytes) × (encode_byte_slice s ≡ ok t)
encode_byte_slice_total [] = (codes "null", unfold encode_byte_slice in refl)
encode_byte_slice_total (c ∷ s) =
    (b'"' ∷ (base64 (c ∷ s) ++ b'"' ∷ []), encode_byte_slice-base64 c s)
