-- ===== src/Go/Strconv/RoundTrip.antt =====
-- The parsers read back what the formatters print, if it fits.
use onedb.Prelude.{
  ℕ, zero, suc, ◌+◌, ◌-◌, ◌*◌, ◌/◌, ◌%◌, ◌^◌, ◌<◌, ◌≤◌, [], ◌∷◌, ◌≡◌, refl, ap, ◌∙◌, true, false,
  Bytes, ltb, Bool-cases, inl, inr, arith, ltb→lt, sym, if◌then◌else◌,
}
use native.Mathlib.Nat.{pow-suc}
use onedb.Go.Decimal.{digits, format_uint, format_int}
use onedb.Go.Ints.{ℤ, pos, negsuc, magnitude}
use onedb.Go.Strconv.{
  Parsed, parsed, syntax_error, range_error, scan_uint, parse_uint, signed_range, parse_int,
}

-- What the loop does behind the digits of `n`.
abbrev behind : ℕ → Bytes → ℕ → Parsed ℕ
behind max out n = if ltb max n then range_error else scan_uint max out n

scan_single :
    (max n : ℕ) (out : Bytes) → n < 10 → scan_uint max ((b'0' + n) ∷ out) 0 ≡ behind max out n
unfolding scan_uint
scan_single max n out lt = let e : 0 * 10 + (b'0' + n - b'0') ≡ n = omega arith in ground (arith, e)

behind_digit :
    (max n : ℕ) (out : Bytes) → behind max ((b'0' + n % 10) ∷ out) (n / 10) ≡ behind max out n
unfolding scan_uint
behind_digit max n out =
    let e : n / 10 * 10 + (b'0' + n % 10 - b'0') ≡ n = omega arith in ground (arith, e)

digits_small : (f n : ℕ) (out : Bytes) → ltb n 10 ≡ true → digits (suc f) n out ≡ (b'0' + n) ∷ out
unfolding digits
digits_small f n out h = rw (h, digits) refl

digits_large :
    (f n : ℕ) (out : Bytes)
    → ltb n 10 ≡ false
    → digits (suc f) n out ≡ digits f (n / 10) ((b'0' + n % 10) ∷ out)
unfolding digits
digits_large f n out h = rw (h, digits) refl

scan_uint-digits :
    (f n max : ℕ) (out : Bytes) → n < f → scan_uint max (digits f n out) 0 ≡ behind max out n
scan_uint-digits zero n max out lt = absurd (omega arith)
scan_uint-digits (suc f) n max out lt = elim (Bool-cases (ltb n 10)) [
  | inl small ↦ rw (digits_small f n out small) (scan_single max n out (ltb→lt n 10 small))
  | inr large ↦ rw (digits_large f n out large) (
      scan_uint-digits f (n / 10) max ((b'0' + n % 10) ∷ out) (ground arith)
      ∙ behind_digit max n out)
]

-- A formatted number has a digit at its head, so no sign.
digit_head :
    (f n : ℕ) (out : Bytes) → n < f → (c : ℕ) × (s : Bytes) × (digits f n out ≡ c ∷ s) × (b'0' ≤ c)
digit_head zero n out lt = absurd (omega arith)
digit_head (suc f) n out lt = elim (Bool-cases (ltb n 10)) [
  | inl small ↦ (b'0' + n, out, digits_small f n out small, omega arith)
  | inr large ↦
      let (c, s, e, d) = digit_head f (n / 10) ((b'0' + n % 10) ∷ out) (ground arith) in
      (c, s, digits_large f n out large ∙ e, d)
]

-- The digits are the number, unless it is too large.
parse_uint-format :
    (bits n : ℕ)
    → parse_uint bits (format_uint n) ≡ (if ltb (2 ^ bits - 1) n then range_error else parsed n)
unfolding parse_uint format_uint
parse_uint-format bits n =
    let (c, s, e, d) = digit_head (suc n) n [] (omega arith) in
    ap (parse_uint bits) e
    ∙ sym (ap (λ t. scan_uint (2 ^ bits - 1) t 0) e)
    ∙ scan_uint-digits (suc n) n (2 ^ bits - 1) [] (omega arith)

unsigned_head :
    (bits c : ℕ) (s : Bytes)
    → b'0' ≤ c
    → parse_int bits (c ∷ s) ≡ signed_range bits false (parse_uint (suc bits) (c ∷ s))
unfolding parse_int
unsigned_head bits c s d = ground arith

pub parse_int-format_uint :
    (bits n : ℕ)
    → parse_int bits (format_uint n)
      ≡ signed_range bits false (parse_uint (suc bits) (format_uint n))
unfolding format_uint
parse_int-format_uint bits n =
    let (c, s, e, d) = digit_head (suc n) n [] (omega arith) in rw e (unsigned_head bits c s d)

pow-pos : (w : ℕ) → 1 ≤ 2 ^ w
pow-pos zero = omega arith
pow-pos (suc w) = rw pow-suc (omega (arith, pow-pos w))

twice_pow : (bits : ℕ) → 2 ^ suc bits ≡ 2 ^ bits + 2 ^ bits
twice_pow bits = rw pow-suc (omega arith)

signed_range-pos :
    (bits n : ℕ)
    → signed_range bits false (if ltb (2 ^ suc bits - 1) n then range_error else parsed n)
      ≡ (if ltb n (2 ^ bits) then parsed (pos n) else range_error)
unfolding signed_range
signed_range-pos bits n = ground (arith, twice_pow bits, pow-pos bits)

signed_range-negsuc :
    (bits n : ℕ)
    → signed_range bits true
        (if ltb (2 ^ suc bits - 1) (suc n) then range_error else parsed (suc n))
      ≡ (if ltb n (2 ^ bits) then parsed (negsuc n) else range_error)
unfolding signed_range
signed_range-negsuc bits n = ground (arith, twice_pow bits, pow-pos bits)

parse_int-minus :
    (bits : ℕ) (s : Bytes)
    → parse_int bits (b'-' ∷ s) ≡ signed_range bits true (parse_uint (suc bits) s)
unfolding parse_int
parse_int-minus bits s = refl

-- An integer is read back if it fits, and is an error otherwise.
pub parse_int-format :
    (bits : ℕ) (z : ℤ)
    → parse_int bits (format_int z)
      ≡ (if ltb (magnitude z) (2 ^ bits) then parsed z else range_error)
unfolding format_int
parse_int-format bits (pos n) =
    parse_int-format_uint bits n
    ∙ ap (signed_range bits false) (parse_uint-format (suc bits) n)
    ∙ signed_range-pos bits n
parse_int-format bits (negsuc n) =
    parse_int-minus bits (format_uint (suc n))
    ∙ ap (signed_range bits true) (parse_uint-format (suc bits) (suc n))
    ∙ signed_range-negsuc bits n

-- A negative number is no text of an unsigned one.
pub parse_uint-negative : (bits n : ℕ) → parse_uint bits (format_int (negsuc n)) ≡ syntax_error
unfolding parse_uint scan_uint format_int
parse_uint-negative bits n = refl

-- The same as `n < 2 ^ bits`.
pub parse_uint-format_uint :
    (bits n : ℕ)
    → parse_uint bits (format_uint n) ≡ (if ltb n (2 ^ bits) then parsed n else range_error)
parse_uint-format_uint bits n = parse_uint-format bits n ∙ ground (arith, pow-pos bits)
