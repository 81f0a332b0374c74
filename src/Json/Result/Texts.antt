-- ===== src/Json/Result/Texts.antt =====
-- What a JSON reader makes of the texts that `getJSONValue` returns.
use onedb.Prelude.{
  length, ◌-◌, take, drop, take-append_self, length-append, ℕ, zero, suc, ◌+◌, ◌*◌, ◌/◌, ◌%◌, ◌<◌,
  ◌^◌, [], ◌∷◌, ◌++◌, append_assoc, ◌≡◌, refl, ap, ◌∙◌, Bool, true, false, Bool-cases, inl, inr,
  Option, none, some, Bytes, codes, text_eq, text_eq→eq, All, ◌==◌, ◌&&◌, leb, ltb, not,
  holds_below, holds_below_at, arith, if◌then◌else◌,
}
use onedb.Go.Decimal.{digits, format_uint, format_int}
use onedb.Go.Ints.{ℤ, pos, negsuc, magnitude}
use onedb.Go.Strconv.{parsed, syntax_error, range_error, parse_int}
use onedb.Go.Strconv.RoundTrip.{parse_int-format}
use onedb.Json.Base64.{letter, base64, triple, encode_byte_slice}
use onedb.Json.Base64.RoundTrip.{encode_byte_slice-base64}
use onedb.Json.Escape.{encode_string}
use onedb.Json.Escape.Text.{sanitize, encode_string-Means}
use onedb.Json.Reader.{Means}
use onedb.Json.Reader.Document.{
  Json, boolean, number, text, is_stop, scalar, number_or_word, word, value,
}
use onedb.Json.Reader.Document.Laws.{Ends, value-quote, value-scalar, IsPlain, Means-plain}
use onedb.Json.Scalar.{returned, text_of}

-- No stop, and no quote.
abbrev InNumber : ℕ → Type 0
InNumber c = (is_stop c ≡ false) × ((c == b'"') ≡ false)

digit-InNumber : (d : ℕ) → d < 10 → InNumber (b'0' + d)
unfolding is_stop
digit-InNumber d h = (ground arith, ground arith)

digits-InNumber : (f n : ℕ) (out : Bytes) → All InNumber out → All InNumber (digits f n out)
unfolding digits
digits-InNumber zero n out h = h
digits-InNumber (suc f) n out h = elim (Bool-cases (ltb n 10)) [
  | inl small ↦ rw (small, digits) (digit-InNumber n (ground arith), h)
  | inr large ↦
      rw (large, digits)
        (digits-InNumber f (n / 10) ((b'0' + n % 10) ∷ out)
          (digit-InNumber (n % 10) (omega arith), h))
]

format_int-InNumber : (z : ℤ) → All InNumber (format_int z)
unfolding format_int format_uint is_stop
format_int-InNumber (pos n) = digits-InNumber (suc n) n [] tt
format_int-InNumber (negsuc n) = ((refl, refl), digits-InNumber (suc (suc n)) (suc n) [] tt)

-- What a reader makes of a text that `getJSONValue` returns; `none` is the text `null`, which
-- `scanJSON` leaves out.
abbrev pub Shows : Bytes → Option Json → Type 0
Shows t none = t ≡ codes "null"
Shows t (some j) =
    (text_eq t (codes "null") ≡ false) × ((s : Bytes) → Ends s → value (t ++ s) ≡ some (j, s))

Shows-quote : (p out : Bytes) → Means p out → Shows (b'"' ∷ (p ++ b'"' ∷ [])) (some (text out))
unfolding text_eq
Shows-quote p out h = (
  refl,
  λ s ends. ap (λ t. value (b'"' ∷ t)) (append_assoc p (b'"' ∷ []) s) ∙ value-quote p out s h,
)

Shows-scalar :
    (t : Bytes) (j : Json)
    → All InNumber t
    → scalar t ≡ some j
    → text_eq t (codes "null") ≡ false
    → Shows t (some j)
unfolding scalar number_or_word word parse_int text_eq
Shows-scalar [] j h e n = cc
Shows-scalar (c ∷ t) j ((stop, bare), h) e n =
    (n, λ s ends. value-scalar c t s j bare (stop, no_stop t h) e ends)
  where
    no_stop : (u : Bytes) → All InNumber u → All (λ k. is_stop k ≡ false) u
    no_stop [] h = tt
    no_stop (k ∷ u) ((stop, _), h) = (stop, no_stop u h)

null-no_number : parse_int 64 (codes "null") ≡ syntax_error
unfolding parse_int
null-no_number = refl

no_null : (t : Bytes) (z : ℤ) → parse_int 64 t ≡ parsed z → text_eq t (codes "null") ≡ false
no_null t z h = elim (Bool-cases (text_eq t (codes "null"))) [
  | inl e ↦ let q = text_eq→eq t (codes "null") e in let n = null-no_number in cc
  | inr e ↦ e
]

pub Shows-number : (z : ℤ) → magnitude z < 2 ^ 64 → Shows (format_int z) (some (number z))
unfolding scalar number_or_word
Shows-number z h =
    let fits : ltb (magnitude z) (2 ^ 64) ≡ true = ground arith in
    let reads : parse_int 64 (format_int z) ≡ parsed z =
      parse_int-format 64 z ∙ ap (λ t. if t then parsed z else range_error) fits in
    Shows-scalar (format_int z) (number z) (format_int-InNumber z)
      (ap (number_or_word (format_int z)) reads) (no_null (format_int z) z reads)

pub Shows-bool : (b : Bool) → Shows (if b then codes "true" else codes "false") (some (boolean b))
unfolding scalar number_or_word word parse_int text_eq is_stop
Shows-bool true =
    Shows-scalar (codes "true") (boolean true)
      ((refl, refl), ((refl, refl), ((refl, refl), ((refl, refl), tt)))) refl refl
Shows-bool false =
    Shows-scalar (codes "false") (boolean false)
      ((refl, refl), ((refl, refl), ((refl, refl), ((refl, refl), ((refl, refl), tt))))) refl refl

-- `encodeString`
pub Shows-string :
    (s : Bytes) → Shows (text_of (returned (encode_string s))) (some (text (sanitize s)))
unfolding returned text_of
Shows-string s = let (p, e, m) = encode_string-Means s in rw e (Shows-quote p (sanitize s) m)

base64_byte : ℕ → Bool
base64_byte k = leb 0x20 (letter k) && (not (letter k == b'"') && not (letter k == b'\\'))

base64_table : holds_below 64 base64_byte ≡ true
unfolding holds_below base64_byte letter
base64_table = refl

letter-IsPlain : (k : ℕ) → k < 64 → IsPlain (letter k)
unfolding base64_byte
letter-IsPlain k h =
    let e = holds_below_at 64 base64_byte k base64_table h in
    (ground arith, ground arith, ground arith)

equals : IsPlain b'='
equals = (omega arith, λ e. omega arith, λ e. omega arith)

base64-IsPlain : (s : Bytes) → All (λ c. c < 256) s → All IsPlain (base64 s)
unfolding base64 triple
base64-IsPlain [] h = tt
base64-IsPlain (a ∷ []) (ha, _) = (
  letter-IsPlain (a / 4) (omega arith),
  (letter-IsPlain (a % 4 * 16) (omega arith), (equals, (equals, tt))),
)
base64-IsPlain (a ∷ b ∷ []) (ha, (hb, _)) = (
  letter-IsPlain (a / 4) (omega arith),
  (
    letter-IsPlain (a % 4 * 16 + b / 16) (omega arith),
    (letter-IsPlain (b % 16 * 4) (omega arith), (equals, tt)),
  ),
)
base64-IsPlain (a ∷ b ∷ c ∷ s) (ha, (hb, (hc, hs))) = (
  letter-IsPlain (a / 4) (omega arith),
  (
    letter-IsPlain (a % 4 * 16 + b / 16) (omega arith),
    (
      letter-IsPlain (b % 16 * 4 + c / 64) (omega arith),
      (letter-IsPlain (c % 64) (omega arith), base64-IsPlain s hs),
    ),
  ),
)

-- `encodeByteSlice`
pub Shows-bytes :
    (c : ℕ) (s : Bytes)
    → All (λ k. k < 256) (c ∷ s)
    → Shows (text_of (encode_byte_slice (c ∷ s))) (some (text (base64 (c ∷ s))))
unfolding text_of
Shows-bytes c s h =
    let t = base64 (c ∷ s) in
    rw (encode_byte_slice-base64 c s) (Shows-quote t t (Means-plain t (base64-IsPlain (c ∷ s) h)))

-- A text without the byte at each end.
unfoldable pub inside : Bytes → Bytes
inside s = take (length s - 2) (drop 1 s)

inside-quotes : (p : Bytes) → inside (b'"' ∷ (p ++ b'"' ∷ [])) ≡ p
unfolding inside
inside-quotes p =
    let n : length (b'"' ∷ (p ++ b'"' ∷ [])) - 2 ≡ length p =
      omega (arith, length-append p (b'"' ∷ [])) in
    ap (λ k. take k (p ++ b'"' ∷ [])) n ∙ take-append_self p (b'"' ∷ [])

pub Shows-time :
    (t p : Bytes) → t ≡ b'"' ∷ (p ++ b'"' ∷ []) → All IsPlain p → Shows t (some (text (inside t)))
Shows-time t p e plain = rw (e, inside-quotes p) (Shows-quote p p (Means-plain p plain))
