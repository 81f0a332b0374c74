-- ===== src/Json/Escape/Text.antt =====
-- `encodeString` read back: on any bytes, and on UTF-8 text.
use onedb.Prelude.{
  ℕ, zero, suc, ◌<◌, List, [], ◌∷◌, ◌++◌, ◌≡◌, refl, ap, ◌∙◌, false, some, Bytes, length, drop,
  length-append, cons_of_length, drop-append_self, take-append_self, All, arith, ◌==◌, ◌&&◌,
}
use onedb.Json.Utf8.{
  decode_rune, encode_rune, rune_error, IsScalar, decode-encode_rune, encode_rune_width,
}
use onedb.Json.Reader.{Means, json_string, json_string-quote}
use onedb.Json.Escape.{encode_string}
use onedb.Json.Escape.Pieces.{quoted, encode_string-pieces}
use onedb.Json.Escape.RoundTrip.{clean, sanitized, escaped_total}

-- The text with U+FFFD for each byte that is part of no rune; there is fuel for every byte.
abbrev pub sanitize : Bytes → Bytes
sanitize s = sanitized (suc (length s)) s

-- The literal, and that its inside stands for the sanitized text.
pub encode_string-Means :
    (s : Bytes)
    → (p : Bytes) × (encode_string s ≡ some (b'"' ∷ (p ++ b'"' ∷ []))) × Means p (sanitize s)
encode_string-Means s =
    let (p, (e, m)) = escaped_total (suc (length s)) s (omega arith) in
    (p, encode_string-pieces s ∙ ap quoted e, m)

-- `encodeString` returns for every byte string, and a JSON reader takes its result for the string
-- with U+FFFD in place of each byte that is part of no UTF-8 rune.
pub encode_string_reads :
    (s : Bytes) → (t : Bytes) × (encode_string s ≡ some t) × (json_string t ≡ some (sanitize s))
encode_string_reads s =
    let (p, e, m) = encode_string-Means s in
    (b'"' ∷ (p ++ b'"' ∷ []), e, json_string-quote p (sanitize s) m)

-- The UTF-8 text of a list of runes.
abbrev pub utf8 : List ℕ → Bytes
utf8 [] = []
utf8 (r ∷ rs) = encode_rune r ++ utf8 rs

clean-encode_rune :
    (r : ℕ) (rest : Bytes) → IsScalar r → clean (encode_rune r ++ rest) ≡ encode_rune r
unfolding clean
clean-encode_rune r rest h =
    let valid : (r == rune_error && length (encode_rune r) == 1) ≡ false =
      ground (arith, encode_rune_width r) in
    rw (decode-encode_rune r rest h) (rw valid (take-append_self (encode_rune r) rest))

sanitized_step :
    (fuel : ℕ) (x : Bytes) {b : ℕ} {d : Bytes}
    → x ≡ b ∷ d
    → sanitized (suc fuel) x ≡ clean x ++ sanitized fuel (drop (decode_rune x).1 x)
unfolding sanitized
sanitized_step fuel x h = rw h refl

sanitized-rune :
    (fuel r : ℕ) (rest : Bytes)
    → IsScalar r
    → sanitized (suc fuel) (encode_rune r ++ rest) ≡ encode_rune r ++ sanitized fuel rest
sanitized-rune fuel r rest h =
    let (b, d, e) = cons_of_length (encode_rune r) (encode_rune_width r).0 in
    rw
      (
        sanitized_step fuel (encode_rune r ++ rest) (ap (λ t. t ++ rest) e),
        clean-encode_rune r rest h,
        decode-encode_rune r rest h,
        drop-append_self (encode_rune r) rest,
      )
      refl

sanitized-utf8 :
    (fuel : ℕ) (rs : List ℕ)
    → All IsScalar rs
    → length (utf8 rs) < fuel
    → sanitized fuel (utf8 rs) ≡ utf8 rs
sanitized-utf8 zero rs h lt = absurd (omega arith)
sanitized-utf8 (suc fuel) [] h lt = unfold sanitized in refl
sanitized-utf8 (suc fuel) (r ∷ rs) (h, hs) lt =
    let shorter : length (utf8 rs) < fuel =
      omega (arith, length-append (encode_rune r) (utf8 rs), (encode_rune_width r).0) in
    rw (sanitized-rune fuel r (utf8 rs) h)
      (ap (λ t. encode_rune r ++ t) (sanitized-utf8 fuel rs hs shorter))

-- `encodeString` returns for the UTF-8 text of any list of Unicode scalar values, and a JSON
-- reader gets exactly that text back from the result.
pub encode_string_text :
    (rs : List ℕ)
    → All IsScalar rs
    → (t : Bytes) × (encode_string (utf8 rs) ≡ some t) × (json_string t ≡ some (utf8 rs))
encode_string_text rs h =
    let (t, e, m) = encode_string_reads (utf8 rs) in
    (t, e, m ∙ ap some (sanitized-utf8 (suc (length (utf8 rs))) rs h (omega arith)))
