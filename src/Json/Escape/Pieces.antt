-- ===== src/Json/Escape/Pieces.antt =====
-- The loop of `encodeString`, which copies runs of bytes by their bounds, against a description
-- that writes one piece of text for each rune.
use onedb.Prelude.{
  ℕ, zero, suc, ◌+◌, ◌-◌, ◌%◌, ◌≤◌, [], ◌∷◌, ◌++◌, append-nil, append_assoc, ◌≡◌, refl, sym, ap,
  ◌∙◌, true, false, ◌&&◌, ◌||◌, Option, none, some, Bytes, codes, length, get_or, take, drop,
  take_all, drop-drop, take-add, length-drop, inl, inr, drop-get_or, drop_all, get_or-drop, arith,
  ltb, ◌==◌, if◌then◌else◌, Bool-cases, ltb→lt,
}
use onedb.Json.Utf8.{decode_rune, rune_error, decode_rune_width, encode_decode_rune}
use onedb.Json.Reader.{before}
use onedb.Json.Escape.{
  hex, slice, Cursor, is_plain, escape_byte, flush, replace, round, encode_loop, encode_string,
}

-- The width of the first rune, and what is written for it.
unfoldable pub piece : Bytes → ℕ × Bytes
piece d =
    let b = get_or d 0 0 in
    let (r, size) = decode_rune d in
    if ltb b 0x80
    then (if is_plain b then (1, take 1 d) else (1, escape_byte b))
    else if r == rune_error && size == 1
    then (size, codes "\\ufffd")
    else if r == 0x2028 || r == 0x2029
    then (size, codes "\\u202" ++ get_or hex (r % 16) 0 ∷ [])
    else (size, take size d)

-- The pieces of a text, one behind the other; `none` if the fuel runs out.
unfoldable pub escaped : ℕ → Bytes → Option Bytes
escaped zero d = none
escaped (suc fuel) [] = some []
escaped (suc fuel) (b ∷ d) =
    let (width, text) = piece (b ∷ d) in before text (escaped fuel (drop width (b ∷ d)))

-- What is written once the run that is open has been copied.
pending : Bytes → Cursor → Bytes
pending s c = c.e ++ slice s c.start c.i

module _ (s : Bytes) (c : Cursor) (le : c.start ≤ c.i) where
  pending-copy : (n : ℕ) → pending s (record c { i = c.i + n }) ≡ pending s c ++ take n (drop c.i s)
  unfolding pending
  pending-copy n =
      let e : c.i + n - c.start ≡ (c.i - c.start) + n = omega arith in
      let f : c.start + (c.i - c.start) ≡ c.i = omega arith in
      rw (e, take-add, drop-drop, f)
        (sym (append_assoc c.e (slice s c.start c.i) (take n (drop c.i s))))

  flush-pending : flush s c ≡ pending s c
  unfolding flush pending
  flush-pending = elim (Bool-cases (ltb c.start c.i)) [
    | inl h ↦ rw h refl
    | inr h ↦ let e : c.i - c.start ≡ 0 = ground arith in rw (h, e) (sym (append-nil c.e))
  ]

  pending-replace : (t : Bytes) (n : ℕ) → pending s (replace s c t n) ≡ pending s c ++ t
  unfolding replace
  pending-replace t n =
      unfold pending in
      (let e : c.i + n - (c.i + n) ≡ 0 = omega arith in
        rw e (append-nil _ ∙ ap (λ u. u ++ t) flush-pending))

  pending-round : pending s (round s c) ≡ pending s c ++ (piece (drop c.i s)).1
  unfolding round piece
  pending-round = ground (
    arith,
    get_or-drop s c.i 0,
    pending-copy 1,
    pending-copy (decode_rune (drop c.i s)).1,
    pending-replace (escape_byte (get_or s c.i 0)) 1,
    pending-replace (codes "\\ufffd") (decode_rune (drop c.i s)).1,
    pending-replace (codes "\\u202" ++ get_or hex ((decode_rune (drop c.i s)).0 % 16) 0 ∷ [])
        (decode_rune (drop c.i s)).1,
  )

  pub i-round : (round s c).i ≡ c.i + (piece (drop c.i s)).0
  unfolding round piece replace
  i-round = ground (arith, get_or-drop s c.i 0)

  pub start-round : (round s c).start ≤ (round s c).i
  unfolding round replace
  start-round = ground arith

-- A piece covers a byte or more, and none behind the end of the text.
piece_width : (b : ℕ) (d : Bytes) → (1 ≤ (piece (b ∷ d)).0) × ((piece (b ∷ d)).0 ≤ suc (length d))
unfolding piece
piece_width b d = ground (
  arith,
  decode_rune_width b d,
  encode_decode_rune (b ∷ d) (decode_rune (b ∷ d)).0 (decode_rune (b ∷ d)).1 refl,
)

finish : Bytes → Option Bytes → Option Bytes
finish out none = none
finish out (some t) = some ((out ++ t) ++ b'"' ∷ [])

finish-append : (out p : Bytes) (o : Option Bytes) → finish (out ++ p) o ≡ finish out (before p o)
unfolding finish
finish-append out p none = refl
finish-append out p (some t) = ap (λ u. some (u ++ b'"' ∷ [])) (append_assoc out p t)

-- Behind the last round everything is written.
last_run :
    (s : Bytes) (c : Cursor)
    → c.start ≤ c.i
    → c.i ≡ length s
    → (if ltb c.start (length s) then c.e ++ drop c.start s else c.e) ≡ pending s c
last_run s c le e =
    let whole = take_all (c.i - c.start) (drop c.start s) (omega (arith, length-drop c.start s)) in
    rw (← e) (rw (← flush-pending s c le) (unfold flush in rw whole refl))

escaped_step :
    (fuel : ℕ) (x : Bytes) {b : ℕ} {d : Bytes}
    → x ≡ b ∷ d
    → escaped (suc fuel) x ≡ before (piece x).1 (escaped fuel (drop (piece x).0 x))
unfolding escaped
escaped_step fuel x h = rw h refl

piece_fits : (x : Bytes) {b : ℕ} {d : Bytes} → x ≡ b ∷ d → (piece x).0 ≤ length x
piece_fits x {b} {d} h = rw h (piece_width b d).1

loop_step :
    (fuel : ℕ) (s : Bytes) (c : Cursor)
    → ltb c.i (length s) ≡ true
    → encode_loop (suc fuel) s c ≡ encode_loop fuel s (round s c)
unfolding encode_loop
loop_step fuel s c h = rw (h, encode_loop) refl

loop_end :
    (fuel : ℕ) (s : Bytes) (c : Cursor)
    → ltb c.i (length s) ≡ false
    → encode_loop (suc fuel) s c
      ≡ some ((if ltb c.start (length s) then c.e ++ drop c.start s else c.e) ++ b'"' ∷ [])
unfolding encode_loop
loop_end fuel s c h = rw (h, encode_loop) refl

encode_loop-escaped :
    (fuel : ℕ) (s : Bytes) (c : Cursor)
    → c.start ≤ c.i
    → c.i ≤ length s
    → encode_loop fuel s c ≡ finish (pending s c) (escaped fuel (drop c.i s))
unfolding finish
encode_loop-escaped zero s c le fits = unfold encode_loop escaped in refl
encode_loop-escaped (suc fuel) s c le fits = elim (Bool-cases (ltb c.i (length s))) [
  | inl more ↦
      let e = drop-get_or s c.i 0 (ltb→lt c.i (length s) more) in
      let next =
        encode_loop-escaped fuel s (round s c) (start-round s c le)
          (omega (arith, i-round s c le, piece_fits (drop c.i s) e, length-drop c.i s)) in
      rw
        (
          loop_step fuel s c more,
          escaped_step fuel (drop c.i s) e,
          next,
          pending-round s c le,
          i-round s c le,
        )
        (rw (← drop-drop c.i (piece (drop c.i s)).0 s) (finish-append _ _ _))
  | inr end ↦
      let e : c.i ≡ length s = ground arith in
      rw (loop_end fuel s c end, last_run s c le e, drop_all c.i s (omega arith))
        (unfold escaped in ap (λ u. some (u ++ b'"' ∷ [])) (sym (append-nil (pending s c))))
]

-- Put a text between quotes.
abbrev pub quoted : Option Bytes → Option Bytes
quoted none = none
quoted (some t) = some (b'"' ∷ (t ++ b'"' ∷ []))

finish-quoted : (o : Option Bytes) → finish (b'"' ∷ []) o ≡ quoted o
unfolding finish
finish-quoted none = refl
finish-quoted (some t) = refl

-- The loop of `encodeString`, which copies runs between two indices, gives what a writer of one
-- piece for each rune gives, between quotes.
pub encode_string-pieces : (s : Bytes) → encode_string s ≡ quoted (escaped (suc (length s)) s)
unfolding encode_string pending
encode_string-pieces s =
    encode_loop-escaped (suc (length s)) s (record { start = 0; i = 0; e = b'"' ∷ [] })
      (omega arith) (omega arith)
    ∙ finish-quoted (escaped (suc (length s)) s)
