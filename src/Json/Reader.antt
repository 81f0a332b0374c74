-- ===== src/Json/Reader.antt =====
-- A reader of JSON string literals after RFC 8259, one byte at a time. It describes what a string
-- literal means, and is not code of the repository.
pub mod Literal
pub mod Items
pub mod Document
use onedb.Prelude.{
  ℕ, zero, suc, ◌+◌, ◌-◌, ◌*◌, ◌≤◌, [], ◌∷◌, ◌++◌, append_assoc, append-nil, ◌≡◌, ◌≢◌, refl, sym,
  ap, Option, none, some, ◌&&◌, Bytes, arith, ltb, leb, ◌==◌, if◌then◌else◌,
}
use onedb.Json.Utf8.{encode_rune}

-- `hex k acc`: behind `\u`, with `k` more hex digits to come and the value so far.
pub data Mode : Type 0 where
  start body escape done : Mode
  hex : ℕ → ℕ → Mode

hex_value : ℕ → Option ℕ
hex_value c =
    if leb b'0' c && leb c b'9'
    then some (c - b'0')
    else if leb b'a' c && leb c b'f'
    then some (c - b'a' + 10)
    else if leb b'A' c && leb c b'F'
    then some (c - b'A' + 10)
    else none

abbrev pub Next : Type 0
Next = Option (Mode × Bytes)

-- Surrogate pairs are not read: the writer never makes them.
rune_end : ℕ → Next
rune_end r = if leb 0xD800 r && leb r 0xDFFF then none else some (body, encode_rune r)

hex_step : ℕ → ℕ → Option ℕ → Next
unfolding rune_end
hex_step k acc none = none
hex_step zero acc (some d) = none
hex_step (suc zero) acc (some d) = rune_end (acc * 16 + d)
hex_step (suc (suc k)) acc (some d) = some (hex (suc k) (acc * 16 + d), [])

escape_step : ℕ → Next
escape_step c =
    if c == b'"'
    then some (body, b'"' ∷ [])
    else if c == b'\\'
    then some (body, b'\\' ∷ [])
    else if c == b'/'
    then some (body, b'/' ∷ [])
    else if c == b'b'
    then some (body, 8 ∷ [])
    else if c == b'f'
    then some (body, 12 ∷ [])
    else if c == b'n'
    then some (body, 10 ∷ [])
    else if c == b'r'
    then some (body, 13 ∷ [])
    else if c == b't'
    then some (body, 9 ∷ [])
    else if c == b'u'
    then some (hex 4 0, [])
    else none

body_step : ℕ → Next
body_step c =
    if c == b'"'
    then some (done, [])
    else if c == b'\\'
    then some (escape, [])
    else if ltb c 0x20
    then none
    else some (body, c ∷ [])

pub step : Mode → ℕ → Next
unfolding hex_value hex_step escape_step body_step
step start c = if c == b'"' then some (body, []) else none
step body c = body_step c
step escape c = escape_step c
step done c = none
step (hex k acc) c = hex_step k acc (hex_value c)

-- Put what was read in front of what is still read.
abbrev pub before : Bytes → Option Bytes → Option Bytes
before out none = none
before out (some rest) = some (out ++ rest)

before-before : (p q : Bytes) (o : Option Bytes) → before p (before q o) ≡ before (p ++ q) o
before-before p q none = refl
before-before p q (some r) = ap some (sym (append_assoc p q r))

before-nil : (o : Option Bytes) → before [] o ≡ o
before-nil none = refl
before-nil (some r) = refl

ended : Mode → Option Bytes
ended done = some []
ended _ = none

read : Mode → Bytes → Option Bytes
unfolding step ended
read m [] = ended m
read m (c ∷ s) = elim (step m c) [ none ↦ none | some (m', out) ↦ before out (read m' s) ]

-- The bytes that a JSON string literal stands for; `none` if the text is no such literal.
unfoldable pub json_string : Bytes → Option Bytes
unfolding read
json_string = read start

-- What the reader has read of a part of a literal, and its mode there.
pub push : Bytes → Next → Next
push out none = none
push out (some (n, more)) = some (n, out ++ more)

unfoldable pub drive : Mode → Bytes → Next
unfolding step push
drive m [] = some (m, [])
drive m (c ∷ p) = elim (step m c) [ none ↦ none | some (m', out) ↦ push out (drive m' p) ]

resume : Next → Bytes → Option Bytes
resume none rest = none
resume (some (n, out)) rest = before out (read n rest)

before-resume :
    (out : Bytes) (o : Next) (rest : Bytes) → before out (resume o rest) ≡ resume (push out o) rest
unfolding resume push
before-resume out none rest = refl
before-resume out (some (n, more)) rest = before-before out more (read n rest)

read-append : (m : Mode) (p rest : Bytes) → read m (p ++ rest) ≡ resume (drive m p) rest
unfolding read drive resume
read-append m [] rest = sym (before-nil (read m rest))
read-append m (c ∷ p) rest =
    elim (step m c)
      as (λ next.
        (elim next [ none ↦ none | some (m', out) ↦ before out (read m' (p ++ rest)) ])
        ≡ resume (elim next [ none ↦ none | some (m', out) ↦ push out (drive m' p) ]) rest) [
          | none ↦ refl
          | some (m', out) ↦ rw (read-append m' p rest) (before-resume out (drive m' p) rest)
        ]

-- `p` can stand in a literal wherever a character can, and stands for `out`.
abbrev pub Means : Bytes → Bytes → Type 0
Means p out = drive body p ≡ some (body, out)

continue : Next → Bytes → Next
continue none q = none
continue (some (n, out)) q = push out (drive n q)

push-push : (p q : Bytes) (o : Next) → push p (push q o) ≡ push (p ++ q) o
unfolding push
push-push p q none = refl
push-push p q (some (n, r)) = ap (λ t. some (n, t)) (sym (append_assoc p q r))

push-nil : (o : Next) → push [] o ≡ o
unfolding push
push-nil none = refl
push-nil (some (n, r)) = refl

push-continue :
    (out : Bytes) (o : Next) (q : Bytes) → push out (continue o q) ≡ continue (push out o) q
unfolding continue push
push-continue out none q = refl
push-continue out (some (n, more)) q = unfold push in push-push out more (drive n q)

drive-append : (m : Mode) (p q : Bytes) → drive m (p ++ q) ≡ continue (drive m p) q
unfolding drive continue
drive-append m [] q = sym (push-nil (drive m q))
drive-append m (c ∷ p) q =
    elim (step m c)
      as (λ next.
        (elim next [ none ↦ none | some (m', out) ↦ push out (drive m' (p ++ q)) ])
        ≡ continue (elim next [ none ↦ none | some (m', out) ↦ push out (drive m' p) ]) q) [
          | none ↦ refl
          | some (m', out) ↦ rw (drive-append m' p q) (push-continue out (drive m' p) q)
        ]

pub Means-append :
    (p q out more : Bytes) → Means p out → Means q more → Means (p ++ q) (out ++ more)
unfolding continue push
Means-append p q out more h k = rw (drive-append body p q, h, continue) (rw k refl)

-- A byte that is no control character, quote or backslash stands for itself.
pub Means-byte : (c : ℕ) → 0x20 ≤ c → c ≢ b'"' → c ≢ b'\\' → Means (c ∷ []) (c ∷ [])
unfolding drive body_step
Means-byte c h q b = ground arith

-- A literal whose inside stands for `out` is read as `out`.
pub json_string-quote :
    (p out : Bytes) → Means p out → json_string (b'"' ∷ (p ++ b'"' ∷ [])) ≡ some out
unfolding json_string resume
json_string-quote p out h =
    rw (read-append body p (b'"' ∷ []), h, resume) (ap some (append-nil out))
