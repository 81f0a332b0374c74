-- ===== src/Json/Reader/Literal.antt =====
-- A JSON string literal with more text behind it.
use onedb.Prelude.{
  [], ◌∷◌, ◌++◌, append_assoc, append-nil, ◌≡◌, refl, sym, ap, ◌∙◌, Option, none, some, Bytes, Bool,
  true, false, if◌then◌else◌,
}
use onedb.Json.Reader.{Mode, body, done, start, escape, hex, Next, step, push, drive, Means}

-- What was read, in front of what is still read.
abbrev prepend : Bytes → Option (Bytes × Bytes) → Option (Bytes × Bytes)
prepend out none = none
prepend out (some (more, rest)) = some (out ++ more, rest)

is_done : Mode → Bool
is_done done = true
is_done _ = false

-- The bytes that the literal stands for, up to its closing quote, and the text behind it.
unfoldable pub literal : Mode → Bytes → Option (Bytes × Bytes)
unfolding step is_done
literal m [] = none
literal m (c ∷ s) = elim (step m c) [
  | none ↦ none
  | some (m', out) ↦ if is_done m' then some (out, s) else prepend out (literal m' s)
]

prepend-prepend :
    (p q : Bytes) (o : Option (Bytes × Bytes)) → prepend p (prepend q o) ≡ prepend (p ++ q) o
prepend-prepend p q none = refl
prepend-prepend p q (some (r, t)) = ap (λ u. some (u, t)) (sym (append_assoc p q r))

prepend-nil : (o : Option (Bytes × Bytes)) → prepend [] o ≡ o
prepend-nil none = refl
prepend-nil (some (r, t)) = refl

push-some :
    (o out : Bytes) (d : Next)
    → push o d ≡ some (body, out)
    → (more : Bytes) × (d ≡ some (body, more)) × (out ≡ o ++ more)
unfolding push
push-some o out none h = cc
push-some o out (some (m, more)) h = (more, cc, cc)

-- A part of a literal that ends inside it has no closing quote.
is_done-drive : (m : Mode) (p out : Bytes) → drive m p ≡ some (body, out) → is_done m ≡ false
unfolding drive step is_done
is_done-drive done [] out h = cc
is_done-drive done (c ∷ p) out h = cc
is_done-drive start p out h = refl
is_done-drive body p out h = refl
is_done-drive escape p out h = refl
is_done-drive (hex k acc) p out h = refl

literal-append :
    (m : Mode) (p out rest : Bytes)
    → drive m p ≡ some (body, out)
    → literal m (p ++ rest) ≡ prepend out (literal body rest)
unfolding drive literal
literal-append m [] out rest h =
    let same : m ≡ body = cc in
    let nothing : out ≡ [] = cc in rw (same, nothing) (sym (prepend-nil (literal body rest)))
literal-append m (c ∷ p) out rest h =
    (elim (step m c)
        as (λ next.
          (elim next [ none ↦ none | some (m', o) ↦ push o (drive m' p) ]) ≡ some (body, out)
          → (elim next [
            | none ↦ none
            | some (m', o) ↦
                if is_done m' then some (o, p ++ rest) else prepend o (literal m' (p ++ rest))
          ])
            ≡ prepend out (literal body rest)) [
              | none ↦ λ e. cc
              | some (m', o) ↦ λ e.
                  let (more, d, whole) = push-some o out (drive m' p) e in
                  rw (is_done-drive m' p more d) (
                    ap (prepend o) (literal-append m' p more rest d)
                    ∙ prepend-prepend o more (literal body rest)
                    ∙ ap (λ t. prepend t (literal body rest)) (sym whole))
            ])
      h

-- Behind the opening quote: the inside, the closing quote, and the rest.
pub literal-Means :
    (p out rest : Bytes) → Means p out → literal body (p ++ b'"' ∷ rest) ≡ some (out, rest)
unfolding literal
literal-Means p out rest h =
    literal-append body p out (b'"' ∷ rest) h ∙ ap (λ t. some (t, rest)) (append-nil out)
