-- ===== src/Json/Reader/Document/Laws.antt =====
-- What the reader of documents makes of a value, a member and an object.
use onedb.Prelude.{
  ℕ, ◌≤◌, [], ◌∷◌, ◌++◌, append_assoc, ◌≡◌, ◌≢◌, refl, ap, ◌∙◌, true, false, none, some, List,
  length, Bytes, All, ◌==◌, arith,
}
use onedb.Json.Reader.{body, Means, Means-append, Means-byte, drive}
use onedb.Json.Reader.Literal.{literal, literal-Means}
use onedb.Json.Reader.Items.{expect, list, SpellsAll, list-comma_join}
use onedb.Json.Reader.Document.{
  behind_name, named, whole, Json, text, is_stop, lexeme, scalar, value, member, json_object,
  json_array, objects, Object,
}
use onedb.Json.Result.Fields.{comma_join}
use onedb.Json.Scalar.{jsonize}

-- Text behind a value.
abbrev pub Ends : Bytes → Type 0
Ends s = (c : ℕ) × (t : Bytes) × (s ≡ c ∷ t) × (is_stop c ≡ true)

pub value-quote :
    (p out s : Bytes) → Means p out → value (b'"' ∷ (p ++ b'"' ∷ s)) ≡ some (text out, s)
unfolding value
value-quote p out s h = rw (literal-Means p out s h) refl

lexeme-append : (x s : Bytes) → All (λ c. is_stop c ≡ false) x → Ends s → lexeme (x ++ s) ≡ (x, s)
unfolding lexeme
lexeme-append [] s h (c, t, e, stop) = rw (e, stop) refl
lexeme-append (c ∷ x) s (go_on, h) ends =
    let rest = lexeme-append x s h ends in rw (go_on, rest) refl

-- A text without a quote and without a stop is a scalar.
pub value-scalar :
    (c : ℕ) (x s : Bytes) (j : Json)
    → (c == b'"') ≡ false
    → All (λ k. is_stop k ≡ false) (c ∷ x)
    → scalar (c ∷ x) ≡ some j
    → Ends s
    → value ((c ∷ x) ++ s) ≡ some (j, s)
unfolding value
value-scalar c x s j bare h reads ends = rw (bare, lexeme-append (c ∷ x) s h ends, reads) refl

-- A byte that `jsonize` may leave as it is: no control character, quote or backslash.
abbrev pub IsPlain : ℕ → Type 0
IsPlain c = (0x20 ≤ c) × (c ≢ b'"') × (c ≢ b'\\')

pub Means-plain : (name : Bytes) → All IsPlain name → Means name name
Means-plain [] h = unfold drive in refl
Means-plain (c ∷ name) ((high, quote, backslash), h) =
    Means-append (c ∷ []) name (c ∷ []) name (Means-byte c high quote backslash)
      (Means-plain name h)

pub member-value :
    (name x s : Bytes) (j : Json)
    → All IsPlain name
    → value (x ++ s) ≡ some (j, s)
    → member ((jsonize name ++ x) ++ s) ≡ some ((name, j), s)
unfolding member jsonize named expect behind_name
member-value name x s j plain h =
    let quote_colon = b'"' ∷ b':' ∷ [] in
    let e = append_assoc (name ++ quote_colon) x s ∙ append_assoc name quote_colon (x ++ s) in
    ap (λ t. behind_name (literal body t)) e
    ∙ ap behind_name (literal-Means name name (b':' ∷ (x ++ s)) (Means-plain name plain))
    ∙ ap (λ r. elim r [ none ↦ none | some (k, rest) ↦ some ((name, k), rest) ]) h

pub json_object-members :
    (xs : List Bytes) (l : Object) (s : Bytes)
    → SpellsAll member b'}' b'"' xs l
    → json_object ((b'{' ∷ (comma_join xs ++ b'}' ∷ [])) ++ s) ≡ some (l, s)
unfolding json_object
json_object-members xs l s h =
    ap (λ t. list member b'}' (length t) t) (append_assoc (comma_join xs) (b'}' ∷ []) s)
    ∙ list-comma_join member b'}' b'"' (λ e. omega arith) (λ e. omega arith) xs l s h

-- The text of an array, with nothing behind it.
pub objects-array :
    (xs : List Bytes) (l : List Object)
    → SpellsAll json_object b']' b'{' xs l
    → objects (b'[' ∷ (comma_join xs ++ b']' ∷ [])) ≡ some l
unfolding objects json_array whole
objects-array xs l h =
    ap whole (list-comma_join json_object b']' b'{' (λ e. omega arith) (λ e. omega arith) xs l [] h)
