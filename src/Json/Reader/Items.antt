-- ===== src/Json/Reader/Items.antt =====
-- Lists of a JSON text, in brackets and with a comma between each two items, for any reader of an
-- item. White space is not read: the writer makes none.
use onedb.Prelude.{
  ℕ, zero, suc, ◌<◌, ◌≤◌, [], ◌∷◌, ◌++◌, append_assoc, ◌≡◌, ◌≢◌, ◌⊎◌, inl, inr, refl, ap, ◌∙◌,
  false, List, length, length-append, Option, none, some, Bytes, ◌==◌, if◌then◌else◌, arith,
}
use onedb.Json.Result.Fields.{commas, comma_join}

-- A value that was read, and the text behind it.
abbrev pub Read : Type 0 → Type 0
Read A = Option (A × Bytes)

-- Read on behind `c`.
unfoldable pub expect : ℕ → Bytes → Option Bytes
expect c [] = none
expect c (c' ∷ s) = if c' == c then some s else none

module _ {A : Type 0} (item : Bytes → Read A) (close : ℕ) where
  abbrev cons : A → Read (List A) → Read (List A)
  cons a none = none
  cons a (some (l, s)) = some (a ∷ l, s)

  -- Behind an item; the fuel bounds the items.
  items : ℕ → Bytes → Read (List A)
  items zero s = none
  items (suc fuel) [] = none
  items (suc fuel) (c ∷ s) =
      if c == close
      then some ([], s)
      else if c == b','
      then (elim (item s) [ none ↦ none | some (a, t) ↦ cons a (items fuel t) ])
      else none

  -- Behind the opening bracket.
  unfoldable pub list : ℕ → Bytes → Read (List A)
  unfolding items
  list fuel [] = none
  list fuel (c ∷ s) =
      if c == close
      then some ([], s)
      else (elim (item (c ∷ s)) [ none ↦ none | some (a, t) ↦ cons a (items fuel t) ])

  -- Text behind an item.
  abbrev pub Stops : Bytes → Type 0
  Stops s = (c : ℕ) × (t : Bytes) × (s ≡ c ∷ t) × ((c ≡ b',') ⊎ (c ≡ close))

  -- The text `x` begins with `first`, and is read as `a`.
  abbrev pub Spells : ℕ → Bytes → A → Type 0
  Spells first x a =
      ((t : Bytes) × (x ≡ first ∷ t)) × ((s : Bytes) → Stops s → item (x ++ s) ≡ some (a, s))

  abbrev pub SpellsAll : ℕ → List Bytes → List A → Type 0
  SpellsAll first [] [] = Unit
  SpellsAll first (x ∷ xs) (a ∷ l) = Spells first x a × SpellsAll first xs l
  SpellsAll first _ _ = ⊥

  module _ (first : ℕ) (open_ : first ≢ close) (comma : close ≢ b',') where
    commas-Stops : (xs : List Bytes) (s : Bytes) → Stops (commas xs ++ close ∷ s)
    commas-Stops [] s = (close, s, refl, inr refl)
    commas-Stops (x ∷ xs) s = (b',', (x ++ commas xs) ++ close ∷ s, refl, inl refl)

    items-commas :
        (fuel : ℕ) (xs : List Bytes) (l : List A) (s : Bytes)
        → SpellsAll first xs l
        → length xs < fuel
        → items fuel (commas xs ++ close ∷ s) ≡ some (l, s)
    unfolding items
    items-commas zero xs l s h lt = absurd (omega arith)
    items-commas (suc fuel) [] [] s h lt = ground arith
    items-commas (suc fuel) [] (a ∷ l) s h lt = absurd h
    items-commas (suc fuel) (x ∷ xs) [] s h lt = absurd h
    items-commas (suc fuel) (x ∷ xs) (a ∷ l) s ((_, reads), hs) lt =
        let other : (b',' == close) ≡ false = ground arith in
        rw
          (
            other,
            append_assoc x (commas xs) (close ∷ s),
            reads (commas xs ++ close ∷ s) (commas-Stops xs s),
          )
          (ap (cons a) (items-commas fuel xs l s hs (omega arith)))

    list_open :
        (fuel : ℕ) (y u : Bytes)
        → y ≡ first ∷ u
        → list fuel y ≡ (elim (item y) [ none ↦ none | some (a, t) ↦ cons a (items fuel t) ])
    unfolding list
    list_open fuel y u e = let other : (first == close) ≡ false = ground arith in rw (e, other) refl

    length-commas :
        (xs : List Bytes) (l : List A) → SpellsAll first xs l → length xs ≤ length (commas xs)
    length-commas [] l h = omega arith
    length-commas (x ∷ xs) [] h = absurd h
    length-commas (x ∷ xs) (a ∷ l) (_, hs) =
        omega (arith, length-commas xs l hs, length-append x (commas xs))

    -- There is a byte for every item.
    length-comma_join :
        (xs : List Bytes) (l : List A) (s : Bytes)
        → SpellsAll first xs l
        → length xs ≤ length (comma_join xs ++ s)
    length-comma_join [] l s h = omega arith
    length-comma_join (x ∷ xs) [] s h = absurd h
    length-comma_join (x ∷ xs) (a ∷ l) s (((t, begins), _), hs) = rw begins (
        omega (
          arith,
          length-commas xs l hs,
          length-append (t ++ commas xs) s,
          length-append t (commas xs),
        ))

    list-items :
        (fuel : ℕ) (xs : List Bytes) (l : List A) (s : Bytes)
        → SpellsAll first xs l
        → length xs ≤ fuel
        → list fuel (comma_join xs ++ close ∷ s) ≡ some (l, s)
    unfolding list
    list-items fuel [] [] s h lt = ground arith
    list-items fuel [] (a ∷ l) s h lt = absurd h
    list-items fuel (x ∷ xs) [] s h lt = absurd h
    list-items fuel (x ∷ xs) (a ∷ l) s (((t, begins), reads), hs) lt =
        let rest = commas xs ++ close ∷ s in
        ap (list fuel) (append_assoc x (commas xs) (close ∷ s))
        ∙ list_open fuel (x ++ rest) (t ++ rest) (ap (λ u. u ++ rest) begins)
        ∙ ap (λ (r : Read A). elim r [ none ↦ none | some (b, u) ↦ cons b (items fuel u) ])
            (reads rest (commas-Stops xs s))
        ∙ ap (cons a) (items-commas fuel xs l s hs (omega arith))

    -- The items with commas between, and the closing bracket, are read as the list of the items.
    pub list-comma_join :
        (xs : List Bytes) (l : List A) (s : Bytes)
        → SpellsAll first xs l
        → list (length (comma_join xs ++ close ∷ s)) (comma_join xs ++ close ∷ s) ≡ some (l, s)
    list-comma_join xs l s h =
        list-items (length (comma_join xs ++ close ∷ s)) xs l s h
          (length-comma_join xs l (close ∷ s) h)
