-- ===== src/Go/Maps.antt =====
-- A Go map with string keys, as an association list.
use onedb.Prelude.{
  [], ◌∷◌, ◌≡◌, refl, subst, Bool-cases, inl, inr, Option, none, some, List, Bytes, text_eq,
  text_eq→eq, text_eq_refl, if◌then◌else◌, arith,
}

module _ {ℓ} {V : Type ℓ} where
  unfoldable pub lookup : Bytes → List (Bytes × V) → Option V
  lookup k [] = none
  lookup k ((j, v) ∷ m) = if text_eq j k then some v else lookup k m

  -- `m[k] = v`
  unfoldable pub insert : Bytes → V → List (Bytes × V) → List (Bytes × V)
  insert k v [] = (k, v) ∷ []
  insert k v ((j, w) ∷ m) = if text_eq j k then (k, v) ∷ m else (j, w) ∷ insert k v m

  pub lookup-insert :
      (k j : Bytes) (v : V) (m : List (Bytes × V))
      → lookup j (insert k v m) ≡ (if text_eq k j then some v else lookup j m)
  unfolding lookup insert
  lookup-insert k j v [] = refl
  lookup-insert k j v ((i, w) ∷ m) = elim (Bool-cases (text_eq i k)) [
    | inl same ↦ rw same (ground (arith, text_eq→eq i k same))
    | inr other ↦
        rw other
          (ground (arith, lookup-insert k j v m, text_eq→eq i j, text_eq→eq k j, text_eq_refl j))
  ]

-- What `m[k]` reads, with a value for a missing key.
abbrev pub or_default {ℓ} : {V : Type ℓ} → V → Option V → V
or_default v none = v
or_default v (some w) = w

-- To store that value under a missing key changes nothing that is read.
pub or_default-insert {ℓ} :
    {V : Type ℓ} (k j : Bytes) (v : V) (m : List (Bytes × V))
    → lookup k m ≡ none
    → or_default v (lookup j (insert k v m)) ≡ or_default v (lookup j m)
or_default-insert k j v m missing = elim (Bool-cases (text_eq k j)) [
  | inl same ↦
      rw (lookup-insert k j v m, same, subst (λ i. lookup i m ≡ none) (text_eq→eq k j same) missing)
        refl
  | inr other ↦ rw (lookup-insert k j v m, other) refl
]
