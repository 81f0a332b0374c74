-- ===== src/Mock/Scanner/Typed.antt =====
-- What a `Scan` of the mock leaves in its variables.
use onedb.Prelude.{
  ℕ, zero, suc, [], ◌∷◌, ◌≡◌, ◌≢◌, refl, sym, subst, Bool, true, false, not, ◌&&◌, ◌||◌, Bool-cases,
  inl, inr, Option, none, some, List, length, get_elem?, ◌==◌, All, arith,
}
use onedb.Go.Outcome.{Error, Outcome, panic}
use onedb.Go.Types.{
  GoType, declared, any, Kind, interface, ptr, slice, other_kind, kind_of, kind_eq, type_eq,
  type_eq→eq, Interfaces, implements,
}
use onedb.Go.Values.{Value, type_of}
use onedb.Mock.Scanner.{
  MockRowsScanner, mock_rows, can_store, set_dest, set_dest_value, scan_row, current, scan_checked,
  mock_scan,
}
use onedb.Mock.Scanner.Laws.{IsExported}
use onedb.Rows.{Cell, Scanned}
use onedb.Struct.SetValue.{Place}

-- Does a variable of the kind hold nil?
abbrev pub nillable : Kind → Bool
nillable ptr = true
nillable slice = true
nillable (other_kind n) = true
nillable _ = false

-- May a variable of the type hold a value of the dynamic type, which nil does not have? `interface{}`
-- holds any value, and a declared interface the values of the types that implement it.
abbrev pub held_type : Interfaces → GoType → Option GoType → Bool
held_type known any u = true
held_type known (declared n interface) none = true
held_type known (declared n interface) (some u) = known n u
held_type known t none = nillable (kind_of t)
held_type known t (some u) = type_eq u t

unfoldable pub well_typed : Interfaces → GoType → Value → Bool
well_typed known t v = held_type known t (type_of v)

abbrev pub IsTypedPlace : Interfaces → Place → Type 0
IsTypedPlace known p = well_typed known p.cell.type p.cell.value ≡ true

-- The type of the variable is `interface{}`, or no interface.
abbrev pub IsPlain : Cell → Type 0
IsPlain c = (type_eq c.type any || not (kind_eq (kind_of c.type) interface)) ≡ true

-- Each variable holds, in the second list, a value of the type that it has in the first.
abbrev pub Holds : Interfaces → List Cell → List Cell → Type 0
Holds known [] [] = Unit
Holds known (d ∷ dest) (d' ∷ dest') =
    (well_typed known d.type d'.value ≡ true) × Holds known dest dest'
Holds known _ _ = ⊥

-- What a loop over the variables leaves: a value of its type in each variable, and no panic.
abbrev Calm : Interfaces → List Cell → List Cell × Outcome (Unit {0}) → Type 0
Calm known dest (dest', result) = Holds known dest dest' × (result ≢ panic)

stored-IsTyped :
    (known : Interfaces) (source : Place) (destination : Cell)
    → IsTypedPlace known source
    → IsPlain destination
    → (not (type_eq destination.type source.cell.type)
        && not (kind_eq (kind_of destination.type) interface))
      ≡ false
    → well_typed known destination.type source.cell.value ≡ true
unfolding well_typed
stored-IsTyped known source destination typed plain matches =
    elim (Bool-cases (type_eq destination.type source.cell.type)) [
      | inl same ↦
          subst (λ t. well_typed known t source.cell.value ≡ true)
            (sym (type_eq→eq destination.type source.cell.type same)) typed
      | inr other ↦
          let is_any : type_eq destination.type any ≡ true = ground arith in
          subst (λ t. well_typed known t source.cell.value ≡ true)
            (sym (type_eq→eq destination.type any is_any)) refl
    ]

-- Where the types pass, `Set` does not panic.
stored-Calm :
    (known : Interfaces) (source : Place) (destination : Cell)
    → source.can_set ≡ true
    → IsPlain destination
    → (not (type_eq destination.type source.cell.type)
        && not (kind_eq (kind_of destination.type) interface))
      ≡ false
    → can_store known destination source ≡ true
unfolding can_store implements
stored-Calm known source destination exported plain matches =
    elim (Bool-cases (type_eq destination.type source.cell.type)) [
      | inl same ↦ rw (exported, same) refl
      | inr other ↦
          let is_any : type_eq destination.type any ≡ true = ground arith in
          rw (exported, other)
            (subst (λ t. implements known t source.cell.type ≡ true)
              (sym (type_eq→eq destination.type any is_any)) refl)
    ]

set_dest-Calm :
    (known : Interfaces) (i : ℕ) (fields : List Place) (dest : List Cell)
    → All (IsTypedPlace known) fields
    → All IsExported fields
    → All IsPlain dest
    → Holds known dest dest
    → Calm known dest (set_dest known i fields dest)
unfolding set_dest
set_dest-Calm known i [] dest fs es ps hs = (hs, λ e. cc)
set_dest-Calm known i (source ∷ fields) [] fs es ps hs = (hs, λ e. cc)
set_dest-Calm known i (source ∷ fields) (destination ∷ dest) (f, fs) (e, es) (p, ps) (h, hs) =
    let (holds, calm) = set_dest-Calm known (suc i) fields dest fs es ps hs in
    elim (Bool-cases (
      not (type_eq destination.type source.cell.type)
      && not (kind_eq (kind_of destination.type) interface))) [
        | inl refused ↦ rw refused ((h, hs), λ e. cc)
        | inr accepted ↦
            rw (accepted, stored-Calm known source destination e p accepted)
              ((stored-IsTyped known source destination f p accepted, holds), calm)
      ]

All-get_elem? :
    {A : Type 0} (P : A → Type 0) (xs : List A) (i : ℕ) (x : A)
    → All P xs
    → get_elem? xs i ≡ some x
    → P x
All-get_elem? P [] i x all found = cc
All-get_elem? P (y ∷ xs) zero x (p, ps) found = let same : y ≡ x = cc in subst P same p
All-get_elem? P (y ∷ xs) (suc i) x (p, ps) found = All-get_elem? P xs i x ps found

abbrev pub IsPlainRow : Interfaces → List Place → Type 0
IsPlainRow known row = All (IsTypedPlace known) row × All IsExported row

set_dest_value-Calm :
    (known : Interfaces) (fields : List Place) (dest : List Cell)
    → IsPlainRow known fields
    → All IsPlain dest
    → Holds known dest dest
    → Calm known dest (set_dest_value known fields dest)
unfolding set_dest_value
set_dest_value-Calm known fields dest (fs, es) ps hs =
    elim (Bool-cases (length dest == length fields)) [
      | inl same ↦ rw same (set_dest-Calm known 0 fields dest fs es ps hs)
      | inr other ↦ rw other (hs, λ e. cc)
    ]

current_row :
    (known : Interfaces) (position : ℕ) (rows : List (List Place)) (row : List Place)
    → All (IsPlainRow known) rows
    → current position rows ≡ some row
    → IsPlainRow known row
unfolding current
current_row known zero rows row all found = cc
current_row known (suc i) rows row all found = All-get_elem? (IsPlainRow known) rows i row all found

-- What a `Scan` leaves.
abbrev Scans : Interfaces → List Cell → Scanned MockRowsScanner → Type 0
Scans known dest scanned = Calm known dest (scanned.dest, scanned.result)

scan_row-Calm :
    (r : MockRowsScanner) (dest : List Cell) (row : Option (List Place))
    → All (IsPlainRow r.known) r.slice_value
    → All IsPlain dest
    → Holds r.known dest dest
    → current r.position r.slice_value ≡ row
    → Scans r.known dest (scan_row r dest row)
unfolding scan_row
scan_row-Calm r dest none rows ps hs found = (hs, λ e. cc)
scan_row-Calm r dest (some fields) rows ps hs found =
    set_dest_value-Calm r.known fields dest
      (current_row r.known r.position r.slice_value fields rows found) ps hs

scan_checked-Calm :
    (r : MockRowsScanner) (dest : List Cell) (e : Option Error)
    → All (IsPlainRow r.known) r.slice_value
    → All IsPlain dest
    → Holds r.known dest dest
    → Scans r.known dest (scan_checked r dest e)
unfolding scan_checked
scan_checked-Calm r dest (some e) rows ps hs = (hs, λ e. cc)
scan_checked-Calm r dest none rows ps hs =
    scan_row-Calm r dest (current r.position r.slice_value) rows ps hs refl

-- A `Scan` of the mock whose structs have exported fields, each with a value of the type of the
-- field, into variables of type `interface{}` or of a type that is no interface, each with a
-- value of its type: it does not panic, and whether it succeeds or fails, each variable still
-- holds a value of its own type.
pub scan-Calm :
    (r : MockRowsScanner) (dest : List Cell)
    → All (IsPlainRow r.known) r.slice_value
    → All IsPlain dest
    → Holds r.known dest dest
    → Holds r.known dest (mock_rows.scan r dest).dest × ((mock_rows.scan r dest).result ≢ panic)
unfolding mock_rows mock_scan
scan-Calm r dest rows ps hs = scan_checked-Calm r dest r.scan_err rows ps hs
