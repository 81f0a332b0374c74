-- ===== src/Ldap/Entries/Attribute.antt =====
-- One step of `setColumns` of ldap/ldapBackend.go: an attribute of an entry finds its field.
use onedb.Prelude.{
  ℕ, suc, [], ◌∷◌, ◌++◌, append_assoc, ◌≡◌, refl, sym, subst, Bool, true, false, ◌||◌, Bool-cases,
  inl, inr, Option, none, some, List, map, length, length-append, Bytes, text_eq, text_eq→eq, set,
  get_elem?-append_self, set-append_self, All, if◌then◌else◌, arith,
}
use onedb.Go.Outcome.{Error, Outcome, ok, err}
use onedb.Ldap.Entries.{
  EntryAttribute, LdapType, text_type, any_type, texts_type, LdapValue, LdapField, FieldInfo,
  field_map_from, get_field_map, find_info, field_values, value_at, put, set_row_value, Stored,
  column,
}
use onedb.Ldap.Entries.Fill.{
  new_value, refuses, takes_text, IsFillable, is_for, fill, refused, Differs, IsNamed,
}

-- The field with the new value, or an error if it refuses the values.
abbrev Assigns : Bool → {A : Type 0} → A → Outcome A → Type 0
Assigns false a r = r ≡ ok a
Assigns true a r = (e : Error) × (r ≡ err e)

field_values-fillable :
    (name : Bytes) (i : ℕ) (t : LdapType) (old : LdapValue) (vals : List Bytes)
    → takes_text t ≡ true
    → Assigns
        (refuses t vals)
        (record { name = name; type = t; can_set = true; value = new_value t old vals })
        (field_values
          (record { name = name; index = i; type = t })
          (record { name = name; type = t; can_set = true; value = old })
          vals)
unfolding field_values
field_values-fillable name i text_type old [] h = refl
field_values-fillable name i text_type old (val ∷ []) h = refl
field_values-fillable name i text_type old (val ∷ next ∷ vals) h = (_, refl)
field_values-fillable name i any_type old [] h = refl
field_values-fillable name i any_type old (val ∷ []) h = refl
field_values-fillable name i any_type old (val ∷ next ∷ vals) h = (_, refl)
field_values-fillable name i texts_type old [] h = refl
field_values-fillable name i texts_type old (val ∷ []) h = refl
field_values-fillable name i texts_type old (val ∷ next ∷ vals) h = refl
field_values-fillable name i _ old vals h = cc

field_values-settable :
    (i : ℕ) (f : LdapField) (vals : List Bytes)
    → IsFillable f
    → Assigns
        (refuses f.type vals)
        (record f { value = new_value f.type f.value vals })
        (field_values (record { name = f.name; index = i; type = f.type }) f vals)
field_values-settable i f vals (settable, takes) =
    subst
      (λ b.
        Assigns (refuses f.type vals)
          (record f { can_set = b; value = new_value f.type f.value vals })
          (field_values (record { name = f.name; index = i; type = f.type })
            (record f { can_set = b }) vals))
      (sym settable) (field_values-fillable f.name i f.type f.value vals takes)

-- The struct with the filled fields, or the struct as it was and an error.
abbrev pub Leaves : Bool → List LdapField → List LdapField → Stored → Type 0
Leaves false filled item r = r ≡ (filled, ok tt)
Leaves true filled item r = (e : Error) × (r ≡ (item, err e))

put-Leaves :
    (refused_ : Bool) (item : List LdapField) (i : ℕ) (f : LdapField) (r : Outcome LdapField)
    → Assigns refused_ f r
    → Leaves refused_ (set item i f) item (put item i r)
unfolding put
put-Leaves false item i f r h = rw h refl
put-Leaves true item i f r (e, h) = (e, rw h refl)

module _ (to_lower : Bytes → Bytes) where
  -- The field of the name from the `i`-th on, the last one if there are several.
  abbrev locate : Bytes → ℕ → List LdapField → Option FieldInfo → Option FieldInfo
  locate name i [] other = other
  locate name i (f ∷ fs) other = locate name (suc i) fs (
      if text_eq (to_lower f.name) name
      then some (record { name = f.name; index = i; type = f.type })
      else other)

  find_info-locate :
      (name : Bytes) (i : ℕ) (fs : List LdapField) (known : List (Bytes × FieldInfo))
      → find_info name (field_map_from to_lower i fs known)
        ≡ locate name i fs (find_info name known)
  unfolding find_info field_map_from
  find_info-locate name i [] known = refl
  find_info-locate name i (f ∷ fs) known =
      find_info-locate name (suc i) fs
        ((to_lower f.name, record { name = f.name; index = i; type = f.type }) ∷ known)

  abbrev Misses : EntryAttribute → LdapField → Type 0
  Misses a f = is_for to_lower a f ≡ false

  locate-none :
      (a : EntryAttribute) (i : ℕ) (fs : List LdapField) (other : Option FieldInfo)
      → All (Misses a) fs
      → locate (to_lower a.name) i fs other ≡ other
  locate-none a i [] other m = refl
  locate-none a i (f ∷ fs) other (m, ms) = rw m (locate-none a (suc i) fs other ms)

  -- An attribute that is of none of the fields fills and refuses nothing.
  map-fill_none :
      (a : EntryAttribute) (fs : List LdapField) → All (Misses a) fs → map (fill to_lower a) fs ≡ fs
  map-fill_none a [] m = refl
  map-fill_none a (f ∷ fs) (m, ms) = rw (m, map-fill_none a fs ms) refl

  refused-none :
      (a : EntryAttribute) (fs : List LdapField) → All (Misses a) fs → refused to_lower a fs ≡ false
  refused-none a [] m = refl
  refused-none a (f ∷ fs) (m, ms) = rw (m, refused-none a fs ms) refl

  Differs-Misses :
      (a : EntryAttribute) (f : LdapField) (fs : List LdapField)
      → is_for to_lower a f ≡ true
      → All (Differs to_lower f) fs
      → All (Misses a) fs
  Differs-Misses a f [] h d = tt
  Differs-Misses a f (g ∷ fs) h (d, ds) =
      let same = text_eq→eq (to_lower f.name) (to_lower a.name) h in
      (subst (λ n. text_eq (to_lower g.name) n ≡ false) same d, Differs-Misses a f fs h ds)

  -- `setRowValue` on the field behind `done`.
  set_row_value-Leaves :
      (done fs : List LdapField) (f : LdapField) (vals : List Bytes)
      → IsFillable f
      → Leaves
          (refuses f.type vals)
          (done ++ record f { value = new_value f.type f.value vals } ∷ fs)
          (done ++ f ∷ fs)
          (set_row_value
            (done ++ f ∷ fs)
            (record { name = f.name; index = length done; type = f.type })
            vals)
  unfolding set_row_value value_at
  set_row_value-Leaves done fs f vals fillable =
      let info : FieldInfo = record { name = f.name; index = length done; type = f.type } in
      let f' : LdapField = record f { value = new_value f.type f.value vals } in
      rw (get_elem?-append_self done f fs) (
        subst
          (λ item.
            Leaves (refuses f.type vals) item (done ++ f ∷ fs)
              (put (done ++ f ∷ fs) (length done) (field_values info f vals)))
          (set-append_self done f f' fs)
          (put-Leaves (refuses f.type vals) (done ++ f ∷ fs) (length done) f'
            (field_values info f vals) (field_values-settable (length done) f vals fillable)))

  -- An attribute, where the fields of `done` are not its own.
  column-Leaves :
      (a : EntryAttribute) (done fs : List LdapField)
      → IsNamed to_lower fs
      → All IsFillable fs
      → Leaves
          (refused to_lower a fs)
          (done ++ map (fill to_lower a) fs)
          (done ++ fs)
          (column (done ++ fs) a.values (locate (to_lower a.name) (length done) fs none))
  unfolding column
  column-Leaves a done [] n s = refl
  column-Leaves a done (f ∷ fs) (n, ns) (s, ss) = elim (Bool-cases (is_for to_lower a f)) [
    | inl mine ↦
        let misses = Differs-Misses a f fs mine n in
        let info : FieldInfo = record { name = f.name; index = length done; type = f.type } in
        rw
          (
            mine,
            locate-none a (suc (length done)) fs (some info) misses,
            map-fill_none a fs misses,
            refused-none a fs misses,
            or_false (refuses f.type a.values),
          )
          (set_row_value-Leaves done fs f a.values s)
    | inr other ↦
        let len : length (done ++ f ∷ []) ≡ suc (length done) =
          omega (arith, length-append done (f ∷ [])) in
        let rest = column-Leaves a (done ++ f ∷ []) fs ns ss in
        rw other (
          rw
            (
              len,
              append_assoc done (f ∷ []) fs,
              append_assoc done (f ∷ []) (map (fill to_lower a) fs),
            )
            at rest)
  ]
    where
      or_false : (b : Bool) → (b || false) ≡ b
      or_false true = refl
      or_false false = refl

  -- An attribute of an entry, on the struct as it is.
  pub attribute-Leaves :
      (a : EntryAttribute) (item : List LdapField)
      → IsNamed to_lower item
      → All IsFillable item
      → Leaves
          (refused to_lower a item)
          (map (fill to_lower a) item)
          item
          (column item a.values (find_info (to_lower a.name) (get_field_map to_lower item)))
  unfolding get_field_map find_info
  attribute-Leaves a item n s =
      rw (find_info-locate (to_lower a.name) 0 item []) (column-Leaves a [] item n s)
