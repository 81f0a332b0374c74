-- ===== src/Ldap/Entries/Laws.antt =====
-- `setColumns`, `QueryStruct` and `QueryStructRow` of ldap/ldapBackend.go against the attributes of an
-- entry, one after the other.
use onedb.Prelude.{
  ℕ, suc, [], ◌∷◌, ◌++◌, append-nil, append_assoc, ◌≡◌, ◌≢◌, refl, sym, ap, ◌∙◌, Bool-cases, inl,
  inr, List, map, Bytes, All,
}
use onedb.Go.Outcome.{ok, err, panic, out_of_fuel}
use onedb.Ldap.Entries.{
  EntryAttribute, Entry, LdapField, FieldInfo, field_map_from, get_field_map, Stored, go_on,
  set_columns, Filled, append_entry, entries_into, query_struct_entries, drop_error,
  query_struct_row_entries,
}
use onedb.Ldap.Entries.Attribute.{attribute-Leaves}
use onedb.Ldap.Entries.Fill.{IsFillable, fill, refused, fill_entry, Differs, IsNamed}

module _ (to_lower : Bytes → Bytes) where
  Differs-fill :
      (a : EntryAttribute) (f : LdapField) (fs : List LdapField)
      → All (Differs to_lower f) fs
      → All (Differs to_lower (fill to_lower a f)) (map (fill to_lower a) fs)
  Differs-fill a f [] d = tt
  Differs-fill a f (g ∷ fs) (d, ds) = (d, Differs-fill a f fs ds)

  -- Attributes leave the names, the types and the places of the fields.
  IsNamed-fill :
      (a : EntryAttribute) (fs : List LdapField)
      → IsNamed to_lower fs
      → IsNamed to_lower (map (fill to_lower a) fs)
  IsNamed-fill a [] n = tt
  IsNamed-fill a (f ∷ fs) (n, ns) = (Differs-fill a f fs n, IsNamed-fill a fs ns)

  IsFillable-fill :
      (a : EntryAttribute) (fs : List LdapField)
      → All IsFillable fs
      → All IsFillable (map (fill to_lower a) fs)
  IsFillable-fill a [] s = tt
  IsFillable-fill a (f ∷ fs) (s, ss) = (s, IsFillable-fill a fs ss)

  field_map_from-fill :
      (a : EntryAttribute) (i : ℕ) (fs : List LdapField) (known : List (Bytes × FieldInfo))
      → field_map_from to_lower i (map (fill to_lower a) fs) known
        ≡ field_map_from to_lower i fs known
  unfolding field_map_from
  field_map_from-fill a i [] known = refl
  field_map_from-fill a i (f ∷ fs) known =
      field_map_from-fill a (suc i) fs
        ((to_lower f.name, record { name = f.name; index = i; type = f.type }) ∷ known)

  -- The entry fills the struct, and there is no panic.
  abbrev Fills : Entry → List LdapField → Stored → Type 0
  Fills row item r = (r.0 ≡ fill_entry to_lower row item) × (r.1 ≢ panic)

  pub set_columns-Fills :
      (row : Entry) (item : List LdapField)
      → IsNamed to_lower item
      → All IsFillable item
      → Fills row item (set_columns to_lower row (get_field_map to_lower item) item)
  unfolding set_columns get_field_map go_on
  set_columns-Fills [] item n s = (refl, λ e. cc)
  set_columns-Fills (a ∷ row) item n s =
      let left = attribute-Leaves to_lower a item n s in
      elim (Bool-cases (refused to_lower a item)) [
        | inl too_many ↦
            let (e, stops) = (rw too_many at left) in rw (too_many, stops) (refl, λ h. cc)
        | inr fits ↦
            let item' = map (fill to_lower a) item in
            let rest =
              set_columns-Fills row item' (IsNamed-fill a item n) (IsFillable-fill a item s) in
            rw (fits, rw fits at left) (rw (field_map_from-fill a 0 item []) at rest)
      ]

  append_entry-Fills :
      (row : Entry) (item : List LdapField) (loop : List (List LdapField) → Filled)
      (result : List (List LdapField)) (r : Stored)
      → Fills row item r
      → append_entry loop result r ≡ loop (result ++ fill_entry to_lower row item ∷ [])
  unfolding append_entry
  append_entry-Fills row item loop result (item', ok r) (same, calm) = rw same refl
  append_entry-Fills row item loop result (item', err e) (same, calm) = rw same refl
  append_entry-Fills row item loop result (item', panic) (same, calm) = absurd (calm refl)
  append_entry-Fills row item loop result (item', out_of_fuel) (same, calm) = rw same refl

  abbrev done : List (List LdapField) → Filled
  done r = (r, ok tt)

  pub query_struct_entries-fill_entry :
      (item : List LdapField) (rows : List Entry) (result : List (List LdapField))
      → IsNamed to_lower item
      → All IsFillable item
      → query_struct_entries to_lower item (ok rows) result
        ≡ (result ++ map (λ row. fill_entry to_lower row item) rows, ok tt)
  unfolding query_struct_entries entries_into
  query_struct_entries-fill_entry item [] result n s = ap done (sym (append-nil result))
  query_struct_entries-fill_entry item (row ∷ rows) result n s =
      let filled = fill_entry to_lower row item in
      append_entry-Fills row item (entries_into to_lower item rows) result
        (set_columns to_lower row (get_field_map to_lower item) item)
        (set_columns-Fills row item n s)
      ∙ query_struct_entries-fill_entry item rows (result ++ filled ∷ []) n s
      ∙ ap done (append_assoc result (filled ∷ []) (map (λ r. fill_entry to_lower r item) rows))

  drop_error-Fills :
      (row : Entry) (item : List LdapField) (r : Stored)
      → Fills row item r
      → drop_error r ≡ (fill_entry to_lower row item, ok tt)
  unfolding drop_error
  drop_error-Fills row item (item', ok r) (same, calm) = rw same refl
  drop_error-Fills row item (item', err e) (same, calm) = rw same refl
  drop_error-Fills row item (item', panic) (same, calm) = absurd (calm refl)
  drop_error-Fills row item (item', out_of_fuel) (same, calm) = rw same refl

  pub query_struct_row_entries-fill_entry :
      (item : List LdapField) (row : Entry) (rows : List Entry)
      → IsNamed to_lower item
      → All IsFillable item
      → query_struct_row_entries to_lower (ok (row ∷ rows)) item
        ≡ (fill_entry to_lower row item, ok tt)
  unfolding query_struct_row_entries
  query_struct_row_entries-fill_entry item row rows n s =
      drop_error-Fills row item (set_columns to_lower row (get_field_map to_lower item) item)
        (set_columns-Fills row item n s)
