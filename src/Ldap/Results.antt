-- ===== src/Ldap/Results.antt =====
-- `QueryJSON`, `QueryJSONRow`, `QueryStruct`, `QueryStructRow` and `QueryValues` of ldap/ldapBackend.go:
-- a search over the connection, and its entries in the form that is asked for. The result of a search
-- is the list of its entries; `json.Marshal` and `strings.ToLower` are parameters.
use onedb.Prelude.{ℕ, [], ◌∷◌, ◌++◌, ◌≡◌, ap, ◌∙◌, Option, none, some, List, map, Bytes, All}
use onedb.Go.Outcome.{
  not_slice_pointer, not_struct_pointer, not_primitive_pointer, Outcome, ok, err, panic, ◌>>=◌,
}
use onedb.Ldap.Connection.{Network, LdapBackend, Reply, query}
use onedb.Ldap.Entries.{
  Entry, LdapField, Filled, Stored, query_struct_entries, query_struct_row_entries,
}
use onedb.Ldap.Entries.Fill.{IsFillable, fill_entry, IsNamed}
use onedb.Ldap.Entries.Laws.{query_struct_entries-fill_entry, query_struct_row_entries-fill_entry}

-- The result argument: a pointer to a slice of structs, with a fresh struct and the slice; a pointer to
-- another slice; a pointer to a struct; another pointer; a value that is no pointer; or nil.
pub data LdapResult : Type 0 where
  slice_pointer : List LdapField → List (List LdapField) → LdapResult
  struct_pointer : List LdapField → LdapResult
  other_slice_pointer other_pointer no_pointer nil_result : LdapResult

into_slice : List LdapField → Filled → LdapResult × Outcome (Unit {0})
into_slice item (result, r) = (slice_pointer item result, r)

into_struct : Stored → LdapResult × Outcome (Unit {0})
into_struct (item, r) = (struct_pointer item, r)

-- `getFieldMap` panics on a type that is no struct, behind a search that had no error.
no_struct : LdapResult → Outcome (List Entry) → LdapResult × Outcome (Unit {0})
no_struct arg r = (arg, r >>= (λ entries. panic))

-- `json.Marshal(res.Entries[0])`
first_marshalled : (Entry → Outcome Bytes) → List Entry → Outcome Bytes
first_marshalled marshal [] = panic
first_marshalled marshal (row ∷ rows) = marshal row

module _ {W C Q X : Type 0} (net : Network W C Q (List Entry) X) where
  -- What is made of the result of a search; without a result there was too little fuel.
  answered :
      {A : Type 0}
      → (Outcome (List Entry) → A)
      → Reply net (List Entry)
      → LdapBackend W C × Option A
  answered read (b, none) = (b, none)
  answered read (b, some r) = (b, some (read r))

  unfoldable pub query_json :
      (List Entry → Outcome Bytes) → ℕ → LdapBackend W C → Option Q → Reply net Bytes
  unfolding answered
  query_json marshal fuel b q = answered (λ r. r >>= marshal) (query net fuel b q)

  unfoldable pub query_json_row :
      (Entry → Outcome Bytes) → ℕ → LdapBackend W C → Option Q → Reply net Bytes
  unfolding answered first_marshalled
  query_json_row marshal fuel b q =
      answered (λ r. r >>= first_marshalled marshal) (query net fuel b q)

  unfoldable pub query_struct :
      (Bytes → Bytes)
      → ℕ
      → LdapBackend W C
      → LdapResult
      → Option Q
      → LdapBackend W C × Option (LdapResult × Outcome (Unit {0}))
  unfolding answered into_slice no_struct
  query_struct to_lower fuel b (slice_pointer item result) q =
      answered (λ r. into_slice item (query_struct_entries to_lower item r result))
        (query net fuel b q)
  query_struct to_lower fuel b other_slice_pointer q =
      answered (no_struct other_slice_pointer) (query net fuel b q)
  query_struct to_lower fuel b arg q = (b, some (arg, err not_slice_pointer))

  -- A pointer to anything but a struct panics in `getFieldMap`.
  unfoldable pub query_struct_row :
      (Bytes → Bytes)
      → ℕ
      → LdapBackend W C
      → LdapResult
      → Option Q
      → LdapBackend W C × Option (LdapResult × Outcome (Unit {0}))
  unfolding answered into_struct no_struct
  query_struct_row to_lower fuel b (struct_pointer item) q =
      answered (λ r. into_struct (query_struct_row_entries to_lower r item)) (query net fuel b q)
  query_struct_row to_lower fuel b no_pointer q = (b, some (no_pointer, err not_struct_pointer))
  query_struct_row to_lower fuel b nil_result q = (b, some (nil_result, err not_struct_pointer))
  query_struct_row to_lower fuel b arg q = answered (no_struct arg) (query net fuel b q)

  -- A list of arguments is a slice, or nil where there are none, and never a pointer: the test at the
  -- top of the method refuses each.
  unfoldable pub query_values :
      {A : Type 0} → LdapBackend W C → Option Q → List A → LdapBackend W C × Outcome (Unit {0})
  query_values b q result = (b, err not_primitive_pointer)

  -- `QueryStruct` of the LDAP backend with a pointer to a slice of structs whose fields are
  -- exported, are of type `string`, `interface{}` or `[]string`, and have names that differ in
  -- lower case, where `Query` returns entries: the slice has one more struct for each entry, in
  -- order, filled by the attributes of the entry in order, each into the field of the same name
  -- in lower case, up to an attribute with several values for a field that is no slice, and there
  -- is no error.
  pub query_struct-fill_entry :
      (to_lower : Bytes → Bytes) (fuel : ℕ) (b b' : LdapBackend W C) (q : Q) (entries : List Entry)
      (item : List LdapField) (result : List (List LdapField))
      → query net fuel b (some q) ≡ (b', some (ok entries))
      → IsNamed to_lower item
      → All IsFillable item
      → query_struct to_lower fuel b (slice_pointer item result) (some q) ≡ (
        b',
        some (
          slice_pointer item (result ++ map (λ row. fill_entry to_lower row item) entries),
          ok tt,
        ),
      )
  unfolding query_struct answered into_slice
  query_struct-fill_entry to_lower fuel b b' q entries item result found named fillable =
      ap (answered (λ r. into_slice item (query_struct_entries to_lower item r result))) found
      ∙ ap (λ f. (b', some (into_slice item f)))
          (query_struct_entries-fill_entry to_lower item entries result named fillable)

  -- `QueryStructRow` of the LDAP backend with a pointer to a struct whose fields are exported,
  -- are of type `string`, `interface{}` or `[]string`, and have names that differ in lower case,
  -- where `Query` returns at least one entry: the struct is filled by the attributes of the first
  -- entry in order, each into the field of the same name in lower case, up to an attribute with
  -- several values for a field that is no slice, and there is no error.
  pub query_struct_row-fill_entry :
      (to_lower : Bytes → Bytes) (fuel : ℕ) (b b' : LdapBackend W C) (q : Q) (row : Entry)
      (entries : List Entry) (item : List LdapField)
      → query net fuel b (some q) ≡ (b', some (ok (row ∷ entries)))
      → IsNamed to_lower item
      → All IsFillable item
      → query_struct_row to_lower fuel b (struct_pointer item) (some q)
        ≡ (b', some (struct_pointer (fill_entry to_lower row item), ok tt))
  unfolding query_struct_row answered into_struct
  query_struct_row-fill_entry to_lower fuel b b' q row entries item found named fillable =
      ap (answered (λ r. into_struct (query_struct_row_entries to_lower r item))) found
      ∙ ap (λ f. (b', some (into_struct f)))
          (query_struct_row_entries-fill_entry to_lower item row entries named fillable)
