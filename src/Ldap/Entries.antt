-- ===== src/Ldap/Entries.antt =====
-- `getFieldMap`, `setColumns`, `setRowValue`, `QueryStruct` and `QueryStructRow` of
-- ldap/ldapBackend.go.
pub mod Attribute
pub mod Fill
pub mod Laws
use onedb.Prelude.{
  ℕ, suc, [], ◌∷◌, ◌++◌, Bool, true, false, Option, none, some, List, Bytes, length, text_eq,
  get_elem?, set, if◌then◌else◌,
}
use onedb.Go.Outcome.{no_data_found, several_values, Outcome, ok, err, panic, out_of_fuel}

-- `ldap.EntryAttribute`, and an entry as the list of its attributes.
pub record EntryAttribute : Type 0 where
  pub name : Bytes
  pub values : List Bytes

abbrev pub Entry : Type 0
Entry = List EntryAttribute

-- The type of a field: `string`, `interface{}`, a slice that takes a `[]string`, another slice, or
-- any other type.
pub data LdapType : Type 0 where
  text_type any_type texts_type other_slice_type other_type : LdapType

-- What a field holds: what it held before, a string, or strings.
pub data LdapValue : Type 0 where
  untouched : LdapValue
  text : Bytes → LdapValue
  texts : List Bytes → LdapValue

pub record LdapField : Type 0 where
  pub name : Bytes
  pub type : LdapType
  pub can_set : Bool
  pub value : LdapValue

-- `fieldInfo`, with the type in place of its kind.
pub record FieldInfo : Type 0 where
  pub name : Bytes
  pub index : ℕ
  pub type : LdapType

is_slice : LdapType → Bool
is_slice texts_type = true
is_slice other_slice_type = true
is_slice _ = false

-- The loop over the fields from the `i`-th on; a later entry of the map hides an earlier one.
field_map_from :
    (Bytes → Bytes) → ℕ → List LdapField → List (Bytes × FieldInfo) → List (Bytes × FieldInfo)
field_map_from to_lower i [] fields = fields
field_map_from to_lower i (f ∷ fs) fields =
    field_map_from to_lower (suc i) fs
      ((to_lower f.name, record { name = f.name; index = i; type = f.type }) ∷ fields)

unfoldable pub get_field_map : (Bytes → Bytes) → List LdapField → List (Bytes × FieldInfo)
unfolding field_map_from
get_field_map to_lower item = field_map_from to_lower 0 item []

-- `fields[name]`
pub find_info : Bytes → List (Bytes × FieldInfo) → Option FieldInfo
find_info name [] = none
find_info name ((key, info) ∷ fields) =
    if text_eq key name then some info else find_info name fields

-- `row.Field(i).Set(…)`, which panics on a field that takes no such value.
set_texts : LdapType → List Bytes → Outcome LdapValue
set_texts texts_type vals = ok (texts vals)
set_texts _ vals = panic

set_text : LdapType → Bytes → Outcome LdapValue
set_text text_type val = ok (text val)
set_text any_type val = ok (text val)
set_text _ val = panic

-- The field with the value, or the panic.
assigned : LdapField → Outcome LdapValue → Outcome LdapField
assigned field (ok v) = if field.can_set then ok (record field { value = v }) else panic
assigned field _ = panic

-- `setRowValue` on the field.
field_values : FieldInfo → LdapField → List Bytes → Outcome LdapField
unfolding set_texts set_text assigned is_slice
field_values info field [] =
    if is_slice info.type then assigned field (set_texts field.type []) else ok field
field_values info field (val ∷ []) =
    if is_slice info.type
    then assigned field (set_texts field.type (val ∷ []))
    else assigned field (set_text field.type val)
field_values info field (val ∷ next ∷ vals) =
    if is_slice info.type
    then assigned field (set_texts field.type (val ∷ next ∷ vals))
    else err (several_values info.name (length (val ∷ next ∷ vals)))

-- The struct and the result: what was stored before an error or a panic stays.
abbrev pub Stored : Type 0
Stored = List LdapField × Outcome (Unit {0})

put : List LdapField → ℕ → Outcome LdapField → Stored
put item i (ok field) = (set item i field, ok tt)
put item i (err e) = (item, err e)
put item i panic = (item, panic)
put item i out_of_fuel = (item, out_of_fuel)

value_at : List LdapField → FieldInfo → List Bytes → Option LdapField → Stored
unfolding put field_values
value_at item info vals none = (item, panic)
value_at item info vals (some field) = put item info.index (field_values info field vals)

unfoldable pub set_row_value : List LdapField → FieldInfo → List Bytes → Stored
unfolding value_at
set_row_value item info vals = value_at item info vals (get_elem? item info.index)

-- An attribute that names no field is passed over.
pub column : List LdapField → List Bytes → Option FieldInfo → Stored
unfolding set_row_value
column item vals none = (item, ok tt)
column item vals (some info) = set_row_value item info vals

go_on : (List LdapField → Stored) → Stored → Stored
go_on loop (item, ok _) = loop item
go_on loop (item, err e) = (item, err e)
go_on loop (item, panic) = (item, panic)
go_on loop (item, out_of_fuel) = (item, out_of_fuel)

-- The loop over the attributes.
unfoldable pub set_columns :
    (Bytes → Bytes) → Entry → List (Bytes × FieldInfo) → List LdapField → Stored
unfolding column find_info go_on
set_columns to_lower [] fields item = (item, ok tt)
set_columns to_lower (a ∷ row) fields item =
    go_on (set_columns to_lower row fields)
      (column item a.values (find_info (to_lower a.name) fields))

-- The slice and the result of `QueryStruct`.
abbrev pub Filled : Type 0
Filled = List (List LdapField) × Outcome (Unit {0})

-- Behind `setColumns`, whose error is dropped.
unfoldable pub append_entry :
    (List (List LdapField) → Filled) → List (List LdapField) → Stored → Filled
append_entry loop result (item, panic) = (result, panic)
append_entry loop result (item, _) = loop (result ++ item ∷ [])

-- The loop over the entries.
unfoldable pub entries_into :
    (Bytes → Bytes) → List LdapField → List Entry → List (List LdapField) → Filled
unfolding append_entry set_columns get_field_map
entries_into to_lower item [] result = (result, ok tt)
entries_into to_lower item (row ∷ rows) result =
    append_entry (entries_into to_lower item rows) result
      (set_columns to_lower row (get_field_map to_lower item) item)

-- `QueryStruct` with a pointer to a slice of structs, behind its `Query`.
unfoldable pub query_struct_entries :
    (Bytes → Bytes) → List LdapField → Outcome (List Entry) → List (List LdapField) → Filled
unfolding entries_into
query_struct_entries to_lower item (ok entries) result = entries_into to_lower item entries result
query_struct_entries to_lower item (err e) result = (result, err e)
query_struct_entries to_lower item panic result = (result, panic)
query_struct_entries to_lower item out_of_fuel result = (result, out_of_fuel)

drop_error : Stored → Stored
drop_error (item, panic) = (item, panic)
drop_error (item, _) = (item, ok tt)

-- `QueryStructRow` with a pointer to a struct, behind its `Query`.
unfoldable pub query_struct_row_entries :
    (Bytes → Bytes) → Outcome (List Entry) → List LdapField → Stored
unfolding drop_error set_columns get_field_map
query_struct_row_entries to_lower (ok []) item = (item, err no_data_found)
query_struct_row_entries to_lower (ok (row ∷ rows)) item =
    drop_error (set_columns to_lower row (get_field_map to_lower item) item)
query_struct_row_entries to_lower (err e) item = (item, err e)
query_struct_row_entries to_lower panic item = (item, panic)
query_struct_row_entries to_lower out_of_fuel item = (item, out_of_fuel)
