-- ===== src/Ldap/Entries/Fill.antt =====
-- How an entry of a search should fill the fields of a struct, one attribute after the other.
use onedb.Prelude.{
  [], ◌∷◌, ◌≡◌, Bool, true, false, ◌&&◌, ◌||◌, List, map, Bytes, text_eq, All, if◌then◌else◌,
}
use onedb.Ldap.Entries.{
  EntryAttribute, Entry, LdapType, text_type, any_type, texts_type, LdapValue, text, texts,
  LdapField,
}

-- What a field of the type holds behind an attribute with these values.
abbrev pub new_value : LdapType → LdapValue → List Bytes → LdapValue
new_value texts_type old vals = texts vals
new_value _ old (val ∷ []) = text val
new_value _ old _ = old

-- Several values are too many for a field that is no slice.
abbrev pub refuses : LdapType → List Bytes → Bool
refuses texts_type vals = false
refuses _ (val ∷ next ∷ vals) = true
refuses _ _ = false

abbrev pub takes_text : LdapType → Bool
takes_text text_type = true
takes_text any_type = true
takes_text texts_type = true
takes_text _ = false

-- An exported field of type `string`, `interface{}` or `[]string`.
abbrev pub IsFillable : LdapField → Type 0
IsFillable f = (f.can_set ≡ true) × (takes_text f.type ≡ true)

module _ (to_lower : Bytes → Bytes) where
  -- Is the attribute the one of the field?
  abbrev pub is_for : EntryAttribute → LdapField → Bool
  is_for a f = text_eq (to_lower f.name) (to_lower a.name)

  abbrev pub fill : EntryAttribute → LdapField → LdapField
  fill a f = record f { value = if is_for a f then new_value f.type f.value a.values else f.value }

  abbrev pub refused : EntryAttribute → List LdapField → Bool
  refused a [] = false
  refused a (f ∷ fs) = (is_for a f && refuses f.type a.values) || refused a fs

  -- The fields behind the attributes in order, up to one that a field refuses.
  abbrev pub fill_entry : Entry → List LdapField → List LdapField
  fill_entry [] item = item
  fill_entry (a ∷ row) item = if refused a item then item else fill_entry row (map (fill a) item)

  abbrev pub Differs : LdapField → LdapField → Type 0
  Differs f g = text_eq (to_lower g.name) (to_lower f.name) ≡ false

  -- No two fields have the same name in lower case.
  abbrev pub IsNamed : List LdapField → Type 0
  IsNamed [] = Unit
  IsNamed (f ∷ fs) = All (Differs f) fs × IsNamed fs
