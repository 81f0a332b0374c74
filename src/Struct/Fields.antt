-- ===== src/Struct/Fields.antt =====
-- `getDBIndex`, `getItemTypeAndMap` and `scanStruct` of dbToStruct.go: which column goes to which
-- field, and one row into one struct.
pub mod Laws
use onedb.Prelude.{
  ℕ, suc, [], ◌∷◌, List, map, Bytes, Option, none, some, get_elem?, set, text_eq, if◌then◌else◌,
}
use onedb.Go.Outcome.{Outcome, ok, panic, ◌>>=◌}
use onedb.Go.Types.{GoType}
use onedb.Go.Values.{Runtime}
use onedb.Rows.{Cell, Scanned, Scanner}
use onedb.Struct.SetValue.{Place, set_value}

-- A field of a struct: its name, and the variable.
pub record Field : Type 0 where
  pub name : Bytes
  pub place : Place

-- A struct value is the list of its fields.
abbrev pub Struct : Type 0
Struct = List Field

pub record StructFieldInfo : Type 0 where
  pub name : Bytes
  pub type : GoType
  pub field_index : ℕ
  pub db_index : ℕ

module _ (rt : Runtime) where
  -- The first column from the `i`-th on whose name is that of the field in lower case; `none` is -1.
  unfoldable pub db_index_from : Bytes → ℕ → List Bytes → Option ℕ
  db_index_from name i [] = none
  db_index_from name i (column ∷ columns) =
      if text_eq column (rt.to_lower name) then some i else db_index_from name (suc i) columns

  unfoldable pub get_db_index : Bytes → List Bytes → Option ℕ
  unfolding db_index_from
  get_db_index name columns = db_index_from name 0 columns

  add_info : Field → ℕ → Option ℕ → List StructFieldInfo → List StructFieldInfo
  add_info field i none infos = infos
  add_info field i (some j) infos =
      record {
        name = rt.to_lower field.name;
        type = field.place.cell.type;
        field_index = i;
        db_index = j;
      }
      ∷ infos

  -- The loop over the fields of the struct, from the `i`-th on.
  pub field_infos : ℕ → Struct → List Bytes → List StructFieldInfo
  unfolding add_info get_db_index
  field_infos i [] columns = []
  field_infos i (field ∷ fields) columns =
      add_info field i (get_db_index field.name columns) (field_infos (suc i) fields columns)

  -- The columns are put in lower case before the loop.
  unfoldable pub get_item_map : List Bytes → Struct → List StructFieldInfo
  unfolding field_infos
  get_item_map columns item = field_infos 0 item (map rt.to_lower columns)

  -- `setValue(item.Field(fieldInfo.FieldIndex), vals[fieldInfo.DBIndex])`; an index past the end
  -- panics.
  set_field : Struct → ℕ → Option Field → Option Cell → Outcome Struct
  set_field item i (some field) (some val) = do
    v ← set_value rt field.place val.value
    let cell = record field.place.cell { value = v }
    ok (set item i (record field { place = record field.place { cell = cell } }))
  set_field item i _ _ = panic

  -- The loop over the map.
  pub set_fields : Struct → List StructFieldInfo → List Cell → Outcome Struct
  unfolding set_field
  set_fields item [] vals = ok item
  set_fields item (info ∷ infos) vals = do
    item' ←
        set_field item info.field_index (get_elem? item info.field_index)
          (get_elem? vals info.db_index)
    set_fields item' infos vals

  -- The scanner and the variables after the `Scan`, and the struct, the error or the panic.
  unfoldable pub scan_struct :
      {S : Type 0}
      → Scanner S
      → S
      → List Cell
      → List StructFieldInfo
      → Struct
      → Scanned S × Outcome Struct
  scan_struct sc s vals db_to_struct item =
      let scanned = sc.scan s vals in
      (scanned, scanned.result >>= λ _. set_fields item db_to_struct scanned.dest)
