-- ===== src/Struct.antt =====
-- Rows into Go structs: dbToStruct.go.
pub mod SetValue
pub mod Fields
pub mod Result
