-- ===== src/Json.antt =====
-- The JSON writer of dbToJson.go.
pub mod Utf8
pub mod Reader
pub mod Escape
pub mod Base64
pub mod Scalar
pub mod Result
