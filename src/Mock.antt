-- ===== src/Mock.antt =====
-- The mock database of mockDb.go.
pub mod Scanner
pub mod Db
