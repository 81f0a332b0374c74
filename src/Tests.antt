-- ===== src/Tests.antt =====
-- The theorems at concrete inputs.
pub mod Data
pub mod Json
pub mod Struct
pub mod Db
pub mod Pgx
pub mod Ldap
pub mod Mgo
pub mod Backend
pub mod Redis
