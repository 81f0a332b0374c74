-- ===== src/Ldap.antt =====
-- ldap/ldapBackend.go: the connection that reconnects, and search results into structs.
pub mod Connection
pub mod Entries
pub mod Results
