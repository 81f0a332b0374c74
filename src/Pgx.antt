-- ===== src/Pgx.antt =====
-- The package pgx: the connection pool that reconnects, its rows, the backend on it, the rows that a copy
-- reads, and the mock.
pub mod Reconnect
pub mod Rows
pub mod Backend
pub mod Copy
pub mod Mock
