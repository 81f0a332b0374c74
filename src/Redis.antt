-- ===== src/Redis.antt =====
-- The package redis: the client over a pool of connections, and its mock.
pub mod Client
pub mod Mock
