-- ===== src/Mgo.antt =====
-- mgo/fakeBackend.go: the fake session of the tests, and the conversion of what its queries return.
pub mod Scalars
pub mod Convert
pub mod Session
pub mod Backend
