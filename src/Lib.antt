-- ===== src/Lib.antt =====
-- The query helpers of onedb: a result set of a database becomes JSON, CSV or Go structs.
--
-- A backend answers a query with a `RowsScanner`. The query functions of onedb.go check their result
-- argument, run the query, hand the scanner to `getJSON` (dbToJson.go), `writeCSV` (dbToCSV.go) or
-- `getStruct` (dbToStruct.go), and close it. mockDb.go is a backend for tests that replays slices of
-- structs and logs its calls. The packages pgx, ldap, sql and redis are the backends: pgx and ldap send a
-- query again after a lost connection. The package mgo has wrappers around the MongoDB driver mgo, and a
-- fake session for tests.
--
-- Prelude: the library names that are shared, Boolean tests on numbers, and lists with a length in
--   native numbers. Text is a list of byte values.
-- Go: what Go itself brings. Ints has the wrap-around of words; Outcome has a call's result, an
--   `error` or a panic as a value; Types and Values have the types and the values that an `interface{}`
--   holds; Decimal has `%v` of integers; Strconv has `ParseInt`, `ParseUint` and `ParseBool`; Maps has a
--   map with string keys. `Runtime` stands for what is not modelled further: the
--   layouts of `time.Time.Format`, `%v` of floats and composite values, `strings.ToLower`, the
--   conversion between the float formats, and the element types of declared types.
-- Rows: `Scanner` and `RowsScanner` of interfaces.go as records of operations on a state, and
--   `getColumnNamesAndValues`. Script describes a scanner by the rows that it yields,
--   whatever its implementation.
-- Json: dbToJson.go. Utf8 has `utf8.DecodeRuneInString`; Escape has `encodeString`, with the two
--   indices of its loop; Base64 has `encodeByteSlice`, with the chunks of the streaming encoder;
--   Scalar has `getJSONValue` and `jsonize`; Result has `scanJSON`, `getJSON` and `getJSONRow`. Reader is
--   a reader of JSON strings, and Reader/Document one of arrays of flat objects, written from the
--   grammar and not from the code; Result/Texts, Result/Shown and Result/ReadBack say what it makes of a
--   text, a value and a document.
-- Csv: dbToCSV.go, over a writer with the operations of `csv.Writer`, and how `encoding/csv` quotes a
--   record. Buffer is the writer that `csv.NewWriter` makes over an `io.Writer` that takes every write:
--   a `bufio.Writer` of 4096 bytes, whose state is what it has passed on and what waits for a flush.
--   Reader is a reader of CSV, written from RFC 4180 and not from the code; Failures has what is left
--   in the buffer when a `Scan` fails.
-- Struct: dbToStruct.go. SetValue has `setValue`, by the type of the column value and the kind of the
--   field; Fields has `getDBIndex`, `getItemTypeAndMap` and `scanStruct`; Result has `getStruct` and
--   `getStructRow`. A struct value is the list of its fields.
-- Queries: the query functions of onedb.go, for any `Backender`. The value returned holds the backend,
--   the rows that were closed, and the result. Dial has `DialTCP`.
-- Mock: mockDb.go. Scanner has `mockRowsScanner` and `mockScanner`; which types implement which declared
--   interfaces is part of the mock's data. Db has `mockDb`.
-- Mgo: the package mgo. Backend has the wrappers of mgo/backend.go: an interface is a record of
--   operations, mgo is such a record as a parameter, and `msession`, `mdatabase`, `mcollection` and
--   `mquery` make the wrappers' record from it. A wrapper that is assigned to is a cell of a heap.
--   Client is a program over any implementation; Handles follows the cells of sessions. Of
--   mgo/fakeBackend.go, Session has `NewFakeSession`, the databases and collections with their logs,
--   and the methods of a collection; Methods has the rest of `fakeSession` and `fakeDatabase`, Query has
--   `fakeQuery`, as instances of the same interfaces; Fetch is a query with what it stores; View says
--   what a session holds under two names, and Log has the names and arguments of the methods of mgo. Scalars has `asString`, `asBytes` and
--   `convertBool`, and Convert `convertAssign`; `reflect` on declared types, `reflect.DeepEqual` and the
--   text of a float are parameters.
-- Pgx: the package pgx. Reconnect has `Query`, `Exec`, `ping` and `reconnect` of pgxWrapper.go over a
--   pool, which is a parameter, as is the clock; Rows has `pgxRows` over the rows of pgx; Backend has
--   `pgxBackend` and `pgxTx` of pgx.go, the query functions over them, and the constructors; Copy has
--   `copyFromRows` of copiedFromPgx.go; Mock has mock.go.
-- Redis: the package redis. Client has `redisBackend` and the functions of its pool over redigo, which
--   is a parameter; its laws are stated against servers with the documented behaviour, as records of
--   hypotheses. Mock has `redisMock`.
-- Sql: sql/sqllibBackend.go, over a database of database/sql, which is a parameter.
-- Ldap: ldap/ldapBackend.go. Connection has `ldapConnect`, `NewLDAP`, `reconnect`, `Query`, `Execute`, `Bind`
--   and `Close` over a network that is a parameter; Entries has `getFieldMap`, `setColumns` and
--   `setRowValue`, and Entries/Fill says, not from the code, how attributes fill a struct; Results has the JSON forms, `QueryStruct`, `QueryStructRow` and `QueryValues`.
-- Tests: the theorems at concrete inputs.
--
-- Fuel bounds the loops that no list bounds. `encodeString` and `encodeByteSlice` get one round for
-- each byte and one more, which is enough since each round reads a byte or more. The loops over
-- `rows.Next()` take their fuel as an argument, since a scanner may go on for ever; more fuel than
-- rows is enough. `Query` and `Exec` of pgx and `Query` and `Execute` of LDAP take fuel for their calls
-- of themselves: a pool that dies and revives each time never ends them, but each new call comes after a
-- pause of a millisecond or more, so that fuel for one call in each millisecond until the last reading
-- of the clock is enough (Returns in Pgx/Reconnect and in Ldap/Connection). Without enough fuel the
-- result says so and is no result of the code.
--
-- Not modelled: the drivers themselves; the interfaces `Iterator` and `Piper` of mgo/backend.go, which
-- nothing here implements; and the methods of the mocks that only pass a call on. A panic
-- leaves what was written before it in a variable only where the result says so; inside a struct that
-- a panic interrupts, nothing is kept.
pub mod Prelude
pub mod Go
pub mod Rows
pub mod Json
pub mod Csv
pub mod Struct
pub mod Queries
pub mod Mgo
pub mod Mock
pub mod Pgx
pub mod Redis
pub mod Sql
pub mod Ldap
pub mod Tests
