-- ===== src/Rows.antt =====
-- The interfaces of interfaces.go: `Scanner` and `RowsScanner`.
pub mod Columns
pub mod Script
use onedb.Prelude.{Bool, Option, List, Bytes}
use onedb.Go.Outcome.{Error, Outcome}
use onedb.Go.Types.{GoType, any}
use onedb.Go.Values.{Value, nil}

-- A variable that a pointer argument of `Scan` points to: its type and what it holds.
pub record Cell : Type 0 where
  pub type : GoType
  pub value : Value

-- `new(interface{})`
abbrev pub new_cell : Cell
new_cell = record { type = any; value = nil }

-- What a `Scan` leaves: the scanner, the variables, which may have been written before an error,
-- and its error.
pub record Scanned (S : Type 0) : Type 0 where
  pub rows : S
  pub dest : List Cell
  pub result : Outcome (Unit {0})

-- `Scanner`, for an implementation with states `S`.
pub record Scanner (S : Type 0) : Type 0 where
  pub scan : S → List Cell → Scanned S

-- `RowsScanner`. `Columns` and `Err` only read.
pub record RowsScanner (S : Type 0) : Type 0 where
  pub close : S → S × Option Error
  pub columns : S → Outcome (List Bytes)
  pub next : S → S × Bool
  pub last_err : S → Option Error
  pub scanner : Scanner S
  pub open scanner use *
