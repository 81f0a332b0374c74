-- ===== src/Rows/Script.antt =====
-- What a scanner does on a result set, as a script: the rows that it yields, and how it ends.
use onedb.Prelude.{[], ◌∷◌, true, false, ◌≡◌, List, map, length, All}
use onedb.Go.Outcome.{Error, ok, err}
use onedb.Go.Types.{any}
use onedb.Go.Values.{Value}
use onedb.Rows.{Cell, RowsScanner}

abbrev pub holding : Value → Cell
holding v = record { type = any; value = v }

abbrev pub IsAny : Cell → Type 0
IsAny c = c.type ≡ any

module _ {S : Type 0} (sc : RowsScanner S) where
  -- From `s`, a `Scan` into variables of type `interface{}`, one for each value, stores the row.
  abbrev pub Reads : S → List Value → S → Type 0
  Reads s row s' =
      (dest : List Cell)
      → All IsAny dest
      → length dest ≡ length row
      → sc.scan s dest ≡ record { rows = s'; dest = map holding row; result = ok tt }

  -- `Next` and `Scan` in turn yield the rows, and then `Next` is false.
  pub data Yields : S → List (List Value) → S → Type 0 where
    finished : {s t : S} → sc.next s ≡ (t, false) → Yields s [] t
    yields :
        {s s' s'' t : S} {row : List Value} {rows : List (List Value)}
        → sc.next s ≡ (s', true)
        → Reads s' row s''
        → Yields s'' rows t
        → Yields s (row ∷ rows) t

  -- `Next` and `Scan` in turn yield the rows, and then a `Scan` fails.
  pub data FailsAfter (e : Error) : S → List (List Value) → Type 0 where
    fails :
        {s s' : S}
        → sc.next s ≡ (s', true)
        → ((dest : List Cell) → (sc.scan s' dest).result ≡ err e)
        → FailsAfter e s []
    then_fails :
        {s s' s'' : S} {row : List Value} {rows : List (List Value)}
        → sc.next s ≡ (s', true)
        → Reads s' row s''
        → FailsAfter e s'' rows
        → FailsAfter e s (row ∷ rows)
