-- ===== src/Rows/Columns.antt =====
-- `getColumnNamesAndValues` of dbToJson.go.
use onedb.Prelude.{[], ◌∷◌, Bool, List, map, Bytes, if◌then◌else◌}
use onedb.Go.Outcome.{Outcome, ok, ◌>>=◌, fail_if}
use onedb.Json.Scalar.{jsonize}
use onedb.Rows.{Cell, new_cell, RowsScanner}

-- A fresh variable for each column.
unfoldable pub new_cells : List Bytes → List Cell
new_cells [] = []
new_cells (c ∷ cs) = new_cell ∷ new_cells cs

unfoldable pub get_column_names_and_values :
    {S : Type 0} → RowsScanner S → S → Bool → Outcome (List Bytes × List Cell)
unfolding new_cells jsonize
get_column_names_and_values sc s is_json = fail_if (sc.last_err s) (do
  column_names ← sc.columns s
  ok (if is_json then map jsonize column_names else column_names, new_cells column_names))
