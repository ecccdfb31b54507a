-- ===== src/TextRowSet/Fetch.antt =====
-- A `TextRowSet` that is bound to a cursor: `RowSetBuffer` of buffers/columnar.rs, and `CDataMut` of
-- its columns.
use odbc_api.Common.{ℕ, List, [], ◌∷◌, ok, ◌>>=◌}
use odbc_api.Common.Panics.{Run}
use odbc_api.TextColumn.{TextColumn, narrow}
use odbc_api.TextRowSet.{TextRowSet}
use odbc_api.TextRowSet.Bind.{text_parameter}
use odbc_api.Cursor.RowSet.{Targets, RowSetBuffer}

unfoldable pub text_targets : List (ℕ × TextColumn) → Run Targets
text_targets [] = ok []
text_targets (column ∷ columns) = do
  parameter ← text_parameter narrow column.1
  targets ← text_targets columns
  ok ((column.0, parameter.cdata) ∷ targets)

-- The columns, with what the driver has written to them
unfoldable pub written_columns : Targets → List (ℕ × TextColumn) → List (ℕ × TextColumn)
written_columns [] columns = columns
written_columns (target ∷ targets) [] = []
written_columns (target ∷ targets) (column ∷ columns) =
    (column.0, record column.1 { values = (target.1).values; indicators = (target.1).indicators })
    ∷ written_columns targets columns

abbrev pub text_row_set : RowSetBuffer TextRowSet
text_row_set = record {
  bind_type = λ buffer. 0;
  row_array_size = λ buffer. buffer.row_capacity;
  num_fetch_rows = λ buffer. buffer.num_rows;
  targets = λ buffer. text_targets buffer.columns;
  written = λ targets num_rows buffer. record buffer {
    num_rows = num_rows;
    columns = written_columns targets buffer.columns;
  };
}
