-- ===== src/Csv/Records.antt =====
-- The records that `cursor_to_csv` of odbcsv/src/main.rs makes of the rows of a row set.
use odbc_api.Common.{ℕ, zero, suc, ◌+◌, List, [], ◌∷◌, none, some, ok, ◌>>=◌}
use odbc_api.Common.Panics.{Run}
use odbc_api.Indicator.{OdbcSys}
use odbc_api.TextColumn.{Cell}
use odbc_api.TextRowSet.{TextRowSet, at}

-- `unwrap_or(&[])`
abbrev pub field_of : Cell → List ℕ
field_of none = []
field_of (some text) = text

module _ ⦃sys : OdbcSys⦄ where
  -- So many fields of a row, from column `col_index` on
  unfoldable pub record_of : TextRowSet → ℕ → ℕ → ℕ → Run (List (List ℕ))
  record_of buffer row_index col_index zero = ok []
  record_of buffer row_index col_index (suc n) = do
    cell ← at buffer col_index row_index
    fields ← record_of buffer row_index (col_index + 1) n
    ok (field_of cell ∷ fields)
