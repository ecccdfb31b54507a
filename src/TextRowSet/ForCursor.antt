-- ===== src/TextRowSet/ForCursor.antt =====
-- `TextRowSet::for_cursor` of buffers/columnar.rs: a row set whose columns fit those of a result set.
use odbc_api.Common.{ℕ, zero, suc, ◌+◌, List, [], ◌∷◌, Option, none, some, min, to_usize, Reserve}
use odbc_api.Indicator.{OdbcSys}
use odbc_api.Sql.{Result}
use odbc_api.Statement.{Driver, Call, pure, ◌>>=◌}
use odbc_api.Cursor.{lift}
use odbc_api.DataType.{as_usize, utf8_len}
use odbc_api.TextColumn
use odbc_api.TextColumn.{TextColumn, narrow}
use odbc_api.TextRowSet.{TextRowSet, to_u16}
use odbc_api.Metadata.{MetadataApi}
use odbc_api.Metadata.ResultSet.{num_result_cols, col_data_type, col_display_size}

-- The upper bound, if one is specified
abbrev pub limited : Option ℕ → ℕ → ℕ
limited none reported_len = reported_len
limited (some limit) reported_len = min limit reported_len

module _ {S : Type 0} ⦃r : Reserve⦄ ⦃s : OdbcSys⦄ (d : Driver S) (api : MetadataApi S) where
  -- The length of the column's texts. `fuel` is that of `describe_col`.
  unfoldable pub reported_len : ℕ → ℕ → Call S (Result ℕ)
  reported_len fuel col_index = do
    data_type ← col_data_type d api fuel col_index
    elim (utf8_len data_type) [
      | some encoded_len ↦ pure encoded_len
      | none ↦ col_display_size d api col_index >>= λ display_size. pure (as_usize display_size)
    ]

  -- So many columns from `col_index` on
  unfoldable pub columns_for_cursor :
      ℕ → ℕ → Option ℕ → ℕ → ℕ → Call S (Result (List (ℕ × TextColumn)))
  unfolding reported_len
  columns_for_cursor fuel batch_size max_str_len col_index zero = pure []
  columns_for_cursor fuel batch_size max_str_len col_index (suc n) = do
    len ← reported_len fuel col_index
    column ← lift (TextColumn.new narrow batch_size (limited max_str_len len))
    columns ← columns_for_cursor fuel batch_size max_str_len (col_index + 1) n
    pure ((col_index, column) ∷ columns)

  unfoldable pub for_cursor : ℕ → ℕ → Option ℕ → Call S (Result TextRowSet)
  unfolding columns_for_cursor
  for_cursor fuel batch_size max_str_len = do
    cols ← num_result_cols d api
    cols_usize ← lift (to_usize cols)
    num_cols ← lift (to_u16 cols_usize)
    buffers ← columns_for_cursor fuel batch_size max_str_len 1 num_cols
    pure (record { num_rows = 0; row_capacity = batch_size; columns = buffers })
