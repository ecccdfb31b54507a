-- ===== src/TextRowSet.antt =====
-- buffers/columnar.rs: `TextRowSet`, the buffer of one text column for each column of a result set.
pub mod Lawful
pub mod Append
pub mod ForCursor
pub mod Bind
pub mod Fetch
pub mod Read
pub mod Send
pub mod Delivered
pub mod Rows
mod Tests
use odbc_api.Common.{
  ℕ, ◌+◌, List, [], ◌∷◌, ok, panic, ◌>>=◌, ◌>>◌, assert, index, leb, ltb, ◌==◌, add_usize,
  if◌then◌else◌,
}
use odbc_api.Common.Panics.{Run}
use odbc_api.Indicator.{OdbcSys, Indicator}
use odbc_api.TextColumn
use odbc_api.TextColumn.{TextColumn, TextColumnIt, Cell, Growth, narrow}
use odbc_api.ColumnarBuffer.{ColumnBuffer, ColumnarBuffer}

abbrev pub TextRowSet : Type 0
TextRowSet = ColumnarBuffer TextColumn

-- `usize` to `u16` by `try_into().unwrap()`
abbrev pub to_u16 : ℕ → Run ℕ
to_u16 n = if leb n 65535 then ok n else panic

module _ ⦃s : OdbcSys⦄ where
  -- `impl ColumnBuffer for CharColumn`
  abbrev pub char_column : ColumnBuffer TextColumn TextColumnIt
  char_column = record {
    view = λ col n. ok (TextColumn.iter narrow col n);
    fill_default = TextColumn.fill_null narrow;
    capacity = TextColumn.capacity;
  }

  -- The columns for the lengths behind the first `i`
  unfoldable pub text_columns : ℕ → ℕ → List ℕ → Run (List (ℕ × TextColumn))
  text_columns row_capacity i [] = ok []
  text_columns row_capacity i (max_str_len ∷ max_str_lengths) = do
    column_index ← to_u16 (add_usize i 1)
    column ← TextColumn.new narrow row_capacity max_str_len
    columns ← text_columns row_capacity (i + 1) max_str_lengths
    ok ((column_index, column) ∷ columns)

  unfoldable pub from_max_str_lens : ℕ → List ℕ → Run TextRowSet
  unfolding text_columns
  from_max_str_lens row_capacity max_str_lengths = do
    columns ← text_columns row_capacity 0 max_str_lengths
    ok (record { num_rows = 0; row_capacity = row_capacity; columns = columns })

  unfoldable pub at : TextRowSet → ℕ → ℕ → Run Cell
  at buffer buffer_index row_index = do
    assert (ltb row_index buffer.num_rows)
    column ← index buffer.columns buffer_index
    TextColumn.value_at narrow column.1 row_index

  unfoldable pub indicator_at : TextRowSet → ℕ → ℕ → Run Indicator
  indicator_at buffer buf_index row_index = do
    assert (ltb row_index buffer.num_rows)
    column ← index buffer.columns buf_index
    TextColumn.indicator_at narrow column.1 row_index

  unfoldable pub max_len : TextRowSet → ℕ → Run ℕ
  max_len buffer buf_index = do column ← index buffer.columns buf_index; ok (column.1).max_str_len

  -- The loop of `append`: a row with no more element panics.
  unfoldable pub append_columns :
      ⦃g : Growth⦄ → ℕ → List (ℕ × TextColumn) → List Cell → Run (List (ℕ × TextColumn))
  append_columns row [] cells = ok []
  append_columns row (column ∷ columns) [] = panic
  append_columns row (column ∷ columns) (text ∷ cells) = do
    column' ← TextColumn.append narrow column.1 row text
    columns' ← append_columns row columns cells
    ok ((column.0, column') ∷ columns')

  unfoldable pub append : ⦃g : Growth⦄ → TextRowSet → List Cell → Run TextRowSet
  unfolding append_columns
  append buffer row = if buffer.row_capacity == buffer.num_rows then panic else do
    columns ← append_columns buffer.num_rows buffer.columns row
    ok (record buffer { num_rows = add_usize buffer.num_rows 1; columns = columns })
