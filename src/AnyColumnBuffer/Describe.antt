-- ===== src/AnyColumnBuffer/Describe.antt =====
-- `buffer_from_description` of buffers/any_column_buffer.rs: a buffer with a column for each
-- description.
use odbc_api.Common.{ℕ, ◌+◌, ◌%◌, ◌^◌, List, [], ◌∷◌, ok, panic, ◌>>=◌, if◌then◌else◌}
use odbc_api.Common.Panics.{Run}
use odbc_api.Indicator.{OdbcSys}
use odbc_api.Description.{BufferDescription}
use odbc_api.ColumnarBuffer.{ColumnarBuffer, new_unchecked, any_duplicate}
use odbc_api.ColumnarBuffer
use odbc_api.AnyColumnBuffer.{AnyColumnBuffer, from_description}
use odbc_api.AnyColumnBuffer.View.{any_column}

module _ ⦃s : OdbcSys⦄ where
  -- `column_index` is a `u16`, which wraps round in a release build.
  unfoldable pub described_columns :
      ℕ → ℕ → List BufferDescription → Run (List (ℕ × AnyColumnBuffer))
  described_columns capacity column_index [] = ok []
  described_columns capacity column_index (desc ∷ descs) = do
    let next_index : ℕ = (column_index + 1) % 2 ^ 16
    column ← from_description capacity desc
    columns ← described_columns capacity next_index descs
    ok ((next_index, column) ∷ columns)

  unfoldable pub buffer_from_description :
      ℕ → List BufferDescription → Run (ColumnarBuffer AnyColumnBuffer)
  unfolding described_columns
  buffer_from_description capacity descs = do
    columns ← described_columns capacity 0 descs
    ok (new_unchecked capacity columns)

  unfoldable pub indexed_columns :
      ℕ → List (ℕ × BufferDescription) → Run (List (ℕ × AnyColumnBuffer))
  indexed_columns max_rows [] = ok []
  indexed_columns max_rows (description ∷ descriptions) = do
    column ← from_description max_rows description.1
    columns ← indexed_columns max_rows descriptions
    ok ((description.0, column) ∷ columns)

  -- The indices are compared here, and once more by `new`.
  unfoldable pub buffer_from_description_and_indices :
      ℕ → List (ℕ × BufferDescription) → Run (ColumnarBuffer AnyColumnBuffer)
  unfolding indexed_columns
  buffer_from_description_and_indices max_rows description = do
    columns ← indexed_columns max_rows description
    if any_duplicate [] columns then panic else ColumnarBuffer.new any_column columns
