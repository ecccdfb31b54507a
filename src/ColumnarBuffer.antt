-- ===== src/ColumnarBuffer.antt =====
-- buffers/columnar.rs: a buffer that consists of columns, all of which hold the same number of rows.
pub mod Laws
pub mod Unique
use odbc_api.Common.{
  ℕ, ◌+◌, ◌≤◌, min, Bool, true, false, List, [], ◌∷◌, ok, panic, ◌>>=◌, index, store, length, ltb,
  ◌==◌, ◌||◌, if◌then◌else◌, map,
}
use odbc_api.Common.Panics.{Run}

-- The trait `ColumnBuffer` with its type of views
pub record ColumnBuffer (C V : Type 0) : Type 0 where
  pub view : C → ℕ → Run V
  pub fill_default : C → ℕ → ℕ → Run C
  pub capacity : C → ℕ

-- Each column with the index it is bound to
pub record ColumnarBuffer (C : Type 0) : Type 0 where
  pub num_rows : ℕ
  pub row_capacity : ℕ
  pub columns : List (ℕ × C)

-- `HashSet::contains`
unfoldable pub contains : List ℕ → ℕ → Bool
contains [] i = false
contains (j ∷ seen) i = (i == j) || contains seen i

-- `columns.iter().any(|&(col_index, _)| !indices.insert(col_index))`
unfoldable pub any_duplicate : {C : Type 0} → List ℕ → List (ℕ × C) → Bool
unfolding contains
any_duplicate seen [] = false
any_duplicate seen (column ∷ columns) =
    contains seen column.0 || any_duplicate (column.0 ∷ seen) columns

abbrev pub new_unchecked : {C : Type 0} → ℕ → List (ℕ × C) → ColumnarBuffer C
new_unchecked capacity columns = record { num_rows = 0; row_capacity = capacity; columns = columns }

-- `Iterator::min`, and what `unwrap_or` makes of no element
unfoldable pub min_or : ℕ → List ℕ → ℕ
min_or other [] = other
min_or other (n ∷ []) = n
min_or other (n ∷ m ∷ ns) = min n (min_or other (m ∷ ns))

module _ {C : Type 0} where
  abbrev pub num_cols : ColumnarBuffer C → ℕ
  num_cols buffer = length buffer.columns

  abbrev pub clear : ColumnarBuffer C → ColumnarBuffer C
  clear buffer = record buffer { num_rows = 0 }

  -- What the caller does through the view is a function of the column and its valid rows.
  unfoldable pub column_mut : ColumnarBuffer C → ℕ → (C → ℕ → Run C) → Run (ColumnarBuffer C)
  column_mut buffer buffer_index write = do
    column ← index buffer.columns buffer_index
    written ← write column.1 buffer.num_rows
    columns ← store buffer.columns buffer_index (column.0, written)
    ok (record buffer { columns = columns })

  -- `RowSetBuffer`: columnar binding, the capacity, and the counter that the driver writes to
  abbrev pub bind_type : ColumnarBuffer C → ℕ
  bind_type buffer = 0

  abbrev pub row_array_size : ColumnarBuffer C → ℕ
  row_array_size buffer = buffer.row_capacity

  abbrev pub parameter_set_size : ColumnarBuffer C → ℕ
  parameter_set_size buffer = buffer.num_rows

module _ {C V : Type 0} (b : ColumnBuffer C V) where
  unfoldable pub new : List (ℕ × C) → Run (ColumnarBuffer C)
  unfolding any_duplicate min_or
  new columns =
      let capacity = min_or 0 (map (λ column. b.capacity column.1) columns) in
      if any_duplicate [] columns then panic else ok (new_unchecked capacity columns)

  unfoldable pub column : ColumnarBuffer C → ℕ → Run V
  column buffer buffer_index = do
    col ← index buffer.columns buffer_index
    b.view col.1 buffer.num_rows

  -- The loop of `set_num_rows`
  unfoldable pub fill_columns : ℕ → ℕ → List (ℕ × C) → Run (List (ℕ × C))
  fill_columns from to [] = ok []
  fill_columns from to (col ∷ columns) = do
    filled ← b.fill_default col.1 from to
    rest ← fill_columns from to columns
    ok ((col.0, filled) ∷ rest)

  unfoldable pub set_num_rows : ColumnarBuffer C → ℕ → Run (ColumnarBuffer C)
  unfolding fill_columns
  set_num_rows buffer num_rows = if ltb buffer.row_capacity num_rows then panic else do
    columns ←
        if ltb buffer.num_rows num_rows
        then fill_columns buffer.num_rows num_rows buffer.columns
        else ok buffer.columns
    ok (record buffer { num_rows = num_rows; columns = columns })
