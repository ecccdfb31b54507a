-- ===== src/ColumnWithIndicator.antt =====
-- buffers/column_with_indicator.rs: a column of values of one size, with an indicator for each row
-- that is NULL or not.
pub mod Write
pub mod Reset
mod Tests
use odbc_api.Common.{
  ℕ, zero, suc, ◌-◌, List, [], ◌∷◌, Option, none, some, ℤ, pos, eq_ℤ, Bool, ok, panic, ◌>>=◌, alloc,
  store, slice, unwrap, length, ◌==◌, if◌then◌else◌,
}
use odbc_api.Common.Panics.{Run}
use odbc_api.Indicator.{OdbcSys, null_data}
use odbc_api.TextColumn.{size_of_isize, store_range}

-- `ColumnWithIndicator<T>`. Its slices, `NullableSlice` and `NullableSliceMut`, have the same parts.
pub record ColumnWithIndicator (A : Type 0) : Type 0 where
  pub values : List A
  pub indicators : List ℤ

module _ {A : Type 0} where
  abbrev pub capacity : ColumnWithIndicator A → ℕ
  capacity col = length col.indicators

  -- The first `n` rows: `iter`, and `writer_n`
  unfoldable pub first_rows : ColumnWithIndicator A → ℕ → Run (ColumnWithIndicator A)
  first_rows col n = do
    indicators ← slice col.indicators 0 n
    values ← slice col.values 0 n
    ok (record { values = values; indicators = indicators })

  -- `NullableSlice::is_empty` and `len`
  abbrev pub is_empty : ColumnWithIndicator A → Bool
  is_empty rows = length rows.values == 0

  abbrev pub len : ColumnWithIndicator A → ℕ
  len rows = length rows.values

  module _ ⦃s : OdbcSys⦄ where
    -- `size` and `default` are those of the element type.
    unfoldable pub new : (size : ℕ) (default : A) → ℕ → Run (ColumnWithIndicator A)
    new size default batch_size = do
      values ← alloc size batch_size default
      indicators ← alloc size_of_isize batch_size null_data
      ok (record { values = values; indicators = indicators })

    unfoldable pub fill_null : ColumnWithIndicator A → ℕ → ℕ → Run (ColumnWithIndicator A)
    fill_null col from to = do
      inds ← store_range (to - from) from null_data col.indicators
      ok (record { values = col.values; indicators = inds })

    -- `NullableSlice::next`
    unfoldable pub next : List ℤ → List A → Run (Option (Option A × List ℤ × List A))
    next [] values = ok none
    next (ind ∷ indicators) [] = panic
    next (ind ∷ indicators) (value ∷ values) =
        ok (some ((if eq_ℤ ind null_data then none else some value), indicators, values))

    -- `NullableSliceMut::write`: `it.enumerate().take(self.values.len())`
    unfoldable pub write_from :
        ℕ → ℕ → List ℤ → List A → List (Option A) → Run (ColumnWithIndicator A)
    write_from zero i inds values items = ok (record { values = values; indicators = inds })
    write_from (suc n) i inds values [] = ok (record { values = values; indicators = inds })
    write_from (suc n) i inds values (some value ∷ items) = do
      inds' ← store inds i (pos 0)
      values' ← store values i value
      write_from n (suc i) inds' values' items
    write_from (suc n) i inds values (none ∷ items) = do
      inds' ← store inds i null_data
      write_from n (suc i) inds' values items

    unfoldable pub write : ColumnWithIndicator A → List (Option A) → Run (ColumnWithIndicator A)
    unfolding write_from
    write rows items = write_from (length rows.values) 0 rows.indicators rows.values items
