-- ===== src/BinColumn.antt =====
-- buffers/bin_column.rs: a column of binary values, each in a slot of `max_len` bytes, the length of
-- each in the indicator of its row.
pub mod Write
pub mod Resize
pub mod Append
pub mod Reset
mod Tests
use odbc_api.Common.{
  ℕ, zero, suc, ◌+◌, ◌-◌, min, not, List, [], ◌∷◌, Option, none, some, ℤ, pos, eq_ℤ, ok, panic,
  ◌>>=◌, ◌>>◌, assert, map_run, add_usize, mul_usize, sub_usize, to_isize, index, store, slice,
  copy_slice, alloc, length, ltb, ◌==◌, if◌then◌else◌,
}
use odbc_api.Common.Panics.{Run}
use odbc_api.DataType.{DataType, as_usize}
use odbc_api.Indicator.{OdbcSys, null_data}
use odbc_api.Rows.{copy_rows}
use odbc_api.TextColumn.{Cell, Growth, size_of_isize, store_range}

pub record BinColumn : Type 0 where
  pub max_len : ℕ
  pub values : List ℕ
  pub indicators : List ℤ

unfoldable pub new : ℕ → ℕ → Run BinColumn
new batch_size max_len = do
  values ← alloc 1 (mul_usize max_len batch_size) 0
  indicators ← alloc size_of_isize batch_size (pos 0)
  ok (record { max_len = max_len; values = values; indicators = indicators })

abbrev pub capacity : BinColumn → ℕ
capacity col = length col.indicators

abbrev pub data_type : BinColumn → DataType
data_type col = DataType.varbinary col.max_len

abbrev pub buffer_length : BinColumn → Run ℤ
buffer_length col = to_isize col.max_len

module _ ⦃s : OdbcSys⦄ where
  -- A negative indicator that is not NULL is converted to a large length.
  unfoldable pub value_of : BinColumn → ℕ → ℤ → Run Cell
  value_of col row_index len =
      if eq_ℤ len null_data
      then ok none
      else (let offset = mul_usize row_index col.max_len in
          let n = min col.max_len (as_usize len) in
          map_run some (slice col.values offset (add_usize offset n)))

  unfoldable pub value_at : BinColumn → ℕ → Run Cell
  unfolding value_of
  value_at col row_index = index col.indicators row_index >>= value_of col row_index

  unfoldable pub fill_null : BinColumn → ℕ → ℕ → Run BinColumn
  fill_null col from to = do
    inds ← store_range (to - from) from null_data col.indicators
    ok (record col { indicators = inds })

  unfoldable pub set_max_len : BinColumn → ℕ → Run BinColumn
  unfolding fill_null
  set_max_len col new_max_len = do
    new_values ← alloc 1 (mul_usize new_max_len (length col.indicators)) 0
    nulled ← fill_null col 0 (length col.indicators)
    ok (record nulled { max_len = new_max_len; values = new_values })

  -- The indicator is written before the length is tested.
  unfoldable pub set_value : BinColumn → ℕ → Cell → Run BinColumn
  set_value col row_index none = do
    inds ← store col.indicators row_index null_data
    ok (record col { indicators = inds })
  set_value col row_index (some input) = do
    indicator ← to_isize (length input)
    inds ← store col.indicators row_index indicator
    (if ltb col.max_len (length input) then panic else do
      let start = mul_usize col.max_len row_index
      let end = add_usize start (length input)
      values ← copy_slice col.values start end input
      ok (record col { values = values; indicators = inds }))

  -- `chunks_exact_mut` panics at a slot of no element.
  unfoldable pub resize_max_element_length : BinColumn → ℕ → ℕ → Run BinColumn
  resize_max_element_length col new_max_len num_rows = do
    new_values ← alloc 1 (mul_usize new_max_len (length col.indicators)) 0
    assert (not (col.max_len == 0))
    assert (not (new_max_len == 0))
    values ←
        copy_rows (λ n. n) col.max_len new_max_len (min col.max_len new_max_len) num_rows
          col.indicators col.values new_values
    ok (record col { max_len = new_max_len; values = values })

  -- the part of `append` behind the growth of the buffer
  unfoldable pub append_fitting : BinColumn → ℕ → List ℕ → Run BinColumn
  append_fitting col row_index bytes = do
    let offset = mul_usize row_index col.max_len
    values ← copy_slice col.values offset (add_usize offset (length bytes)) bytes
    indicator ← to_isize (length bytes)
    inds ← store col.indicators row_index indicator
    ok (record col { values = values; indicators = inds })

  unfoldable pub append : ⦃g : Growth⦄ → BinColumn → ℕ → Cell → Run BinColumn
  unfolding append_fitting
  append col row_index none = do
    inds ← store col.indicators row_index null_data
    ok (record col { indicators = inds })
  append ⦃g⦄ col row_index (some bytes) = do
    grown ←
        if ltb col.max_len (length bytes)
        then resize_max_element_length col (g.grow (length bytes)) row_index
        else ok col
    append_fitting grown row_index bytes

  -- `BinColumnWriter::write`: `it.enumerate().take(to)`
  unfoldable pub write_from : ℕ → ℕ → BinColumn → List Cell → Run BinColumn
  write_from zero i col items = ok col
  write_from (suc n) i col [] = ok col
  write_from (suc n) i col (item ∷ items) = do
    col' ← set_value col i item
    write_from n (i + 1) col' items

-- `BinColumnIt`
pub record BinColumnIt : Type 0 where
  pub pos : ℕ
  pub num_rows : ℕ
  pub col : BinColumn

abbrev pub iter : BinColumn → ℕ → BinColumnIt
iter col num_rows = record { pos = 0; num_rows = num_rows; col = col }

abbrev pub size_hint : BinColumnIt → ℕ
size_hint it = sub_usize it.num_rows it.pos

unfoldable pub next : ⦃s : OdbcSys⦄ → BinColumnIt → Run (Option Cell × BinColumnIt)
next it =
    if it.pos == it.num_rows
    then ok (none, it)
    else do cell ← value_at it.col it.pos; ok (some cell, record it { pos = it.pos + 1 })
