-- ===== src/TextColumn.antt =====
-- buffers/text_column.rs: a column of texts, each in a slot of `max_str_len + 1` characters, the
-- length of each in the indicator of its row. `CharColumn` and `WCharColumn` are its two widths.
pub mod Valid
pub mod Steps
pub mod Slots
pub mod Write
pub mod Resize
pub mod Append
pub mod Holds
pub mod RoundTrip
pub mod Fill
pub mod Reset
pub mod Panics
mod Tests
use odbc_api.Common.{
  ℕ, zero, suc, ◌+◌, ◌-◌, ◌*◌, ◌/◌, ◌≤◌, min, not, List, [], ◌∷◌, Option, none, some, ℤ, pos, ok,
  panic, ◌>>=◌, ◌>>◌, assert, map_run, add_usize, mul_usize, sub_usize, to_isize, index, store,
  slice, copy_slice, alloc, length, ltb, ◌==◌, if◌then◌else◌,
}
use odbc_api.Common.Panics.{Run}
use odbc_api.DataType.{DataType}
use odbc_api.Indicator.{OdbcSys, Indicator, null_data, from_isize}
use odbc_api.Rows.{copy_rows}

-- The character type: `u8` of a `CharColumn`, `u16` of a `WCharColumn`.
pub data Width : Type 0 where
  narrow : Width
  wide : Width

-- `size_of::<C>()`
abbrev pub size_of : Width → ℕ
size_of narrow = 1
size_of wide = 2

-- Bytes of an `isize`
abbrev pub size_of_isize : ℕ
size_of_isize = 8

-- Float arithmetic is not modelled: `(len as f64 * 1.2) as usize`, of which the code needs that it
-- does not fall below `len`.
pub record Growth : Type 0 where
  pub grow : ℕ → ℕ
  pub le_grow : (n : ℕ) → n ≤ grow n

pub record TextColumn : Type 0 where
  pub max_str_len : ℕ
  pub values : List ℕ
  pub indicators : List ℤ

-- A text without its terminating zero, or NULL
abbrev pub Cell : Type 0
Cell = Option (List ℕ)

-- A slot is one longer than the longest text.
abbrev pub slot : ℕ → ℕ
slot max_len = add_usize max_len 1

-- `fill_null`'s loop: the number of rounds, the next index, the indicators
unfoldable pub store_range : ℕ → ℕ → ℤ → List ℤ → Run (List ℤ)
store_range zero i v inds = ok inds
store_range (suc n) i v inds = store inds i v >>= store_range n (i + 1) v

module _ (w : Width) ⦃s : OdbcSys⦄ where
  unfoldable pub new : ℕ → ℕ → Run TextColumn
  new batch_size max_str_len = do
    values ← alloc (size_of w) (mul_usize (slot max_str_len) batch_size) 0
    indicators ← alloc size_of_isize batch_size (pos 0)
    ok (record { max_str_len = max_str_len; values = values; indicators = indicators })

  unfoldable pub indicator_at : TextColumn → ℕ → Run Indicator
  indicator_at col row_index = index col.indicators row_index >>= from_isize

  -- the three arms of `value_at`
  unfoldable pub value_of : TextColumn → ℕ → Indicator → Run Cell
  value_of col row_index Indicator.null = ok none
  value_of col row_index Indicator.no_total =
      let offset = mul_usize row_index (slot col.max_str_len) in
      map_run some (slice col.values offset (add_usize offset col.max_str_len))
  value_of col row_index (Indicator.length length_in_bytes) =
      let offset = mul_usize row_index (slot col.max_str_len) in
      let len = min col.max_str_len (length_in_bytes / size_of w) in
      map_run some (slice col.values offset (add_usize offset len))

  unfoldable pub value_at : TextColumn → ℕ → Run Cell
  unfolding value_of
  value_at col row_index = indicator_at col row_index >>= value_of col row_index

  -- `chunks_exact_mut` panics at a slot of no element
  unfoldable pub resize_max_str : TextColumn → ℕ → ℕ → Run TextColumn
  resize_max_str col new_max_str_len num_rows = do
    new_values ← alloc (size_of w) (mul_usize (slot new_max_str_len) (length col.indicators)) 0
    assert (not (slot col.max_str_len == 0))
    assert (not (slot new_max_str_len == 0))
    values ←
        copy_rows (λ n. n / size_of w) (slot col.max_str_len) (slot new_max_str_len)
          (min col.max_str_len new_max_str_len) num_rows col.indicators col.values new_values
    ok (record col { max_str_len = new_max_str_len; values = values })

  unfoldable pub fill_null : TextColumn → ℕ → ℕ → Run TextColumn
  unfolding store_range
  fill_null col from to = do
    inds ← store_range (to - from) from null_data col.indicators
    ok (record col { indicators = inds })

  unfoldable pub set_max_len : TextColumn → ℕ → Run TextColumn
  unfolding fill_null
  set_max_len col new_max_len = do
    new_values ← alloc (size_of w) (mul_usize (slot new_max_len) (length col.indicators)) 0
    nulled ← fill_null col 0 (length col.indicators)
    ok (record nulled { max_str_len = new_max_len; values = new_values })

  -- The column, and the range `start..end` of its values that the caller may write to.
  unfoldable pub set_mut : TextColumn → ℕ → ℕ → Run (TextColumn × ℕ × ℕ)
  set_mut col row_index len = if ltb col.max_str_len len then panic else do
    indicator ← to_isize (mul_usize len (size_of w))
    inds ← store col.indicators row_index indicator
    let start = mul_usize (slot col.max_str_len) row_index
    let end = add_usize start len
    values ← store col.values end 0
    target ← slice values start end
    ok (record col { values = values; indicators = inds }, start, end)

  unfoldable pub set_value : TextColumn → ℕ → Cell → Run TextColumn
  unfolding set_mut
  set_value col row_index none = do
    inds ← store col.indicators row_index null_data
    ok (record col { indicators = inds })
  set_value col row_index (some input) = do
    target ← set_mut col row_index (length input)
    values ← copy_slice target.0.values target.1 target.2 input
    ok (record (target.0) { values = values })

  -- the part of `append` behind the growth of the buffer
  unfoldable pub append_fitting : TextColumn → ℕ → List ℕ → Run TextColumn
  append_fitting col row_index text = do
    let offset = mul_usize row_index (slot col.max_str_len)
    let end = add_usize offset (length text)
    copied ← copy_slice col.values offset end text
    values ← store copied end 0
    indicator ← to_isize (mul_usize (length text) (size_of w))
    inds ← store col.indicators row_index indicator
    ok (record col { values = values; indicators = inds })

  unfoldable pub append : ⦃g : Growth⦄ → TextColumn → ℕ → Cell → Run TextColumn
  unfolding append_fitting
  append col row_index none = do
    inds ← store col.indicators row_index null_data
    ok (record col { indicators = inds })
  append ⦃g⦄ col row_index (some text) = do
    grown ←
        if ltb col.max_str_len (length text)
        then resize_max_str col (g.grow (length text)) row_index
        else ok col
    append_fitting grown row_index text

  -- `TextColumnWriter::write`: `it.enumerate().take(to)`
  unfoldable pub write_from : ℕ → ℕ → TextColumn → List Cell → Run TextColumn
  write_from zero i col items = ok col
  write_from (suc n) i col [] = ok col
  write_from (suc n) i col (item ∷ items) = do
    col' ← set_value col i item
    write_from n (i + 1) col' items

  unfoldable pub write : TextColumn → ℕ → List Cell → Run TextColumn
  unfolding write_from
  write col to items = write_from to 0 col items

-- `TextColumnIt`
pub record TextColumnIt : Type 0 where
  pub pos : ℕ
  pub num_rows : ℕ
  pub col : TextColumn

-- Maximum number of texts the column may hold
abbrev pub capacity : TextColumn → ℕ
capacity col = length col.indicators

-- The length of a slot in bytes, terminating zero included
abbrev pub buffer_length : Width → TextColumn → Run ℤ
buffer_length narrow col = to_isize (slot col.max_str_len)
buffer_length wide col = to_isize (mul_usize (slot col.max_str_len) 2)

abbrev pub data_type : Width → TextColumn → DataType
data_type narrow col = DataType.varchar col.max_str_len
data_type wide col = DataType.w_varchar col.max_str_len

module _ (w : Width) ⦃s : OdbcSys⦄ where
  abbrev pub iter : TextColumn → ℕ → TextColumnIt
  iter col num_rows = record { pos = 0; num_rows = num_rows; col = col }

  -- `next_impl`
  unfoldable pub next : TextColumnIt → Run (Option Cell × TextColumnIt)
  next it =
      if it.pos == it.num_rows
      then ok (none, it)
      else do cell ← value_at w it.col it.pos; ok (some cell, record it { pos = it.pos + 1 })

  abbrev pub size_hint : TextColumnIt → ℕ
  size_hint it = sub_usize it.num_rows it.pos
