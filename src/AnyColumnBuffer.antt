-- ===== src/AnyColumnBuffer.antt =====
-- buffers/any_column_buffer.rs: a column buffer of a kind that is chosen at run time.
-- An element of fixed size is the number that its bits stand for; every default is zero.
pub mod Binding
pub mod View
pub mod Cells
pub mod Lawful
pub mod Describe
pub mod Kinds
pub mod Described
pub mod Memory
mod Tests
use odbc_api.Common.{
  ℕ, List, Bool, true, false, ℤ, pos, ok, ◌>>=◌, map_run, alloc, slice, copy_slice, replicate,
  length, to_isize,
}
use odbc_api.Common.Panics.{Run}
use odbc_api.Indicator.{OdbcSys}
use odbc_api.DataType.{DataType}
use odbc_api.Description.{BufferKind, BufferDescription, size_of_element}
use odbc_api.TextColumn
use odbc_api.TextColumn.{TextColumn, TextColumnIt, narrow, wide}
use odbc_api.BinColumn
use odbc_api.BinColumn.{BinColumn, BinColumnIt}
use odbc_api.ColumnWithIndicator
use odbc_api.ColumnWithIndicator.{ColumnWithIndicator}

pub data AnyColumnBuffer : Type 0 where
  binary : BinColumn → AnyColumnBuffer
  text : TextColumn → AnyColumnBuffer
  w_text : TextColumn → AnyColumnBuffer
  date time timestamp f64 f32 i8 i16 i32 i64 u8 bit : List ℕ → AnyColumnBuffer
  nullable_date nullable_time nullable_timestamp nullable_f64 nullable_f32 nullable_i8 nullable_i16
        nullable_i32 nullable_i64 nullable_u8 nullable_bit :
      ColumnWithIndicator ℕ → AnyColumnBuffer

-- `vec![T::default(); max_rows]`
abbrev pub plain_new : BufferKind → ℕ → Run (List ℕ)
plain_new kind max_rows = alloc (size_of_element kind) max_rows 0

abbrev pub nullable_new : ⦃s : OdbcSys⦄ → BufferKind → ℕ → Run (ColumnWithIndicator ℕ)
nullable_new kind max_rows = ColumnWithIndicator.new (size_of_element kind) 0 max_rows

unfoldable pub from_kind : ⦃s : OdbcSys⦄ → ℕ → BufferKind → Bool → Run AnyColumnBuffer
from_kind max_rows (BufferKind.binary length) nullable =
    map_run AnyColumnBuffer.binary (BinColumn.new max_rows length)
from_kind max_rows (BufferKind.text max_str_len) nullable =
    map_run AnyColumnBuffer.text (TextColumn.new narrow max_rows max_str_len)
from_kind max_rows (BufferKind.w_text max_str_len) nullable =
    map_run AnyColumnBuffer.w_text (TextColumn.new wide max_rows max_str_len)
from_kind max_rows BufferKind.date false =
    map_run AnyColumnBuffer.date (plain_new BufferKind.date max_rows)
from_kind max_rows BufferKind.time false =
    map_run AnyColumnBuffer.time (plain_new BufferKind.time max_rows)
from_kind max_rows BufferKind.timestamp false =
    map_run AnyColumnBuffer.timestamp (plain_new BufferKind.timestamp max_rows)
from_kind max_rows BufferKind.f64 false =
    map_run AnyColumnBuffer.f64 (plain_new BufferKind.f64 max_rows)
from_kind max_rows BufferKind.f32 false =
    map_run AnyColumnBuffer.f32 (plain_new BufferKind.f32 max_rows)
from_kind max_rows BufferKind.i8 false =
    map_run AnyColumnBuffer.i8 (plain_new BufferKind.i8 max_rows)
from_kind max_rows BufferKind.i16 false =
    map_run AnyColumnBuffer.i16 (plain_new BufferKind.i16 max_rows)
from_kind max_rows BufferKind.i32 false =
    map_run AnyColumnBuffer.i32 (plain_new BufferKind.i32 max_rows)
from_kind max_rows BufferKind.i64 false =
    map_run AnyColumnBuffer.i64 (plain_new BufferKind.i64 max_rows)
from_kind max_rows BufferKind.u8 false =
    map_run AnyColumnBuffer.u8 (plain_new BufferKind.u8 max_rows)
from_kind max_rows BufferKind.bit false =
    map_run AnyColumnBuffer.bit (plain_new BufferKind.bit max_rows)
from_kind max_rows BufferKind.date true =
    map_run AnyColumnBuffer.nullable_date (nullable_new BufferKind.date max_rows)
from_kind max_rows BufferKind.time true =
    map_run AnyColumnBuffer.nullable_time (nullable_new BufferKind.time max_rows)
from_kind max_rows BufferKind.timestamp true =
    map_run AnyColumnBuffer.nullable_timestamp (nullable_new BufferKind.timestamp max_rows)
from_kind max_rows BufferKind.f64 true =
    map_run AnyColumnBuffer.nullable_f64 (nullable_new BufferKind.f64 max_rows)
from_kind max_rows BufferKind.f32 true =
    map_run AnyColumnBuffer.nullable_f32 (nullable_new BufferKind.f32 max_rows)
from_kind max_rows BufferKind.i8 true =
    map_run AnyColumnBuffer.nullable_i8 (nullable_new BufferKind.i8 max_rows)
from_kind max_rows BufferKind.i16 true =
    map_run AnyColumnBuffer.nullable_i16 (nullable_new BufferKind.i16 max_rows)
from_kind max_rows BufferKind.i32 true =
    map_run AnyColumnBuffer.nullable_i32 (nullable_new BufferKind.i32 max_rows)
from_kind max_rows BufferKind.i64 true =
    map_run AnyColumnBuffer.nullable_i64 (nullable_new BufferKind.i64 max_rows)
from_kind max_rows BufferKind.u8 true =
    map_run AnyColumnBuffer.nullable_u8 (nullable_new BufferKind.u8 max_rows)
from_kind max_rows BufferKind.bit true =
    map_run AnyColumnBuffer.nullable_bit (nullable_new BufferKind.bit max_rows)

unfoldable pub from_description : ⦃s : OdbcSys⦄ → ℕ → BufferDescription → Run AnyColumnBuffer
unfolding from_kind
from_description max_rows desc = from_kind max_rows desc.kind desc.nullable

-- `Self::fill_default_slice(&mut col[from..to])`
unfoldable pub fill_default_slice : List ℕ → ℕ → ℕ → Run (List ℕ)
fill_default_slice col from to = do
  rows ← slice col from to
  copy_slice col from to (replicate (length rows) 0)

unfoldable pub fill_default : ⦃s : OdbcSys⦄ → AnyColumnBuffer → ℕ → ℕ → Run AnyColumnBuffer
unfolding fill_default_slice
fill_default (AnyColumnBuffer.binary col) from to =
    map_run AnyColumnBuffer.binary (BinColumn.fill_null col from to)
fill_default (AnyColumnBuffer.text col) from to =
    map_run AnyColumnBuffer.text (TextColumn.fill_null narrow col from to)
fill_default (AnyColumnBuffer.w_text col) from to =
    map_run AnyColumnBuffer.w_text (TextColumn.fill_null wide col from to)
fill_default (AnyColumnBuffer.date col) from to =
    map_run AnyColumnBuffer.date (fill_default_slice col from to)
fill_default (AnyColumnBuffer.time col) from to =
    map_run AnyColumnBuffer.time (fill_default_slice col from to)
fill_default (AnyColumnBuffer.timestamp col) from to =
    map_run AnyColumnBuffer.timestamp (fill_default_slice col from to)
fill_default (AnyColumnBuffer.f64 col) from to =
    map_run AnyColumnBuffer.f64 (fill_default_slice col from to)
fill_default (AnyColumnBuffer.f32 col) from to =
    map_run AnyColumnBuffer.f32 (fill_default_slice col from to)
fill_default (AnyColumnBuffer.i8 col) from to =
    map_run AnyColumnBuffer.i8 (fill_default_slice col from to)
fill_default (AnyColumnBuffer.i16 col) from to =
    map_run AnyColumnBuffer.i16 (fill_default_slice col from to)
fill_default (AnyColumnBuffer.i32 col) from to =
    map_run AnyColumnBuffer.i32 (fill_default_slice col from to)
fill_default (AnyColumnBuffer.i64 col) from to =
    map_run AnyColumnBuffer.i64 (fill_default_slice col from to)
fill_default (AnyColumnBuffer.u8 col) from to =
    map_run AnyColumnBuffer.u8 (fill_default_slice col from to)
fill_default (AnyColumnBuffer.bit col) from to =
    map_run AnyColumnBuffer.bit (fill_default_slice col from to)
fill_default (AnyColumnBuffer.nullable_date col) from to =
    map_run AnyColumnBuffer.nullable_date (ColumnWithIndicator.fill_null col from to)
fill_default (AnyColumnBuffer.nullable_time col) from to =
    map_run AnyColumnBuffer.nullable_time (ColumnWithIndicator.fill_null col from to)
fill_default (AnyColumnBuffer.nullable_timestamp col) from to =
    map_run AnyColumnBuffer.nullable_timestamp (ColumnWithIndicator.fill_null col from to)
fill_default (AnyColumnBuffer.nullable_f64 col) from to =
    map_run AnyColumnBuffer.nullable_f64 (ColumnWithIndicator.fill_null col from to)
fill_default (AnyColumnBuffer.nullable_f32 col) from to =
    map_run AnyColumnBuffer.nullable_f32 (ColumnWithIndicator.fill_null col from to)
fill_default (AnyColumnBuffer.nullable_i8 col) from to =
    map_run AnyColumnBuffer.nullable_i8 (ColumnWithIndicator.fill_null col from to)
fill_default (AnyColumnBuffer.nullable_i16 col) from to =
    map_run AnyColumnBuffer.nullable_i16 (ColumnWithIndicator.fill_null col from to)
fill_default (AnyColumnBuffer.nullable_i32 col) from to =
    map_run AnyColumnBuffer.nullable_i32 (ColumnWithIndicator.fill_null col from to)
fill_default (AnyColumnBuffer.nullable_i64 col) from to =
    map_run AnyColumnBuffer.nullable_i64 (ColumnWithIndicator.fill_null col from to)
fill_default (AnyColumnBuffer.nullable_u8 col) from to =
    map_run AnyColumnBuffer.nullable_u8 (ColumnWithIndicator.fill_null col from to)
fill_default (AnyColumnBuffer.nullable_bit col) from to =
    map_run AnyColumnBuffer.nullable_bit (ColumnWithIndicator.fill_null col from to)

unfoldable pub capacity : AnyColumnBuffer → ℕ
capacity (AnyColumnBuffer.binary col) = BinColumn.capacity col
capacity (AnyColumnBuffer.text col) = TextColumn.capacity col
capacity (AnyColumnBuffer.w_text col) = TextColumn.capacity col
capacity (AnyColumnBuffer.date col) = length col
capacity (AnyColumnBuffer.time col) = length col
capacity (AnyColumnBuffer.timestamp col) = length col
capacity (AnyColumnBuffer.f64 col) = length col
capacity (AnyColumnBuffer.f32 col) = length col
capacity (AnyColumnBuffer.i8 col) = length col
capacity (AnyColumnBuffer.i16 col) = length col
capacity (AnyColumnBuffer.i32 col) = length col
capacity (AnyColumnBuffer.i64 col) = length col
capacity (AnyColumnBuffer.u8 col) = length col
capacity (AnyColumnBuffer.bit col) = length col
capacity (AnyColumnBuffer.nullable_date col) = ColumnWithIndicator.capacity col
capacity (AnyColumnBuffer.nullable_time col) = ColumnWithIndicator.capacity col
capacity (AnyColumnBuffer.nullable_timestamp col) = ColumnWithIndicator.capacity col
capacity (AnyColumnBuffer.nullable_f64 col) = ColumnWithIndicator.capacity col
capacity (AnyColumnBuffer.nullable_f32 col) = ColumnWithIndicator.capacity col
capacity (AnyColumnBuffer.nullable_i8 col) = ColumnWithIndicator.capacity col
capacity (AnyColumnBuffer.nullable_i16 col) = ColumnWithIndicator.capacity col
capacity (AnyColumnBuffer.nullable_i32 col) = ColumnWithIndicator.capacity col
capacity (AnyColumnBuffer.nullable_i64 col) = ColumnWithIndicator.capacity col
capacity (AnyColumnBuffer.nullable_u8 col) = ColumnWithIndicator.capacity col
capacity (AnyColumnBuffer.nullable_bit col) = ColumnWithIndicator.capacity col
