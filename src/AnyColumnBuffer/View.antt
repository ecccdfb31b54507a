-- ===== src/AnyColumnBuffer/View.antt =====
-- `AnyColumnView` of buffers/any_column_buffer.rs: the valid rows of a column.
use odbc_api.Common.{ℕ, List, ok, map_run, slice}
use odbc_api.Common.Panics.{Run}
use odbc_api.Indicator.{OdbcSys}
use odbc_api.TextColumn
use odbc_api.TextColumn.{TextColumn, TextColumnIt, narrow, wide}
use odbc_api.BinColumn
use odbc_api.BinColumn.{BinColumn, BinColumnIt}
use odbc_api.ColumnWithIndicator
use odbc_api.ColumnWithIndicator.{ColumnWithIndicator}
use odbc_api.AnyColumnBuffer.{AnyColumnBuffer, fill_default, capacity}
use odbc_api.ColumnarBuffer.{ColumnBuffer}

-- `AnyColumnView`; a slice is the list of its elements.
pub data AnyColumnView : Type 0 where
  text : TextColumnIt → AnyColumnView
  w_text : TextColumnIt → AnyColumnView
  binary : BinColumnIt → AnyColumnView
  date time timestamp f64 f32 i8 i16 i32 i64 u8 bit : List ℕ → AnyColumnView
  nullable_date nullable_time nullable_timestamp nullable_f64 nullable_f32 nullable_i8 nullable_i16
        nullable_i32 nullable_i64 nullable_u8 nullable_bit :
      ColumnWithIndicator ℕ → AnyColumnView

unfoldable pub view : ⦃s : OdbcSys⦄ → AnyColumnBuffer → ℕ → Run AnyColumnView
view (AnyColumnBuffer.binary col) n = ok (AnyColumnView.binary (BinColumn.iter col n))
view (AnyColumnBuffer.text col) n = ok (AnyColumnView.text (TextColumn.iter narrow col n))
view (AnyColumnBuffer.w_text col) n = ok (AnyColumnView.w_text (TextColumn.iter wide col n))
view (AnyColumnBuffer.date col) n = map_run AnyColumnView.date (slice col 0 n)
view (AnyColumnBuffer.time col) n = map_run AnyColumnView.time (slice col 0 n)
view (AnyColumnBuffer.timestamp col) n = map_run AnyColumnView.timestamp (slice col 0 n)
view (AnyColumnBuffer.f64 col) n = map_run AnyColumnView.f64 (slice col 0 n)
view (AnyColumnBuffer.f32 col) n = map_run AnyColumnView.f32 (slice col 0 n)
view (AnyColumnBuffer.i8 col) n = map_run AnyColumnView.i8 (slice col 0 n)
view (AnyColumnBuffer.i16 col) n = map_run AnyColumnView.i16 (slice col 0 n)
view (AnyColumnBuffer.i32 col) n = map_run AnyColumnView.i32 (slice col 0 n)
view (AnyColumnBuffer.i64 col) n = map_run AnyColumnView.i64 (slice col 0 n)
view (AnyColumnBuffer.u8 col) n = map_run AnyColumnView.u8 (slice col 0 n)
view (AnyColumnBuffer.bit col) n = map_run AnyColumnView.bit (slice col 0 n)
view (AnyColumnBuffer.nullable_date col) n =
    map_run AnyColumnView.nullable_date (ColumnWithIndicator.first_rows col n)
view (AnyColumnBuffer.nullable_time col) n =
    map_run AnyColumnView.nullable_time (ColumnWithIndicator.first_rows col n)
view (AnyColumnBuffer.nullable_timestamp col) n =
    map_run AnyColumnView.nullable_timestamp (ColumnWithIndicator.first_rows col n)
view (AnyColumnBuffer.nullable_f64 col) n =
    map_run AnyColumnView.nullable_f64 (ColumnWithIndicator.first_rows col n)
view (AnyColumnBuffer.nullable_f32 col) n =
    map_run AnyColumnView.nullable_f32 (ColumnWithIndicator.first_rows col n)
view (AnyColumnBuffer.nullable_i8 col) n =
    map_run AnyColumnView.nullable_i8 (ColumnWithIndicator.first_rows col n)
view (AnyColumnBuffer.nullable_i16 col) n =
    map_run AnyColumnView.nullable_i16 (ColumnWithIndicator.first_rows col n)
view (AnyColumnBuffer.nullable_i32 col) n =
    map_run AnyColumnView.nullable_i32 (ColumnWithIndicator.first_rows col n)
view (AnyColumnBuffer.nullable_i64 col) n =
    map_run AnyColumnView.nullable_i64 (ColumnWithIndicator.first_rows col n)
view (AnyColumnBuffer.nullable_u8 col) n =
    map_run AnyColumnView.nullable_u8 (ColumnWithIndicator.first_rows col n)
view (AnyColumnBuffer.nullable_bit col) n =
    map_run AnyColumnView.nullable_bit (ColumnWithIndicator.first_rows col n)

-- `impl ColumnBuffer for AnyColumnBuffer`
abbrev pub any_column : ⦃s : OdbcSys⦄ → ColumnBuffer AnyColumnBuffer AnyColumnView
any_column = record { view = view; fill_default = fill_default; capacity = capacity }
