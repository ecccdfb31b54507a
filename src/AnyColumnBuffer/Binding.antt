-- ===== src/AnyColumnBuffer/Binding.antt =====
-- What `CData` and `HasDataType` of buffers/any_column_buffer.rs say of a column: the types that it
-- is bound with, and the length of an element.
use odbc_api.Common.{ℤ, pos, to_isize}
use odbc_api.Common.Panics.{Run}
use odbc_api.DataType.{DataType}
use odbc_api.Description.{BufferKind, size_of_element}
use odbc_api.TextColumn
use odbc_api.TextColumn.{TextColumn, TextColumnIt, narrow, wide}
use odbc_api.BinColumn
use odbc_api.BinColumn.{BinColumn, BinColumnIt}
use odbc_api.AnyColumnBuffer.{AnyColumnBuffer}

-- `odbc_sys::CDataType`, as far as columns are bound by it
pub data CDataType : Type 0 where
  char w_char binary double float type_date type_time type_timestamp : CDataType
  s_tiny_int s_short s_long s_big_int u_tiny_int bit : CDataType

-- `DEFAULT_TIME_PRECISION`
abbrev pub default_time_precision : ℤ
default_time_precision = pos 7

unfoldable pub data_type : AnyColumnBuffer → DataType
data_type (AnyColumnBuffer.binary col) = BinColumn.data_type col
data_type (AnyColumnBuffer.text col) = TextColumn.data_type narrow col
data_type (AnyColumnBuffer.w_text col) = TextColumn.data_type wide col
data_type (AnyColumnBuffer.date col) = DataType.date
data_type (AnyColumnBuffer.time col) = DataType.time default_time_precision
data_type (AnyColumnBuffer.timestamp col) = DataType.timestamp default_time_precision
data_type (AnyColumnBuffer.f64 col) = DataType.double
data_type (AnyColumnBuffer.f32 col) = DataType.real
data_type (AnyColumnBuffer.i8 col) = DataType.tiny_int
data_type (AnyColumnBuffer.i16 col) = DataType.small_int
data_type (AnyColumnBuffer.i32 col) = DataType.integer
data_type (AnyColumnBuffer.i64 col) = DataType.big_int
data_type (AnyColumnBuffer.u8 col) = DataType.small_int
data_type (AnyColumnBuffer.bit col) = DataType.bit
data_type (AnyColumnBuffer.nullable_date col) = DataType.date
data_type (AnyColumnBuffer.nullable_time col) = DataType.time default_time_precision
data_type (AnyColumnBuffer.nullable_timestamp col) = DataType.timestamp default_time_precision
data_type (AnyColumnBuffer.nullable_f64 col) = DataType.double
data_type (AnyColumnBuffer.nullable_f32 col) = DataType.real
data_type (AnyColumnBuffer.nullable_i8 col) = DataType.tiny_int
data_type (AnyColumnBuffer.nullable_i16 col) = DataType.small_int
data_type (AnyColumnBuffer.nullable_i32 col) = DataType.integer
data_type (AnyColumnBuffer.nullable_i64 col) = DataType.big_int
data_type (AnyColumnBuffer.nullable_u8 col) = DataType.small_int
data_type (AnyColumnBuffer.nullable_bit col) = DataType.bit

-- `inner_cdata().cdata_type()`: `T::C_DATA_TYPE` for elements of fixed size
unfoldable pub cdata_type : AnyColumnBuffer → CDataType
cdata_type (AnyColumnBuffer.binary col) = CDataType.binary
cdata_type (AnyColumnBuffer.text col) = CDataType.char
cdata_type (AnyColumnBuffer.w_text col) = CDataType.w_char
cdata_type (AnyColumnBuffer.date col) = CDataType.type_date
cdata_type (AnyColumnBuffer.time col) = CDataType.type_time
cdata_type (AnyColumnBuffer.timestamp col) = CDataType.type_timestamp
cdata_type (AnyColumnBuffer.f64 col) = CDataType.double
cdata_type (AnyColumnBuffer.f32 col) = CDataType.float
cdata_type (AnyColumnBuffer.i8 col) = CDataType.s_tiny_int
cdata_type (AnyColumnBuffer.i16 col) = CDataType.s_short
cdata_type (AnyColumnBuffer.i32 col) = CDataType.s_long
cdata_type (AnyColumnBuffer.i64 col) = CDataType.s_big_int
cdata_type (AnyColumnBuffer.u8 col) = CDataType.u_tiny_int
cdata_type (AnyColumnBuffer.bit col) = CDataType.bit
cdata_type (AnyColumnBuffer.nullable_date col) = CDataType.type_date
cdata_type (AnyColumnBuffer.nullable_time col) = CDataType.type_time
cdata_type (AnyColumnBuffer.nullable_timestamp col) = CDataType.type_timestamp
cdata_type (AnyColumnBuffer.nullable_f64 col) = CDataType.double
cdata_type (AnyColumnBuffer.nullable_f32 col) = CDataType.float
cdata_type (AnyColumnBuffer.nullable_i8 col) = CDataType.s_tiny_int
cdata_type (AnyColumnBuffer.nullable_i16 col) = CDataType.s_short
cdata_type (AnyColumnBuffer.nullable_i32 col) = CDataType.s_long
cdata_type (AnyColumnBuffer.nullable_i64 col) = CDataType.s_big_int
cdata_type (AnyColumnBuffer.nullable_u8 col) = CDataType.u_tiny_int
cdata_type (AnyColumnBuffer.nullable_bit col) = CDataType.bit

-- `inner_cdata().buffer_length()`: `size_of::<T>()` for elements of fixed size
unfoldable pub buffer_length : AnyColumnBuffer → Run ℤ
buffer_length (AnyColumnBuffer.binary col) = BinColumn.buffer_length col
buffer_length (AnyColumnBuffer.text col) = TextColumn.buffer_length narrow col
buffer_length (AnyColumnBuffer.w_text col) = TextColumn.buffer_length wide col
buffer_length (AnyColumnBuffer.date col) = to_isize (size_of_element BufferKind.date)
buffer_length (AnyColumnBuffer.time col) = to_isize (size_of_element BufferKind.time)
buffer_length (AnyColumnBuffer.timestamp col) = to_isize (size_of_element BufferKind.timestamp)
buffer_length (AnyColumnBuffer.f64 col) = to_isize (size_of_element BufferKind.f64)
buffer_length (AnyColumnBuffer.f32 col) = to_isize (size_of_element BufferKind.f32)
buffer_length (AnyColumnBuffer.i8 col) = to_isize (size_of_element BufferKind.i8)
buffer_length (AnyColumnBuffer.i16 col) = to_isize (size_of_element BufferKind.i16)
buffer_length (AnyColumnBuffer.i32 col) = to_isize (size_of_element BufferKind.i32)
buffer_length (AnyColumnBuffer.i64 col) = to_isize (size_of_element BufferKind.i64)
buffer_length (AnyColumnBuffer.u8 col) = to_isize (size_of_element BufferKind.u8)
buffer_length (AnyColumnBuffer.bit col) = to_isize (size_of_element BufferKind.bit)
buffer_length (AnyColumnBuffer.nullable_date col) = to_isize (size_of_element BufferKind.date)
buffer_length (AnyColumnBuffer.nullable_time col) = to_isize (size_of_element BufferKind.time)
buffer_length (AnyColumnBuffer.nullable_timestamp col) =
    to_isize (size_of_element BufferKind.timestamp)
buffer_length (AnyColumnBuffer.nullable_f64 col) = to_isize (size_of_element BufferKind.f64)
buffer_length (AnyColumnBuffer.nullable_f32 col) = to_isize (size_of_element BufferKind.f32)
buffer_length (AnyColumnBuffer.nullable_i8 col) = to_isize (size_of_element BufferKind.i8)
buffer_length (AnyColumnBuffer.nullable_i16 col) = to_isize (size_of_element BufferKind.i16)
buffer_length (AnyColumnBuffer.nullable_i32 col) = to_isize (size_of_element BufferKind.i32)
buffer_length (AnyColumnBuffer.nullable_i64 col) = to_isize (size_of_element BufferKind.i64)
buffer_length (AnyColumnBuffer.nullable_u8 col) = to_isize (size_of_element BufferKind.u8)
buffer_length (AnyColumnBuffer.nullable_bit col) = to_isize (size_of_element BufferKind.bit)
