-- ===== src/Description.antt =====
-- buffers/description.rs: the kinds of column buffers, the kind for a data type, and the memory
-- that one row of a kind takes.
pub mod Fits
mod Tests
use odbc_api.Common.{
  ℕ, ◌+◌, ℤ, pos, eq_ℤ, Bool, true, false, ◌&&◌, Option, none, some, ok, ◌>>=◌, unwrap, ltb, leb,
  add_usize, mul_usize, if◌then◌else◌,
}
use odbc_api.Common.Panics.{Run}
use odbc_api.DataType.{DataType, display_size}

pub data BufferKind : Type 0 where
  binary : ℕ → BufferKind
  text : ℕ → BufferKind
  w_text : ℕ → BufferKind
  f64 f32 date time timestamp i8 i16 i32 i64 u8 bit : BufferKind

pub record BufferDescription : Type 0 where
  pub nullable : Bool
  pub kind : BufferKind

-- `size_of` of the element types. The three structures are those of `odbc_sys`, laid out as in C:
-- `Date` and `Time` are three 16 bit numbers, `Timestamp` is six and one of 32 bit.
abbrev pub size_of_element : BufferKind → ℕ
size_of_element (BufferKind.binary length) = 1
size_of_element (BufferKind.text max_str_len) = 1
size_of_element (BufferKind.w_text max_str_len) = 2
size_of_element BufferKind.f64 = 8
size_of_element BufferKind.f32 = 4
size_of_element BufferKind.date = 6
size_of_element BufferKind.time = 6
size_of_element BufferKind.timestamp = 16
size_of_element BufferKind.i8 = 1
size_of_element BufferKind.i16 = 2
size_of_element BufferKind.i32 = 4
size_of_element BufferKind.i64 = 8
size_of_element BufferKind.u8 = 1
size_of_element BufferKind.bit = 1

unfoldable pub bytes_per_row : BufferDescription → ℕ
bytes_per_row desc =
    let indicator : ℕ = 8 in
    let opt_indicator : ℕ = if desc.nullable then indicator else 0 in
    elim (desc.kind) [
      | BufferKind.binary length ↦ add_usize length indicator
      | BufferKind.text max_str_len ↦ add_usize (add_usize max_str_len 1) indicator
      | BufferKind.w_text max_str_len ↦ add_usize (mul_usize (add_usize max_str_len 1) 2) indicator
      | BufferKind.f64 ↦ size_of_element BufferKind.f64 + opt_indicator
      | BufferKind.f32 ↦ size_of_element BufferKind.f32 + opt_indicator
      | BufferKind.date ↦ size_of_element BufferKind.date + opt_indicator
      | BufferKind.time ↦ size_of_element BufferKind.time + opt_indicator
      | BufferKind.timestamp ↦ size_of_element BufferKind.timestamp + opt_indicator
      | BufferKind.i8 ↦ size_of_element BufferKind.i8 + opt_indicator
      | BufferKind.i16 ↦ size_of_element BufferKind.i16 + opt_indicator
      | BufferKind.i32 ↦ size_of_element BufferKind.i32 + opt_indicator
      | BufferKind.i64 ↦ size_of_element BufferKind.i64 + opt_indicator
      | BufferKind.u8 ↦ size_of_element BufferKind.u8 + opt_indicator
      | BufferKind.bit ↦ size_of_element BufferKind.bit + opt_indicator
    ]

-- The arm that renders a value of the type as text.
abbrev as_text : DataType → Run (Option BufferKind)
as_text dt = do size ← unwrap (display_size dt); ok (some (BufferKind.text size))

-- The arms for NUMERIC and DECIMAL. The first one that fits is taken.
unfoldable pub from_exact_numeric : DataType → ℕ → ℤ → Run (Option BufferKind)
from_exact_numeric dt precision scale =
    if eq_ℤ scale (pos 0) && ltb precision 3
    then ok (some BufferKind.i8)
    else if eq_ℤ scale (pos 0) && ltb precision 10
    then ok (some BufferKind.i32)
    else if eq_ℤ scale (pos 0) && ltb precision 19
    then ok (some BufferKind.i64)
    else as_text dt

unfoldable pub from_data_type : DataType → Run (Option BufferKind)
unfolding from_exact_numeric
from_data_type (DataType.numeric precision scale) =
    from_exact_numeric (DataType.numeric precision scale) precision scale
from_data_type (DataType.decimal precision scale) =
    from_exact_numeric (DataType.decimal precision scale) precision scale
from_data_type DataType.integer = ok (some BufferKind.i32)
from_data_type DataType.small_int = ok (some BufferKind.i16)
from_data_type (DataType.float precision) =
    if leb precision 24
    then ok (some BufferKind.f32)
    else if leb precision 53
    then ok (some BufferKind.f64)
    else ok none
from_data_type DataType.real = ok (some BufferKind.f32)
from_data_type DataType.double = ok (some BufferKind.f64)
from_data_type DataType.date = ok (some BufferKind.date)
from_data_type (DataType.time precision) =
    if eq_ℤ precision (pos 0) then ok (some BufferKind.time) else as_text (DataType.time precision)
from_data_type (DataType.timestamp precision) = ok (some BufferKind.timestamp)
from_data_type DataType.big_int = ok (some BufferKind.i64)
from_data_type DataType.tiny_int = ok (some BufferKind.i8)
from_data_type DataType.bit = ok (some BufferKind.bit)
from_data_type (DataType.varbinary length) = ok (some (BufferKind.binary length))
from_data_type (DataType.binary length) = ok (some (BufferKind.binary length))
from_data_type (DataType.long_varbinary length) = ok (some (BufferKind.binary length))
from_data_type (DataType.varchar length) = ok (some (BufferKind.text length))
from_data_type (DataType.w_varchar length) = ok (some (BufferKind.text length))
from_data_type (DataType.w_char length) = ok (some (BufferKind.text length))
from_data_type (DataType.char length) = ok (some (BufferKind.text length))
from_data_type (DataType.long_varchar length) = ok (some (BufferKind.text length))
from_data_type DataType.unknown = ok none
from_data_type (DataType.other kind column_size decimal_digits) = ok none
