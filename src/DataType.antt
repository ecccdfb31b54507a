-- ===== src/DataType.antt =====
-- handles/data_type.rs: the SQL data types, and the sizes that binding and displaying them takes.
pub mod RoundTrip
pub mod Sizes
mod Tests
use odbc_api.Common.{
  ℕ, ◌+◌, ◌-◌, ℤ, pos, negsuc, eq_ℤ, Option, none, some, add_usize, mul_usize, usize_mod,
  if◌then◌else◌,
}

-- `odbc_sys::SqlDataType`: the constants that the source names, which are different values, and any
-- other value.
pub data SqlDataType : Type 0 where
  unknown_type ext_long_varchar ext_binary ext_var_binary ext_long_var_binary : SqlDataType
  char varchar numeric decimal integer smallint float real double : SqlDataType
  date time timestamp ext_big_int ext_tiny_int ext_bit ext_w_varchar ext_w_char : SqlDataType
  other_value : ℤ → SqlDataType

pub data DataType : Type 0 where
  unknown : DataType
  char : ℕ → DataType
  w_char : ℕ → DataType
  numeric : ℕ → ℤ → DataType
  decimal : ℕ → ℤ → DataType
  integer : DataType
  small_int : DataType
  float : ℕ → DataType
  real : DataType
  double : DataType
  varchar : ℕ → DataType
  w_varchar : ℕ → DataType
  long_varchar : ℕ → DataType
  long_varbinary : ℕ → DataType
  date : DataType
  time : ℤ → DataType
  timestamp : ℤ → DataType
  big_int : DataType
  tiny_int : DataType
  bit : DataType
  varbinary : ℕ → DataType
  binary : ℕ → DataType
  other : SqlDataType → ℕ → ℤ → DataType

unfoldable pub new : SqlDataType → ℕ → ℤ → DataType
new SqlDataType.unknown_type column_size decimal_digits = DataType.unknown
new SqlDataType.ext_long_varchar column_size decimal_digits = DataType.long_varchar column_size
new SqlDataType.ext_binary column_size decimal_digits = DataType.binary column_size
new SqlDataType.ext_var_binary column_size decimal_digits = DataType.varbinary column_size
new SqlDataType.ext_long_var_binary column_size decimal_digits = DataType.long_varbinary column_size
new SqlDataType.char column_size decimal_digits = DataType.char column_size
new SqlDataType.varchar column_size decimal_digits = DataType.varchar column_size
new SqlDataType.numeric column_size decimal_digits = DataType.numeric column_size decimal_digits
new SqlDataType.decimal column_size decimal_digits = DataType.decimal column_size decimal_digits
new SqlDataType.integer column_size decimal_digits = DataType.integer
new SqlDataType.smallint column_size decimal_digits = DataType.small_int
new SqlDataType.float column_size decimal_digits = DataType.float column_size
new SqlDataType.real column_size decimal_digits = DataType.real
new SqlDataType.double column_size decimal_digits = DataType.double
new SqlDataType.date column_size decimal_digits = DataType.date
new SqlDataType.time column_size decimal_digits = DataType.time decimal_digits
new SqlDataType.timestamp column_size decimal_digits = DataType.timestamp decimal_digits
new SqlDataType.ext_big_int column_size decimal_digits = DataType.big_int
new SqlDataType.ext_tiny_int column_size decimal_digits = DataType.tiny_int
new SqlDataType.ext_bit column_size decimal_digits = DataType.bit
new SqlDataType.ext_w_varchar column_size decimal_digits = DataType.w_varchar column_size
new SqlDataType.ext_w_char column_size decimal_digits = DataType.w_char column_size
new (SqlDataType.other_value value) column_size decimal_digits =
    DataType.other (SqlDataType.other_value value) column_size decimal_digits

unfoldable pub data_type : DataType → SqlDataType
data_type DataType.unknown = SqlDataType.unknown_type
data_type (DataType.binary length) = SqlDataType.ext_binary
data_type (DataType.varbinary length) = SqlDataType.ext_var_binary
data_type (DataType.long_varbinary length) = SqlDataType.ext_long_var_binary
data_type (DataType.char length) = SqlDataType.char
data_type (DataType.numeric precision scale) = SqlDataType.numeric
data_type (DataType.decimal precision scale) = SqlDataType.decimal
data_type DataType.integer = SqlDataType.integer
data_type DataType.small_int = SqlDataType.smallint
data_type (DataType.float precision) = SqlDataType.float
data_type DataType.real = SqlDataType.real
data_type DataType.double = SqlDataType.double
data_type (DataType.varchar length) = SqlDataType.varchar
data_type (DataType.long_varchar length) = SqlDataType.ext_long_varchar
data_type DataType.date = SqlDataType.date
data_type (DataType.time precision) = SqlDataType.time
data_type (DataType.timestamp precision) = SqlDataType.timestamp
data_type DataType.big_int = SqlDataType.ext_big_int
data_type DataType.tiny_int = SqlDataType.ext_tiny_int
data_type DataType.bit = SqlDataType.ext_bit
data_type (DataType.w_varchar length) = SqlDataType.ext_w_varchar
data_type (DataType.w_char length) = SqlDataType.ext_w_char
data_type (DataType.other kind column_size decimal_digits) = kind

unfoldable pub column_size : DataType → ℕ
column_size (DataType.char length) = length
column_size (DataType.varchar length) = length
column_size (DataType.varbinary length) = length
column_size (DataType.long_varbinary length) = length
column_size (DataType.binary length) = length
column_size (DataType.w_char length) = length
column_size (DataType.w_varchar length) = length
column_size (DataType.long_varchar length) = length
column_size (DataType.float precision) = precision
column_size (DataType.numeric precision scale) = precision
column_size (DataType.decimal precision scale) = precision
column_size (DataType.other kind size decimal_digits) = size
column_size _ = 0

unfoldable pub decimal_digits : DataType → ℤ
decimal_digits (DataType.numeric precision scale) = scale
decimal_digits (DataType.decimal precision scale) = scale
decimal_digits (DataType.time precision) = precision
decimal_digits (DataType.timestamp precision) = precision
decimal_digits (DataType.other kind column_size digits) = digits
decimal_digits _ = pos 0

-- `n as usize` of a signed number: a negative one is extended by its sign
abbrev pub as_usize : ℤ → ℕ
as_usize (pos n) = n
as_usize (negsuc n) = usize_mod - (n + 1)

unfoldable pub display_size : DataType → Option ℕ
display_size DataType.unknown = none
display_size (DataType.other kind column_size digits) = none
display_size (DataType.varbinary length) = some (mul_usize length 2)
display_size (DataType.binary length) = some (mul_usize length 2)
display_size (DataType.long_varbinary length) = some (mul_usize length 2)
display_size (DataType.varchar length) = some length
display_size (DataType.w_varchar length) = some length
display_size (DataType.w_char length) = some length
display_size (DataType.char length) = some length
display_size (DataType.long_varchar length) = some length
display_size (DataType.numeric precision scale) = some (add_usize precision 2)
display_size (DataType.decimal precision scale) = some (add_usize precision 2)
display_size DataType.integer = some 11
display_size DataType.small_int = some 6
display_size (DataType.float precision) = some 24
display_size DataType.double = some 24
display_size DataType.real = some 14
display_size DataType.date = some 10
display_size (DataType.time precision) =
    some (if eq_ℤ precision (pos 0) then 8 else add_usize 9 (as_usize precision))
display_size (DataType.timestamp precision) =
    some (if eq_ℤ precision (pos 0) then 19 else add_usize 20 (as_usize precision))
display_size DataType.big_int = some 20
display_size DataType.tiny_int = some 4
display_size DataType.bit = some 1

unfoldable pub utf8_len : DataType → Option ℕ
utf8_len (DataType.varchar length) = some (mul_usize length 4)
utf8_len (DataType.w_varchar length) = some (mul_usize length 4)
utf8_len (DataType.w_char length) = some (mul_usize length 4)
utf8_len (DataType.char length) = some (mul_usize length 4)
utf8_len rest = display_size rest

unfoldable pub utf16_len : DataType → Option ℕ
utf16_len (DataType.varchar length) = some (mul_usize length 2)
utf16_len (DataType.w_varchar length) = some (mul_usize length 2)
utf16_len (DataType.w_char length) = some (mul_usize length 2)
utf16_len (DataType.char length) = some (mul_usize length 2)
utf16_len rest = display_size rest
