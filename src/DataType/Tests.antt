-- ===== src/DataType/Tests.antt =====
-- Data types at concrete columns: the theorems at inputs that meet their hypotheses.
use odbc_api.Common.{some, refl, ◌≡◌, pos, arith}
use odbc_api.DataType.{
  DataType, new, data_type, column_size, decimal_digits, display_size, utf8_len, utf16_len,
}
use odbc_api.DataType.RoundTrip.{new-data_type}
use odbc_api.DataType.Sizes.{IsLeast, utf8_width, utf16_width, characters, utf8_len-HasLengths}

new-data_type_example :
    new
      (data_type (DataType.decimal 10 (pos 2)))
      (column_size (DataType.decimal 10 (pos 2)))
      (decimal_digits (DataType.decimal 10 (pos 2)))
    ≡ DataType.decimal 10 (pos 2)
new-data_type_example = new-data_type (DataType.decimal 10 (pos 2)) tt

-- Twenty characters
utf8_len-HasLengths_example :
    IsLeast utf8_width 20 (utf8_len (DataType.w_char 20))
    × IsLeast utf16_width 20 (utf16_len (DataType.w_char 20))
unfolding column_size characters
utf8_len-HasLengths_example = utf8_len-HasLengths (DataType.w_char 20) (omega arith)

-- A long VARCHAR may have characters that take four bytes, but only one byte is counted for each.
long_varchar : utf8_len (DataType.long_varchar 20) ≡ some 20
unfolding utf8_len display_size
long_varchar = refl
