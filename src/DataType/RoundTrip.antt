-- ===== src/DataType/RoundTrip.antt =====
-- A data type and the three values that describe it to ODBC determine one another.
use odbc_api.Common.{ℕ, ◌≡◌, refl, ℤ}
use odbc_api.DataType.{SqlDataType, DataType, new, data_type, column_size, decimal_digits}

-- The catch-all carries a value for which there is no variant of its own.
abbrev pub IsCanonical : DataType → Type 0
IsCanonical (DataType.other (SqlDataType.other_value value) column_size decimal_digits) = Unit
IsCanonical (DataType.other _ column_size decimal_digits) = ⊥
IsCanonical _ = Unit

-- The type code that a data type was made from is the one it is bound with, whatever the sizes.
pub data_type-new :
    (kind : SqlDataType) (size : ℕ) (digits : ℤ) → data_type (new kind size digits) ≡ kind
unfolding data_type new
data_type-new SqlDataType.unknown_type size digits = refl
data_type-new _ size digits = refl

-- The code, the size and the digits that a data type is bound with describe it: made from them, it
-- is the same again, where the catch-all is used for no value that has a variant of its own.
pub new-data_type :
    (dt : DataType) → IsCanonical dt → new (data_type dt) (column_size dt) (decimal_digits dt) ≡ dt
unfolding data_type new column_size decimal_digits
new-data_type (DataType.other SqlDataType.unknown_type size digits) h = absurd h
new-data_type (DataType.other (SqlDataType.other_value value) size digits) h = refl
new-data_type (DataType.other _ size digits) h = absurd h
new-data_type _ h = refl

-- Whatever a driver describes a column by, the type made from it stands for its own code.
pub new-IsCanonical :
    (kind : SqlDataType) (size : ℕ) (digits : ℤ) → IsCanonical (new kind size digits)
unfolding new
new-IsCanonical SqlDataType.unknown_type size digits = tt
new-IsCanonical _ size digits = tt
