-- ===== src/Metadata/DataTypes.antt =====
-- The type that `col_data_type` builds from the attributes of a column, against `DataType::new`.
use odbc_api.Common.{ℕ, ◌≤◌, ◌≡◌, refl, ℤ, pos, ok, le→leb, Reserve}
use odbc_api.DataType.{SqlDataType, DataType}
use odbc_api.DataType as SqlTypes
use odbc_api.Sql.{SqlReturn, SqlResult, Result, into_result, into_sql_result, map_result}
use odbc_api.Statement.{Driver, ◌>>=◌}
use odbc_api.Metadata.{
  MetadataApi, Desc, narrow_i16, numeric_col_attribute, col_concise_type, as_type,
}
use odbc_api.Metadata.ResultSet.{
  typed, col_data_type, col_octet_length, col_display_size, col_precision, col_scale,
}

-- The attributes that the driver tells of the column
pub record Attributes : Type 0 where
  pub octet_length : ℕ
  pub display_size : ℕ
  pub precision : ℕ
  pub scale : ℤ

pub record HasAttributes {S : Type 0} (api : MetadataApi S) (s : S) (column_number : ℕ)
    (kind : SqlDataType) (a : Attributes) : Type 0 where
  pub code : ℤ
  pub code_fits : narrow_i16 code ≡ ok code
  pub code_kind : api.sql_data_type code ≡ kind
  pub concise_type :
      api.sql_col_attribute Desc.concise_type column_number s ≡ (SqlReturn.success, code)
  pub octet_length :
      api.sql_col_attribute Desc.octet_length column_number s
      ≡ (SqlReturn.success, pos a.octet_length)
  pub display_size :
      api.sql_col_attribute Desc.display_size column_number s
      ≡ (SqlReturn.success, pos a.display_size)
  pub precision :
      api.sql_col_attribute Desc.precision column_number s ≡ (SqlReturn.success, pos a.precision)
  pub scale : api.sql_col_attribute Desc.scale column_number s ≡ (SqlReturn.success, a.scale)
  pub precision_fits : a.precision ≤ 32767
  pub scale_fits : narrow_i16 a.scale ≡ ok a.scale

-- A code with a variant of its own
abbrev pub IsKnown : SqlDataType → Type 0
IsKnown (SqlDataType.other_value value) = ⊥
IsKnown _ = Unit

-- The attribute that gives the size of a type: bytes of a binary, characters of a text, digits of
-- a number.
abbrev pub size_attribute : Attributes → SqlDataType → ℕ
size_attribute a SqlDataType.ext_var_binary = a.octet_length
size_attribute a SqlDataType.ext_long_var_binary = a.octet_length
size_attribute a SqlDataType.ext_binary = a.octet_length
size_attribute a SqlDataType.numeric = a.precision
size_attribute a SqlDataType.decimal = a.precision
size_attribute a SqlDataType.float = a.precision
size_attribute a _ = a.display_size

-- The attribute that gives its decimal digits: those of the fraction of a second, or of a number
abbrev pub digits_attribute : Attributes → SqlDataType → ℤ
digits_attribute a SqlDataType.time = pos a.precision
digits_attribute a SqlDataType.timestamp = pos a.precision
digits_attribute a _ = a.scale

module _ {S : Type 0} ⦃r : Reserve⦄ (d : Driver S) (api : MetadataApi S) (s : S)
    (fuel column_number : ℕ) (a : Attributes) where
  attribute_lem :
      (desc : Desc) (n : ℤ)
      → api.sql_col_attribute desc column_number s ≡ (SqlReturn.success, n)
      → numeric_col_attribute api desc column_number s ≡ ok (SqlResult.success n)
  unfolding numeric_col_attribute into_sql_result map_result
  attribute_lem desc n e = rw e

  module _ {kind : SqlDataType} (h : HasAttributes api s column_number kind a) where
    octets : col_octet_length d api column_number s ≡ ok (Result.done (pos a.octet_length), s)
    unfolding col_octet_length odbc_api.Metadata.col_octet_length into_result
    octets = rw (attribute_lem Desc.octet_length (pos a.octet_length) h.octet_length)

    characters : col_display_size d api column_number s ≡ ok (Result.done (pos a.display_size), s)
    unfolding col_display_size odbc_api.Metadata.col_display_size into_result
    characters = rw (attribute_lem Desc.display_size (pos a.display_size) h.display_size)

    digits : col_precision d api column_number s ≡ ok (Result.done (pos a.precision), s)
    unfolding col_precision odbc_api.Metadata.col_precision into_result
    digits = rw (attribute_lem Desc.precision (pos a.precision) h.precision)

    scaled : col_scale d api column_number s ≡ ok (Result.done a.scale, s)
    unfolding col_scale odbc_api.Metadata.col_scale into_result
    scaled = rw (attribute_lem Desc.scale a.scale h.scale)

    concise : col_concise_type api column_number s ≡ ok (SqlResult.success kind)
    unfolding col_concise_type as_type
    concise = rw (attribute_lem Desc.concise_type h.code h.concise_type, h.code_fits, h.code_kind)

  typed_lem :
      (kind : SqlDataType)
      → HasAttributes api s column_number kind a
      → IsKnown kind
      → typed d api fuel column_number kind s
        ≡ ok (Result.done (SqlTypes.new kind (size_attribute a kind) (digits_attribute a kind)), s)
  unfolding typed SqlTypes.new
  typed_lem SqlDataType.unknown_type h k = refl
  typed_lem SqlDataType.integer h k = refl
  typed_lem SqlDataType.smallint h k = refl
  typed_lem SqlDataType.real h k = refl
  typed_lem SqlDataType.double h k = refl
  typed_lem SqlDataType.date h k = refl
  typed_lem SqlDataType.ext_big_int h k = refl
  typed_lem SqlDataType.ext_tiny_int h k = refl
  typed_lem SqlDataType.ext_bit h k = refl
  typed_lem SqlDataType.ext_var_binary h k = rw (octets h, ◌>>=◌)
  typed_lem SqlDataType.ext_long_var_binary h k = rw (octets h, ◌>>=◌)
  typed_lem SqlDataType.ext_binary h k = rw (octets h, ◌>>=◌)
  typed_lem SqlDataType.ext_w_varchar h k = rw (characters h, ◌>>=◌)
  typed_lem SqlDataType.ext_w_char h k = rw (characters h, ◌>>=◌)
  typed_lem SqlDataType.ext_long_varchar h k = rw (characters h, ◌>>=◌)
  typed_lem SqlDataType.char h k = rw (characters h, ◌>>=◌)
  typed_lem SqlDataType.varchar h k = rw (characters h, ◌>>=◌)
  typed_lem SqlDataType.numeric h k = rw (digits h, scaled h, h.scale_fits, ◌>>=◌)
  typed_lem SqlDataType.decimal h k = rw (digits h, scaled h, h.scale_fits, ◌>>=◌)
  typed_lem SqlDataType.float h k = rw (digits h, ◌>>=◌)
  typed_lem SqlDataType.time h k = rw (digits h, le→leb a.precision 32767 h.precision_fits, ◌>>=◌)
  typed_lem SqlDataType.timestamp h k =
      rw (digits h, le→leb a.precision 32767 h.precision_fits, ◌>>=◌)
  typed_lem (SqlDataType.other_value value) h k = absurd k

  -- For a column whose attributes the driver tells, with a concise type that has a variant, and a
  -- precision and a scale that fit an `i16`, `col_data_type` does not panic or fail. It gives the
  -- type that `DataType::new` makes of the concise type, the attribute that is the size of such a
  -- type, and the one that is its decimal digits.
  pub col_data_type-new :
      (kind : SqlDataType)
      → HasAttributes api s column_number kind a
      → IsKnown kind
      → col_data_type d api fuel column_number s
        ≡ ok (Result.done (SqlTypes.new kind (size_attribute a kind) (digits_attribute a kind)), s)
  unfolding col_data_type into_result
  col_data_type-new kind h k = rw (concise h, ◌>>=◌) (typed_lem kind h k)
