-- ===== src/Metadata.antt =====
-- handles/statement.rs and handles/column_description.rs: the calls that describe the columns of a
-- result set.
pub mod ResultSet
pub mod Describe
pub mod ColName
pub mod DataTypes
pub mod Names
mod Tests
use Prim.Native.String.{String}
use odbc_api.Common.{
  ℕ, zero, suc, ◌+◌, ◌-◌, ◌*◌, ◌/◌, ◌≤◌, List, [], ◌∷◌, ℤ, pos, negsuc, Bool, true, false, Option,
  none, some, ok, panic, ◌>>=◌, to_usize, map_run, length, ltb, leb, if◌then◌else◌, Vec, Reserve,
  resize_zeroed, empty_vec,
}
use odbc_api.Common.Panics.{Run}
use odbc_api.DataType.{SqlDataType, DataType}
use odbc_api.DataType as SqlTypes
use odbc_api.Sql.{SqlReturn, SqlResult, map_result, into_sql_result, is_err}
use odbc_api.Diagnostics.{clamp_small_int}

-- `odbc_sys::Nullability`: the constants that the source names, and any other value
pub data SqlNullability : Type 0 where
  unknown no_nulls nullable : SqlNullability
  other_value : ℤ → SqlNullability

pub data Nullability : Type 0 where
  unknown nullable no_nulls : Nullability

-- `Nullability::new`
unfoldable pub new : SqlNullability → Run Nullability
new SqlNullability.unknown = ok Nullability.unknown
new SqlNullability.no_nulls = ok Nullability.no_nulls
new SqlNullability.nullable = ok Nullability.nullable
new (SqlNullability.other_value other) = panic

pub record ColumnDescription : Type 0 where
  pub name : Vec
  pub data_type : DataType
  pub nullability : Nullability

-- `ColumnDescription::default()`
abbrev pub empty_description : ColumnDescription
empty_description = record {
  name = empty_vec;
  data_type = DataType.unknown;
  nullability = Nullability.unknown;
}

abbrev pub could_be_nullable : ColumnDescription → Bool
could_be_nullable description = elim (description.nullability) [
  | Nullability.nullable ↦ true
  | Nullability.unknown ↦ true
  | Nullability.no_nulls ↦ false
]

-- What `SQLDescribeColW` returns and writes. The buffer for the name comes back.
pub record DescribedColumn : Type 0 where
  pub ret : SqlReturn
  pub name : List ℕ
  pub name_length : ℤ
  pub data_type : SqlDataType
  pub column_size : ℕ
  pub decimal_digits : ℤ
  pub nullable : SqlNullability

-- The numeric attributes of a column that the code asks for
pub data Desc : Type 0 where
  unsigned type concise_type octet_length display_size precision scale : Desc

-- `SQLDescribeColW` with the column, the buffer and its length in characters; `SQLColAttributeW` for
-- the name, with the buffer and its length in bytes, which tells the length of the name in bytes;
-- and for a numeric attribute.
pub record MetadataApi (S : Type 0) : Type 0 where
  pub sql_describe_col : ℕ → List ℕ → ℕ → S → DescribedColumn
  pub sql_col_attribute_name : ℕ → List ℕ → ℕ → S → SqlReturn × List ℕ × ℕ
  pub sql_col_attribute : Desc → ℕ → S → SqlReturn × ℤ
  pub sql_data_type : ℤ → SqlDataType

-- `a + b` on `i16`, which wraps round in a release build
unfoldable pub add_i16 : ℕ → ℕ → ℤ
add_i16 a b = if leb (a + b) 32767 then pos (a + b) else negsuc (65535 - (a + b))

-- `n < i` of a number that is not negative
unfoldable pub lt_pos : ℕ → ℤ → Bool
lt_pos n (pos m) = ltb n m
lt_pos n (negsuc m) = false

-- `usize` to `i16` by `try_into().unwrap()`
abbrev pub to_i16 : ℕ → Run ℕ
to_i16 n = if leb n 32767 then ok n else panic

-- `isize` to `i16` by `try_into().unwrap()`
abbrev pub narrow_i16 : ℤ → Run ℤ
narrow_i16 (pos n) = if leb n 32767 then ok (pos n) else panic
narrow_i16 (negsuc n) = if leb n 32767 then ok (negsuc n) else panic

abbrev flag : ℤ → Run Bool
flag (pos zero) = ok false
flag (pos (suc zero)) = ok true
flag _ = panic

module _ {S : Type 0} ⦃r : Reserve⦄ (api : MetadataApi S) where
  -- The part of `describe_col` behind a successful call. A negative length is a panic: as a
  -- `usize` it is more than can be allocated.
  unfoldable pub described :
      (ColumnDescription → Run (SqlResult (Unit {0}) × ColumnDescription))
      → DescribedColumn
      → SqlResult (Unit {0})
      → ColumnDescription
      → ℤ
      → Run (SqlResult (Unit {0}) × ColumnDescription)
  unfolding add_i16 lt_pos
  described again answer res description (negsuc n) = panic
  described again answer res description (pos name_length) =
      if lt_pos (clamp_small_int (length description.name.elements)) (add_i16 name_length 1)
      then again (record description { name = resize_zeroed description.name (name_length + 1) })
      else ok (
        res,
        record description {
          name = resize_zeroed description.name name_length;
          data_type = SqlTypes.new answer.data_type answer.column_size answer.decimal_digits;
        },
      )

  -- The recursion is on fuel. One that goes deeper is a panic here. The result is that of the call
  -- and the description, which has changed where the call succeeded.
  unfoldable pub describe_col :
      ℕ → ℕ → ColumnDescription → S → Run (SqlResult (Unit {0}) × ColumnDescription)
  unfolding described
  describe_col zero column_number description s = panic
  describe_col (suc fuel) column_number description s = do
    let buffer : Vec = resize_zeroed description.name description.name.capacity
    let answer : DescribedColumn =
        api.sql_describe_col column_number buffer.elements
          (clamp_small_int (length buffer.elements)) s
    let name : Vec = record buffer { elements = answer.name }
    res ← into_sql_result answer.ret "SQLDescribeColW"
    (if is_err res then ok (res, record description { name = name }) else do
      nullability ← new answer.nullable
      described (λ d. describe_col fuel column_number d s) answer res
          (record description { name = name; nullability = nullability }) answer.name_length)

  -- `numeric_col_attribute`
  unfoldable pub numeric_col_attribute : Desc → ℕ → S → Run (SqlResult ℤ)
  numeric_col_attribute attribute column_number s =
      let (ret, out) = api.sql_col_attribute attribute column_number s in
      map_run (map_result (λ _. out)) (into_sql_result ret "SQLColAttributeW")

  -- The closure that `is_unsigned_column` maps over a success
  unfoldable pub as_flag : SqlResult ℤ → Run (SqlResult Bool)
  as_flag (SqlResult.success out) = map_run SqlResult.success (flag out)
  as_flag (SqlResult.success_with_info out) = map_run SqlResult.success_with_info (flag out)
  as_flag (SqlResult.error function) = ok (SqlResult.error function)

  unfoldable pub is_unsigned_column : ℕ → S → Run (SqlResult Bool)
  unfolding numeric_col_attribute as_flag
  is_unsigned_column column_number s =
      numeric_col_attribute Desc.unsigned column_number s >>= as_flag

  -- `SqlDataType(ret.try_into().unwrap())`: the number is to fit an `i16`
  unfoldable pub as_type : SqlResult ℤ → Run (SqlResult SqlDataType)
  as_type (SqlResult.success ret) =
      map_run (λ n. SqlResult.success (api.sql_data_type n)) (narrow_i16 ret)
  as_type (SqlResult.success_with_info ret) =
      map_run (λ n. SqlResult.success_with_info (api.sql_data_type n)) (narrow_i16 ret)
  as_type (SqlResult.error function) = ok (SqlResult.error function)

  unfoldable pub col_type : ℕ → S → Run (SqlResult SqlDataType)
  unfolding numeric_col_attribute as_type
  col_type column_number s = numeric_col_attribute Desc.type column_number s >>= as_type

  unfoldable pub col_concise_type : ℕ → S → Run (SqlResult SqlDataType)
  unfolding numeric_col_attribute as_type
  col_concise_type column_number s =
      numeric_col_attribute Desc.concise_type column_number s >>= as_type

  unfoldable pub col_octet_length : ℕ → S → Run (SqlResult ℤ)
  unfolding numeric_col_attribute
  col_octet_length column_number s = numeric_col_attribute Desc.octet_length column_number s

  unfoldable pub col_display_size : ℕ → S → Run (SqlResult ℤ)
  unfolding numeric_col_attribute
  col_display_size column_number s = numeric_col_attribute Desc.display_size column_number s

  unfoldable pub col_precision : ℕ → S → Run (SqlResult ℤ)
  unfolding numeric_col_attribute
  col_precision column_number s = numeric_col_attribute Desc.precision column_number s

  unfoldable pub col_scale : ℕ → S → Run (SqlResult ℤ)
  unfolding numeric_col_attribute
  col_scale column_number s = numeric_col_attribute Desc.scale column_number s

  -- `SQLColAttributeW` for the name: the buffer's length in bytes is to fit an `i16`.
  unfoldable pub name_attribute : ℕ → Vec → S → Run (SqlResult (Unit {0}) × Vec × ℕ)
  name_attribute column_number buf s = do
    buffer_length ← to_i16 (length buf.elements * 2)
    let answer = api.sql_col_attribute_name column_number buf.elements buffer_length s
    res ← into_sql_result answer.0 "SQLColAttributeW"
    ok (res, record buf { elements = answer.1 }, answer.2)

  -- The end of `col_name`: the buffer shrinks to the name. A length that wraps round is negative,
  -- and no `usize`.
  unfoldable pub shrink_name : SqlResult (Unit {0}) × Vec × ℕ → Run (SqlResult (Unit {0}) × Vec)
  unfolding add_i16
  shrink_name (res, buf, string_length_in_bytes) = do
    bytes ← to_usize (add_i16 string_length_in_bytes 1)
    ok (res, resize_zeroed buf (bytes / 2))

  -- The driver tells the length of the name in bytes, which is not negative.
  unfoldable pub col_name : ℕ → Vec → S → Run (SqlResult (Unit {0}) × Vec)
  col_name column_number buf s = do
    first ← name_attribute column_number (resize_zeroed buf buf.capacity) s
    (if is_err first.0 then ok (first.0, first.1) else do
      let too_short : Bool =
          lt_pos (clamp_small_int (length (first.1).elements * 2)) (add_i16 first.2 2)
      last ←
          if too_short
          then (do
            needed ← to_usize (add_i16 first.2 1)
            name_attribute column_number (resize_zeroed first.1 needed) s)
          else ok first
      shrink_name last)
