-- ===== src/Metadata/ResultSet.antt =====
-- result_set_metadata.rs: what a cursor or a prepared statement tells of its result set.

use odbc_api.Common.{ℕ, ℤ, Bool, ok, panic, map_run, to_usize, Vec, Reserve}
use odbc_api.Common.Panics.{Run}
use odbc_api.DataType.{SqlDataType, DataType, column_size, decimal_digits}
use odbc_api.Sql.{SqlResult, Result}
use odbc_api.Statement
use odbc_api.Statement.{Driver, Call, checked, pure, ◌>>=◌, ◌>>◌}
use odbc_api.Cursor.{lift}
use odbc_api.Metadata
use odbc_api.Metadata.{MetadataApi, ColumnDescription, empty_description, to_i16, narrow_i16}

module _ {S : Type 0} ⦃r : Reserve⦄ (d : Driver S) (api : MetadataApi S) where
  -- A call that only reads the statement
  abbrev pub reading : {A : Type 0} → (S → Run (SqlResult A)) → Call S (Result A)
  reading call = checked d (λ s. map_run (λ res. (res, s)) (call s))

  -- The outcome of a call, and what it has changed
  abbrev changing : {A : Type 0} → (S → Run (SqlResult (Unit {0}) × A)) → Call S (Result A)
  changing call s = elim (call s) [
    | panic ↦ panic
    | ok (res, a) ↦ (checked d (λ t. ok (res, t)) >>= λ _. pure a) s
  ]

  unfoldable pub describe_col : ℕ → ℕ → ColumnDescription → Call S (Result ColumnDescription)
  describe_col fuel column_number description =
      changing (Metadata.describe_col api fuel column_number description)

  unfoldable pub num_result_cols : Call S (Result ℤ)
  num_result_cols = checked d (Statement.num_result_cols d)

  unfoldable pub is_unsigned_column : ℕ → Call S (Result Bool)
  is_unsigned_column column_number = reading (Metadata.is_unsigned_column api column_number)

  unfoldable pub col_octet_length : ℕ → Call S (Result ℤ)
  col_octet_length column_number = reading (Metadata.col_octet_length api column_number)

  unfoldable pub col_display_size : ℕ → Call S (Result ℤ)
  col_display_size column_number = reading (Metadata.col_display_size api column_number)

  unfoldable pub col_precision : ℕ → Call S (Result ℤ)
  col_precision column_number = reading (Metadata.col_precision api column_number)

  unfoldable pub col_scale : ℕ → Call S (Result ℤ)
  col_scale column_number = reading (Metadata.col_scale api column_number)

  unfoldable pub col_name : ℕ → Vec → Call S (Result Vec)
  col_name column_number buf = changing (Metadata.col_name api column_number buf)

  -- An attribute as a `usize` or an `i16`, by `try_into().unwrap()`
  abbrev pub as_length : (ℕ → Call S (Result ℤ)) → ℕ → Call S (Result ℕ)
  as_length attribute column_number = attribute column_number >>= λ n. lift (to_usize n)

  abbrev pub as_digits : (ℕ → Call S (Result ℤ)) → ℕ → Call S (Result ℤ)
  as_digits attribute column_number = attribute column_number >>= λ n. lift (narrow_i16 n)

  -- The arms of `match kind`. `fuel` is that of `describe_col`.
  unfoldable pub typed : ℕ → ℕ → SqlDataType → Call S (Result DataType)
  typed fuel column_number SqlDataType.unknown_type = pure DataType.unknown
  typed fuel column_number SqlDataType.ext_var_binary = do
    length ← as_length col_octet_length column_number
    pure (DataType.varbinary length)
  typed fuel column_number SqlDataType.ext_long_var_binary = do
    length ← as_length col_octet_length column_number
    pure (DataType.long_varbinary length)
  typed fuel column_number SqlDataType.ext_binary = do
    length ← as_length col_octet_length column_number
    pure (DataType.binary length)
  typed fuel column_number SqlDataType.ext_w_varchar = do
    length ← as_length col_display_size column_number
    pure (DataType.w_varchar length)
  typed fuel column_number SqlDataType.ext_w_char = do
    length ← as_length col_display_size column_number
    pure (DataType.w_char length)
  typed fuel column_number SqlDataType.ext_long_varchar = do
    length ← as_length col_display_size column_number
    pure (DataType.long_varchar length)
  typed fuel column_number SqlDataType.char = do
    length ← as_length col_display_size column_number
    pure (DataType.char length)
  typed fuel column_number SqlDataType.varchar = do
    length ← as_length col_display_size column_number
    pure (DataType.varchar length)
  typed fuel column_number SqlDataType.numeric = do
    precision ← as_length col_precision column_number
    scale ← as_digits col_scale column_number
    pure (DataType.numeric precision scale)
  typed fuel column_number SqlDataType.decimal = do
    precision ← as_length col_precision column_number
    scale ← as_digits col_scale column_number
    pure (DataType.decimal precision scale)
  typed fuel column_number SqlDataType.integer = pure DataType.integer
  typed fuel column_number SqlDataType.smallint = pure DataType.small_int
  typed fuel column_number SqlDataType.float = do
    precision ← as_length col_precision column_number
    pure (DataType.float precision)
  typed fuel column_number SqlDataType.real = pure DataType.real
  typed fuel column_number SqlDataType.double = pure DataType.double
  typed fuel column_number SqlDataType.date = pure DataType.date
  typed fuel column_number SqlDataType.time = do
    precision ← as_digits col_precision column_number
    pure (DataType.time precision)
  typed fuel column_number SqlDataType.timestamp = do
    precision ← as_digits col_precision column_number
    pure (DataType.timestamp precision)
  typed fuel column_number SqlDataType.ext_big_int = pure DataType.big_int
  typed fuel column_number SqlDataType.ext_tiny_int = pure DataType.tiny_int
  typed fuel column_number SqlDataType.ext_bit = pure DataType.bit
  typed fuel column_number (SqlDataType.other_value value) = do
    description ← describe_col fuel column_number empty_description
    pure (
        DataType.other (SqlDataType.other_value value) (column_size description.data_type)
          (decimal_digits description.data_type))

  unfoldable pub col_data_type : ℕ → ℕ → Call S (Result DataType)
  col_data_type fuel column_number = do
    kind ← reading (Metadata.col_concise_type api column_number)
    typed fuel column_number kind
