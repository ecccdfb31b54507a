-- ===== src/Binding.antt =====
-- handles/statement.rs, handles/bind.rs and parameter.rs: binding of parameters and of columns.
pub mod Describe
pub mod Insert
pub mod Rows
use odbc_api.Common.{ℕ, ◌+◌, ◌%◌, ◌^◌, ℤ, List, [], ◌∷◌, ok, map_run}
use odbc_api.Common.Panics.{Run}
use odbc_api.DataType.{SqlDataType, DataType, data_type, column_size, decimal_digits}
use odbc_api.AnyColumnBuffer.Binding.{CDataType}
use odbc_api.Metadata.{SqlNullability}
use odbc_api.Sql.{SqlReturn, SqlResult, Result, into_sql_result}
use odbc_api.Cursor.{lift}
use odbc_api.Statement.{Driver, Call, checked, pure, ◌>>=◌, ◌>>◌}

-- The trait `CData`, with what its two pointers point to. The buffers are borrowed until the
-- statement has been executed, so that this is also what the driver reads.
pub record CData : Type 0 where
  pub cdata_type : CDataType
  pub values : List ℕ
  pub indicators : List ℤ
  pub buffer_length : ℤ

-- `InputParameter`: `CData` with `HasDataType`
pub record Parameter : Type 0 where
  pub cdata : CData
  pub parameter_type : DataType

pub data ParamType : Type 0 where
  input input_output output : ParamType

-- What `SQLBindParameter` is told of a parameter
pub record Bound : Type 0 where
  pub input_output_type : ParamType
  pub cdata : CData
  pub sql_type : SqlDataType
  pub size : ℕ
  pub digits : ℤ

-- What `SQLDescribeParam` tells
pub record DescribedParam : Type 0 where
  pub data_type : SqlDataType
  pub parameter_size : ℕ
  pub decimal_digits : ℤ
  pub nullable : SqlNullability

-- The functions that bind, describe and prepare
pub record BindApi (S : Type 0) : Type 0 where
  pub sql_bind_parameter : ℕ → Bound → S → SqlReturn × S
  pub sql_describe_param : ℕ → S → SqlReturn × DescribedParam
  pub sql_prepare : List ℕ → S → SqlReturn × S

-- `WithDataType<T>`: the values of a parameter, with another type
abbrev pub with_data_type : Parameter → DataType → Parameter
with_data_type parameter parameter_type = record parameter { parameter_type = parameter_type }

module _ {S : Type 0} (api : BindApi S) where
  unfoldable pub bind_parameter : ℕ → ParamType → Parameter → Call S (SqlResult (Unit {0}))
  bind_parameter parameter_number input_output_type parameter s =
      let bound : Bound = record {
        input_output_type = input_output_type;
        cdata = parameter.cdata;
        sql_type = data_type parameter.parameter_type;
        size = column_size parameter.parameter_type;
        digits = decimal_digits parameter.parameter_type;
      } in
      let (ret, s') = api.sql_bind_parameter parameter_number bound s in
      map_run (λ r. (r, s')) (into_sql_result ret "SQLBindParameter")

  unfoldable pub bind_input_parameter : ℕ → Parameter → Call S (SqlResult (Unit {0}))
  unfolding bind_parameter
  bind_input_parameter parameter_number parameter =
      bind_parameter parameter_number ParamType.input parameter

module _ {S : Type 0} (d : Driver S) (api : BindApi S) where
  -- `bind_parameters_to` of a columnar buffer: each column with its number
  unfoldable pub bind_columns :
      {C : Type 0} → (C → Run Parameter) → List (ℕ × C) → Call S (Result (Unit {0}))
  bind_columns parameter [] = pure tt
  bind_columns parameter (column ∷ columns) = lift (parameter column.1) >>= λ bound.
      checked d (bind_input_parameter api column.0 bound) >> bind_columns parameter columns

  -- Of a slice of parameters, which are numbered from one: the index is a `u16`, which wraps round
  -- in a release build.
  unfoldable pub bind_slice : ℕ → List Parameter → Call S (Result (Unit {0}))
  bind_slice index [] = pure tt
  bind_slice index (parameter ∷ parameters) =
      checked d (bind_input_parameter api ((index + 1) % 2 ^ 16) parameter)
      >> bind_slice (index + 1) parameters
