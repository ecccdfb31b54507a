-- ===== src/Binding/Describe.antt =====
-- handles/statement.rs: `describe_param` and `prepare`.
use odbc_api.Common.{ℕ, List, ok, ◌>>=◌, ◌>>◌, assert, leb, length, map_run}
use odbc_api.Common.Panics.{Run}
use odbc_api.DataType.{DataType}
use odbc_api.DataType as SqlTypes
use odbc_api.Metadata.{Nullability}
use odbc_api.Metadata
use odbc_api.Sql.{SqlResult, map_result, into_sql_result}
use odbc_api.Statement.{Call}
use odbc_api.Binding.{DescribedParam, BindApi}

pub record ParameterDescription : Type 0 where
  pub nullable : Nullability
  pub data_type : DataType

module _ {S : Type 0} (api : BindApi S) where
  -- `.on_success` of the call for the type and the nullability
  unfoldable pub described_param :
      DescribedParam → SqlResult (Unit {0}) → Run (SqlResult ParameterDescription)
  described_param answer (SqlResult.error function) = ok (SqlResult.error function)
  described_param answer res = do
    nullable ← Metadata.new answer.nullable
    ok (
        map_result
          (λ _. record {
            nullable = nullable;
            data_type = SqlTypes.new answer.data_type answer.parameter_size answer.decimal_digits;
          })
          res)

  unfoldable pub describe_param : ℕ → Call S (SqlResult ParameterDescription)
  unfolding described_param
  describe_param parameter_number s =
      let (ret, answer) = api.sql_describe_param parameter_number s in
      into_sql_result ret "SQLDescribeParam" >>= λ res.
      map_run (λ r. (r, s)) (described_param answer res)

  -- The length of the text is to fit an `i32`.
  unfoldable pub prepare : List ℕ → Call S (SqlResult (Unit {0}))
  prepare statement_text s =
      let (ret, s') = api.sql_prepare statement_text s in
      assert (leb (length statement_text) 2147483647)
      >> map_run (λ r. (r, s')) (into_sql_result ret "SQLPrepareW")
