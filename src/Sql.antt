-- ===== src/Sql.antt =====
-- handles/sql_result.rs and error.rs: what an ODBC call returns, and how it becomes a `Result`.
use Prim.Native.String.{String}
use odbc_api.Common.{ℕ, ℤ, List, Bool, true, false, Option, none, some, ok, panic, map_run}
use odbc_api.Common.Panics.{Run}

-- `odbc_sys::SqlReturn`: the constants that the source names, and any other value.
pub data SqlReturn : Type 0 where
  success success_with_info no_data need_data error : SqlReturn
  other_value : ℤ → SqlReturn

-- `handles::Record`: the SQLSTATE, the native error and the message.
pub record Record : Type 0 where
  pub state : List ℕ
  pub native_error : ℤ
  pub message : List ℕ

pub data SqlResult (A : Type 0) : Type 0 where
  success : A → SqlResult A
  success_with_info : A → SqlResult A
  error : String → SqlResult A

-- An error of reading the input is a number here: it is only passed on.
pub data Error : Type 0 where
  failed_setting_connection_pooling : Error
  failed_allocating_environment : Error
  no_diagnostics : String → Error
  diagnostics : Record → String → Error
  aborted_connection_string_completion : Error
  unsupported_odbc_api_version : Record → Error
  failed_reading_input : ℕ → Error
  invalid_row_array_size : Record → ℕ → Error

-- `Result<A, Error>`
pub data Result (A : Type 0) : Type 0 where
  done : A → Result A
  failed : Error → Result A

module _ {A B : Type 0} where
  unfoldable pub map_result : (A → B) → SqlResult A → SqlResult B
  map_result f (SqlResult.success v) = SqlResult.success (f v)
  map_result f (SqlResult.success_with_info v) = SqlResult.success_with_info (f v)
  map_result f (SqlResult.error function) = SqlResult.error function

unfoldable pub is_err : {A : Type 0} → SqlResult A → Bool
is_err (SqlResult.error function) = true
is_err _ = false

unfoldable pub unwrap_result : {A : Type 0} → SqlResult A → Run A
unwrap_result (SqlResult.success v) = ok v
unwrap_result (SqlResult.success_with_info v) = ok v
unwrap_result (SqlResult.error function) = panic

unfoldable pub into_sql_result : SqlReturn → String → Run (SqlResult (Unit {0}))
into_sql_result SqlReturn.success function = ok (SqlResult.success tt)
into_sql_result SqlReturn.success_with_info function = ok (SqlResult.success_with_info tt)
into_sql_result SqlReturn.error function = ok (SqlResult.error function)
into_sql_result _ function = panic

unfoldable pub into_opt_sql_result : SqlReturn → String → Run (Option (SqlResult (Unit {0})))
unfolding into_sql_result
into_opt_sql_result SqlReturn.no_data function = ok none
into_opt_sql_result SqlReturn.success function =
    map_run some (into_sql_result SqlReturn.success function)
into_opt_sql_result other function = map_run some (into_sql_result other function)

-- `SqlResult::into_result`, with the first diagnostic record of the handle, if there is one
unfoldable pub into_result : {A : Type 0} → Option Record → SqlResult A → Result A
into_result rec (SqlResult.success value) = Result.done value
into_result rec (SqlResult.success_with_info value) = Result.done value
into_result none (SqlResult.error function) = Result.failed (Error.no_diagnostics function)
into_result (some rec) (SqlResult.error function) = Result.failed (Error.diagnostics rec function)
