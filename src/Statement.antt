-- ===== src/Statement.antt =====
-- handles/statement.rs: the calls on a statement handle that executing and fetching make.
-- The ODBC driver behind the handle is a parameter: a state and the raw functions of the C API.
use Prim.Native.String.{String}
use odbc_api.Common.{
  ℕ, ℤ, List, [], ◌∷◌, Bool, true, false, Option, none, some, ok, panic, map_run, ltb,
  if◌then◌else◌,
}
use odbc_api.Common.Panics.{Run}
use odbc_api.Sql.{
  SqlReturn, SqlResult, Record, Result, map_result, into_sql_result, into_opt_sql_result,
  into_result,
}

-- The attributes that `SQLSetStmtAttrW` is called for
pub data StatementAttribute : Type 0 where
  row_array_size paramset_size row_bind_type rows_fetched_ptr metadata_id : StatementAttribute

pub data FreeStmtOption : Type 0 where
  unbind reset_params : FreeStmtOption

-- The functions of the ODBC C API, over the state `S` of the driver. A pointer is a number.
-- `get_data` fills a target buffer, which it is given and gives back, and an indicator.
pub record Driver (S : Type 0) : Type 0 where
  pub sql_exec_direct : List ℕ → S → SqlReturn × S
  pub sql_execute : S → SqlReturn × S
  pub sql_param_data : S → SqlReturn × ℕ × S
  pub sql_put_data : List ℕ → S → SqlReturn × S
  pub sql_num_result_cols : S → SqlReturn × ℤ
  pub sql_set_stmt_attr : StatementAttribute → ℕ → S → SqlReturn × S
  pub sql_free_stmt : FreeStmtOption → S → SqlReturn × S
  pub sql_close_cursor : S → SqlReturn × S
  pub sql_fetch : S → SqlReturn × S
  pub sql_get_data : ℕ → List ℕ → S → SqlReturn × List ℕ × ℤ × S
  pub first_record : S → Option Record

-- A call: it may panic; otherwise it gives a result and the new state of the driver.
abbrev pub Call : Type 0 → Type 0 → Type 0
Call S A = S → Run (A × S)

module _ {S : Type 0} where
  infixl 5 ◌>>=◌ ◌>>◌
  abbrev pub ◌>>=◌ :
      {A B : Type 0} → Call S (Result A) → (A → Call S (Result B)) → Call S (Result B)
  ◌>>=◌ m f s = elim (m s) [
    | panic ↦ panic
    | ok (Result.done a, s') ↦ f a s'
    | ok (Result.failed e, s') ↦ ok (Result.failed e, s')
  ]

  abbrev pub ◌>>◌ :
      {B : Type 0} → Call S (Result (Unit {0})) → Call S (Result B) → Call S (Result B)
  m >> k = m >>= λ _. k

  abbrev pub pure : {A : Type 0} → A → Call S (Result A)
  pure a s = ok (Result.done a, s)

module _ {S : Type 0} (d : Driver S) where
  -- `.into_sql_result(function)`
  abbrev returned : String → SqlReturn × S → Run (SqlResult (Unit {0}) × S)
  returned function (ret, s) = map_run (λ r. (r, s)) (into_sql_result ret function)

  -- `.into_result(stmt)` of a call
  abbrev pub checked : {A : Type 0} → Call S (SqlResult A) → Call S (Result A)
  checked call s = map_run (λ r. (into_result (d.first_record r.1) r.0, r.1)) (call s)

  -- `NEED_DATA` and `NO_DATA` are no errors of an execution.
  unfoldable pub executed : String → SqlReturn → Run (SqlResult Bool)
  executed function SqlReturn.need_data = ok (SqlResult.success true)
  executed function SqlReturn.no_data = ok (SqlResult.success false)
  executed function other = map_run (map_result (λ _. false)) (into_sql_result other function)

  unfoldable pub exec_direct : List ℕ → Call S (SqlResult Bool)
  unfolding executed
  exec_direct statement_text s =
      let (ret, s') = d.sql_exec_direct statement_text s in
      map_run (λ r. (r, s')) (executed "SQLExecDirectW" ret)

  unfoldable pub execute : Call S (SqlResult Bool)
  unfolding executed
  execute s = let (ret, s') = d.sql_execute s in map_run (λ r. (r, s')) (executed "SQLExecute" ret)

  -- `none` at the end of the result set
  unfoldable pub fetch : Call S (Option (SqlResult (Unit {0})))
  fetch s =
      let (ret, s') = d.sql_fetch s in map_run (λ r. (r, s')) (into_opt_sql_result ret "SQLFetch")

  -- The target is its buffer; it comes back with what the driver wrote, and the indicator.
  unfoldable pub get_data : ℕ → List ℕ → Call S (SqlResult (List ℕ × ℤ))
  get_data col_or_param_num target s =
      let (ret, target', indicator, s') = d.sql_get_data col_or_param_num target s in
      map_run (λ r. (map_result (λ _. (target', indicator)) r, s'))
        (into_sql_result ret "SQLGetData")

  unfoldable pub unbind_cols : Call S (SqlResult (Unit {0}))
  unbind_cols s = returned "SQLFreeStmt" (d.sql_free_stmt FreeStmtOption.unbind s)

  unfoldable pub reset_parameters : Call S (SqlResult (Unit {0}))
  reset_parameters s = returned "SQLFreeStmt" (d.sql_free_stmt FreeStmtOption.reset_params s)

  -- A pointer to the counter, or null
  unfoldable pub set_num_rows_fetched : Option ℕ → Call S (SqlResult (Unit {0}))
  set_num_rows_fetched none s =
      returned "SQLSetStmtAttrW" (d.sql_set_stmt_attr StatementAttribute.rows_fetched_ptr 0 s)
  set_num_rows_fetched (some num_rows) s =
      returned "SQLSetStmtAttrW"
        (d.sql_set_stmt_attr StatementAttribute.rows_fetched_ptr num_rows s)

  unfoldable pub close_cursor : Call S (SqlResult (Unit {0}))
  close_cursor s = returned "SQLCloseCursor" (d.sql_close_cursor s)

  unfoldable pub num_result_cols : Call S (SqlResult ℤ)
  num_result_cols s =
      let (ret, out) = d.sql_num_result_cols s in
      map_run (λ r. (map_result (λ _. out) r, s)) (into_sql_result ret "SQLNumResultCols")

  -- `assert!(size > 0)`
  unfoldable pub set_row_array_size : ℕ → Call S (SqlResult (Unit {0}))
  set_row_array_size size s =
      if ltb 0 size
      then returned "SQLSetStmtAttrW" (d.sql_set_stmt_attr StatementAttribute.row_array_size size s)
      else panic

  unfoldable pub set_paramset_size : ℕ → Call S (SqlResult (Unit {0}))
  set_paramset_size size s =
      if ltb 0 size
      then returned "SQLSetStmtAttrW" (d.sql_set_stmt_attr StatementAttribute.paramset_size size s)
      else panic

  unfoldable pub set_row_bind_type : ℕ → Call S (SqlResult (Unit {0}))
  set_row_bind_type row_size s =
      returned "SQLSetStmtAttrW" (d.sql_set_stmt_attr StatementAttribute.row_bind_type row_size s)

  param_answer : ℕ → SqlReturn → Run (SqlResult (Option ℕ))
  param_answer param_id SqlReturn.need_data = ok (SqlResult.success (some param_id))
  param_answer param_id other =
      map_run (map_result (λ _. none)) (into_sql_result other "SQLParamData")

  -- `NEED_DATA` names the parameter that wants data next.
  unfoldable pub param_data : Call S (SqlResult (Option ℕ))
  unfolding param_answer
  param_data s =
      let (ret, param_id, s') = d.sql_param_data s in
      map_run (λ r. (r, s')) (param_answer param_id ret)

  put_answer : SqlReturn → Run (SqlResult Bool)
  put_answer SqlReturn.need_data = ok (SqlResult.success true)
  put_answer other = map_run (map_result (λ _. false)) (into_sql_result other "SQLPutData")

  -- An empty batch panics: to some drivers it says that the input is over.
  unfoldable pub put_binary_batch : List ℕ → Call S (SqlResult Bool)
  unfolding put_answer
  put_binary_batch [] s = panic
  put_binary_batch (byte ∷ batch) s =
      let (ret, s') = d.sql_put_data (byte ∷ batch) s in map_run (λ r. (r, s')) (put_answer ret)
