-- ===== src/Environment/Connect.antt =====
-- environment.rs and handles/environment.rs: creating the environment and connecting to a data
-- source. Conversions to UTF-16 are those of `widestring`: texts are UTF-16 here.
use odbc_api.Common.{
  ℕ, List, Bool, Option, none, some, ok, panic, true, false, ◌&&◌, map_run, if◌then◌else◌, length,
}
use odbc_api.Common.Panics.{Run}
use odbc_api.Sql.{
  SqlReturn, SqlResult, Record, Error, Result, into_sql_result, into_opt_sql_result, into_result,
}
use odbc_api.Statement.{Call, ◌>>◌}
use odbc_api.Diagnostics.State.{invalid_state_transaction, same_state}
use odbc_api.OutputString.{OutputStringBuffer, buf_len}
use odbc_api.Connection.Calls.{ConnectionApi, HandleType, fits_in, connect}
use odbc_api.Connection.Calls

-- `odbc_sys::DriverConnectOption`
pub data DriverConnectOption : Type 0 where
  no_prompt prompt complete complete_required : DriverConnectOption

-- driver_complete_option.rs
pub data DriverCompleteOption : Type 0 where
  no_prompt prompt complete complete_required : DriverCompleteOption

unfoldable pub as_sys : DriverCompleteOption → DriverConnectOption
as_sys DriverCompleteOption.no_prompt = DriverConnectOption.no_prompt
as_sys DriverCompleteOption.prompt = DriverConnectOption.prompt
as_sys DriverCompleteOption.complete = DriverConnectOption.complete
as_sys DriverCompleteOption.complete_required = DriverConnectOption.complete_required

-- Whether the user may be prompted
unfoldable pub prompts : DriverCompleteOption → Bool
prompts DriverCompleteOption.no_prompt = false
prompts other = true

pub data EnvironmentAttribute : Type 0 where
  odbc_version connection_pooling cp_match : EnvironmentAttribute

-- `SQLSetEnvAttr`, `SQLDriverConnectW` and the diagnostics of an environment. The connection string
-- may come back completed, in a buffer whose length is given.
pub record ConnectApi (S : Type 0) : Type 0 where
  pub sql_set_env_attr : EnvironmentAttribute → ℕ → S → SqlReturn × S
  pub sql_driver_connect :
      List ℕ
      → ℕ
      → Option OutputStringBuffer
      → ℕ
      → DriverConnectOption
      → S
      → SqlReturn × Option OutputStringBuffer × S
  pub env_record : S → Option Record

-- What an error of declaring the version becomes
unfoldable pub version_error : Error → Error
unfolding same_state
version_error (Error.diagnostics rec function) =
    if same_state rec.state invalid_state_transaction
    then Error.unsupported_odbc_api_version rec
    else Error.diagnostics rec function
version_error other = other

-- The handle that `SQLAllocHandle` makes is a part of the state.
module _ {S : Type 0} (api : ConnectionApi S) (env : ConnectApi S) where
  -- `.into_result(&self.environment)`
  abbrev on_environment : {A : Type 0} → Call S (SqlResult A) → Call S (Result A)
  on_environment call s = map_run (λ r. (into_result (env.env_record r.1) r.0, r.1)) (call s)

  unfoldable pub set_env_attr : EnvironmentAttribute → ℕ → Call S (SqlResult (Unit {0}))
  set_env_attr attribute value s =
      let (ret, s') = env.sql_set_env_attr attribute value s in
      map_run (λ r. (r, s')) (into_sql_result ret "SQLSetEnvAttr")

  -- Pooling is set for the process, which has no handle, and its outcome is given to no diagnostics.
  unfoldable pub set_connection_pooling : ℕ → Call S (SqlResult (Unit {0}))
  set_connection_pooling scheme = set_env_attr EnvironmentAttribute.connection_pooling scheme

  unfoldable pub set_connection_pooling_matching : ℕ → Call S (Result (Unit {0}))
  set_connection_pooling_matching matching =
      on_environment (set_env_attr EnvironmentAttribute.cp_match matching)

  unfoldable pub alloc_handle : HandleType → Call S (SqlResult (Unit {0}))
  alloc_handle handle_type s =
      let (ret, s') = api.sql_alloc_handle handle_type s in
      map_run (λ r. (r, s')) (into_sql_result ret "SQLAllocHandle")

  -- An error of the allocation has no record: it is told by its own error. The number stands for
  -- the constant of `odbc_sys` for version 3.80.
  abbrev allocated : SqlResult (Unit {0}) → Result (Unit {0})
  allocated (SqlResult.success u) = Result.done u
  allocated (SqlResult.success_with_info u) = Result.done u
  allocated (SqlResult.error function) = Result.failed Error.failed_allocating_environment

  abbrev with_version_error : Result (Unit {0}) → Result (Unit {0})
  with_version_error (Result.done u) = Result.done u
  with_version_error (Result.failed e) = Result.failed (version_error e)

  unfoldable pub new_environment : ℕ → Call S (Result (Unit {0}))
  unfolding version_error
  new_environment odbc_3_80 =
      (λ s. map_run (λ r. (allocated r.0, r.1)) (alloc_handle HandleType.env s)) >> λ s.
      map_run (λ r. (with_version_error r.0, r.1))
        (on_environment (set_env_attr EnvironmentAttribute.odbc_version odbc_3_80) s)

  unfoldable pub allocate_connection : Call S (Result (Unit {0}))
  allocate_connection = on_environment (alloc_handle HandleType.dbc)

  unfoldable pub connect_utf16 : List ℕ → List ℕ → List ℕ → Call S (Result (Unit {0}))
  connect_utf16 data_source_name user pwd =
      allocate_connection >> Calls.checked api (connect api data_source_name user pwd)

  -- `handles::Connection::driver_connect`: nothing where the prompt was cancelled. The length of the
  -- connection string is to fit an `i16`, and that of the output buffer.
  abbrev output_len : Option OutputStringBuffer → Run ℕ
  output_len none = ok 0
  output_len (some osb) = buf_len osb

  unfoldable pub driver_connect :
      List ℕ
      → Option OutputStringBuffer
      → ℕ
      → DriverConnectOption
      → Call S (Option (SqlResult (Unit {0})) × Option OutputStringBuffer)
  driver_connect connection_string completed parent_window driver_completion s =
      elim (output_len completed) [
        | panic ↦ panic
        | ok len ↦ elim (fits_in 32767 (length connection_string)) [
          | panic ↦ panic
          | ok u ↦
              let (ret, completed', s') =
                env.sql_driver_connect connection_string parent_window completed len
                  driver_completion s in
              map_run (λ r. ((r, completed'), s')) (into_opt_sql_result ret "SQLDriverConnectW")
        ]
      ]

  -- No answer means that the user has aborted.
  abbrev connected : S → Option (SqlResult (Unit {0})) → Result (Unit {0})
  connected s none = Result.failed Error.aborted_connection_string_completion
  connected s (some res) = into_result (api.first_record s) res

  unfoldable pub driver_connect_with_hwnd :
      List ℕ
      → Option OutputStringBuffer
      → DriverCompleteOption
      → ℕ
      → Call S (Result (Option OutputStringBuffer))
  unfolding as_sys driver_connect
  driver_connect_with_hwnd connection_string completed driver_completion parent_window =
      allocate_connection >> λ s.
      elim (driver_connect connection_string completed parent_window (as_sys driver_completion) s) [
        | panic ↦ panic
        | ok ((res, completed'), s') ↦ elim (connected s' res) [
          | Result.done u ↦ ok (Result.done completed', s')
          | Result.failed e ↦ ok (Result.failed e, s')
        ]
      ]

  -- The window that a prompt on Windows needs is made by `winit`, and shown to nobody.
  unfoldable pub driver_connect_hidden :
      Bool
      → ℕ
      → List ℕ
      → Option OutputStringBuffer
      → DriverCompleteOption
      → Call S (Result (Option OutputStringBuffer))
  unfolding driver_connect_with_hwnd prompts
  driver_connect_hidden windows hidden_window connection_string completed driver_completion =
      let hwnd : ℕ = if prompts driver_completion && windows then hidden_window else 0 in
      driver_connect_with_hwnd connection_string completed driver_completion hwnd

  -- `connect_with_connection_string` of the handle unwraps the answer, and so must have one.
  unfoldable pub connect_with_connection_string_utf16 : List ℕ → Call S (Result (Unit {0}))
  unfolding driver_connect
  connect_with_connection_string_utf16 connection_string = allocate_connection >> λ s.
      elim (driver_connect connection_string none 0 DriverConnectOption.no_prompt s) [
        | panic ↦ panic
        | ok ((none, completed'), s') ↦ panic
        | ok ((some res, completed'), s') ↦ ok (into_result (api.first_record s') res, s')
      ]
