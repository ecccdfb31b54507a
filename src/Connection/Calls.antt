-- ===== src/Connection/Calls.antt =====
-- handles/connection.rs: the calls on a connection handle.
use Prim.Native.String.{String}
use odbc_api.Common.{
  ℕ, zero, suc, List, Bool, true, false, Option, ok, panic, ◌>>=◌, ◌>>◌, assert, map_run, leb,
  length, if◌then◌else◌,
}
use odbc_api.Common.Panics.{Run}
use odbc_api.Sql.{SqlReturn, SqlResult, Record, Result, map_result, into_sql_result, into_result}
use odbc_api.Statement.{Call}

-- The numbers that `SQLGetInfoW` is asked for
pub data InfoType : Type 0 where
  max_catalog_name_len max_schema_name_len max_table_name_len max_column_name_len : InfoType

pub data HandleType : Type 0 where
  env dbc stmt : HandleType

pub data CompletionType : Type 0 where
  commit rollback : CompletionType

-- The raw functions for a connection. `SQLGetInfoW` for the name of the data base management system
-- and `SQLGetConnectAttrW` for the current catalog are given a buffer and its length in bytes, and
-- tell the length of the text in bytes.
pub record ConnectionApi (S : Type 0) : Type 0 where
  pub sql_alloc_handle : HandleType → S → SqlReturn × S
  pub sql_connect : List ℕ → List ℕ → List ℕ → S → SqlReturn × S
  pub sql_disconnect : S → SqlReturn × S
  pub sql_end_tran : CompletionType → S → SqlReturn × S
  pub sql_set_auto_commit : ℕ → S → SqlReturn × S
  pub sql_get_connection_dead : S → SqlReturn × ℕ
  pub sql_get_info : InfoType → S → SqlReturn × ℕ
  pub sql_get_dbms_name : List ℕ → ℕ → S → SqlReturn × List ℕ × ℕ
  pub sql_get_current_catalog : List ℕ → ℕ → S → SqlReturn × List ℕ × ℕ
  pub first_record : S → Option Record

-- `usize` to a signed integer of 16 or 32 bits by `try_into().unwrap()`
abbrev pub fits_in : ℕ → ℕ → Run (Unit {0})
fits_in largest n = assert (leb n largest)

module _ {S : Type 0} (api : ConnectionApi S) where
  -- `.into_sql_result(function)`, and `.into_result(&self.connection)`
  abbrev returned : String → SqlReturn × S → Run (SqlResult (Unit {0}) × S)
  returned function (ret, s) = map_run (λ r. (r, s)) (into_sql_result ret function)

  -- The same of a call that only reads
  abbrev answered : {A : Type 0} → String → SqlReturn × A → S → Run (SqlResult A × S)
  answered function (ret, out) s =
      map_run (λ r. (map_result (λ _. out) r, s)) (into_sql_result ret function)

  abbrev pub checked : {A : Type 0} → Call S (SqlResult A) → Call S (Result A)
  checked call s = map_run (λ r. (into_result (api.first_record r.1) r.0, r.1)) (call s)

  unfoldable pub connect : List ℕ → List ℕ → List ℕ → Call S (SqlResult (Unit {0}))
  connect data_source_name user pwd s =
      fits_in 32767 (length data_source_name)
      >> fits_in 32767 (length user)
      >> fits_in 32767 (length pwd)
      >> returned "SQLConnectW" (api.sql_connect data_source_name user pwd s)

  unfoldable pub disconnect : Call S (SqlResult (Unit {0}))
  disconnect s = returned "SQLDisconnect" (api.sql_disconnect s)

  unfoldable pub alloc_stmt : Call S (SqlResult (Unit {0}))
  alloc_stmt s = returned "SQLAllocHandle" (api.sql_alloc_handle HandleType.stmt s)

  unfoldable pub auto_commit : Bool → Call S (SqlResult (Unit {0}))
  auto_commit enabled s =
      let val : ℕ = if enabled then 1 else 0 in
      returned "SQLSetConnectAttrW" (api.sql_set_auto_commit val s)

  unfoldable pub end_tran : CompletionType → Call S (SqlResult (Unit {0}))
  end_tran completion s = returned "SQLEndTran" (api.sql_end_tran completion s)

  unfoldable pub info_u16 : InfoType → Call S (SqlResult ℕ)
  info_u16 info_type s = answered "SQLGetInfoW" (api.sql_get_info info_type s) s

  unfoldable pub numeric_attribute : Call S (SqlResult ℕ)
  numeric_attribute s = answered "SQLGetConnectAttrW" (api.sql_get_connection_dead s) s

  -- The closure that `is_dead` maps over a success: any number but 0 and 1 panics.
  unfoldable pub as_dead : SqlResult ℕ → Run (SqlResult Bool)
  as_dead (SqlResult.success zero) = ok (SqlResult.success false)
  as_dead (SqlResult.success (suc zero)) = ok (SqlResult.success true)
  as_dead (SqlResult.success (suc (suc n))) = panic
  as_dead (SqlResult.success_with_info zero) = ok (SqlResult.success_with_info false)
  as_dead (SqlResult.success_with_info (suc zero)) = ok (SqlResult.success_with_info true)
  as_dead (SqlResult.success_with_info (suc (suc n))) = panic
  as_dead (SqlResult.error function) = ok (SqlResult.error function)

  unfoldable pub dead : Call S (SqlResult Bool)
  unfolding as_dead
  dead s = numeric_attribute s >>= λ answer. map_run (λ r. (r, answer.1)) (as_dead answer.0)
