-- ===== src/Connection/Methods.antt =====
-- The methods of `Connection` in connection.rs that ask the handle, and report its diagnostics.
use odbc_api.Common.{ℕ, Bool}
use odbc_api.Sql.{Result}
use odbc_api.Statement.{Call}
use odbc_api.Connection.Calls.{
  ConnectionApi, InfoType, CompletionType, checked, alloc_stmt, auto_commit, end_tran, dead,
  info_u16,
}

module _ {S : Type 0} (api : ConnectionApi S) where
  unfoldable pub allocate_statement : Call S (Result (Unit {0}))
  allocate_statement = checked api (alloc_stmt api)

  unfoldable pub set_autocommit : Bool → Call S (Result (Unit {0}))
  set_autocommit enabled = checked api (auto_commit api enabled)

  unfoldable pub commit : Call S (Result (Unit {0}))
  commit = checked api (end_tran api CompletionType.commit)

  unfoldable pub rollback : Call S (Result (Unit {0}))
  rollback = checked api (end_tran api CompletionType.rollback)

  unfoldable pub is_dead : Call S (Result Bool)
  is_dead = checked api (dead api)

  unfoldable pub max_catalog_name_len : Call S (Result ℕ)
  max_catalog_name_len = checked api (info_u16 api InfoType.max_catalog_name_len)

  unfoldable pub max_schema_name_len : Call S (Result ℕ)
  max_schema_name_len = checked api (info_u16 api InfoType.max_schema_name_len)

  unfoldable pub max_table_name_len : Call S (Result ℕ)
  max_table_name_len = checked api (info_u16 api InfoType.max_table_name_len)

  unfoldable pub max_column_name_len : Call S (Result ℕ)
  max_column_name_len = checked api (info_u16 api InfoType.max_column_name_len)
