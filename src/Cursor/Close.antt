-- ===== src/Cursor/Close.antt =====
-- What happens when a `CursorImpl` of cursor.rs is dropped.
use odbc_api.Common.{Bool, ok, panic, if◌then◌else◌}
use odbc_api.Sql.{Result}
use odbc_api.Statement
use odbc_api.Statement.{Driver, Call, checked}

module _ {S : Type 0} (d : Driver S) where
  -- An error of closing the cursor is a panic, unless there already is one. There is no result of
  -- its own.
  unfoldable pub dropped : Bool → Call S (Result (Unit {0}))
  dropped panicking s = elim (checked d (Statement.close_cursor d) s) [
    | panic ↦ panic
    | ok (Result.done u, s') ↦ ok (Result.done tt, s')
    | ok (Result.failed e, s') ↦ if panicking then ok (Result.done tt, s') else panic
  ]
