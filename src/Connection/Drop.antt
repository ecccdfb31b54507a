-- ===== src/Connection/Drop.antt =====
-- What happens when a `Connection` of connection.rs is dropped: it is disconnected, and where a
-- transaction is open, that is rolled back first.
use odbc_api.Common.{Bool, ok, panic, ◌>>=◌, if◌then◌else◌}
use odbc_api.Common.Panics.{Run}
use odbc_api.Sql.{Error, Result}
use odbc_api.Diagnostics.State.{invalid_state_transaction, same_state}
use odbc_api.Connection.Calls.{ConnectionApi, checked, disconnect}
use odbc_api.Connection.Methods.{rollback}

module _ {S : Type 0} (api : ConnectionApi S) (panicking : Bool) where
  -- An error is a panic, unless there already is one.
  unfoldable pub no_mask : Result (Unit {0}) × S → Run S
  no_mask (Result.done u, s) = ok s
  no_mask (Result.failed e, s) = if panicking then ok s else panic

  -- Behind an error of disconnecting in an open transaction
  unfoldable pub retry : S → Run S
  unfolding no_mask
  retry s = rollback api s >>= no_mask >>= λ s'. checked api (disconnect api) s' >>= no_mask

  unfoldable pub after_disconnect : Result (Unit {0}) × S → Run S
  unfolding no_mask retry same_state
  after_disconnect (Result.failed (Error.diagnostics rec function), s) =
      if same_state rec.state invalid_state_transaction
      then retry s
      else no_mask (Result.failed (Error.diagnostics rec function), s)
  after_disconnect (res, s) = no_mask (res, s)

  unfoldable pub drop : S → Run S
  unfolding after_disconnect
  drop s = checked api (disconnect api) s >>= after_disconnect
