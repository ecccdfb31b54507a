-- ===== src/Connection/Dropped.antt =====
-- A connection is disconnected when it is dropped, and commits nothing.
use odbc_api.Common.{◌≡◌, refl, Bool, true, false, some, ok, ◌>>=◌, Bool-cases, inl, inr, ◌∙◌}
use odbc_api.Sql.{SqlReturn, Record, into_sql_result, into_result}
use odbc_api.Diagnostics.State.{invalid_state_transaction, same_state}
use odbc_api.Connection.Calls.{ConnectionApi, CompletionType, checked, disconnect, end_tran}
use odbc_api.Connection.Methods.{rollback}
use odbc_api.Connection.Drop.{no_mask, retry, after_disconnect, drop}

-- What ODBC documents of disconnecting: in an open transaction it is an error, whose record has the
-- state 25000, and the transaction stays open. Rolling back ends it.
pub record Disconnects {S A : Type 0} (api : ConnectionApi S) (connected in_transaction : S → Bool)
    (committed : S → A) : Type 0 where
  pub refuses :
      (s : S)
      → connected s ≡ true
      → in_transaction s ≡ true
      → (rec : Record) × ((api.sql_disconnect s).0 ≡ SqlReturn.error)
        × (api.first_record (api.sql_disconnect s).1 ≡ some rec)
        × (rec.state ≡ invalid_state_transaction)
        × (connected (api.sql_disconnect s).1 ≡ true)
        × (committed (api.sql_disconnect s).1 ≡ committed s)
  pub rolls_back :
      (s : S)
      → connected s ≡ true
      → ((api.sql_end_tran CompletionType.rollback s).0 ≡ SqlReturn.success)
        × (connected (api.sql_end_tran CompletionType.rollback s).1 ≡ true)
        × (in_transaction (api.sql_end_tran CompletionType.rollback s).1 ≡ false)
        × (committed (api.sql_end_tran CompletionType.rollback s).1 ≡ committed s)
  pub disconnects :
      (s : S)
      → connected s ≡ true
      → in_transaction s ≡ false
      → ((api.sql_disconnect s).0 ≡ SqlReturn.success)
        × (connected (api.sql_disconnect s).1 ≡ false)
        × (committed (api.sql_disconnect s).1 ≡ committed s)

module _ {S A : Type 0} {api : ConnectionApi S} {connected in_transaction : S → Bool}
    {committed : S → A} (documented : Disconnects api connected in_transaction committed)
    (panicking : Bool) where
  closes :
      (s : S)
      → connected s ≡ true
      → in_transaction s ≡ false
      → (s' : S) × ((checked api (disconnect api) s >>= no_mask api panicking) ≡ ok s')
        × (connected s' ≡ false)
        × (committed s' ≡ committed s)
  unfolding disconnect into_sql_result into_result no_mask
  closes s h free =
      let (e, closed, kept) = documented.disconnects s h free in
      ((api.sql_disconnect s).1, rw e refl, closed, kept)

  -- A connection that is dropped is disconnected, whether or not a transaction is open, which is
  -- rolled back then, without a panic, and what has been committed stays as it was. The driver
  -- refuses to disconnect in an open transaction, and does as ODBC documents otherwise.
  pub drop_lem :
      (s : S)
      → connected s ≡ true
      → (s' : S) × (drop api panicking s ≡ ok s')
        × (connected s' ≡ false)
        × (committed s' ≡ committed s)
  unfolding drop after_disconnect retry rollback end_tran disconnect into_sql_result into_result
      no_mask same_state
  drop_lem s h = elim (Bool-cases (in_transaction s)) [
    | inl busy ↦
        let (rec, refused, told, state, stays, same) = documented.refuses s h busy in
        let s₁ : S = (api.sql_disconnect s).1 in
        let (rolled, still, ended, same') = documented.rolls_back s₁ stays in
        let (s', e, closed, kept) =
          closes (api.sql_end_tran CompletionType.rollback s₁).1 still ended in
        (s', rw (refused, told, state, rolled) e, closed, kept ∙ same' ∙ same)
    | inr free ↦
        let (success, done, same) = documented.disconnects s h free in
        ((api.sql_disconnect s).1, rw success refl, done, same)
  ]
