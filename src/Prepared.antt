-- ===== src/Prepared.antt =====
-- prepared.rs, prebound.rs and preallocated.rs: statements that are executed repeatedly. Each holds
-- a statement handle, which is the state `S` here.
pub mod Inserting
use odbc_api.Common.{ℕ, List, Bool, Option, none, some, map_run}
use odbc_api.Sql.{SqlResult, Result}
use odbc_api.Statement
use odbc_api.Statement.{Driver, Call, checked, pure, ◌>>=◌, ◌>>◌}
use odbc_api.Blob.{Blob}
use odbc_api.Execute.{Blobs, execute_with_parameters}
use odbc_api.Execute
use odbc_api.Binding.{BindApi}
use odbc_api.Binding.Describe.{ParameterDescription}
use odbc_api.Binding.Describe

-- `ParameterRefCollection`: the size of the parameter set, and the binding to a statement
pub record Parameters (S : Type 0) : Type 0 where
  pub parameter_set_size : ℕ
  pub bind_parameters_to : Call S (Result (Unit {0}))

module _ {S B : Type 0} (d : Driver S) (api : BindApi S) (b : Blob B) (params batches : ℕ) where
  -- `Prepared::execute`. The two numbers are the fuel of the loops for delayed parameters.
  unfoldable pub execute : Parameters S → Blobs B → Call S (Result Bool)
  execute parameters blobs =
      execute_with_parameters d b params batches none parameters.parameter_set_size
        parameters.bind_parameters_to blobs

  -- `Connection::prepare_utf16`, behind the allocation of the statement
  unfoldable pub prepare : List ℕ → Call S (Result (Unit {0}))
  prepare query = checked d (Describe.prepare api query)

  unfoldable pub describe_param : ℕ → Call S (Result ParameterDescription)
  describe_param parameter_number = checked d (Describe.describe_param api parameter_number)

  -- `Preallocated::execute_utf16`
  unfoldable pub execute_text : List ℕ → Parameters S → Blobs B → Call S (Result Bool)
  execute_text query parameters blobs =
      execute_with_parameters d b params batches (some query) parameters.parameter_set_size
        parameters.bind_parameters_to blobs

  -- `Prebound::new`: the outcome of setting the size of the parameter set is not looked at.
  unfoldable pub new : Parameters S → Call S (Result (Unit {0}))
  new parameters =
      checked d (Statement.reset_parameters d)
      >> (unchecked (Statement.set_paramset_size d parameters.parameter_set_size)
          >> parameters.bind_parameters_to)
    where
      unchecked : Call S (SqlResult (Unit {0})) → Call S (Result (Unit {0}))
      unchecked call s = map_run (λ r. (Result.done tt, r.1)) (call s)

  -- `Prebound::execute`: what has been bound is executed again.
  unfoldable pub execute_bound : Blobs B → Call S (Result Bool)
  execute_bound blobs = Execute.execute d b params batches none blobs
