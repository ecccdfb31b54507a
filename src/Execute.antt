-- ===== src/Execute.antt =====
-- execute.rs: binding the parameters, executing a statement, and feeding it its delayed input.
pub mod Streaming
mod Tests
use odbc_api.Common.{
  ℕ, zero, suc, ℤ, pos, eq_ℤ, List, [], ◌∷◌, Bool, true, false, Option, none, some, ok, panic,
  if◌then◌else◌, ◌==◌,
}
use odbc_api.Common.Panics.{Run}
use odbc_api.Sql.{SqlResult, Error, Result}
use odbc_api.Statement
use odbc_api.Statement.{Driver, Call, checked, pure, ◌>>=◌, ◌>>◌}
use odbc_api.Blob.{Blob, Batch}

-- The blobs that the bound parameters point to, by the pointer that names them.
abbrev pub Blobs : Type 0 → Type 0
Blobs B = ℕ → B

-- The state of an execution: the driver's, and that of the blobs.
module _ {S B : Type 0} (d : Driver S) (b : Blob B) where
  -- One round of `while let Some(batch) = blob_ref.next_batch()? { stmt.put_binary_batch(batch)?; }`
  unfoldable pub put_next : (B → Call S (Result B)) → Batch × B → Call S (Result B)
  put_next again (Batch.end_of_input, blob) s = ok (Result.done blob, s)
  put_next again (Batch.io_error e, blob) s = ok (Result.failed (Error.failed_reading_input e), s)
  put_next again (Batch.batch bytes, blob) s =
      (checked d (Statement.put_binary_batch d bytes) >>= λ _. again blob) s

  -- The loop, on fuel. One that takes longer is a panic here.
  unfoldable pub put_batches : ℕ → B → Call S (Result B)
  unfolding put_next
  put_batches zero blob s = panic
  put_batches (suc fuel) blob s = put_next (put_batches fuel) (b.next_batch blob) s

  unfoldable pub update : ℕ → B → Blobs B → Blobs B
  update p blob blobs q = if q == p then blob else blobs q

  -- `while let Some(blob_ptr) = stmt.param_data()? { … }`
  unfoldable pub put_params : ℕ → ℕ → Blobs B → Call S (Result (Unit {0}))
  put_params zero batches blobs s = panic
  put_params (suc fuel) batches blobs s =
      (checked d (Statement.param_data d) >>= λ param. elim param [
        | none ↦ pure tt
        | some blob_ptr ↦ put_batches batches (blobs blob_ptr) >>= λ blob.
            put_params fuel batches (update blob_ptr blob blobs)
      ])
        s

  -- `query` is the text, or nothing for a prepared statement. The result says whether there is a
  -- cursor.
  unfoldable pub execute : ℕ → ℕ → Option (List ℕ) → Blobs B → Call S (Result Bool)
  execute params batches query blobs = do
    need_data ← elim query [
      | some sql ↦ checked d (Statement.exec_direct d sql)
      | none ↦ checked d (Statement.execute d)
    ]
    (if need_data then put_params params batches blobs else pure tt)
    cols ← checked d (Statement.num_result_cols d)
    pure (if eq_ℤ cols (pos 0) then false else true)

  -- `bind` stands for `params.bind_parameters_to(stmt)`. Without a parameter set nothing happens.
  unfoldable pub execute_with_parameters :
      ℕ → ℕ → Option (List ℕ) → ℕ → Call S (Result (Unit {0})) → Blobs B → Call S (Result Bool)
  unfolding execute
  execute_with_parameters params batches query parameter_set_size bind blobs =
      if parameter_set_size == 0 then pure false else do
        checked d (Statement.reset_parameters d)
        checked d (Statement.set_paramset_size d parameter_set_size)
        bind
        execute params batches query blobs
