-- ===== src/Prepared/Inserting.antt =====
-- A prepared INSERT that is executed with a row set adds the rows that the row set holds.
use odbc_api.Common.{
  ℕ, ◌<◌, ◌≡◌, refl, sym, ◌∙◌, pos, List, [], ◌∷◌, ◌++◌, none, ok, map, length, false, lt→ltb, ◌==◌,
  arith,
}
use mathlib.Core.List.{append-nil}
use odbc_api.Indicator.{OdbcSys}
use odbc_api.TextColumn.{Cell}
use odbc_api.TextRowSet.{TextRowSet}
use odbc_api.TextRowSet.Rows.{HoldsRows}
use odbc_api.TextRowSet.Bind.{text_parameters}
use odbc_api.TextRowSet.Read.{AllWide, read_rows-HoldsRows}
use odbc_api.TextRowSet.Send.{bind_columns_lem}
use odbc_api.Sql.{Result, into_sql_result, into_result, map_result}
use odbc_api.Statement
use odbc_api.Statement.{Driver, StatementAttribute, FreeStmtOption, executed, checked, ◌>>=◌, ◌>>◌}
use odbc_api.Binding.{BindApi}
use odbc_api.Binding.Rows.{Inserts, IsPrepared, kept-IsPrepared, read_rows, row_in}
use odbc_api.Blob.{Blob}
use odbc_api.Execute.{Blobs, execute_with_parameters}
use odbc_api.Execute
use odbc_api.Prepared.{execute}

module _ ⦃s : OdbcSys⦄ {S B : Type 0} (d : Driver S) (api : BindApi S) (b : Blob B)
    (params batches : ℕ) (blobs : Blobs B) {from_utf16 : List ℕ → List ℕ}
    (inserts : Inserts d api from_utf16) where
  open inserts use {statement, bound, paramset, rows}

  reset_ok :
      (t : S)
      → checked d (Statement.reset_parameters d) t
        ≡ ok (Result.done tt, (d.sql_free_stmt FreeStmtOption.reset_params t).1)
  unfolding Statement.reset_parameters into_sql_result into_result
  reset_ok t = rw ((inserts.resets t).0)

  set_ok :
      (n : ℕ) (t : S)
      → 0 < n
      → checked d (Statement.set_paramset_size d n) t
        ≡ ok (Result.done tt, (d.sql_set_stmt_attr StatementAttribute.paramset_size n t).1)
  unfolding Statement.set_paramset_size into_sql_result into_result
  set_ok n t h = rw (lt→ltb 0 n h, (inserts.sets n t).0)

  module _ (table : List ℕ) (columns : List (List ℕ)) where
    executed_ok :
        (t : S)
        → IsPrepared inserts table columns t
        → checked d (Statement.execute d) t ≡ ok (Result.done false, (d.sql_execute t).1)
    unfolding Statement.execute executed into_sql_result into_result map_result
    executed_ok t prepared = rw ((inserts.executes table columns t prepared).0)

    no_cols :
        (t : S)
        → IsPrepared inserts table columns t
        → checked d (Statement.num_result_cols d) t ≡ ok (Result.done (pos 0), t)
    unfolding Statement.num_result_cols into_sql_result into_result map_result
    no_cols t prepared = rw (inserts.no_result_set table columns t prepared)

    execute_ok :
        (t : S)
        → IsPrepared inserts table columns t
        → Execute.execute d b params batches none blobs t
          ≡ ok (Result.done false, (d.sql_execute t).1)
    unfolding Execute.execute
    execute_ok t prepared =
        let kept = (inserts.executes table columns t prepared).1 in
        rw (
          executed_ok t prepared,
          ◌>>=◌,
          ◌>>◌,
          no_cols (d.sql_execute t).1
              (kept-IsPrepared inserts table columns t (d.sql_execute t).1 kept prepared),
        )

    -- With a driver that executes a prepared INSERT as ODBC documents it, for arrays of parameters,
    -- executing the statement with a row set as wide as its columns adds each row that the row set
    -- holds to the table once, in order, NULL where a cell is NULL. A row set without rows is not
    -- sent at all. There is no cursor, and no error, and the statement stays prepared.
    pub execute_lem :
        (capacity : ℕ) (buffer : TextRowSet) (cells : List (List Cell)) (t : S)
        → IsPrepared inserts table columns t
        → 0 < capacity
        → HoldsRows capacity (length columns) buffer cells
        → AllWide (length columns) cells
        → (t' : S) × (execute d api b params batches (text_parameters d api buffer) blobs t
            ≡ ok (Result.done false, t'))
          × IsPrepared inserts table columns t'
          × (rows t' ≡ rows t ++ map (row_in table columns) cells)
    unfolding execute execute_with_parameters
    execute_lem capacity buffer [] t prepared some_rows h wide =
        (t, rw (h.row_count), prepared, sym (append-nil (rows t)))
    execute_lem capacity buffer (row ∷ cells) t prepared some_rows h wide =
        let n : ℕ = length (row ∷ cells) in
        let not_empty : (n == 0) ≡ false = ground arith in
        let t₁ : S = (d.sql_free_stmt FreeStmtOption.reset_params t).1 in
        let t₂ : S = (d.sql_set_stmt_attr StatementAttribute.paramset_size n t₁).1 in
        let (t₃, e, bind) =
          bind_columns_lem d api inserts capacity 0 buffer.columns (row ∷ cells) t₂ some_rows
            h.columns_hold in
        let (reset, text₁, none_bound, kept₁) = inserts.resets t in
        let (set, text₂, same_bound, size, kept₂) = inserts.sets n t₁ in
        let read : read_rows table columns (bound t₃) 0 (paramset t₃)
            ≡ map (row_in table columns) (row ∷ cells) =
          rw (bind.bound_behind, same_bound, none_bound, bind.same_size, size)
            (read_rows-HoldsRows table columns capacity buffer (row ∷ cells) h wide) in
        let kept : rows t₃ ≡ rows t = bind.same_rows ∙ kept₂ ∙ kept₁ in
        let ready : IsPrepared inserts table columns t₃ =
          kept-IsPrepared inserts table columns t t₃ (bind.same_statement ∙ text₂ ∙ text₁)
            prepared in
        let (success, text₃, added) = inserts.executes table columns t₃ ready in
        (
          (d.sql_execute t₃).1,
          rw
              (
                h.row_count,
                not_empty,
                reset_ok t,
                ◌>>=◌,
                ◌>>◌,
                h.row_count,
                set_ok n t₁ (omega arith),
                e,
              )
              (execute_ok t₃ ready),
          kept-IsPrepared inserts table columns t₃ (d.sql_execute t₃).1 text₃ ready,
          added ∙ rw (read, kept) refl,
        )
