-- ===== src/Cursor/RowSet.antt =====
-- `RowSetBuffer`, `bind_buffer` and `RowSetCursor` of cursor.rs, with what handles/statement.rs has
-- for them. While a buffer is bound, the driver writes to its memory when it fetches: the memory is
-- given to the fetch, and comes back as it is then.
use odbc_api.Common.{
  true, false, ℕ, List, [], ◌∷◌, Bool, Option, none, some, ok, panic, map_run, if◌then◌else◌,
}
use odbc_api.Common.Panics.{Run}
use odbc_api.Sql.{
  SqlReturn, SqlResult, Error, Result, into_sql_result, into_opt_sql_result, into_result,
}
use odbc_api.Diagnostics.State.{same_state}
use odbc_api.Statement
use odbc_api.Statement.{Driver, Call, checked, pure, ◌>>=◌, ◌>>◌}
use odbc_api.Binding.{CData}
use odbc_api.Cursor.Close.{dropped}

-- What is bound: each column's number and memory
abbrev pub Targets : Type 0
Targets = List (ℕ × CData)

-- `SQLBindCol`, and `SQLFetch` with the bound memory and the number of rows that it has fetched
pub record FetchApi (S : Type 0) : Type 0 where
  pub sql_bind_col : ℕ → CData → S → SqlReturn × S
  pub sql_fetch_bound : Targets → ℕ → S → SqlReturn × Targets × ℕ × S

-- The trait: `targets` are what `bind_to_cursor` binds, and `written` is the buffer whose memory and
-- number of rows have changed.
pub record RowSetBuffer (B : Type 0) : Type 0 where
  pub bind_type : B → ℕ
  pub row_array_size : B → ℕ
  pub num_fetch_rows : B → ℕ
  pub targets : B → Run Targets
  pub written : Targets → ℕ → B → B

-- `State::INVALID_ATTRIBUTE_VALUE` of handles/diagnostics.rs: the characters of HY024
abbrev pub invalid_attribute_value : List ℕ
invalid_attribute_value = 72 ∷ 89 ∷ 48 ∷ 50 ∷ 52 ∷ []

-- What an error of setting the size of the row set becomes
unfoldable pub size_error : ℕ → Error → Error
unfolding same_state
size_error size (Error.diagnostics rec function) =
    if same_state rec.state invalid_attribute_value
    then Error.invalid_row_array_size rec size
    else Error.diagnostics rec function
size_error size other = other

module _ {S : Type 0} (d : Driver S) (f : FetchApi S) where
  unfoldable pub bind_col : ℕ → CData → Call S (SqlResult (Unit {0}))
  bind_col column_number target s =
      let (ret, s') = f.sql_bind_col column_number target s in
      map_run (λ r. (r, s')) (into_sql_result ret "SQLBindCol")

  -- `bind_to_cursor` of a columnar buffer
  unfoldable pub bind_to_cursor : Targets → Call S (Result (Unit {0}))
  unfolding bind_col
  bind_to_cursor [] = pure tt
  bind_to_cursor (target ∷ targets) =
      checked d (bind_col target.0 target.1) >> bind_to_cursor targets

  unfoldable pub set_size : ℕ → Call S (Result (Unit {0}))
  unfolding size_error
  set_size size s = elim (checked d (Statement.set_row_array_size d size) s) [
    | panic ↦ panic
    | ok (Result.done u, s') ↦ ok (Result.done tt, s')
    | ok (Result.failed e, s') ↦ ok (Result.failed (size_error size e), s')
  ]

  -- An early return drops the cursor.
  abbrev pub or_dropped : {A : Type 0} → Call S (Result A) → Call S (Result A)
  or_dropped call s = elim (call s) [
    | panic ↦ panic
    | ok (Result.done a, s') ↦ ok (Result.done a, s')
    | ok (Result.failed e, s') ↦ (dropped d false >> λ t. ok (Result.failed e, t)) s'
  ]

  module _ {B : Type 0} (row_set : RowSetBuffer B) (counter : ℕ) where
    -- `counter` is the address of the number of rows. The row set cursor is the cursor, a part of
    -- the state, with the buffer.
    unfoldable pub bind_buffer : B → Call S (Result B)
    unfolding set_size bind_to_cursor
    bind_buffer buffer = or_dropped (
        checked d (Statement.set_row_bind_type d (row_set.bind_type buffer))
        >> set_size (row_set.row_array_size buffer)
        >> checked d (Statement.set_num_rows_fetched d (some counter))
        >> λ s. elim (row_set.targets buffer) [
          | panic ↦ panic
          | ok targets ↦ (bind_to_cursor targets >> pure buffer) s
        ])

    -- `.into_result(stmt)` of what there is
    abbrev pub fetch_outcome : S → Option (SqlResult (Unit {0})) → Option (Result (Unit {0}))
    fetch_outcome t none = none
    fetch_outcome t (some res) = some (into_result (d.first_record t) res)

    -- `none` at the end of the result set; the memory may have changed in any case.
    unfoldable pub fetch : B → Call S (Option (Result (Unit {0})) × B)
    fetch buffer s = elim (row_set.targets buffer) [
      | panic ↦ panic
      | ok targets ↦
          let (ret, targets', num_rows, s') =
            f.sql_fetch_bound targets (row_set.num_fetch_rows buffer) s in
          map_run (λ r. ((fetch_outcome s' r, row_set.written targets' num_rows buffer), s'))
            (into_opt_sql_result ret "SQLFetch")
    ]

  -- `RowSetCursor::drop`, and behind it the drop of its cursor
  unfoldable pub unbound : Bool → Call S (Result (Unit {0}))
  unbound panicking s =
      elim ((checked d (Statement.unbind_cols d)
          >> checked d (Statement.set_num_rows_fetched d none))
        s) [
          | panic ↦ panic
          | ok (Result.done u, s') ↦ dropped d panicking s'
          | ok (Result.failed e, s') ↦ if panicking then dropped d true s' else panic
        ]
