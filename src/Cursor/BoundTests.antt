-- ===== src/Cursor/BoundTests.antt =====
-- A row set of two columns is bound and dropped, and one whose second column cannot be bound.
use odbc_api.Common.{
  ℕ, ◌≡◌, refl, pos, [], ◌∷◌, ◌++◌, false, none, ok, ◌==◌, arith, if◌then◌else◌, map_run, add_usize,
}
use odbc_api.Indicator.{OdbcSys}
use odbc_api.Sql.{SqlReturn, Result, into_sql_result, into_result}
use odbc_api.Statement.{
  Driver, StatementAttribute, FreeStmtOption, set_row_bind_type, set_row_array_size,
  set_num_rows_fetched, close_cursor,
}
use odbc_api.TextColumn.{TextColumn, narrow}
use odbc_api.TextColumn.Valid.{IsValid}
use odbc_api.TextRowSet.{TextRowSet}
use odbc_api.TextRowSet.Fetch.{text_row_set, text_targets}
use odbc_api.TextRowSet.Delivered.{targets_of}
use odbc_api.Cursor.Close.{dropped}
use odbc_api.Cursor.RowSet.{
  Targets, FetchApi, bind_col, bind_to_cursor, set_size, bind_buffer, unbound,
}
use odbc_api.Cursor.Bound.{Remembers, bind_buffer_lem}

-- The values that ODBC documents for the two constants: -1 and -4.
instance abbrev odbc : OdbcSys
odbc = record { null_code = 0; no_total_code = 3; distinct = omega arith }

record State : Type 0 where
  bound : Targets
  counter : ℕ
  array_size : ℕ

abbrev set : StatementAttribute → ℕ → State → State
set StatementAttribute.row_array_size value s = record s { array_size = value }
set StatementAttribute.rows_fetched_ptr value s = record s { counter = value }
set attribute value s = s

abbrev freed : FreeStmtOption → State → State
freed FreeStmtOption.unbind s = record s { bound = [] }
freed FreeStmtOption.reset_params s = s

abbrev driver : Driver State
driver = record {
  sql_exec_direct = λ text s. (SqlReturn.success, s);
  sql_execute = λ s. (SqlReturn.success, s);
  sql_param_data = λ s. (SqlReturn.success, 0, s);
  sql_put_data = λ bytes s. (SqlReturn.success, s);
  sql_num_result_cols = λ s. (SqlReturn.success, pos 2);
  sql_set_stmt_attr = λ attribute value s. (SqlReturn.success, set attribute value s);
  sql_free_stmt = λ option s. (SqlReturn.success, freed option s);
  sql_close_cursor = λ s. (SqlReturn.success, s);
  sql_fetch = λ s. (SqlReturn.no_data, s);
  sql_get_data = λ col target s. (SqlReturn.success, target, pos 0, s);
  first_record = λ s. none;
}

abbrev binding : FetchApi State
binding = record {
  sql_bind_col =
      λ number target s. (SqlReturn.success, record s { bound = s.bound ++ (number, target) ∷ [] });
  sql_fetch_bound = λ before n s. (SqlReturn.no_data, before, n, s);
}

documented : Remembers driver binding
documented = record {
  bound = λ s. s.bound;
  counter = λ s. s.counter;
  array_size = λ s. s.array_size;
  bind_types = λ value s. (refl, refl);
  sizes = λ value s. (refl, refl, refl);
  counts = λ value s. (refl, refl, refl, refl);
  binds = λ number target s. (refl, refl, refl, refl);
  unbinds = λ s. (refl, refl, refl);
  closes = λ s. (refl, refl, refl, refl);
}

-- Texts of at most two bytes, and memory for one row
abbrev column : TextColumn
column = record { max_str_len = 2; values = 0 ∷ 0 ∷ 0 ∷ []; indicators = pos 0 ∷ [] }

abbrev buffer : TextRowSet
buffer = record { num_rows = 0; row_capacity = 1; columns = (1, column) ∷ (2, column) ∷ [] }

column-IsValid : IsValid narrow column
column-IsValid = record { sized = refl; bounded = ground arith; small = ground arith }

abbrev fresh : State
fresh = record { bound = []; counter = 0; array_size = 1 }

bind_buffer_lem_example :
    (s' : State) × (s'' : State) × (bind_buffer driver binding text_row_set 7 buffer fresh
      ≡ ok (Result.done buffer, s'))
    × (s'.bound ≡ targets_of buffer.columns)
    × (s'.counter ≡ 7)
    × (unbound driver binding false s' ≡ ok (Result.done tt, s''))
    × (s''.bound ≡ [])
    × (s''.counter ≡ 0)
    × (s''.array_size ≡ 1)
unfolding documented
bind_buffer_lem_example =
    bind_buffer_lem driver binding documented 7 buffer fresh false refl (omega arith)
      (column-IsValid, refl, (column-IsValid, refl, tt))

-- The same driver, but it refuses to bind the second column.
abbrev refusing : FetchApi State
refusing = record {
  sql_bind_col = λ number target s.
      if number == 2
      then (SqlReturn.error, s)
      else (SqlReturn.success, record s { bound = s.bound ++ (number, target) ∷ [] });
  sql_fetch_bound = λ before n s. (SqlReturn.no_data, before, n, s);
}

-- The buffer is given up, but its first column and its counter stay bound.
left_bound :
    map_run {B = Targets × ℕ}
      (λ r. ((r.1).bound, (r.1).counter))
      (bind_buffer driver refusing text_row_set 7 buffer fresh)
    ≡ ok (targets_of ((1, column) ∷ []), 7)
unfolding bind_buffer set_row_bind_type set_size set_row_array_size set_num_rows_fetched
    bind_to_cursor bind_col dropped close_cursor text_targets into_sql_result into_result add_usize
left_bound = refl
