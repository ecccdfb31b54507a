-- ===== src/TextRowSet/Send.antt =====
-- The columns of a row set are bound to the parameters of a statement, one after the other.
use odbc_api.Common.{ℕ, ◌+◌, ◌<◌, ◌≡◌, refl, ap, sym, ◌∙◌, List, [], ◌∷◌, ◌++◌, ok, map, arith}
use mathlib.Core.List.{append_assoc, append-nil}
use odbc_api.Indicator.{OdbcSys}
use odbc_api.DataType.{DataType}
use odbc_api.TextColumn.{TextColumn, Cell, narrow}
use odbc_api.TextRowSet.Rows.{other_cells, ColumnsHold}
use odbc_api.TextRowSet.Bind.{text_parameter}
use odbc_api.Sql.{Result, into_sql_result, into_result}
use odbc_api.Cursor.{lift}
use odbc_api.Statement.{Driver, checked, ◌>>=◌}
use odbc_api.Binding.{Bound, BindApi, bind_parameter, bind_input_parameter, bind_columns}
use odbc_api.Binding.Rows.{Inserts}
use odbc_api.TextRowSet.Read.{bound_text, bound_columns, text_parameter-IsValid}

module _ ⦃s : OdbcSys⦄ {S : Type 0} (d : Driver S) (api : BindApi S) {from_utf16 : List ℕ → List ℕ}
    (inserts : Inserts d api from_utf16) where
  open inserts use {statement, bound, paramset, rows}

  -- A state of the driver behind calls that only bind
  pub record HasBound (t : S) (columns : List (ℕ × Bound)) (t' : S) : Type 0 where
    pub bound_behind : bound t' ≡ bound t ++ columns
    pub same_size : paramset t' ≡ paramset t
    pub same_statement : statement t' ≡ statement t
    pub same_rows : rows t' ≡ rows t

  bind_ok :
      (number : ℕ) (col : TextColumn) (t : S)
      → checked d
          (bind_input_parameter api number (record {
            cdata = (bound_text col).cdata;
            parameter_type = DataType.varchar col.max_str_len;
          }))
          t
        ≡ ok (Result.done tt, (api.sql_bind_parameter number (bound_text col) t).1)
  unfolding bind_input_parameter bind_parameter into_sql_result into_result
  bind_ok number col t = rw ((inserts.binds number (bound_text col) t).0)

  pub bind_columns_lem :
      (capacity i : ℕ) (columns : List (ℕ × TextColumn)) (rows : List (List Cell)) (t : S)
      → 0 < capacity
      → ColumnsHold capacity i columns rows
      → (t' : S) × (bind_columns d api (text_parameter narrow) columns t ≡ ok (Result.done tt, t'))
        × HasBound t (bound_columns columns) t'
  unfolding bind_columns
  bind_columns_lem capacity i [] rows t some_rows h = (
    t,
    refl,
    record {
      bound_behind = sym (append-nil (bound t));
      same_size = refl;
      same_statement = refl;
      same_rows = refl;
    },
  )
  bind_columns_lem capacity i (column ∷ columns) rows t some_rows (number, h, hs) =
      let (success, kept, behind, size, same) = inserts.binds column.0 (bound_text column.1) t in
      let t₁ : S = (api.sql_bind_parameter column.0 (bound_text column.1) t).1 in
      let (t', e, b) =
        bind_columns_lem capacity (i + 1) columns (map other_cells rows) t₁ some_rows hs in
      (
        t',
        rw (
          text_parameter-IsValid column.1 h.valid (omega (arith, some_rows, h.row_count)),
          ◌>>=◌,
          lift,
          bind_ok column.0 column.1 t,
          ◌>>=◌,
          e,
        ),
        record {
          bound_behind =
              b.bound_behind
              ∙ ap (λ l. l ++ bound_columns columns) behind
              ∙ append_assoc (bound t) ((column.0, bound_text column.1) ∷ [])
                  (bound_columns columns);
          same_size = b.same_size ∙ size;
          same_statement = b.same_statement ∙ kept;
          same_rows = b.same_rows ∙ same;
        },
      )
