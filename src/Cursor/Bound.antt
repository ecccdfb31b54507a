-- ===== src/Cursor/Bound.antt =====
-- Binding a row set to a cursor, and what a row set cursor leaves behind when it is dropped.
use odbc_api.Common.{ℕ, ◌<◌, ◌≡◌, refl, ap, sym, ◌∙◌, [], ◌∷◌, ◌++◌, Bool, some, ok, panic, lt→ltb}
use mathlib.Core.List.{append_assoc, append-nil}
use odbc_api.Indicator.{OdbcSys}
use odbc_api.Sql.{SqlReturn, Result, into_sql_result, into_result}
use odbc_api.Statement.{
  Call, Driver, StatementAttribute, FreeStmtOption, checked, ◌>>=◌, ◌>>◌, pure, set_row_bind_type,
  set_row_array_size, set_num_rows_fetched, unbind_cols, close_cursor,
}
use odbc_api.TextRowSet.{TextRowSet}
use odbc_api.TextRowSet.Fetch.{text_row_set}
use odbc_api.TextRowSet.Delivered.{AreColumns, targets_of, text_targets_lem}
use odbc_api.Binding.{CData}
use odbc_api.Cursor.Close.{dropped}
use odbc_api.Cursor.RowSet.{
  Targets, FetchApi, bind_col, bind_to_cursor, set_size, or_dropped, bind_buffer, unbound,
}

-- What ODBC documents of the attributes and the bindings of a statement, where no call fails. The
-- counter is the address to which the number of fetched rows goes. Closing a cursor keeps them all.
pub record Remembers {S : Type 0} (d : Driver S) (f : FetchApi S) : Type 0 where
  pub bound : S → Targets
  pub counter : S → ℕ
  pub array_size : S → ℕ
  pub bind_types :
      (value : ℕ) (s : S)
      → let (ret, s') = d.sql_set_stmt_attr StatementAttribute.row_bind_type value s in
        (ret ≡ SqlReturn.success) × (bound s' ≡ bound s)
  pub sizes :
      (value : ℕ) (s : S)
      → let (ret, s') = d.sql_set_stmt_attr StatementAttribute.row_array_size value s in
        (ret ≡ SqlReturn.success) × (bound s' ≡ bound s) × (array_size s' ≡ value)
  pub counts :
      (value : ℕ) (s : S)
      → let (ret, s') = d.sql_set_stmt_attr StatementAttribute.rows_fetched_ptr value s in
        (ret ≡ SqlReturn.success)
        × (bound s' ≡ bound s)
        × (array_size s' ≡ array_size s)
        × (counter s' ≡ value)
  pub binds :
      (number : ℕ) (target : CData) (s : S)
      → let (ret, s') = f.sql_bind_col number target s in
        (ret ≡ SqlReturn.success)
        × (bound s' ≡ bound s ++ (number, target) ∷ [])
        × (array_size s' ≡ array_size s)
        × (counter s' ≡ counter s)
  pub unbinds :
      (s : S)
      → let (ret, s') = d.sql_free_stmt FreeStmtOption.unbind s in
        (ret ≡ SqlReturn.success) × (bound s' ≡ []) × (array_size s' ≡ array_size s)
  pub closes :
      (s : S)
      → let (ret, s') = d.sql_close_cursor s in
        (ret ≡ SqlReturn.success)
        × (bound s' ≡ bound s)
        × (array_size s' ≡ array_size s)
        × (counter s' ≡ counter s)

module _ ⦃sys : OdbcSys⦄ {S : Type 0} (d : Driver S) (f : FetchApi S)
    (documented : Remembers d f) where
  open documented use {bound, counter, array_size}

  bind_to_cursor_lem :
      (targets : Targets) (s : S)
      → (s' : S) × (bind_to_cursor d f targets s ≡ ok (Result.done tt, s'))
        × (bound s' ≡ bound s ++ targets)
        × (array_size s' ≡ array_size s)
        × (counter s' ≡ counter s)
  unfolding bind_to_cursor bind_col into_sql_result into_result
  bind_to_cursor_lem [] s = (s, refl, sym (append-nil (bound s)), refl, refl)
  bind_to_cursor_lem (target ∷ targets) s =
      let (success, behind, size, count) = documented.binds target.0 target.1 s in
      let (s', e, others, size', count') =
        bind_to_cursor_lem targets (f.sql_bind_col target.0 target.1 s).1 in
      (
        s',
        rw (bind_to_cursor, ◌>>◌, ◌>>=◌, success) e,
        others ∙ ap (λ l. l ++ targets) behind ∙ append_assoc (bound s) (target ∷ []) targets,
        size' ∙ size,
        count' ∙ count,
      )

  unbound_lem :
      (panicking : Bool) (s : S)
      → (s' : S) × (unbound d f panicking s ≡ ok (Result.done tt, s'))
        × (bound s' ≡ [])
        × (counter s' ≡ 0)
        × (array_size s' ≡ array_size s)
  unfolding unbound unbind_cols set_num_rows_fetched dropped close_cursor into_sql_result
      into_result
  unbound_lem panicking s =
      let s₁ : S = (d.sql_free_stmt FreeStmtOption.unbind s).1 in
      let s₂ : S = (d.sql_set_stmt_attr StatementAttribute.rows_fetched_ptr 0 s₁).1 in
      let (success, none_left, size) = documented.unbinds s in
      let (success', same, size', count) = documented.counts 0 s₁ in
      let (success'', same', size'', count') = documented.closes s₂ in
      (
        (d.sql_close_cursor s₂).1,
        rw (unbound, ◌>>◌, ◌>>=◌, success, success', dropped, success'') refl,
        same' ∙ same ∙ none_left,
        count' ∙ count,
        size'' ∙ size' ∙ size,
      )

  -- A call behind one that has succeeded, and one whose cursor is not dropped
  then_lem :
      {A B : Type 0} (m : Call S (Result A)) (next : A → Call S (Result B)) {a : A} {s s' : S}
      → m s ≡ ok (Result.done a, s')
      → (m >>= next) s ≡ next a s'
  then_lem m next e = rw (◌>>=◌, e) refl

  or_dropped_lem :
      {A : Type 0} (call : Call S (Result A)) {a : A} {s s' : S}
      → call s ≡ ok (Result.done a, s')
      → or_dropped d f call s ≡ ok (Result.done a, s')
  or_dropped_lem call e = rw (or_dropped, e) refl

  -- The last step of binding, which binds the columns
  abbrev bind_all : TextRowSet → Call S (Result TextRowSet)
  bind_all buffer t = elim (text_row_set.targets buffer) [
    | panic ↦ panic
    | ok targets ↦ (bind_to_cursor d f targets >> pure buffer) t
  ]

  bind_all_lem :
      (buffer : TextRowSet) (s s' : S)
      → 0 < buffer.row_capacity
      → AreColumns buffer.row_capacity buffer.columns
      → bind_to_cursor d f (targets_of buffer.columns) s ≡ ok (Result.done tt, s')
      → bind_all buffer s ≡ ok (Result.done buffer, s')
  bind_all_lem buffer s s' some_rows h e =
      rw (bind_all, text_targets_lem buffer.row_capacity buffer.columns some_rows h, ◌>>◌, ◌>>=◌, e)
        refl

  bind_type_set :
      (value : ℕ) (s : S)
      → checked d (set_row_bind_type d value) s
        ≡ ok (Result.done tt, (d.sql_set_stmt_attr StatementAttribute.row_bind_type value s).1)
  unfolding set_row_bind_type into_sql_result into_result
  bind_type_set value s = rw ((documented.bind_types value s).0) refl

  sized :
      (value : ℕ) (s : S)
      → 0 < value
      → set_size d f value s
        ≡ ok (Result.done tt, (d.sql_set_stmt_attr StatementAttribute.row_array_size value s).1)
  unfolding set_size set_row_array_size into_sql_result into_result
  sized value s h = rw (set_size, lt→ltb 0 value h, (documented.sizes value s).0) refl

  counted :
      (address : ℕ) (s : S)
      → checked d (set_num_rows_fetched d (some address)) s
        ≡ ok (Result.done tt, (d.sql_set_stmt_attr StatementAttribute.rows_fetched_ptr address s).1)
  unfolding set_num_rows_fetched into_sql_result into_result
  counted address s = rw ((documented.counts address s).0) refl

  -- Where nothing is bound and no call fails, binding a row set with memory for at least one row binds
  -- exactly its columns, with the memory that they have, and the address of the number of rows. When
  -- the row set cursor is dropped, also during a panic, there is no panic of its own: nothing of the
  -- row set is bound any more, neither its columns nor that address. But the size of a row set stays
  -- what it was set to.
  pub bind_buffer_lem :
      (address : ℕ) (buffer : TextRowSet) (s : S) (panicking : Bool)
      → bound s ≡ []
      → 0 < buffer.row_capacity
      → AreColumns buffer.row_capacity buffer.columns
      → (s' : S) × (s'' : S) × (bind_buffer d f text_row_set address buffer s
          ≡ ok (Result.done buffer, s'))
        × (bound s' ≡ targets_of buffer.columns)
        × (counter s' ≡ address)
        × (unbound d f panicking s' ≡ ok (Result.done tt, s''))
        × (bound s'' ≡ [])
        × (counter s'' ≡ 0)
        × (array_size s'' ≡ buffer.row_capacity)
  unfolding bind_buffer
  bind_buffer_lem address buffer s panicking free some_rows h =
      let s₁ : S = (d.sql_set_stmt_attr StatementAttribute.row_bind_type 0 s).1 in
      let s₂ : S =
        (d.sql_set_stmt_attr StatementAttribute.row_array_size buffer.row_capacity s₁).1 in
      let s₃ : S = (d.sql_set_stmt_attr StatementAttribute.rows_fetched_ptr address s₂).1 in
      let (_, same) = documented.bind_types 0 s in
      let (_, same', size) = documented.sizes buffer.row_capacity s₁ in
      let (_, same'', size', count) = documented.counts address s₂ in
      let (s', e, behind, size'', count') = bind_to_cursor_lem (targets_of buffer.columns) s₃ in
      let (s'', dropped, none_left, no_count, kept) = unbound_lem panicking s' in
      let bind_type : Call S (Result (Unit {0})) = checked d (set_row_bind_type d 0) in
      let size_set : Call S (Result (Unit {0})) = set_size d f buffer.row_capacity in
      let address_set : Call S (Result (Unit {0})) =
        checked d (set_num_rows_fetched d (some address)) in
      let set_up : Call S (Result (Unit {0})) = bind_type >> size_set >> address_set in
      let ready : set_up s ≡ ok (Result.done tt, s₃) =
        then_lem (bind_type >> size_set) (λ _. address_set)
          (then_lem bind_type (λ _. size_set) (bind_type_set 0 s)
            ∙ sized buffer.row_capacity s₁ some_rows)
        ∙ counted address s₂ in
      let empty : bound s₃ ≡ [] = same'' ∙ same' ∙ same ∙ free in
      (
        s',
        s'',
        or_dropped_lem (set_up >> bind_all buffer) (
            then_lem set_up (λ _. bind_all buffer) ready ∙ bind_all_lem buffer s₃ s' some_rows h e),
        behind ∙ ap (λ l. l ++ targets_of buffer.columns) empty,
        count' ∙ count,
        dropped,
        none_left,
        no_count,
        kept ∙ size'' ∙ size' ∙ size,
      )
