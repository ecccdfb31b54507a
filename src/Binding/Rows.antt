-- ===== src/Binding/Rows.antt =====
-- What ODBC documents of executing a statement with bound arrays of texts: which cells the driver
-- reads, and that an INSERT adds the rows that they make up.
use odbc_api.Common.{
  ap, ◌∙◌, ok, length, ◌==◌, ◌≤◌, ℕ, zero, suc, ◌+◌, ◌*◌, ◌≡◌, ℤ, pos, List, [], ◌∷◌, ◌++◌, Option,
  none, some, take, drop, get_elem?, map, eq_ℤ, if◌then◌else◌,
}
use odbc_api.Indicator.{OdbcSys, null_data}
use odbc_api.Sql.{SqlReturn}
use odbc_api.Statement.{Driver, StatementAttribute, FreeStmtOption}
use odbc_api.TextColumn.{Cell}
use odbc_api.Metadata.{Nullability}
use odbc_api.Metadata
use odbc_api.Binding.{CData, Bound, BindApi}
use odbc_api.Binding.Insert.{read_insert}

-- A row of a table: the table, the columns, and the value of each
abbrev pub TableRow : Type 0
TableRow = List ℕ × List (List ℕ) × List (Option Cell)

-- The row of a table that has these cells
abbrev pub row_in : List ℕ → List (List ℕ) → List Cell → TableRow
row_in table columns cells = (table, columns, map some cells)

module _ ⦃s : OdbcSys⦄ where
  -- In column-wise binding, the values of row `i` start at `i` times the buffer's length. The
  -- indicator tells NULL, or how many bytes there are. Anything else is not an input.
  abbrev pub text_of : List ℕ → ℕ → ℤ → ℤ → Option Cell
  text_of values i (pos length) (pos n) = some (some (take n (drop (i * length) values)))
  text_of values i length ind = if eq_ℤ ind null_data then some none else none

  unfoldable pub read_cell : CData → ℕ → Option Cell
  read_cell cdata i = elim (get_elem? cdata.indicators i) [
    | none ↦ none
    | some ind ↦ text_of cdata.values i cdata.buffer_length ind
  ]

  -- What is bound to a parameter: the last binding of its number counts.
  unfoldable pub bound_to : ℕ → List (ℕ × Bound) → Option Bound
  bound_to number [] = none
  bound_to number (b ∷ bound) = elim (bound_to number bound) [
    | none ↦ if b.0 == number then some b.1 else none
    | some later ↦ some later
  ]

  -- The value of a parameter in row `i`
  unfoldable pub read_param : List (ℕ × Bound) → ℕ → ℕ → Option Cell
  unfolding bound_to read_cell
  read_param bound number i = elim (bound_to number bound) [
    | none ↦ none
    | some b ↦ read_cell b.cdata i
  ]

  -- The values of so many parameters from `number` on
  unfoldable pub read_row : List (ℕ × Bound) → ℕ → ℕ → ℕ → List (Option Cell)
  unfolding read_param
  read_row bound number zero i = []
  read_row bound number (suc n) i = read_param bound number i ∷ read_row bound (number + 1) n i

  -- So many rows from row `i` on, for these columns of a table: the marker of each column is the
  -- parameter of its position.
  unfoldable pub read_rows : List ℕ → List (List ℕ) → List (ℕ × Bound) → ℕ → ℕ → List TableRow
  unfolding read_row
  read_rows table columns bound i zero = []
  read_rows table columns bound i (suc n) =
      (table, columns, read_row bound 1 (length columns) i)
      ∷ read_rows table columns bound (i + 1) n

  -- A driver that executes a prepared INSERT. It remembers the text of the statement, in UTF-16,
  -- what is bound, and how many rows a parameter set has. Where the text is that of an INSERT with a
  -- marker for each column, each execution adds to the table that the text names the rows of a
  -- parameter set, the n-th column being given the n-th parameter.
  pub record Inserts {S : Type 0} (d : Driver S) (api : BindApi S) (from_utf16 : List ℕ → List ℕ)
      : Type 0 where
    pub statement : S → List ℕ
    pub bound : S → List (ℕ × Bound)
    pub paramset : S → ℕ
    pub rows : S → List TableRow
    pub prepares :
        (text : List ℕ) (t : S)
        → let answer = api.sql_prepare text t in
          (answer.0 ≡ SqlReturn.success) × (statement answer.1 ≡ text) × (rows answer.1 ≡ rows t)
    pub describes :
        (table : List ℕ) (columns : List (List ℕ)) (number : ℕ) (t : S)
        → read_insert (from_utf16 (statement t)) ≡ some (table, columns)
        → 1 ≤ number
        → number ≤ length columns
        → let answer = api.sql_describe_param number t in
          (answer.0 ≡ SqlReturn.success)
          × (nullable : Nullability) × (Metadata.new answer.1.nullable ≡ ok nullable)
    pub resets :
        (t : S)
        → let answer = d.sql_free_stmt FreeStmtOption.reset_params t in
          (answer.0 ≡ SqlReturn.success)
          × (statement answer.1 ≡ statement t)
          × (bound answer.1 ≡ [])
          × (rows answer.1 ≡ rows t)
    pub sets :
        (n : ℕ) (t : S)
        → let answer = d.sql_set_stmt_attr StatementAttribute.paramset_size n t in
          (answer.0 ≡ SqlReturn.success)
          × (statement answer.1 ≡ statement t)
          × (bound answer.1 ≡ bound t)
          × (paramset answer.1 ≡ n)
          × (rows answer.1 ≡ rows t)
    pub binds :
        (number : ℕ) (b : Bound) (t : S)
        → let answer = api.sql_bind_parameter number b t in
          (answer.0 ≡ SqlReturn.success)
          × (statement answer.1 ≡ statement t)
          × (bound answer.1 ≡ bound t ++ (number, b) ∷ [])
          × (paramset answer.1 ≡ paramset t)
          × (rows answer.1 ≡ rows t)
    pub executes :
        (table : List ℕ) (columns : List (List ℕ)) (t : S)
        → read_insert (from_utf16 (statement t)) ≡ some (table, columns)
        → let answer = d.sql_execute t in
          (answer.0 ≡ SqlReturn.success)
          × (statement answer.1 ≡ statement t)
          × (rows answer.1 ≡ rows t ++ read_rows table columns (bound t) 0 (paramset t))
    pub no_result_set :
        (table : List ℕ) (columns : List (List ℕ)) (t : S)
        → read_insert (from_utf16 (statement t)) ≡ some (table, columns)
        → d.sql_num_result_cols t ≡ (SqlReturn.success, pos 0)

  -- The statement that is prepared is an INSERT into these columns of a table.
  abbrev pub IsPrepared :
      {S : Type 0} {d : Driver S} {api : BindApi S} {from_utf16 : List ℕ → List ℕ}
      → Inserts d api from_utf16
      → List ℕ
      → List (List ℕ)
      → S
      → Type 0
  IsPrepared {from_utf16 = from_utf16} inserts table columns t =
      read_insert (from_utf16 (inserts.statement t)) ≡ some (table, columns)

  pub kept-IsPrepared :
      {S : Type 0} {d : Driver S} {api : BindApi S} {from_utf16 : List ℕ → List ℕ}
      (inserts : Inserts d api from_utf16) (table : List ℕ) (columns : List (List ℕ)) (t t' : S)
      → inserts.statement t' ≡ inserts.statement t
      → IsPrepared inserts table columns t
      → IsPrepared inserts table columns t'
  kept-IsPrepared {from_utf16 = from_utf16} inserts table columns t t' same prepared =
      ap (λ text. read_insert (from_utf16 text)) same ∙ prepared
