-- ===== src/TextRowSet/Read.antt =====
-- What the driver reads of a row set of texts that is bound to the parameters of a statement.
use odbc_api.Common.{
  none, true, false, ◌==◌, ℕ, zero, suc, ◌+◌, ◌/◌, ◌<◌, ◌≤◌, ◌≡◌, refl, ap, sym, ◌∙◌, ℤ, pos,
  negsuc, List, [], ◌∷◌, some, ok, panic, map_run, isize_max, to_isize_ok, ◌⊎◌, inl, inr,
  Option-cases, map, length, min, get_elem?, arith,
}
use mathlib.Core.Path.{subst}
use odbc_api.Indicator.{OdbcSys, Indicator, null_data, from_isize}
use odbc_api.DataType.{DataType, data_type, column_size, decimal_digits}
use odbc_api.AnyColumnBuffer.Binding.{CDataType}
use odbc_api.TextColumn.{TextColumn, Cell, narrow, indicator_at}
use odbc_api.TextColumn.Valid.{IsValid, stored, value_at_lem, slot_inside, slot_lem, values_small}
use odbc_api.TextColumn.Holds.{HoldsRow}
use odbc_api.TextColumn.Append.{IsWhole}
use odbc_api.TextRowSet.{TextRowSet}
use odbc_api.TextRowSet.Rows.{first_cell, other_cells, ColumnsHold, HoldsRows}
use odbc_api.TextRowSet.Bind.{text_parameter}
use odbc_api.Binding.{ParamType, Bound}
use odbc_api.Binding.Rows.{text_of, read_cell, bound_to, read_param, read_row, read_rows, row_in}

pub get_elem?-map :
    {A B : Type 0} (f : A → B) (xs : List A) {x : A} (j : ℕ)
    → get_elem? xs j ≡ some x
    → get_elem? (map f xs) j ≡ some (f x)
get_elem?-map f [] j e = cc
get_elem?-map f (x ∷ xs) zero e = cc
get_elem?-map f (x ∷ xs) (suc j) e = get_elem?-map f xs j e

-- Each row has so many cells.
abbrev pub AllWide : ℕ → List (List Cell) → Type 0
AllWide width rows = (j : ℕ) (row : List Cell) → get_elem? rows j ≡ some row → length row ≡ width

module _ ⦃s : OdbcSys⦄ where
  -- What the driver is told of a column
  abbrev pub bound_text : TextColumn → Bound
  bound_text col = record {
    input_output_type = ParamType.input;
    cdata = record {
      cdata_type = CDataType.char;
      values = col.values;
      indicators = col.indicators;
      buffer_length = pos (col.max_str_len + 1);
    };
    sql_type = data_type (DataType.varchar col.max_str_len);
    size = column_size (DataType.varchar col.max_str_len);
    digits = decimal_digits (DataType.varchar col.max_str_len);
  }

  abbrev pub bound_columns : List (ℕ × TextColumn) → List (ℕ × Bound)
  bound_columns columns = map (λ column. (column.0, bound_text column.1)) columns

  -- A valid indicator of an input is that of NULL, of a length, or means no total.
  from_isize-cases :
      (x : ℤ) (ind : Indicator)
      → from_isize x ≡ ok ind
      → ((x ≡ null_data) × (ind ≡ Indicator.null))
        ⊎ (ind ≡ Indicator.no_total)
        ⊎ ((n : ℕ) × (x ≡ pos n) × (ind ≡ Indicator.length n))
  unfolding from_isize
  from_isize-cases (pos n) ind e = inr (inr (n, refl, (cc)))
  from_isize-cases (negsuc n) ind e = ground arith

  -- A column whose buffer has at least one row can be bound: its slots are small.
  pub text_parameter-IsValid :
      (col : TextColumn)
      → IsValid narrow col
      → 0 < length col.indicators
      → text_parameter narrow col
        ≡ ok (record {
          cdata = (bound_text col).cdata;
          parameter_type = DataType.varchar col.max_str_len;
        })
  text_parameter-IsValid col v some_rows =
      let fits : col.max_str_len + 1 ≤ isize_max =
        omega (arith, slot_inside v 0 some_rows, values_small v) in
      rw (slot_lem v, to_isize_ok (col.max_str_len + 1) fits)

  -- The driver reads what `value_at` does of a cell that is whole.
  text_of-stored :
      (col : TextColumn) (j : ℕ) (x : ℤ) (ind : Indicator)
      → from_isize x ≡ ok ind
      → IsWhole narrow col.max_str_len ind
      → text_of col.values j (pos (col.max_str_len + 1)) x ≡ some (stored narrow col j ind)
  text_of-stored col j x ind e whole = elim (from_isize-cases x ind e) [
    | inl (ex, null) ↦ rw (ex, null) (ground arith)
    | inr (inl total) ↦ absurd (subst (λ i. IsWhole narrow col.max_str_len i) total whole)
    | inr (inr (n, ex, len)) ↦
        let short : n / 1 ≤ col.max_str_len =
          subst (λ i. IsWhole narrow col.max_str_len i) len whole in
        let all : min col.max_str_len (n / 1) ≡ n = omega (arith, short) in rw (ex, len, all)
  ]

  read_cell-HoldsRow :
      (col : TextColumn) (j : ℕ) (cell : Cell)
      → IsValid narrow col
      → HoldsRow narrow col j cell
      → read_cell (bound_text col).cdata j ≡ some cell
  unfolding read_cell indicator_at
  read_cell-HoldsRow col j cell v r =
      let same : ok (stored narrow col j r.ind) ≡ ok cell =
        sym (value_at_lem v j ∙ ap (map_run (stored narrow col j)) r.indicator) ∙ r.value in
      let same_cell : stored narrow col j r.ind ≡ cell = cc in
      elim (Option-cases (get_elem? col.indicators j)) [
        | inl e ↦ absurd (let k : panic ≡ ok r.ind = sym (rw e) ∙ r.indicator in cc)
        | inr (x, e) ↦
            let read : from_isize x ≡ ok r.ind = sym (rw e) ∙ r.indicator in
            rw (e, text_of-stored col j x r.ind read r.whole, same_cell)
      ]

  -- The columns from `i + 1` on are bound to no parameter up to `i`.
  bound_to-below :
      (capacity i number : ℕ) (columns : List (ℕ × TextColumn)) (rows : List (List Cell))
      → ColumnsHold capacity i columns rows
      → number ≤ i
      → bound_to number (bound_columns columns) ≡ none
  unfolding bound_to
  bound_to-below capacity i number [] rows h le = refl
  bound_to-below capacity i number (column ∷ columns) rows (same, h, hs) le =
      let different : (column.0 == number) ≡ false = ground (arith, same, le) in
      rw (
        bound_to-below capacity (i + 1) number columns (map other_cells rows) hs
            (omega (arith, le)),
        different,
      )

  -- What is bound to other parameters does not matter.
  bound_to-other :
      (number : ℕ) (b : ℕ × Bound) (bound : List (ℕ × Bound))
      → b.0 < number
      → bound_to number (b ∷ bound) ≡ bound_to number bound
  unfolding bound_to
  bound_to-other number b bound less =
      let different : (b.0 == number) ≡ false = ground (arith, less) in
      elim (Option-cases (bound_to number bound)) [ inl e ↦ rw (e, different) | inr (x, e) ↦ rw e ]

  read_row-other :
      (n number j : ℕ) (b : ℕ × Bound) (bound : List (ℕ × Bound))
      → b.0 < number
      → read_row (b ∷ bound) number n j ≡ read_row bound number n j
  unfolding read_row read_param
  read_row-other zero number j b bound less = refl
  read_row-other (suc n) number j b bound less = rw (
    read_param,
    bound_to-other number b bound less,
    read_row-other n (number + 1) j b bound (omega (arith, less)),
  )

  bound_row :
      (capacity i j : ℕ) (columns : List (ℕ × TextColumn)) (rows : List (List Cell))
      (row : List Cell)
      → ColumnsHold capacity i columns rows
      → get_elem? rows j ≡ some row
      → length row ≡ length columns
      → read_row (bound_columns columns) (i + 1) (length columns) j ≡ map some row
  unfolding read_row read_param bound_to
  bound_row capacity i j [] rows [] h e width = refl
  bound_row capacity i j [] rows (cell ∷ cells) h e width = cc
  bound_row capacity i j (column ∷ columns) rows [] h e width = cc
  bound_row capacity i j (column ∷ columns) rows (cell ∷ cells) (number, h, hs) e width =
      let here : read_cell (bound_text column.1).cdata j ≡ some cell =
        read_cell-HoldsRow column.1 j cell h.valid
          (h.holds j cell (get_elem?-map first_cell rows j e)) in
      let behind : read_row (bound_columns columns) (i + 1 + 1) (length columns) j
          ≡ map some cells =
        bound_row capacity (i + 1) j columns (map other_cells rows) cells hs
          (get_elem?-map other_cells rows j e) (omega (arith, width)) in
      let later =
        bound_to-below capacity (i + 1) (i + 1) columns (map other_cells rows) hs (omega arith) in
      let this : (column.0 == i + 1) ≡ true = ground (arith, number) in
      rw (
        later,
        this,
        here,
        read_row-other (length columns) (i + 1 + 1) j (column.0, bound_text column.1)
            (bound_columns columns) (omega (arith, number)),
        behind,
      )

  read_rows-lem :
      (table : List ℕ) (names : List (List ℕ)) (bound : List (ℕ × Bound)) (i : ℕ)
      (rows : List (List Cell))
      → ((j : ℕ) (row : List Cell)
          → get_elem? rows j ≡ some row
          → read_row bound 1 (length names) (i + j) ≡ map some row)
      → read_rows table names bound i (length rows) ≡ map (row_in table names) rows
  unfolding read_rows
  read_rows-lem table names bound i [] h = refl
  read_rows-lem table names bound i (row ∷ rows) h =
      let here : i + 0 ≡ i = omega arith in
      let first : read_row bound 1 (length names) i ≡ map some row = rw⁻¹ here (h 0 row refl) in
      let others =
        read_rows-lem table names bound (i + 1) rows
          (λ j r e. let next : i + suc j ≡ i + 1 + j = omega arith in rw⁻¹ next (h (suc j) r e)) in
      rw (first, others)

  -- The driver reads the rows that the row set holds, all of whose cells are inputs.
  pub read_rows-HoldsRows :
      (table : List ℕ) (names : List (List ℕ)) (capacity : ℕ) (buffer : TextRowSet)
      (rows : List (List Cell))
      → HoldsRows capacity (length names) buffer rows
      → AllWide (length names) rows
      → read_rows table names (bound_columns buffer.columns) 0 (length rows)
        ≡ map (row_in table names) rows
  read_rows-HoldsRows table names capacity buffer rows h wide =
      read_rows-lem table names (bound_columns buffer.columns) 0 rows (λ j row e.
        let at : 0 + j ≡ j = omega arith in
        rw (at, sym h.same_width)
          (bound_row capacity 0 j buffer.columns rows row h.columns_hold e
            (wide j row e ∙ sym h.same_width)))
