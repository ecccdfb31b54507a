-- ===== src/TextRowSet/Append.antt =====
-- Appending rows to a `TextRowSet` and reading them through `at`.
use odbc_api.Common.{
  ℕ, zero, suc, ◌+◌, ◌<◌, ◌≡◌, refl, sym, ◌∙◌, none, some, ok, List, [], ◌∷◌, get_elem?, store_ok,
  length, add_usize, add_usize_lem, usize_mod, ◌==◌, false, lt→ltb, arith,
}
use odbc_api.Indicator.{OdbcSys, Indicator, null_data}
use odbc_api.Rows.Laws.{AreReadable}
use odbc_api.TextColumn.{TextColumn, Cell, Growth, narrow, indicator_at, value_at}
use odbc_api.TextColumn
use odbc_api.TextColumn.Valid.{IsValid}
use odbc_api.TextColumn.Write.{with_null, with_null-HasWritten}
use odbc_api.TextColumn.Resize.{CanHold}
use odbc_api.TextColumn.Append.{IsWhole, append-some}
use odbc_api.TextRowSet.{TextRowSet, append_columns, append, at}

module _ ⦃s : OdbcSys⦄ ⦃g : Growth⦄ where
  -- There is memory for slots that hold the cell.
  abbrev pub HasRoom : TextColumn → Cell → Type 0
  HasRoom col none = Unit
  HasRoom col (some text) = CanHold narrow (g.grow (length text)) (length col.indicators)

  -- The row exists in each column, where the rows before it have indicators such as ODBC allows,
  -- and there is a cell for each with memory for it.
  abbrev pub TakeRow : ℕ → List (ℕ × TextColumn) → List Cell → Type 0
  TakeRow row [] cells = Unit
  TakeRow row (column ∷ columns) [] = ⊥
  TakeRow row (column ∷ columns) (cell ∷ cells) =
      IsValid narrow column.1
      × (row < length (column.1).indicators)
      × AreReadable row (column.1).indicators
      × HasRoom column.1 cell
      × TakeRow row columns cells

  -- What appending a cell to a column leaves
  record HasAppended (row : ℕ) (cell : Cell) (col col' : TextColumn) : Type 0 where
    valid : IsValid narrow col'
    same_rows : length col'.indicators ≡ length col.indicators
    reads : value_at narrow col' row ≡ ok cell
    kept :
        (j : ℕ) (ind : Indicator)
        → j < row
        → indicator_at narrow col j ≡ ok ind
        → IsWhole narrow col.max_str_len ind
        → value_at narrow col' j ≡ value_at narrow col j

  append_cell :
      (row : ℕ) (col : TextColumn) (cell : Cell)
      → IsValid narrow col
      → row < length col.indicators
      → AreReadable row col.indicators
      → HasRoom col cell
      → (col' : TextColumn) × (TextColumn.append narrow col row cell ≡ ok col')
        × HasAppended row cell col col'
  unfolding TextColumn.append
  append_cell row col none v h readable room =
      let p = with_null-HasWritten v row h in
      (
        with_null col row,
        rw (store_ok col.indicators row null_data h),
        record {
          valid = p.valid;
          same_rows = p.same_rows;
          reads = p.reads;
          kept = λ j ind lt e whole. p.others j (omega (arith, lt));
        },
      )
  append_cell row col (some text) v h readable room =
      let (col', e, valid, rows, reads, kept) = append-some v row h readable text room in
      (col', e, record { valid = valid; same_rows = rows; reads = reads; kept = kept })

  -- The same for each column
  AllAppended : ℕ → List Cell → List (ℕ × TextColumn) → List (ℕ × TextColumn) → Type 0
  AllAppended row cells [] [] = Unit
  AllAppended row cells [] (column' ∷ columns') = ⊥
  AllAppended row cells (column ∷ columns) [] = ⊥
  AllAppended row [] (column ∷ columns) (column' ∷ columns') = ⊥
  AllAppended row (cell ∷ cells) (column ∷ columns) (column' ∷ columns') =
      (column'.0 ≡ column.0)
      × HasAppended row cell column.1 column'.1
      × AllAppended row cells columns columns'

  append_columns_lem :
      (row : ℕ) (columns : List (ℕ × TextColumn)) (cells : List Cell)
      → TakeRow row columns cells
      → (columns' : List (ℕ × TextColumn)) × (append_columns row columns cells ≡ ok columns')
        × AllAppended row cells columns columns'
  unfolding append_columns AllAppended
  append_columns_lem row [] cells t = ([], refl, tt)
  append_columns_lem row (column ∷ columns) [] t = absurd t
  append_columns_lem row (column ∷ columns) (cell ∷ cells) (v, h, readable, room, t) =
      let (col', e, p) = append_cell row column.1 cell v h readable room in
      let (columns', es, ps) = append_columns_lem row columns cells t in
      ((column.0, col') ∷ columns', rw (e, es), (refl, p, ps))

  -- What one column leaves, picked out by its index
  pick :
      (row k : ℕ) (cells : List Cell) (columns columns' : List (ℕ × TextColumn))
      (column : ℕ × TextColumn)
      → AllAppended row cells columns columns'
      → get_elem? columns k ≡ some column
      → (column' : ℕ × TextColumn) × (get_elem? columns' k ≡ some column')
        × (cell : Cell) × (get_elem? cells k ≡ some cell)
        × HasAppended row cell column.1 column'.1
  unfolding AllAppended
  pick row k cells [] [] column a e = cc
  pick row k cells [] (column' ∷ columns') column a e = absurd a
  pick row k cells (first ∷ columns) [] column a e = absurd a
  pick row k [] (first ∷ columns) (column' ∷ columns') column a e = absurd a
  pick row zero (cell ∷ cells) (first ∷ columns) (column' ∷ columns') column a e =
      (column', refl, cell, refl, (let same : column ≡ first = cc in rw same a.1))
  pick row (suc k) (cell ∷ cells) (first ∷ columns) (column' ∷ columns') column a e =
      pick row k cells columns columns' column a.2 e

  at_lem :
      (buffer : TextRowSet) (k j : ℕ) (column : ℕ × TextColumn)
      → j < buffer.num_rows
      → get_elem? buffer.columns k ≡ some column
      → at buffer k j ≡ value_at narrow column.1 j
  unfolding at
  at_lem buffer k j column lt e = rw (lt→ltb j buffer.num_rows lt, e)

  -- A row set where a row can be appended
  pub record TakesRow (buffer : TextRowSet) (row : List Cell) : Type 0 where
    pub below_capacity : buffer.num_rows < buffer.row_capacity
    pub small : buffer.row_capacity < usize_mod
    pub columns_take : TakeRow buffer.num_rows buffer.columns row

  module _ (buffer : TextRowSet) (row : List Cell) (t : TakesRow buffer row) where
    -- Appending a row to a row set below its capacity, with valid columns, a cell for each column,
    -- and memory for the slots of longer texts, does not panic and adds one row. In each column the
    -- new row reads as its cell, and an earlier row as it did before, if its indicator reports no
    -- more than its slot could hold.
    pub at-append :
        (buffer' : TextRowSet) × (append buffer row ≡ ok buffer')
        × (buffer'.num_rows ≡ buffer.num_rows + 1)
        × ((k : ℕ) (column : ℕ × TextColumn)
            → get_elem? buffer.columns k ≡ some column
            → ((cell : Cell) → get_elem? row k ≡ some cell → at buffer' k buffer.num_rows ≡ ok cell)
              × ((j : ℕ) (ind : Indicator)
                  → j < buffer.num_rows
                  → indicator_at narrow column.1 j ≡ ok ind
                  → IsWhole narrow (column.1).max_str_len ind
                  → at buffer' k j ≡ at buffer k j))
    unfolding append
    at-append =
        let (columns, e, a) =
          append_columns_lem buffer.num_rows buffer.columns row t.columns_take in
        let open_row : (buffer.row_capacity == buffer.num_rows) ≡ false =
          ground (arith, t.below_capacity) in
        let one_more : add_usize buffer.num_rows 1 ≡ buffer.num_rows + 1 =
          add_usize_lem buffer.num_rows 1 (omega (arith, t.below_capacity, t.small)) in
        let appended : TextRowSet = record buffer {
          num_rows = buffer.num_rows + 1;
          columns = columns;
        } in
        (
          appended,
          rw (open_row, e, one_more),
          refl,
          λ k column ek.
              let (column', ek', cell', ec', p) =
                pick buffer.num_rows k row buffer.columns columns column a ek in
              (
                λ cell ec.
                    let same : ok cell' ≡ ok cell = cc in
                    at_lem appended k buffer.num_rows column' (omega arith) ek' ∙ p.reads ∙ same,
                λ j ind lt ej whole.
                    at_lem appended k j column' (omega (arith, lt)) ek'
                    ∙ p.kept j ind lt ej whole
                    ∙ sym (at_lem buffer k j column lt ek),
              ),
        )
