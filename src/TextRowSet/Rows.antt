-- ===== src/TextRowSet/Rows.antt =====
-- A row set that holds given rows: a new one holds none, and an appended row comes behind them.
use odbc_api.Common.{
  ℕ, zero, suc, ◌+◌, ◌*◌, ◌<◌, ◌≤◌, ◌≡◌, refl, ap, sym, ◌∙◌, List, [], ◌∷◌, ◌++◌, none, ok, map,
  length, length-map, length-append, replicate, isize_max, usize_mod, add_usize, add_usize_lem,
  le→leb, ◌==◌, false, arith,
}
use mathlib.Core.List.{map-append}
use odbc_api.Indicator.{OdbcSys}
use odbc_api.TextColumn
use odbc_api.TextColumn.{TextColumn, Cell, Growth, narrow, size_of_isize, new}
use odbc_api.TextColumn.Resize.{CanHold}
use odbc_api.TextColumn.Reset.{new_lem}
use odbc_api.TextColumn.Holds.{Holds, HasRoom, append-Holds}
use odbc_api.TextRowSet.{TextRowSet, text_columns, from_max_str_lens, append_columns, append}

-- The first cell of a row, and the others
abbrev pub first_cell : List Cell → Cell
first_cell [] = none
first_cell (cell ∷ cells) = cell

abbrev pub other_cells : List Cell → List Cell
other_cells [] = []
other_cells (cell ∷ cells) = cells

module _ ⦃s : OdbcSys⦄ where
  -- Columns numbered from `i + 1` on, with so many rows each, the first of which hold these rows
  abbrev pub ColumnsHold : ℕ → ℕ → List (ℕ × TextColumn) → List (List Cell) → Type 0
  ColumnsHold capacity i [] rows = Unit
  ColumnsHold capacity i (column ∷ columns) rows =
      (column.0 ≡ i + 1)
      × Holds narrow capacity column.1 (map first_cell rows)
      × ColumnsHold capacity (i + 1) columns (map other_cells rows)

  pub record HoldsRows (capacity width : ℕ) (buffer : TextRowSet) (rows : List (List Cell))
      : Type 0 where
    pub row_count : buffer.num_rows ≡ length rows
    pub same_capacity : buffer.row_capacity ≡ capacity
    pub same_width : length buffer.columns ≡ width
    pub columns_hold : ColumnsHold capacity 0 buffer.columns rows

  no_rows :
      (capacity i : ℕ) (columns : List (ℕ × TextColumn)) (rows : List (List Cell))
      → ColumnsHold capacity i columns rows
      → ColumnsHold capacity i columns []
  no_rows capacity i [] rows h = tt
  no_rows capacity i (column ∷ columns) rows (number, h, hs) = (
    number,
    record { valid = h.valid; row_count = h.row_count; holds = λ j cell e. cc },
    no_rows capacity (i + 1) columns (map other_cells rows) hs,
  )

  -- A row set that is cleared holds no rows.
  pub cleared :
      (capacity width : ℕ) (buffer : TextRowSet) (rows : List (List Cell))
      → HoldsRows capacity width buffer rows
      → HoldsRows capacity width (record buffer { num_rows = 0 }) []
  cleared capacity width buffer rows h = record {
    row_count = refl;
    same_capacity = h.same_capacity;
    same_width = h.same_width;
    columns_hold = no_rows capacity 0 buffer.columns rows h.columns_hold;
  }

  module _ (capacity : ℕ) (room : CanHold narrow 0 capacity)
      (indicators_fit : capacity * size_of_isize ≤ isize_max) where
    new_columns :
        (i n : ℕ)
        → i + n < 65536
        → (columns : List (ℕ × TextColumn)) × (text_columns capacity i (replicate n 0) ≡ ok columns)
          × (length columns ≡ n)
          × ColumnsHold capacity i columns []
    unfolding text_columns
    new_columns i zero h = ([], refl, refl, tt)
    new_columns i (suc n) h =
        let (col, e, valid, rows, values) = new_lem capacity room indicators_fit in
        let (columns, es, width, hs) = new_columns (i + 1) n (omega (arith, h)) in
        (
          (i + 1, col) ∷ columns,
          rw (add_usize_lem i 1 (omega (arith, h)), le→leb (i + 1) 65535 (omega (arith, h)), e, es),
          ap suc width,
          (refl, record { valid = valid; row_count = rows; holds = λ j cell e. cc }, hs),
        )

    -- A row set for texts of no length, with fewer than 2 ^ 16 columns
    pub from_max_str_lens-HoldsRows :
        (n : ℕ)
        → n < 65536
        → (buffer : TextRowSet) × (from_max_str_lens capacity (replicate n 0) ≡ ok buffer)
          × HoldsRows capacity n buffer []
    unfolding from_max_str_lens
    from_max_str_lens-HoldsRows n h =
        let (columns, e, width, hs) = new_columns 0 n (omega (arith, h)) in
        (
          record { num_rows = 0; row_capacity = capacity; columns = columns },
          rw e,
          record { row_count = refl; same_capacity = refl; same_width = width; columns_hold = hs },
        )

module _ ⦃s : OdbcSys⦄ ⦃g : Growth⦄ (capacity : ℕ) where
  abbrev pub AllHaveRoom : List Cell → Type 0
  AllHaveRoom [] = Unit
  AllHaveRoom (cell ∷ cells) = HasRoom narrow capacity cell × AllHaveRoom cells

  append_at :
      {col : TextColumn} {cells : List Cell} (row : ℕ)
      → Holds narrow capacity col cells
      → length cells ≡ row
      → row < capacity
      → (cell : Cell) → HasRoom narrow capacity cell
      → (col' : TextColumn) × (TextColumn.append narrow col row cell ≡ ok col')
        × Holds narrow capacity col' (cells ++ cell ∷ [])
  append_at row h at below cell room =
      rw⁻¹ at (append-Holds narrow capacity h (rw at below) cell room)

  append_columns-ColumnsHold :
      (i row : ℕ) (columns : List (ℕ × TextColumn)) (rows : List (List Cell)) (cells : List Cell)
      → ColumnsHold capacity i columns rows
      → row ≡ length rows
      → row < capacity
      → length cells ≡ length columns
      → AllHaveRoom cells
      → (columns' : List (ℕ × TextColumn)) × (append_columns row columns cells ≡ ok columns')
        × (length columns' ≡ length columns)
        × ColumnsHold capacity i columns' (rows ++ cells ∷ [])
  unfolding append_columns
  append_columns-ColumnsHold i row [] rows cells h at below width room = ([], refl, refl, tt)
  append_columns-ColumnsHold i row (column ∷ columns) rows [] h at below width room = cc
  append_columns-ColumnsHold i row (column ∷ columns) rows (cell ∷ cells) (number, h, hs) at below
        width (room, rooms) =
      let here : length (map first_cell rows) ≡ row = length-map first_cell rows ∙ sym at in
      let (col', e, h') = append_at row h here below cell room in
      let (columns', es, same, hs') =
        append_columns-ColumnsHold (i + 1) row columns (map other_cells rows) cells hs
          (at ∙ sym (length-map other_cells rows)) below (omega (arith, width)) rooms in
      (
        (column.0, col') ∷ columns',
        rw (e, es),
        ap suc same,
        (
          number,
          rw (map-append first_cell rows ((cell ∷ cells) ∷ [])) h',
          rw (map-append other_cells rows ((cell ∷ cells) ∷ [])) hs',
        ),
      )

  -- Behind the rows that a row set holds, below its capacity, a row is appended that has a cell for
  -- each column and memory for it.
  pub append-HoldsRows :
      (width : ℕ) (buffer : TextRowSet) (rows : List (List Cell)) (row : List Cell)
      → HoldsRows capacity width buffer rows
      → length rows < capacity
      → capacity < usize_mod
      → length row ≡ width
      → AllHaveRoom row
      → (buffer' : TextRowSet) × (append buffer row ≡ ok buffer')
        × HoldsRows capacity width buffer' (rows ++ row ∷ [])
  unfolding append
  append-HoldsRows width buffer rows row h below small same rooms =
      let (columns, e, width', hs) =
        append_columns-ColumnsHold 0 buffer.num_rows buffer.columns rows row h.columns_hold
          h.row_count (rw h.row_count below) (same ∙ sym h.same_width) rooms in
      let open_row : (buffer.row_capacity == buffer.num_rows) ≡ false =
        ground (arith, h.same_capacity, h.row_count, below) in
      let one_more : add_usize buffer.num_rows 1 ≡ buffer.num_rows + 1 =
        add_usize_lem buffer.num_rows 1 (omega (arith, h.row_count, below, small)) in
      (
        record buffer { num_rows = buffer.num_rows + 1; columns = columns },
        rw (open_row, e, one_more),
        record {
          row_count = omega (arith, h.row_count, length-append rows (row ∷ []));
          same_capacity = h.same_capacity;
          same_width = width' ∙ h.same_width;
          columns_hold = hs;
        },
      )
