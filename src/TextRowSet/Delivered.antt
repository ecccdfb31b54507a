-- ===== src/TextRowSet/Delivered.antt =====
-- What ODBC documents of fetching into bound columns of texts, and that a row set reads it.
use odbc_api.Common.{
  ℕ, ◌+◌, ◌*◌, ◌/◌, ◌<◌, ◌≤◌, ◌≡◌, refl, ◌∙◌, pos, List, [], ◌∷◌, none, some, ok, map, length, min,
  take, segment, get_elem?, arith,
}
use odbc_api.Indicator.{OdbcSys, null_data}
use odbc_api.Indicator.Laws.{from_isize-null, from_isize-pos}
use odbc_api.TextColumn.{TextColumn, Cell, narrow, indicator_at, value_at}
use odbc_api.TextColumn.Valid.{IsValid, value_at_lem}
use odbc_api.TextRowSet.Fetch.{text_targets, written_columns}
use odbc_api.TextRowSet.Rows.{first_cell, other_cells}
use odbc_api.TextRowSet.Read.{bound_text, text_parameter-IsValid, get_elem?-map}
use odbc_api.Binding.{CData}
use odbc_api.Cursor.RowSet.{Targets}

-- A cell of which no more than `m` bytes are kept
abbrev pub cut : ℕ → Cell → Cell
cut m none = none
cut m (some text) = some (take m text)

module _ ⦃sys : OdbcSys⦄ where
  -- Row `j` of a bound column has the cell: its indicator tells NULL or the length of the whole text,
  -- of which the values have as much as fits in front of a terminating zero.
  abbrev pub HasCell : CData → ℕ → Cell → Type 0
  HasCell cdata j none = get_elem? cdata.indicators j ≡ some null_data
  HasCell cdata j (some text) =
      (get_elem? cdata.indicators j ≡ some (pos (length text)))
      × ((m : ℕ)
          → cdata.buffer_length ≡ pos (m + 1)
          → segment (j * (m + 1)) (min m (length text)) cdata.values ≡ take m text)

  -- A fetch writes to the memory, whose size stays.
  pub record IsDelivered (before after : CData) (cells : List Cell) : Type 0 where
    pub same_values : length after.values ≡ length before.values
    pub same_indicators : length after.indicators ≡ length before.indicators
    pub same_length : after.buffer_length ≡ before.buffer_length
    pub has : (j : ℕ) (cell : Cell) → get_elem? cells j ≡ some cell → HasCell after j cell

  abbrev pub AreDelivered : Targets → Targets → List (List Cell) → Type 0
  AreDelivered [] [] rows = Unit
  AreDelivered [] (a ∷ after) rows = ⊥
  AreDelivered (b ∷ before) [] rows = ⊥
  AreDelivered (b ∷ before) (a ∷ after) rows =
      IsDelivered b.1 a.1 (map first_cell rows) × AreDelivered before after (map other_cells rows)

  -- Memory for so many rows
  abbrev pub HasMemory : ℕ → Targets → Type 0
  HasMemory n [] = Unit
  HasMemory n (b ∷ before) =
      (n ≤ length (b.1).indicators)
      × ((m : ℕ) → (b.1).buffer_length ≡ pos (m + 1) → n * (m + 1) ≤ length (b.1).values)
      × HasMemory n before

  -- Columns of so many rows each
  abbrev pub AreColumns : ℕ → List (ℕ × TextColumn) → Type 0
  AreColumns capacity [] = Unit
  AreColumns capacity (column ∷ columns) =
      IsValid narrow column.1
      × (length (column.1).indicators ≡ capacity)
      × AreColumns capacity columns

  abbrev pub targets_of : List (ℕ × TextColumn) → Targets
  targets_of columns = map (λ column. (column.0, (bound_text column.1).cdata)) columns

  pub text_targets_lem :
      (capacity : ℕ) (columns : List (ℕ × TextColumn))
      → 0 < capacity
      → AreColumns capacity columns
      → text_targets columns ≡ ok (targets_of columns)
  unfolding text_targets
  text_targets_lem capacity [] some_rows h = refl
  text_targets_lem capacity (column ∷ columns) some_rows (v, size, hs) = rw (
    text_parameter-IsValid column.1 v (omega (arith, some_rows, size)),
    text_targets_lem capacity columns some_rows hs,
  )

  enough : (n k m l : ℕ) → n ≤ k → l ≡ (m + 1) * k → n * (m + 1) ≤ l
  enough n k m l le e = grind arith

  pub targets-HasMemory :
      (n capacity : ℕ) (columns : List (ℕ × TextColumn))
      → n ≤ capacity
      → AreColumns capacity columns
      → HasMemory n (targets_of columns)
  targets-HasMemory n capacity [] le h = tt
  targets-HasMemory n capacity (column ∷ columns) le (v, size, hs) = (
    omega (arith, le, size),
    λ m e.
        let same : (column.1).max_str_len + 1 ≡ m + 1 = cc in
        rw⁻¹ same (
          enough n capacity (column.1).max_str_len (length (column.1).values) le
            (rw⁻¹ size (v.sized))),
    targets-HasMemory n capacity columns le hs,
  )

  -- A column behind a fetch
  abbrev pub fetched : TextColumn → CData → TextColumn
  fetched col target = record col { values = target.values; indicators = target.indicators }

  fetched-IsValid :
      (col : TextColumn) (target : CData) (cells : List Cell)
      → IsValid narrow col
      → IsDelivered (bound_text col).cdata target cells
      → IsValid narrow (fetched col target)
  fetched-IsValid col target cells v h = record {
    sized = rw (h.same_values, h.same_indicators) (v.sized);
    bounded = omega (arith, v.bounded, h.same_values);
    small = v.small;
  }

  value_at-HasCell :
      (col : TextColumn) (target : CData) (j : ℕ) (cell : Cell)
      → IsValid narrow (fetched col target)
      → target.buffer_length ≡ pos (col.max_str_len + 1)
      → HasCell target j cell
      → value_at narrow (fetched col target) j ≡ ok (cut col.max_str_len cell)
  unfolding indicator_at
  value_at-HasCell col target j none v len h = rw (value_at_lem v j, h, from_isize-null) refl
  value_at-HasCell col target j (some text) v len (told, same) =
      let all : length text / 1 ≡ length text = omega arith in
      rw (value_at_lem v j, told, from_isize-pos (length text), all, same col.max_str_len len) refl

  -- What a fetch leaves of columns is columns, which read as the rows, cut off.
  pub written_columns-AreColumns :
      (capacity : ℕ) (columns : List (ℕ × TextColumn)) (after : Targets) (rows : List (List Cell))
      → AreColumns capacity columns
      → AreDelivered (targets_of columns) after rows
      → AreColumns capacity (written_columns after columns)
  unfolding written_columns
  written_columns-AreColumns capacity [] [] rows h del = tt
  written_columns-AreColumns capacity [] (a ∷ after) rows h del = absurd del
  written_columns-AreColumns capacity (column ∷ columns) [] rows h del = absurd del
  written_columns-AreColumns capacity (column ∷ columns) (a ∷ after) rows (v, size, hs)
        (del, dels) =
      (
        fetched-IsValid column.1 a.1 (map first_cell rows) v del,
        del.same_indicators ∙ size,
        written_columns-AreColumns capacity columns after (map other_cells rows) hs dels,
      )

  -- The columns read as a row, cut off.
  abbrev pub ColumnsRead : List (ℕ × TextColumn) → ℕ → List Cell → Type 0
  ColumnsRead [] j row = Unit
  ColumnsRead (column ∷ columns) j row =
      (value_at narrow column.1 j ≡ ok (cut (column.1).max_str_len (first_cell row)))
      × ColumnsRead columns j (other_cells row)

  pub written_columns-ColumnsRead :
      (capacity j : ℕ) (columns : List (ℕ × TextColumn)) (after : Targets) (rows : List (List Cell))
      (row : List Cell)
      → AreColumns capacity columns
      → AreDelivered (targets_of columns) after rows
      → get_elem? rows j ≡ some row
      → ColumnsRead (written_columns after columns) j row
  unfolding written_columns
  written_columns-ColumnsRead capacity j [] [] rows row h del e = tt
  written_columns-ColumnsRead capacity j [] (a ∷ after) rows row h del e = absurd del
  written_columns-ColumnsRead capacity j (column ∷ columns) [] rows row h del e = absurd del
  written_columns-ColumnsRead capacity j (column ∷ columns) (a ∷ after) rows row (v, size, hs)
        (del, dels) e =
      (
        value_at-HasCell column.1 a.1 j (first_cell row)
            (fetched-IsValid column.1 a.1 (map first_cell rows) v del) del.same_length
            (del.has j (first_cell row) (get_elem?-map first_cell rows j e)),
        written_columns-ColumnsRead capacity j columns after (map other_cells rows)
            (other_cells row) hs dels (get_elem?-map other_cells rows j e),
      )
