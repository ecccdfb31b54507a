-- ===== src/TextRowSet/Tests.antt =====
-- A row set of two columns: a theorem at an input that meets its hypotheses, and runs.
use odbc_api.Common.{ℕ, ◌+◌, ◌<◌, ◌≡◌, List, [], ◌∷◌, some, none, pos, negsuc, ok, arith, get_elem?}
use odbc_api.Indicator.{OdbcSys, Indicator}
use odbc_api.Indicator.Laws.{from_isize-pos, from_isize-null}
use odbc_api.TextColumn.{TextColumn, Cell, Growth, narrow, indicator_at}
use odbc_api.TextColumn.Append.{IsWhole}
use odbc_api.TextRowSet.{TextRowSet, at, append}
use odbc_api.TextRowSet.Append.{TakesRow, at-append}

-- The values that ODBC documents for the two constants: -1 and -4.
instance abbrev odbc : OdbcSys
odbc = record { null_code = 0; no_total_code = 3; distinct = omega arith }

instance abbrev growth : Growth
growth = record { grow = λ n. n + 2; le_grow = λ n. omega arith }

abbrev names : TextColumn
names = record {
  max_str_len = 2;
  values = 65 ∷ 66 ∷ 0 ∷ 0 ∷ 0 ∷ 0 ∷ [];
  indicators = pos 2 ∷ pos 0 ∷ [];
}

abbrev notes : TextColumn
notes = record { max_str_len = 1; values = 0 ∷ 0 ∷ 0 ∷ 0 ∷ []; indicators = negsuc 0 ∷ pos 0 ∷ [] }

-- One row, and room for a second
abbrev row_set : TextRowSet
row_set = record { num_rows = 1; row_capacity = 2; columns = (1, names) ∷ (2, notes) ∷ [] }

-- The first text is longer than the slots.
abbrev row : List Cell
row = some (67 ∷ 68 ∷ 69 ∷ []) ∷ none ∷ []

takes : TakesRow row_set row
takes = record {
  below_capacity = omega arith;
  small = omega arith;
  columns_take = (
    record { sized = omega arith; bounded = omega arith; small = omega arith },
    omega arith,
    ((_, from_isize-pos 2), tt),
    record { small = omega arith; bounded = omega arith },
    (
      record { sized = omega arith; bounded = omega arith; small = omega arith },
      omega arith,
      ((_, from_isize-null), tt),
      tt,
      tt,
    ),
  );
}

at-append_example :
    (buffer' : TextRowSet) × (append row_set row ≡ ok buffer')
    × (buffer'.num_rows ≡ 2)
    × ((k : ℕ) (column : ℕ × TextColumn)
        → get_elem? row_set.columns k ≡ some column
        → ((cell : Cell) → get_elem? row k ≡ some cell → at buffer' k 1 ≡ ok cell)
          × ((j : ℕ) (ind : Indicator)
              → j < 1
              → indicator_at narrow column.1 j ≡ ok ind
              → IsWhole narrow (column.1).max_str_len ind
              → at buffer' k j ≡ at row_set k j))
at-append_example = at-append row_set row takes
