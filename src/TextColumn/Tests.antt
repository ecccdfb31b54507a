-- ===== src/TextColumn/Tests.antt =====
-- Text columns at concrete rows: tests, and the theorems at inputs that meet their hypotheses.
use odbc_api.Common.{
  ℕ, ◌+◌, ◌/◌, ◌≤◌, ◌<◌, ◌≡◌, ◌↔◌, ◌⊎◌, refl, List, [], ◌∷◌, none, some, pos, negsuc, ok, panic,
  length, arith, map_run, add_usize, mul_usize,
}
use odbc_api.Indicator.{OdbcSys, Indicator, from_isize}
use odbc_api.Indicator.Laws.{from_isize-pos, from_isize-null}
use odbc_api.Rows.{copy_row, copy_rows}
use odbc_api.TextColumn.{
  narrow, Growth, TextColumn, Cell, value_at, indicator_at, set_value, append, append_fitting,
  resize_max_str, write, iter,
}
use odbc_api.TextColumn.Valid.{IsValid}
use odbc_api.TextColumn.Steps.{Fits}
use odbc_api.TextColumn.Resize.{resize_max_str_keeps, truncate, CanHold}
use odbc_api.Rows.Laws.{AreReadable}
use odbc_api.TextColumn.Append.{append_reads, append_keeps}
use odbc_api.TextColumn.RoundTrip.{collect, iter-write}
use odbc_api.TextColumn.Panics.{set_value_panics}

-- The values that ODBC documents for the two constants: -1 and -4.
instance abbrev odbc : OdbcSys
odbc = record { null_code = 0; no_total_code = 3; distinct = omega arith }

le_grow_fifth : (n : ℕ) → n ≤ n + n / 5
le_grow_fifth n = omega arith

-- 1.2 times the length, rounded down
instance abbrev fifth : Growth
fifth = record { grow = λ n. n + n / 5; le_grow = le_grow_fifth }

-- Three slots for two characters: "Hi", NULL and the empty text
abbrev column : TextColumn
column = record {
  max_str_len = 2;
  values = 72 ∷ 105 ∷ 0 ∷ 0 ∷ 0 ∷ 0 ∷ 0 ∷ 0 ∷ 0 ∷ [];
  indicators = pos 2 ∷ negsuc 0 ∷ pos 0 ∷ [];
}

column-IsValid : IsValid narrow column
column-IsValid = omega arith

-- The cells that the tests write: "ab", NULL, "c", and one more than there is place for
abbrev cells : List Cell
cells = some (97 ∷ 98 ∷ []) ∷ none ∷ some (99 ∷ []) ∷ none ∷ []

abbrev hello : List ℕ
hello = 72 ∷ 101 ∷ 108 ∷ 108 ∷ 111 ∷ []

column-CanHold : CanHold narrow 6 3
column-CanHold = record { small = omega arith; bounded = omega arith }

column-AreReadable : AreReadable 2 column.indicators
column-AreReadable = ((_, from_isize-pos 2), ((_, from_isize-null), tt))

iter-write_example :
    (col' : TextColumn) × (write narrow column 3 cells ≡ ok col')
    × IsValid narrow col'
    × (length col'.indicators ≡ length column.indicators)
    × (collect narrow 4 (iter narrow col' 3)
        ≡ ok (some (97 ∷ 98 ∷ []) ∷ none ∷ some (99 ∷ []) ∷ []))
iter-write_example =
    iter-write narrow column 3 cells column-IsValid (omega arith, (tt, (omega arith, tt)))
      (omega arith)

append_reads_example :
    (col' : TextColumn) × (append narrow column 2 (some hello) ≡ ok col')
    × IsValid narrow col'
    × (length col'.indicators ≡ 3)
    × (value_at narrow col' 2 ≡ ok (some hello))
append_reads_example =
    append_reads column-IsValid 2 (omega arith) column-AreReadable hello column-CanHold

resize_max_str_keeps_example :
    (col' : TextColumn) × (resize_max_str narrow column 1 2 ≡ ok col')
    × IsValid narrow col'
    × (col'.max_str_len ≡ 1)
    × (length col'.indicators ≡ 3)
    × (value_at narrow col' 0 ≡ map_run (truncate 1) (value_at narrow column 0))
unfolding indicator_at from_isize
resize_max_str_keeps_example =
    resize_max_str_keeps 1 2 0 (Indicator.length 2) column-IsValid
      (record { small = omega arith; bounded = omega arith }) column-AreReadable (omega arith) refl
      (omega arith)

set_value_panics_example :
    (set_value narrow column 1 (some hello) ≡ panic)
    ↔ ((¬ (1 < length column.indicators)) ⊎ (¬ Fits column.max_str_len (some hello)))
set_value_panics_example = set_value_panics column-IsValid 1 (some hello)

-- The column with "Hello" in its last row, behind "Hi" and NULL
abbrev grown_column : TextColumn
grown_column = record {
  max_str_len = 6;
  values =
      72 ∷ 105 ∷ 0 ∷ 0 ∷ 0 ∷ 0 ∷ 0 ∷ 0 ∷ 0 ∷ 0 ∷ 0 ∷ 0 ∷ 0 ∷ 0 ∷ 72 ∷ 101 ∷ 108 ∷ 108 ∷ 111 ∷ 0 ∷ 0
      ∷ [];
  indicators = pos 2 ∷ negsuc 0 ∷ pos 5 ∷ [];
}

append_keeps_example : value_at narrow grown_column 0 ≡ value_at narrow column 0
unfolding indicator_at from_isize append append_fitting resize_max_str copy_rows copy_row add_usize
    mul_usize
append_keeps_example =
    append_keeps column-IsValid 2 (omega arith) column-AreReadable hello column-CanHold 0
      (Indicator.length 2) grown_column (omega arith) refl (omega arith) refl
