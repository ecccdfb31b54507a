-- ===== src/BinColumn/Tests.antt =====
-- Binary columns at concrete rows: the theorem at inputs that meet its hypotheses.
use odbc_api.Common.{
  ◌+◌, ◌/◌, ◌≤◌, ◌<◌, get_elem?, refl, map_run, ℕ, ◌≡◌, ◌≢◌, [], ◌∷◌, some, pos, negsuc, ok, length,
  arith,
}
use odbc_api.Indicator.{OdbcSys}
use odbc_api.Indicator.Laws.{from_isize-pos, from_isize-null}
use odbc_api.Rows.Laws.{AreReadable}
use odbc_api.TextColumn.{Growth}
use odbc_api.TextColumn.Resize.{truncate}
use odbc_api.BinColumn.{append, resize_max_element_length, BinColumn, value_at, set_value}
use odbc_api.BinColumn.Resize.{resize-keeps}
use odbc_api.BinColumn.Append.{append-value_at}
use odbc_api.BinColumn.Write.{IsValid, set_value-keeps}

-- The values that ODBC documents for the two constants: -1 and -4.
instance abbrev odbc : OdbcSys
odbc = record { null_code = 0; no_total_code = 3; distinct = omega arith }

-- Three slots for two bytes: a whole value, NULL and one that was cut off
abbrev column : BinColumn
column = record {
  max_len = 2;
  values = 1 ∷ 2 ∷ 0 ∷ 0 ∷ 5 ∷ 6 ∷ [];
  indicators = pos 2 ∷ negsuc 0 ∷ pos 7 ∷ [];
}

column-IsValid : IsValid column
column-IsValid = record { sized = omega arith; bounded = omega arith }

set_value-keeps_example :
    (col' : BinColumn) × (set_value column 1 (some (9 ∷ [])) ≡ ok col')
    × IsValid col'
    × (length col'.indicators ≡ 3)
    × (value_at col' 1 ≡ ok (some (9 ∷ [])))
    × ((j : ℕ) → j ≢ 1 → value_at col' j ≡ value_at column j)
set_value-keeps_example =
    set_value-keeps 1 (some (9 ∷ [])) column-IsValid (omega arith) (omega arith)

column-AreReadable : AreReadable 2 column.indicators
column-AreReadable = ((_, from_isize-pos 2), ((_, from_isize-null), tt))

resize-keeps_example :
    (col' : BinColumn) × (resize_max_element_length column 1 2 ≡ ok col')
    × IsValid col'
    × (col'.max_len ≡ 1)
    × (length col'.indicators ≡ 3)
    × (value_at col' 0 ≡ map_run (truncate 1) (value_at column 0))
resize-keeps_example =
    resize-keeps 1 2 0 2 column-IsValid (omega arith) (omega arith) (omega arith) column-AreReadable
      (omega arith) refl (omega arith)

le_grow_fifth : (n : ℕ) → n ≤ n + n / 5
le_grow_fifth n = omega arith

-- 1.2 times the length, rounded down
instance abbrev fifth : Growth
fifth = record { grow = λ n. n + n / 5; le_grow = le_grow_fifth }

append-value_at_example :
    (col' : BinColumn) × (append column 2 (some (1 ∷ 2 ∷ 3 ∷ [])) ≡ ok col')
    × IsValid col'
    × (length col'.indicators ≡ 3)
    × (value_at col' 2 ≡ ok (some (1 ∷ 2 ∷ 3 ∷ [])))
    × ((j n : ℕ)
        → j < 2
        → get_elem? column.indicators j ≡ some (pos n)
        → n ≤ 2
        → value_at col' j ≡ value_at column j)
append-value_at_example =
    append-value_at column-IsValid 2 (omega arith) (omega arith) column-AreReadable (1 ∷ 2 ∷ 3 ∷ [])
      (omega arith)
