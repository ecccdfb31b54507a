-- ===== src/ColumnWithIndicator/Tests.antt =====
-- A column of numbers: the theorem at an input that meets its hypothesis.
use odbc_api.Common.{ℕ, ◌≡◌, refl, [], ◌∷◌, none, some, pos, negsuc, ok, arith}
use odbc_api.Indicator.{OdbcSys}
use odbc_api.ColumnWithIndicator.{ColumnWithIndicator, write}
use odbc_api.ColumnWithIndicator.Write.{collect, collect-write}

-- The values that ODBC documents for the two constants: -1 and -4.
instance abbrev odbc : OdbcSys
odbc = record { null_code = 0; no_total_code = 3; distinct = omega arith }

-- Three rows: NULL, 5 and 6
abbrev rows : ColumnWithIndicator ℕ
rows = record { values = 0 ∷ 5 ∷ 6 ∷ []; indicators = negsuc 0 ∷ pos 0 ∷ pos 0 ∷ [] }

collect-write_example :
    (rows' : ColumnWithIndicator ℕ) × (write rows (some 7 ∷ none ∷ []) ≡ ok rows')
    × (collect 4 rows'.indicators rows'.values ≡ ok (some 7 ∷ none ∷ some 6 ∷ []))
collect-write_example = collect-write rows (some 7 ∷ none ∷ []) refl
