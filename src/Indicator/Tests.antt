-- ===== src/Indicator/Tests.antt =====
-- Indicators at concrete values: the theorems at inputs that meet their hypotheses.
use odbc_api.Common.{ℕ, ◌≡◌, ◌≢◌, ◌↔◌, refl, pos, negsuc, ok, panic, arith}
use odbc_api.Indicator.{OdbcSys, Indicator, null_data, no_total_data, from_isize, into_isize}
use odbc_api.Indicator.Laws.{from_isize-into_isize, from_isize_panics}

-- The values that ODBC documents for the two constants: -1 and -4.
instance abbrev odbc : OdbcSys
odbc = record { null_code = 0; no_total_code = 3; distinct = omega arith }

from_isize-into_isize_example : from_isize (pos 42) ≡ ok (Indicator.length 42)
unfolding into_isize
from_isize-into_isize_example = from_isize-into_isize (Indicator.length 42) (pos 42) refl

from_isize_panics_example :
    (from_isize (negsuc 6) ≡ panic)
    ↔ ((negsuc 6 ≢ null_data) × (negsuc 6 ≢ no_total_data) × ((n : ℕ) → negsuc 6 ≢ pos n))
from_isize_panics_example = from_isize_panics (negsuc 6)
