-- ===== src/VarChar/Tests.antt =====
-- Text parameters at concrete values: the theorems at inputs that meet their hypotheses.
use odbc_api.Common.{ℕ, ◌≡◌, refl, List, [], ◌∷◌, some, pos, true, ok, ◌>>=◌, arith}
use odbc_api.Indicator.{OdbcSys, Indicator, from_isize}
use odbc_api.VarChar.{
  VarChar, lacks_zero, is_accepted, from_vec, is_complete, as_bytes, hide_truncation,
}
use odbc_api.VarChar.Laws.{as_bytes-from_vec}
use odbc_api.VarChar.Truncation.{hide_truncation-keeps}

-- The values that ODBC documents for the two constants: -1 and -4.
instance abbrev odbc : OdbcSys
odbc = record { null_code = 0; no_total_code = 3; distinct = omega arith }

abbrev hello : List ℕ
hello = 72 ∷ 101 ∷ 108 ∷ 108 ∷ 111 ∷ []

-- A value of five bytes that was cut off after two
abbrev truncated : VarChar
truncated = record { buffer = 72 ∷ 101 ∷ 0 ∷ []; indicator = pos 5 }

as_bytes-from_vec_example : (from_vec hello >>= as_bytes) ≡ ok (some hello)
unfolding lacks_zero
as_bytes-from_vec_example = as_bytes-from_vec hello (omega arith)

hide_truncation-keeps_example :
    (v' : VarChar) × (hide_truncation truncated ≡ ok v')
    × (is_complete v' ≡ ok true)
    × (as_bytes v' ≡ as_bytes truncated)
unfolding from_isize is_accepted lacks_zero
hide_truncation-keeps_example =
    hide_truncation-keeps truncated (Indicator.length 5) refl refl (omega arith)
