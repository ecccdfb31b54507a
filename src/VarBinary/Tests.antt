-- ===== src/VarBinary/Tests.antt =====
-- Binary parameters at concrete values: the theorem at inputs that meet its hypotheses.
use odbc_api.Common.{[], ◌∷◌, pos, arith}
use odbc_api.Indicator.{OdbcSys}
use odbc_api.VarBinary.{VarBinary}

-- The values that ODBC documents for the two constants: -1 and -4.
instance abbrev odbc : OdbcSys
odbc = record { null_code = 0; no_total_code = 3; distinct = omega arith }

-- A value of five bytes that was cut off after two
abbrev truncated : VarBinary
truncated = record { buffer = 1 ∷ 2 ∷ []; indicator = pos 5 }
