-- ===== src/Indicator.antt =====
-- Length indicators: buffers/indicator.rs, with the constants of `odbc_sys` that it compares to.
pub mod Laws
mod Tests
use odbc_api.Common.{
  ℕ, ℤ, pos, negsuc, eq_ℤ, Run, ok, panic, map_run, to_isize, to_usize, if◌then◌else◌, ◌≢◌,
}

-- NULL_DATA and NO_TOTAL of `odbc_sys`: two different negative numbers, -(code + 1).
pub record OdbcSys : Type 0 where
  pub null_code : ℕ
  pub no_total_code : ℕ
  pub distinct : null_code ≢ no_total_code

pub data Indicator : Type 0 where
  null : Indicator
  no_total : Indicator
  length : ℕ → Indicator

module _ ⦃s : OdbcSys⦄ where
  abbrev pub null_data : ℤ
  null_data = negsuc s.null_code

  abbrev pub no_total_data : ℤ
  no_total_data = negsuc s.no_total_code

  unfoldable pub from_isize : ℤ → Run Indicator
  from_isize i =
      if eq_ℤ i null_data
      then ok null
      else if eq_ℤ i no_total_data
      then ok no_total
      else map_run length (to_usize i)

  unfoldable pub into_isize : Indicator → Run ℤ
  into_isize null = ok null_data
  into_isize no_total = ok no_total_data
  into_isize (length n) = to_isize n
