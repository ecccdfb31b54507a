-- ===== src/Indicator/Laws.antt =====
-- The two conversions of an indicator undo one another, and panic exactly out of range.
use odbc_api.Common.{ℕ, ◌≤◌, ◌≡◌, ◌≢◌, ◌↔◌, refl, ℤ, pos, negsuc, ok, panic, isize_max, arith}
use odbc_api.Indicator.{OdbcSys, Indicator, null_data, no_total_data, from_isize, into_isize}

module _ ⦃s : OdbcSys⦄ where
  pub from_isize-pos : (n : ℕ) → from_isize (pos n) ≡ ok (Indicator.length n)
  unfolding from_isize
  from_isize-pos n = refl

  pub from_isize-null : from_isize null_data ≡ ok Indicator.null
  unfolding from_isize
  from_isize-null = ground arith

  pub from_isize-no_total : from_isize no_total_data ≡ ok Indicator.no_total
  unfolding from_isize
  from_isize-no_total = ground (arith, s.distinct)

  -- Reading back what was written gives the same indicator, for every length that an `isize` holds.
  pub from_isize-into_isize :
      (ind : Indicator) (i : ℤ) → into_isize ind ≡ ok i → from_isize i ≡ ok ind
  unfolding from_isize into_isize
  from_isize-into_isize Indicator.null i e = ground arith
  from_isize-into_isize Indicator.no_total i e = ground (arith, s.distinct)
  from_isize-into_isize (Indicator.length n) i e = ground arith

  -- Writing back what was read gives the same `isize`.
  pub into_isize-from_isize :
      (i : ℤ) (ind : Indicator)
      → ((n : ℕ) → i ≡ pos n → n ≤ isize_max)
      → from_isize i ≡ ok ind
      → into_isize ind ≡ ok i
  unfolding from_isize into_isize
  into_isize-from_isize (pos n) ind h e = ground (arith, h n refl)
  into_isize-from_isize (negsuc n) ind h e = ground arith

  -- `from_isize` panics exactly on the negative numbers that are neither constant.
  pub from_isize_panics :
      (i : ℤ)
      → (from_isize i ≡ panic) ↔ ((i ≢ null_data) × (i ≢ no_total_data) × ((n : ℕ) → i ≢ pos n))
  unfolding from_isize
  from_isize_panics (pos n) = (λ e. cc, λ h. absurd (h.2 n refl))
  from_isize_panics (negsuc n) =
      (λ e. (ground arith, ground arith, λ m f. cc), λ h. ground (arith, h.0, h.1))
