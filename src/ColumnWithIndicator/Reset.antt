-- ===== src/ColumnWithIndicator/Reset.antt =====
-- Creating a column, and filling a range of rows of a column with NULL.
use odbc_api.Common.{
  ℕ, ◌+◌, ◌-◌, ◌≤◌, ◌<◌, ◌≡◌, refl, ap, ◌∙◌, List, Option, none, some, ok, map_run, ℤ, eq_ℤ, ◌&&◌,
  ◌>>=◌, leb, ltb, length, get_elem?, index, arith, if◌then◌else◌, Bool-cases, inl, inr, eq→==,
  isize_max, alloc_ok, replicate, length-replicate, sym, ◌*◌,
}
use odbc_api.Common.Panics.{Run}
use odbc_api.Indicator.{OdbcSys, null_data}
use odbc_api.TextColumn.{size_of_isize}
use odbc_api.TextColumn.Fill.{filled, store_range_lem}
use odbc_api.ColumnWithIndicator.{ColumnWithIndicator, fill_null, new}

module _ {A : Type 0} ⦃s : OdbcSys⦄ where
  -- What a row reads as: its value, unless its indicator says NULL
  abbrev pub cell : List ℤ → List A → ℕ → Run (Option A)
  cell inds values i = do
    ind ← index inds i
    if eq_ℤ ind null_data then ok none else map_run some (index values i)

  filled_reads :
      (inds r : List ℤ) (values : List A) (from n i : ℕ)
      → get_elem? r i ≡ filled n from null_data inds i
      → cell r values i ≡ (if leb from i && ltb i (from + n) then ok none else cell inds values i)
  filled_reads inds r values from n i g = elim (Bool-cases (leb from i && ltb i (from + n))) [
    | inl e ↦ rw (g, e, eq→== s.null_code s.null_code refl)
    | inr e ↦ rw (g, e)
  ]

  pub fill_null_lem :
      (col : ColumnWithIndicator A) (from to : ℕ)
      → length col.indicators ≡ length col.values
      → from ≤ to
      → to ≤ length col.indicators
      → (col' : ColumnWithIndicator A) × (fill_null col from to ≡ ok col')
        × (length col'.indicators ≡ length col'.values)
        × (length col'.indicators ≡ length col.indicators)
        × ((i : ℕ)
            → i < length col.indicators
            → cell col'.indicators col'.values i
              ≡ (if leb from i && ltb i to then ok none else cell col.indicators col.values i))
  unfolding fill_null
  fill_null_lem col from to v h inside =
      let (r, e, l, g) = store_range_lem (to - from) from null_data col.indicators (omega arith) in
      let same : from + (to - from) ≡ to = omega arith in
      (
        record { values = col.values; indicators = r },
        rw e,
        l ∙ v,
        l,
        λ i lt.
            filled_reads col.indicators r col.values from (to - from) i (g i)
            ∙ ap (λ n. if leb from i && ltb i n then ok none else cell col.indicators col.values i)
                same,
      )

  pub new_lem :
      (size : ℕ) (default : A) (batch_size : ℕ)
      → batch_size * size ≤ isize_max
      → batch_size * size_of_isize ≤ isize_max
      → (col : ColumnWithIndicator A) × (new size default batch_size ≡ ok col)
        × (length col.indicators ≡ length col.values)
        × (length col.indicators ≡ batch_size)
        × (length col.values ≡ batch_size)
  unfolding new
  new_lem size default batch_size c b =
      let values : length (replicate batch_size default) ≡ batch_size =
        length-replicate batch_size default in
      let rows : length (replicate batch_size null_data) ≡ batch_size =
        length-replicate batch_size null_data in
      (
        record {
          values = replicate batch_size default;
          indicators = replicate batch_size null_data;
        },
        rw (alloc_ok size batch_size default c, alloc_ok size_of_isize batch_size null_data b),
        rows ∙ sym values,
        rows,
        values,
      )
