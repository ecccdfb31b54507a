-- ===== src/BinColumn/Reset.antt =====
-- Creating a column, and filling a range of rows of a binary column with NULL.
use odbc_api.Common.{
  ℕ, ◌+◌, ◌-◌, ◌*◌, ◌≤◌, ◌<◌, ◌≡◌, refl, ap, sym, ◌∙◌, List, none, ok, ℤ, ◌&&◌, leb, ltb, length,
  get_elem?, arith, if◌then◌else◌, Bool-cases, inl, inr, eq→==, isize_max, mul_usize_lem, alloc_ok,
  replicate, length-replicate, pos,
}
use odbc_api.Indicator.{OdbcSys, null_data}
use odbc_api.TextColumn.{size_of_isize}
use odbc_api.TextColumn.Fill.{filled, store_range_lem}
use odbc_api.BinColumn.{BinColumn, value_of, value_at, fill_null, new}
use odbc_api.BinColumn.Write.{IsValid}

module _ ⦃s : OdbcSys⦄ (col : BinColumn) where
  value_of-null : (i : ℕ) → value_of col i null_data ≡ ok none
  unfolding value_of
  value_of-null i = rw (eq→== s.null_code s.null_code refl)

  -- A row among those filled is NULL, and any other reads as before.
  filled_reads :
      (r : List ℤ) (from n i : ℕ)
      → get_elem? r i ≡ filled n from null_data col.indicators i
      → value_at (record col { indicators = r }) i
        ≡ (if leb from i && ltb i (from + n) then ok none else value_at col i)
  unfolding value_at value_of
  filled_reads r from n i g = elim (Bool-cases (leb from i && ltb i (from + n))) [
    | inl e ↦ rw (g, e) (value_of-null i)
    | inr e ↦ rw (g, e)
  ]

module _ ⦃s : OdbcSys⦄ {col : BinColumn} (v : IsValid col) (from to : ℕ) (h : from ≤ to)
    (inside : to ≤ length col.indicators) where
  pub fill_null_lem :
      (col' : BinColumn) × (fill_null col from to ≡ ok col')
      × IsValid col'
      × (length col'.indicators ≡ length col.indicators)
      × ((i : ℕ)
          → i < length col.indicators
          → value_at col' i ≡ (if leb from i && ltb i to then ok none else value_at col i))
  unfolding fill_null
  fill_null_lem =
      let (r, e, l, g) = store_range_lem (to - from) from null_data col.indicators (omega arith) in
      let same : from + (to - from) ≡ to = omega arith in
      (
        record col { indicators = r },
        rw e,
        record { sized = v.sized ∙ ap (λ n. col.max_len * n) (sym l); bounded = v.bounded },
        l,
        λ i lt.
            filled_reads col r from (to - from) i (g i)
            ∙ ap (λ n. if leb from i && ltb i n then ok none else value_at col i) same,
      )

pub new_lem :
    (batch_size max_len : ℕ)
    → max_len * batch_size ≤ isize_max
    → batch_size * size_of_isize ≤ isize_max
    → (col : BinColumn) × (new batch_size max_len ≡ ok col)
      × IsValid col
      × (length col.indicators ≡ batch_size)
      × (length col.values ≡ max_len * batch_size)
unfolding new
new_lem batch_size max_len c b =
    let rows : length (replicate batch_size (pos 0)) ≡ batch_size =
      length-replicate batch_size (pos 0) in
    let bytes : length (replicate {A = ℕ} (max_len * batch_size) 0) ≡ max_len * batch_size =
      length-replicate {A = ℕ} (max_len * batch_size) 0 in
    (
      record {
        max_len = max_len;
        values = replicate (max_len * batch_size) 0;
        indicators = replicate batch_size (pos 0);
      },
      rw (
        mul_usize_lem max_len batch_size (omega (arith, c)),
        alloc_ok {A = ℕ} 1 (max_len * batch_size) 0 (omega (arith, c)),
        alloc_ok size_of_isize batch_size (pos 0) b,
      ),
      record { sized = bytes ∙ ap (λ n. max_len * n) (sym rows); bounded = rw bytes c },
      rows,
      bytes,
    )
