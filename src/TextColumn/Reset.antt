-- ===== src/TextColumn/Reset.antt =====
-- The operations that put whole ranges of rows in one state: `new`, `fill_null`, `set_max_len`.
use odbc_api.Common.{
  ℕ, ◌+◌, ◌-◌, ◌*◌, ◌/◌, min, ◌≤◌, ◌<◌, ◌≡◌, refl, ap, sym, ◌∙◌, List, [], none, some, ℤ, pos, ◌&&◌,
  ok, mul_usize, mul_usize_lem, add_usize_lem, alloc_ok, length, length-replicate, replicate,
  get_elem?, segment, leb, ltb, arith, if◌then◌else◌, isize_max, Bool-cases, inl, inr, alloc,
}
use odbc_api.Indicator.{OdbcSys, Indicator, null_data}
use odbc_api.Indicator.Laws.{from_isize-pos, from_isize-null}
use odbc_api.TextColumn.{
  Width, narrow, wide, size_of, size_of_isize, TextColumn, slot, indicator_at, value_at, fill_null,
  set_max_len, new,
}
use odbc_api.TextColumn.Valid.{IsValid, le-mul-size_of, value_at_lem, value_at_frame}
use odbc_api.TextColumn.Resize.{CanHold}
use odbc_api.TextColumn.Fill.{filled, store_range_lem, all_rows, in_range, get_elem?-replicate}

zero-div-size_of : (w : Width) → 0 / size_of w ≡ 0
zero-div-size_of narrow = omega arith
zero-div-size_of wide = omega arith

indicator_at-null :
    ⦃s : OdbcSys⦄ (w : Width) (col : TextColumn) (i : ℕ)
    → get_elem? col.indicators i ≡ some null_data
    → indicator_at w col i ≡ ok Indicator.null
unfolding indicator_at
indicator_at-null w col i e = rw (e, from_isize-null)

module _ ⦃s : OdbcSys⦄ {w : Width} {col : TextColumn} (v : IsValid w col) where
  with_indicators-IsValid :
      (r : List ℤ) → length r ≡ length col.indicators → IsValid w (record col { indicators = r })
  with_indicators-IsValid r l = record {
    sized = v.sized ∙ ap (λ n. (col.max_str_len + 1) * n) (sym l);
    bounded = v.bounded;
    small = v.small;
  }

  -- A row among those filled is NULL, and any other reads as before.
  filled_reads :
      (r : List ℤ) (from n i : ℕ)
      → length r ≡ length col.indicators
      → get_elem? r i ≡ filled n from null_data col.indicators i
      → value_at w (record col { indicators = r }) i
        ≡ (if leb from i && ltb i (from + n) then ok none else value_at w col i)
  filled_reads r from n i l g = elim (Bool-cases (leb from i && ltb i (from + n))) [
    | inl e ↦ rw (
      e,
      value_at_lem (with_indicators-IsValid r l) i,
      indicator_at-null w (record col { indicators = r }) i (g ∙ rw e),
    )
    | inr e ↦ rw e (value_at_frame i v (with_indicators-IsValid r l) refl (g ∙ rw e) (λ k hk. refl))
  ]

module _ ⦃s : OdbcSys⦄ {w : Width} {col : TextColumn} (v : IsValid w col) (from to : ℕ)
    (h : from ≤ to) (inside : to ≤ length col.indicators) where
  pub fill_null_lem :
      (col' : TextColumn) × (fill_null w col from to ≡ ok col')
      × IsValid w col'
      × (length col'.indicators ≡ length col.indicators)
      × ((i : ℕ)
          → i < length col.indicators
          → value_at w col' i ≡ (if leb from i && ltb i to then ok none else value_at w col i))
  unfolding fill_null
  fill_null_lem =
      let (r, e, l, g) = store_range_lem (to - from) from null_data col.indicators (omega arith) in
      let same : from + (to - from) ≡ to = omega arith in
      (
        record col { indicators = r },
        rw e,
        with_indicators-IsValid v r l,
        l,
        λ i lt.
            filled_reads v r from (to - from) i l (g i)
            ∙ ap (λ n. if leb from i && ltb i n then ok none else value_at w col i) same,
      )

module _ ⦃s : OdbcSys⦄ {w : Width} {col : TextColumn} (v : IsValid w col) (from to : ℕ)
    (h : from ≤ to) (inside : to ≤ length col.indicators) (i : ℕ) where
  -- Filling rows `from..to` of a valid column with NULL, where they exist, gives a valid column in
  -- which exactly these rows read as NULL, and every other row reads as before.
  pub value_at-fill_null :
      (col' : TextColumn) × (fill_null w col from to ≡ ok col')
      × IsValid w col'
      × (value_at w col' i ≡ (if leb from i && ltb i to then ok none else value_at w col i))
  unfolding fill_null
  value_at-fill_null =
      let (r, e, l, g) = store_range_lem (to - from) from null_data col.indicators (omega arith) in
      let same : from + (to - from) ≡ to = omega arith in
      (
        record col { indicators = r },
        rw e,
        with_indicators-IsValid v r l,
        filled_reads v r from (to - from) i l (g i)
            ∙ ap (λ n. if leb from i && ltb i n then ok none else value_at w col i) same,
      )

module _ ⦃s : OdbcSys⦄ {w : Width} {new_max : ℕ} where
  empty-IsValid :
      (batch_size : ℕ) (inds : List ℤ)
      → length inds ≡ batch_size
      → CanHold w new_max batch_size
      → IsValid w (record {
        max_str_len = new_max;
        values = replicate ((new_max + 1) * batch_size) 0;
        indicators = inds;
      })
  empty-IsValid batch_size inds e c = record {
    sized =
        length-replicate {A = ℕ} ((new_max + 1) * batch_size) 0
        ∙ ap (λ n. (new_max + 1) * n) (sym e);
    bounded = rw (length-replicate {A = ℕ} ((new_max + 1) * batch_size) 0) c.bounded;
    small = c.small;
  }

  alloc_slots :
      (batch_size : ℕ)
      → CanHold w new_max batch_size
      → alloc {A = ℕ} (size_of w) (mul_usize (slot new_max) batch_size) 0
        ≡ ok (replicate ((new_max + 1) * batch_size) 0)
  alloc_slots batch_size c =
      rw
        (
          add_usize_lem new_max 1 c.small,
          mul_usize_lem (new_max + 1) batch_size
              (omega (arith, c.bounded, le-mul-size_of w ((new_max + 1) * batch_size))),
        )
        (alloc_ok {A = ℕ} (size_of w) ((new_max + 1) * batch_size) 0 c.bounded)

  pub new_lem :
      (batch_size : ℕ)
      → CanHold w new_max batch_size
      → batch_size * size_of_isize ≤ isize_max
      → (col : TextColumn) × (new w batch_size new_max ≡ ok col)
        × IsValid w col
        × (length col.indicators ≡ batch_size)
        × (length col.values ≡ (new_max + 1) * batch_size)
  unfolding new
  new_lem batch_size c b =
      let rows : length (replicate batch_size (pos 0)) ≡ batch_size =
        length-replicate batch_size (pos 0) in
      (
        record {
          max_str_len = new_max;
          values = replicate ((new_max + 1) * batch_size) 0;
          indicators = replicate batch_size (pos 0);
        },
        rw (alloc_slots batch_size c, alloc_ok size_of_isize batch_size (pos 0) b),
        empty-IsValid batch_size (replicate batch_size (pos 0)) rows c,
        rows,
        length-replicate {A = ℕ} ((new_max + 1) * batch_size) 0,
      )

  -- A new column, where its memory can be allocated, is valid and has the rows asked for, each of
  -- which reads as the empty text.
  pub value_at-new :
      (batch_size i : ℕ)
      → CanHold w new_max batch_size
      → batch_size * size_of_isize ≤ isize_max
      → i < batch_size
      → (col : TextColumn) × (new w batch_size new_max ≡ ok col)
        × IsValid w col
        × (length col.indicators ≡ batch_size)
        × (value_at w col i ≡ ok (some []))
  unfolding new indicator_at
  value_at-new batch_size i c b h =
      let rows : length (replicate batch_size (pos 0)) ≡ batch_size =
        length-replicate batch_size (pos 0) in
      let valid = empty-IsValid batch_size (replicate batch_size (pos 0)) rows c in
      (
        record {
          max_str_len = new_max;
          values = replicate ((new_max + 1) * batch_size) 0;
          indicators = replicate batch_size (pos 0);
        },
        rw (alloc_slots batch_size c, alloc_ok size_of_isize batch_size (pos 0) b),
        valid,
        rows,
        rw
            (
              value_at_lem valid i,
              get_elem?-replicate batch_size i (pos 0) h,
              from_isize-pos 0,
              zero-div-size_of w,
            )
            (ap
              (λ k.
                ok
                  (some (segment (i * (new_max + 1)) k (replicate ((new_max + 1) * batch_size) 0))))
              (let e : min new_max 0 ≡ 0 = omega arith in e)),
      )

  -- Setting the maximum length of a valid column, where the memory can be allocated, gives a valid
  -- column of that length and as many rows, each of which reads as NULL.
  pub value_at-set_max_len :
      (col : TextColumn) (i : ℕ)
      → IsValid w col
      → CanHold w new_max (length col.indicators)
      → i < length col.indicators
      → (col' : TextColumn) × (set_max_len w col new_max ≡ ok col')
        × IsValid w col'
        × (col'.max_str_len ≡ new_max)
        × (length col'.indicators ≡ length col.indicators)
        × (value_at w col' i ≡ ok none)
  unfolding set_max_len
  value_at-set_max_len col i v c h =
      let (r, e, l, g) =
        store_range_lem (length col.indicators) 0 null_data col.indicators (omega arith) in
      let valid : IsValid w (record {
        max_str_len = new_max;
        values = replicate ((new_max + 1) * length col.indicators) 0;
        indicators = r;
      }) =
        empty-IsValid (length col.indicators) r l c in
      (
        record {
          max_str_len = new_max;
          values = replicate ((new_max + 1) * length col.indicators) 0;
          indicators = r;
        },
        rw (
          alloc_slots (length col.indicators) c,
          all_rows (length col.indicators) null_data col.indicators ∙ e,
        ),
        valid,
        refl,
        l,
        rw (
          value_at_lem valid i,
          indicator_at-null w
              (record {
                max_str_len = new_max;
                values = replicate ((new_max + 1) * length col.indicators) 0;
                indicators = r;
              })
              i (g i ∙ in_range (length col.indicators) i null_data col.indicators h),
        ),
      )
