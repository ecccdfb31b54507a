-- ===== src/ColumnarBuffer/Laws.antt =====
-- What the columns of a buffer promise, and what `set_num_rows` makes of it.
use odbc_api.Common.{
  ℕ, ◌≤◌, ◌<◌, ◌≡◌, refl, sym, ◌∙◌, ◌↔◌, List, [], ◌∷◌, ◌&&◌, false, ok, panic, leb, ltb, lt→ltb,
  ltb→lt, Bool-cases, inl, inr, arith, if◌then◌else◌,
}
use native.Mathlib.Decide.{dec_lt}
use odbc_api.ColumnarBuffer.{ColumnBuffer, ColumnarBuffer, fill_columns, set_num_rows}

-- The laws of a column: which ones are valid, what a row of one reads as, what a default row does,
-- and that filling rows with the default changes these and no other.
pub record IsLawful {C V : Type 0} (b : ColumnBuffer C V) (K : Type 0) : Type 1 where
  pub Valid : C → Type 0
  pub cell : C → ℕ → K
  pub default : C → K
  pub fill :
      (c : C) (from to : ℕ)
      → Valid c
      → from ≤ to
      → to ≤ b.capacity c
      → (c' : C) × (b.fill_default c from to ≡ ok c')
        × Valid c'
        × (b.capacity c' ≡ b.capacity c)
        × (default c' ≡ default c)
        × ((i : ℕ)
            → i < b.capacity c
            → cell c' i ≡ (if leb from i && ltb i to then default c else cell c i))

module _ {C V K : Type 0} {b : ColumnBuffer C V} (l : IsLawful b K) where
  -- Every column is valid and has room for the rows.
  abbrev pub AreValid : ℕ → List (ℕ × C) → Type 0
  AreValid rows [] = Unit
  AreValid rows (col ∷ columns) = l.Valid col.1 × (rows ≤ b.capacity col.1) × AreValid rows columns

  pub record IsValid (buffer : ColumnarBuffer C) : Type 0 where
    pub rows_fit : buffer.num_rows ≤ buffer.row_capacity
    pub columns_valid : AreValid buffer.row_capacity buffer.columns

  -- Column by column: the same index, the rows before `from` as they were, the default behind them.
  abbrev pub Extend : ℕ → ℕ → List (ℕ × C) → List (ℕ × C) → Type 0
  Extend from to [] [] = Unit
  Extend from to [] (col' ∷ columns') = ⊥
  Extend from to (col ∷ columns) [] = ⊥
  Extend from to (col ∷ columns) (col' ∷ columns') =
      (col'.0 ≡ col.0)
      × ((i : ℕ)
          → i < to
          → l.cell col'.1 i ≡ (if ltb i from then l.cell col.1 i else l.default col.1))
      × Extend from to columns columns'

  fill_columns_lem :
      (from to rows : ℕ) (columns : List (ℕ × C))
      → from ≤ to
      → to ≤ rows
      → AreValid rows columns
      → (columns' : List (ℕ × C)) × (fill_columns b from to columns ≡ ok columns')
        × AreValid rows columns'
        × Extend from to columns columns'
  unfolding fill_columns
  fill_columns_lem from to rows [] hf ht v = ([], refl, tt, tt)
  fill_columns_lem from to rows (col ∷ columns) hf ht v =
      let (c', e, valid, cap, d, reads) = l.fill col.1 from to v.0 hf (omega (arith, ht, v.1)) in
      let (rest, er, vr, xr) = fill_columns_lem from to rows columns hf ht v.2 in
      (
        (col.0, c') ∷ rest,
        rw (e, er),
        (valid, omega (arith, cap, v.1), vr),
        (
          refl,
          λ i lt.
              reads i (omega (arith, lt, ht, v.1))
              ∙ (let k : (if leb from i && ltb i to then l.default col.1 else l.cell col.1 i)
                      ≡ (if ltb i from then l.cell col.1 i else l.default col.1) =
                    ground arith in
                  k),
          xr,
        ),
      )

  Extend-refl : (from to : ℕ) (columns : List (ℕ × C)) → to ≤ from → Extend from to columns columns
  Extend-refl from to [] h = tt
  Extend-refl from to (col ∷ columns) h =
      (refl, λ i lt. ground arith, Extend-refl from to columns h)

  -- The columns after `set_num_rows`
  set_columns :
      (from n rows : ℕ) (columns : List (ℕ × C))
      → n ≤ rows
      → AreValid rows columns
      → (columns' : List (ℕ × C)) × ((if ltb from n
            then fill_columns b from n columns
            else ok columns)
          ≡ ok columns')
        × AreValid rows columns'
        × Extend from n columns columns'
  set_columns from n rows columns h v = elim (Bool-cases (ltb from n)) [
    | inl e ↦ rw e (fill_columns_lem from n rows columns (omega (arith, ltb→lt from n e)) h v)
    | inr e ↦ rw e (columns, refl, v, Extend-refl from n columns (ground arith))
  ]

  -- Setting the number of rows of a valid buffer, up to its capacity, does not panic. The buffer
  -- is valid again, of the same capacity, and has as many rows. In each column, which is bound to
  -- the same index, a row that was there before reads as it did, and every other row of the buffer
  -- as the default.
  pub set_num_rows_extends :
      (buffer : ColumnarBuffer C) (n : ℕ)
      → IsValid buffer
      → n ≤ buffer.row_capacity
      → (buffer' : ColumnarBuffer C) × (set_num_rows b buffer n ≡ ok buffer')
        × IsValid buffer'
        × (buffer'.num_rows ≡ n)
        × (buffer'.row_capacity ≡ buffer.row_capacity)
        × Extend buffer.num_rows n buffer.columns buffer'.columns
  unfolding set_num_rows
  set_num_rows_extends buffer n v h =
      let (columns, e, valid, x) =
        set_columns buffer.num_rows n buffer.row_capacity buffer.columns h v.columns_valid in
      let small : ltb buffer.row_capacity n ≡ false = ground arith in
      (
        record buffer { num_rows = n; columns = columns },
        rw (small, e),
        record { rows_fit = h; columns_valid = valid },
        refl,
        refl,
        x,
      )

  above_capacity :
      (buffer : ColumnarBuffer C) (n : ℕ)
      → buffer.row_capacity < n
      → set_num_rows b buffer n ≡ panic
  unfolding set_num_rows
  above_capacity buffer n h = rw (lt→ltb buffer.row_capacity n h)

  -- Setting the number of rows of a valid buffer panics exactly above its capacity.
  pub set_num_rows_panics :
      (buffer : ColumnarBuffer C) (n : ℕ)
      → IsValid buffer
      → (set_num_rows b buffer n ≡ panic) ↔ (buffer.row_capacity < n)
  set_num_rows_panics buffer n v = (exceeds, above_capacity buffer n)
    where
      exceeds : set_num_rows b buffer n ≡ panic → buffer.row_capacity < n
      exceeds e = elim (dec_lt buffer.row_capacity n) [
        | yes h ↦ h
        | no h ↦
            let extended = set_num_rows_extends buffer n v (omega (arith, h)) in
            absurd (let k : panic ≡ ok extended.0 = sym e ∙ extended.1 in cc)
      ]
