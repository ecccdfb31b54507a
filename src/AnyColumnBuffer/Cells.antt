-- ===== src/AnyColumnBuffer/Cells.antt =====
-- What the rows of a column of any kind read as, and filling rows of a fixed size with the default.
use odbc_api.Common.{
  ℕ, zero, suc, ◌+◌, ◌-◌, ◌≤◌, ◌<◌, ◌≡◌, refl, ap, ◌∙◌, List, [], ◌∷◌, Option, none, some, ok,
  map_run, ◌&&◌, Bool, true, false, index, leb, ltb, length, length-overwrite, overwrite, replicate,
  length-replicate, get_elem?, slice_ok, copy_slice_ok, length-segment, arith, if◌then◌else◌,
  unwrap,
}
use odbc_api.Common.Panics.{Run}
use odbc_api.Indicator.{OdbcSys}
use odbc_api.TextColumn.{Cell, narrow, wide}
use odbc_api.TextColumn
use odbc_api.TextColumn.Valid as TextValid
use odbc_api.BinColumn
use odbc_api.BinColumn.Write as BinValid
use odbc_api.ColumnWithIndicator
use odbc_api.ColumnWithIndicator.{ColumnWithIndicator}
use odbc_api.ColumnWithIndicator.Reset as NullableReset
use odbc_api.AnyColumnBuffer.{AnyColumnBuffer, fill_default_slice}

if_lem {ℓ κ} :
    {A : Type ℓ} {B : Type κ} (f : A → B) (b : Bool) (x y : A)
    → f (if b then x else y) ≡ (if b then f x else f y)
if_lem f true x y = refl
if_lem f false x y = refl

zeros_at :
    (col : List ℕ) (from n i : ℕ)
    → i < length col
    → get_elem? (overwrite col from (replicate n 0)) i
      ≡ (if leb from i && ltb i (from + n) then some 0 else get_elem? col i)
zeros_at [] from n i h = absurd (omega arith)
zeros_at (x ∷ col) zero zero i h = ground arith
zeros_at (x ∷ col) zero (suc n) zero h = ground arith
zeros_at (x ∷ col) zero (suc n) (suc i) h = zeros_at col zero n i (omega arith) ∙ ground arith
zeros_at (x ∷ col) (suc from) n zero h = ground arith
zeros_at (x ∷ col) (suc from) n (suc i) h = zeros_at col from n i (omega arith) ∙ ground arith

-- A number as a cell
abbrev number : ℕ → Cell
number x = some (x ∷ [])

abbrev pub zero_cell : Run Cell
zero_cell = ok (number 0)

abbrev pub null_cell : Run Cell
null_cell = ok none

abbrev pub plain_cell : List ℕ → ℕ → Run Cell
plain_cell col i = map_run number (index col i)

pub plain_fill :
    (col : List ℕ) (from to : ℕ)
    → from ≤ to
    → to ≤ length col
    → (r : List ℕ) × (fill_default_slice col from to ≡ ok r)
      × (length r ≡ length col)
      × ((i : ℕ)
          → i < length col
          → plain_cell r i ≡ (if leb from i && ltb i to then zero_cell else plain_cell col i))
unfolding fill_default_slice
plain_fill col from to h inside =
    let n : ℕ = to - from in
    let same : from + n ≡ to = omega arith in
    let len : length (replicate {A = ℕ} n 0) ≡ n = length-replicate {A = ℕ} n 0 in
    (
      overwrite col from (replicate n 0),
      rw
          (
            slice_ok col from n to (omega arith) (omega arith),
            length-segment col from n (omega arith),
          )
          (copy_slice_ok col from to (replicate n 0) (omega (arith, len)) (omega (arith, len))),
      length-overwrite col from (replicate n 0),
      λ i lt. rw (zeros_at col from n i lt) (
          if_lem (λ o. map_run number (unwrap o)) (leb from i && ltb i (from + n)) (some 0)
            (get_elem? col i)
          ∙ ap (λ k. if leb from i && ltb i k then zero_cell else plain_cell col i) same),
    )

module _ ⦃s : OdbcSys⦄ where
  abbrev cell_of : Option ℕ → Cell
  cell_of none = none
  cell_of (some x) = number x

  abbrev pub nullable_cell : ColumnWithIndicator ℕ → ℕ → Run Cell
  nullable_cell col i = map_run cell_of (NullableReset.cell col.indicators col.values i)

  abbrev pub Valid : AnyColumnBuffer → Type 0
  Valid (AnyColumnBuffer.binary col) = BinValid.IsValid col
  Valid (AnyColumnBuffer.text col) = TextValid.IsValid narrow col
  Valid (AnyColumnBuffer.w_text col) = TextValid.IsValid wide col
  Valid (AnyColumnBuffer.date col) = Unit
  Valid (AnyColumnBuffer.time col) = Unit
  Valid (AnyColumnBuffer.timestamp col) = Unit
  Valid (AnyColumnBuffer.f64 col) = Unit
  Valid (AnyColumnBuffer.f32 col) = Unit
  Valid (AnyColumnBuffer.i8 col) = Unit
  Valid (AnyColumnBuffer.i16 col) = Unit
  Valid (AnyColumnBuffer.i32 col) = Unit
  Valid (AnyColumnBuffer.i64 col) = Unit
  Valid (AnyColumnBuffer.u8 col) = Unit
  Valid (AnyColumnBuffer.bit col) = Unit
  Valid (AnyColumnBuffer.nullable_date col) = length col.indicators ≡ length col.values
  Valid (AnyColumnBuffer.nullable_time col) = length col.indicators ≡ length col.values
  Valid (AnyColumnBuffer.nullable_timestamp col) = length col.indicators ≡ length col.values
  Valid (AnyColumnBuffer.nullable_f64 col) = length col.indicators ≡ length col.values
  Valid (AnyColumnBuffer.nullable_f32 col) = length col.indicators ≡ length col.values
  Valid (AnyColumnBuffer.nullable_i8 col) = length col.indicators ≡ length col.values
  Valid (AnyColumnBuffer.nullable_i16 col) = length col.indicators ≡ length col.values
  Valid (AnyColumnBuffer.nullable_i32 col) = length col.indicators ≡ length col.values
  Valid (AnyColumnBuffer.nullable_i64 col) = length col.indicators ≡ length col.values
  Valid (AnyColumnBuffer.nullable_u8 col) = length col.indicators ≡ length col.values
  Valid (AnyColumnBuffer.nullable_bit col) = length col.indicators ≡ length col.values

  -- What a row reads as: NULL, the bytes or characters of a text, or the one number
  abbrev pub cell : AnyColumnBuffer → ℕ → Run Cell
  cell (AnyColumnBuffer.binary col) i = BinColumn.value_at col i
  cell (AnyColumnBuffer.text col) i = TextColumn.value_at narrow col i
  cell (AnyColumnBuffer.w_text col) i = TextColumn.value_at wide col i
  cell (AnyColumnBuffer.date col) i = plain_cell col i
  cell (AnyColumnBuffer.time col) i = plain_cell col i
  cell (AnyColumnBuffer.timestamp col) i = plain_cell col i
  cell (AnyColumnBuffer.f64 col) i = plain_cell col i
  cell (AnyColumnBuffer.f32 col) i = plain_cell col i
  cell (AnyColumnBuffer.i8 col) i = plain_cell col i
  cell (AnyColumnBuffer.i16 col) i = plain_cell col i
  cell (AnyColumnBuffer.i32 col) i = plain_cell col i
  cell (AnyColumnBuffer.i64 col) i = plain_cell col i
  cell (AnyColumnBuffer.u8 col) i = plain_cell col i
  cell (AnyColumnBuffer.bit col) i = plain_cell col i
  cell (AnyColumnBuffer.nullable_date col) i = nullable_cell col i
  cell (AnyColumnBuffer.nullable_time col) i = nullable_cell col i
  cell (AnyColumnBuffer.nullable_timestamp col) i = nullable_cell col i
  cell (AnyColumnBuffer.nullable_f64 col) i = nullable_cell col i
  cell (AnyColumnBuffer.nullable_f32 col) i = nullable_cell col i
  cell (AnyColumnBuffer.nullable_i8 col) i = nullable_cell col i
  cell (AnyColumnBuffer.nullable_i16 col) i = nullable_cell col i
  cell (AnyColumnBuffer.nullable_i32 col) i = nullable_cell col i
  cell (AnyColumnBuffer.nullable_i64 col) i = nullable_cell col i
  cell (AnyColumnBuffer.nullable_u8 col) i = nullable_cell col i
  cell (AnyColumnBuffer.nullable_bit col) i = nullable_cell col i

  abbrev pub default : AnyColumnBuffer → Run Cell
  default (AnyColumnBuffer.binary col) = null_cell
  default (AnyColumnBuffer.text col) = null_cell
  default (AnyColumnBuffer.w_text col) = null_cell
  default (AnyColumnBuffer.date col) = zero_cell
  default (AnyColumnBuffer.time col) = zero_cell
  default (AnyColumnBuffer.timestamp col) = zero_cell
  default (AnyColumnBuffer.f64 col) = zero_cell
  default (AnyColumnBuffer.f32 col) = zero_cell
  default (AnyColumnBuffer.i8 col) = zero_cell
  default (AnyColumnBuffer.i16 col) = zero_cell
  default (AnyColumnBuffer.i32 col) = zero_cell
  default (AnyColumnBuffer.i64 col) = zero_cell
  default (AnyColumnBuffer.u8 col) = zero_cell
  default (AnyColumnBuffer.bit col) = zero_cell
  default (AnyColumnBuffer.nullable_date col) = null_cell
  default (AnyColumnBuffer.nullable_time col) = null_cell
  default (AnyColumnBuffer.nullable_timestamp col) = null_cell
  default (AnyColumnBuffer.nullable_f64 col) = null_cell
  default (AnyColumnBuffer.nullable_f32 col) = null_cell
  default (AnyColumnBuffer.nullable_i8 col) = null_cell
  default (AnyColumnBuffer.nullable_i16 col) = null_cell
  default (AnyColumnBuffer.nullable_i32 col) = null_cell
  default (AnyColumnBuffer.nullable_i64 col) = null_cell
  default (AnyColumnBuffer.nullable_u8 col) = null_cell
  default (AnyColumnBuffer.nullable_bit col) = null_cell

  pub nullable_fill :
      (col : ColumnWithIndicator ℕ) (from to : ℕ)
      → length col.indicators ≡ length col.values
      → from ≤ to
      → to ≤ length col.indicators
      → (col' : ColumnWithIndicator ℕ) × (ColumnWithIndicator.fill_null col from to ≡ ok col')
        × (length col'.indicators ≡ length col'.values)
        × (length col'.indicators ≡ length col.indicators)
        × ((i : ℕ)
            → i < length col.indicators
            → nullable_cell col' i
              ≡ (if leb from i && ltb i to then null_cell else nullable_cell col i))
  nullable_fill col from to v h inside =
      let (col', e, valid, rows, reads) = NullableReset.fill_null_lem col from to v h inside in
      (
        col',
        e,
        valid,
        rows,
        λ i lt. rw (reads i lt) (
            if_lem (map_run cell_of) (leb from i && ltb i to) (ok none)
              (NullableReset.cell col.indicators col.values i)),
      )
