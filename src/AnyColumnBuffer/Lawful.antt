-- ===== src/AnyColumnBuffer/Lawful.antt =====
-- Every kind of column buffer keeps the laws of columns: its default is NULL where it can be, and
-- zero elsewhere.
use odbc_api.Common.{ℕ, ◌≤◌, ◌<◌, ◌≡◌, refl, ok, ◌&&◌, leb, ltb, if◌then◌else◌}
use odbc_api.Common.Panics.{Run}
use odbc_api.Indicator.{OdbcSys}
use odbc_api.TextColumn.{Cell}
use odbc_api.TextColumn.Reset as TextReset
use odbc_api.BinColumn.Reset as BinReset
use odbc_api.AnyColumnBuffer.{AnyColumnBuffer, fill_default, capacity}
use odbc_api.AnyColumnBuffer.View.{any_column}
use odbc_api.ColumnarBuffer.Laws.{IsLawful}
use odbc_api.AnyColumnBuffer.Cells.{Valid, cell, default, plain_fill, nullable_fill}

module _ ⦃s : OdbcSys⦄ where
  pub fill :
      (col : AnyColumnBuffer) (from to : ℕ)
      → Valid col
      → from ≤ to
      → to ≤ capacity col
      → (col' : AnyColumnBuffer) × (fill_default col from to ≡ ok col')
        × Valid col'
        × (capacity col' ≡ capacity col)
        × (default col' ≡ default col)
        × ((i : ℕ)
            → i < capacity col
            → cell col' i ≡ (if leb from i && ltb i to then default col else cell col i))
  unfolding fill_default capacity
  fill (AnyColumnBuffer.binary col) from to v h inside =
      let (r, e, valid, l, g) = BinReset.fill_null_lem v from to h inside in
      (AnyColumnBuffer.binary r, rw e, valid, l, refl, g)
  fill (AnyColumnBuffer.text col) from to v h inside =
      let (r, e, valid, l, g) = TextReset.fill_null_lem v from to h inside in
      (AnyColumnBuffer.text r, rw e, valid, l, refl, g)
  fill (AnyColumnBuffer.w_text col) from to v h inside =
      let (r, e, valid, l, g) = TextReset.fill_null_lem v from to h inside in
      (AnyColumnBuffer.w_text r, rw e, valid, l, refl, g)
  fill (AnyColumnBuffer.date col) from to v h inside =
      let (r, e, l, g) = plain_fill col from to h inside in
      (AnyColumnBuffer.date r, rw e, tt, l, refl, g)
  fill (AnyColumnBuffer.time col) from to v h inside =
      let (r, e, l, g) = plain_fill col from to h inside in
      (AnyColumnBuffer.time r, rw e, tt, l, refl, g)
  fill (AnyColumnBuffer.timestamp col) from to v h inside =
      let (r, e, l, g) = plain_fill col from to h inside in
      (AnyColumnBuffer.timestamp r, rw e, tt, l, refl, g)
  fill (AnyColumnBuffer.f64 col) from to v h inside =
      let (r, e, l, g) = plain_fill col from to h inside in
      (AnyColumnBuffer.f64 r, rw e, tt, l, refl, g)
  fill (AnyColumnBuffer.f32 col) from to v h inside =
      let (r, e, l, g) = plain_fill col from to h inside in
      (AnyColumnBuffer.f32 r, rw e, tt, l, refl, g)
  fill (AnyColumnBuffer.i8 col) from to v h inside =
      let (r, e, l, g) = plain_fill col from to h inside in
      (AnyColumnBuffer.i8 r, rw e, tt, l, refl, g)
  fill (AnyColumnBuffer.i16 col) from to v h inside =
      let (r, e, l, g) = plain_fill col from to h inside in
      (AnyColumnBuffer.i16 r, rw e, tt, l, refl, g)
  fill (AnyColumnBuffer.i32 col) from to v h inside =
      let (r, e, l, g) = plain_fill col from to h inside in
      (AnyColumnBuffer.i32 r, rw e, tt, l, refl, g)
  fill (AnyColumnBuffer.i64 col) from to v h inside =
      let (r, e, l, g) = plain_fill col from to h inside in
      (AnyColumnBuffer.i64 r, rw e, tt, l, refl, g)
  fill (AnyColumnBuffer.u8 col) from to v h inside =
      let (r, e, l, g) = plain_fill col from to h inside in
      (AnyColumnBuffer.u8 r, rw e, tt, l, refl, g)
  fill (AnyColumnBuffer.bit col) from to v h inside =
      let (r, e, l, g) = plain_fill col from to h inside in
      (AnyColumnBuffer.bit r, rw e, tt, l, refl, g)
  fill (AnyColumnBuffer.nullable_date col) from to v h inside =
      let (r, e, valid, l, g) = nullable_fill col from to v h inside in
      (AnyColumnBuffer.nullable_date r, rw e, valid, l, refl, g)
  fill (AnyColumnBuffer.nullable_time col) from to v h inside =
      let (r, e, valid, l, g) = nullable_fill col from to v h inside in
      (AnyColumnBuffer.nullable_time r, rw e, valid, l, refl, g)
  fill (AnyColumnBuffer.nullable_timestamp col) from to v h inside =
      let (r, e, valid, l, g) = nullable_fill col from to v h inside in
      (AnyColumnBuffer.nullable_timestamp r, rw e, valid, l, refl, g)
  fill (AnyColumnBuffer.nullable_f64 col) from to v h inside =
      let (r, e, valid, l, g) = nullable_fill col from to v h inside in
      (AnyColumnBuffer.nullable_f64 r, rw e, valid, l, refl, g)
  fill (AnyColumnBuffer.nullable_f32 col) from to v h inside =
      let (r, e, valid, l, g) = nullable_fill col from to v h inside in
      (AnyColumnBuffer.nullable_f32 r, rw e, valid, l, refl, g)
  fill (AnyColumnBuffer.nullable_i8 col) from to v h inside =
      let (r, e, valid, l, g) = nullable_fill col from to v h inside in
      (AnyColumnBuffer.nullable_i8 r, rw e, valid, l, refl, g)
  fill (AnyColumnBuffer.nullable_i16 col) from to v h inside =
      let (r, e, valid, l, g) = nullable_fill col from to v h inside in
      (AnyColumnBuffer.nullable_i16 r, rw e, valid, l, refl, g)
  fill (AnyColumnBuffer.nullable_i32 col) from to v h inside =
      let (r, e, valid, l, g) = nullable_fill col from to v h inside in
      (AnyColumnBuffer.nullable_i32 r, rw e, valid, l, refl, g)
  fill (AnyColumnBuffer.nullable_i64 col) from to v h inside =
      let (r, e, valid, l, g) = nullable_fill col from to v h inside in
      (AnyColumnBuffer.nullable_i64 r, rw e, valid, l, refl, g)
  fill (AnyColumnBuffer.nullable_u8 col) from to v h inside =
      let (r, e, valid, l, g) = nullable_fill col from to v h inside in
      (AnyColumnBuffer.nullable_u8 r, rw e, valid, l, refl, g)
  fill (AnyColumnBuffer.nullable_bit col) from to v h inside =
      let (r, e, valid, l, g) = nullable_fill col from to v h inside in
      (AnyColumnBuffer.nullable_bit r, rw e, valid, l, refl, g)

  unfoldable pub any_column-IsLawful : IsLawful any_column (Run Cell)
  unfolding fill_default capacity
  any_column-IsLawful = record { Valid = Valid; cell = cell; default = default; fill = fill }
