-- ===== src/AnyColumnBuffer/Kinds.antt =====
-- Of which kind a column is, told from the column alone, and that a column for a description is of
-- the kind described.
use odbc_api.Common.{
  ℕ, ◌≡◌, refl, sym, ap, Bool, true, false, ◌||◌, ok, panic, ◌>>=◌, map_run, alloc, mul_usize, pos,
}
use odbc_api.Common.Panics.{Run}
use mathlib.Core.Path.{subst}
use odbc_api.Indicator.{OdbcSys}
use odbc_api.Description.{BufferKind, BufferDescription}
use odbc_api.TextColumn
use odbc_api.TextColumn.{Width, narrow, wide, TextColumn, slot, size_of, size_of_isize}
use odbc_api.BinColumn
use odbc_api.BinColumn.{BinColumn}
use odbc_api.AnyColumnBuffer.{AnyColumnBuffer, plain_new, nullable_new, from_kind, from_description}

abbrev pub kind_of : AnyColumnBuffer → BufferKind
kind_of (AnyColumnBuffer.binary col) = BufferKind.binary col.max_len
kind_of (AnyColumnBuffer.text col) = BufferKind.text col.max_str_len
kind_of (AnyColumnBuffer.w_text col) = BufferKind.w_text col.max_str_len
kind_of (AnyColumnBuffer.date col) = BufferKind.date
kind_of (AnyColumnBuffer.time col) = BufferKind.time
kind_of (AnyColumnBuffer.timestamp col) = BufferKind.timestamp
kind_of (AnyColumnBuffer.f64 col) = BufferKind.f64
kind_of (AnyColumnBuffer.f32 col) = BufferKind.f32
kind_of (AnyColumnBuffer.i8 col) = BufferKind.i8
kind_of (AnyColumnBuffer.i16 col) = BufferKind.i16
kind_of (AnyColumnBuffer.i32 col) = BufferKind.i32
kind_of (AnyColumnBuffer.i64 col) = BufferKind.i64
kind_of (AnyColumnBuffer.u8 col) = BufferKind.u8
kind_of (AnyColumnBuffer.bit col) = BufferKind.bit
kind_of (AnyColumnBuffer.nullable_date col) = BufferKind.date
kind_of (AnyColumnBuffer.nullable_time col) = BufferKind.time
kind_of (AnyColumnBuffer.nullable_timestamp col) = BufferKind.timestamp
kind_of (AnyColumnBuffer.nullable_f64 col) = BufferKind.f64
kind_of (AnyColumnBuffer.nullable_f32 col) = BufferKind.f32
kind_of (AnyColumnBuffer.nullable_i8 col) = BufferKind.i8
kind_of (AnyColumnBuffer.nullable_i16 col) = BufferKind.i16
kind_of (AnyColumnBuffer.nullable_i32 col) = BufferKind.i32
kind_of (AnyColumnBuffer.nullable_i64 col) = BufferKind.i64
kind_of (AnyColumnBuffer.nullable_u8 col) = BufferKind.u8
kind_of (AnyColumnBuffer.nullable_bit col) = BufferKind.bit

-- Whether a column has indicators
abbrev pub has_indicators : AnyColumnBuffer → Bool
has_indicators (AnyColumnBuffer.binary col) = true
has_indicators (AnyColumnBuffer.text col) = true
has_indicators (AnyColumnBuffer.w_text col) = true
has_indicators (AnyColumnBuffer.date col) = false
has_indicators (AnyColumnBuffer.time col) = false
has_indicators (AnyColumnBuffer.timestamp col) = false
has_indicators (AnyColumnBuffer.f64 col) = false
has_indicators (AnyColumnBuffer.f32 col) = false
has_indicators (AnyColumnBuffer.i8 col) = false
has_indicators (AnyColumnBuffer.i16 col) = false
has_indicators (AnyColumnBuffer.i32 col) = false
has_indicators (AnyColumnBuffer.i64 col) = false
has_indicators (AnyColumnBuffer.u8 col) = false
has_indicators (AnyColumnBuffer.bit col) = false
has_indicators (AnyColumnBuffer.nullable_date col) = true
has_indicators (AnyColumnBuffer.nullable_time col) = true
has_indicators (AnyColumnBuffer.nullable_timestamp col) = true
has_indicators (AnyColumnBuffer.nullable_f64 col) = true
has_indicators (AnyColumnBuffer.nullable_f32 col) = true
has_indicators (AnyColumnBuffer.nullable_i8 col) = true
has_indicators (AnyColumnBuffer.nullable_i16 col) = true
has_indicators (AnyColumnBuffer.nullable_i32 col) = true
has_indicators (AnyColumnBuffer.nullable_i64 col) = true
has_indicators (AnyColumnBuffer.nullable_u8 col) = true
has_indicators (AnyColumnBuffer.nullable_bit col) = true

-- Binary values and texts have indicators in any case.
abbrev pub is_variable : BufferKind → Bool
is_variable (BufferKind.binary length) = true
is_variable (BufferKind.text max_str_len) = true
is_variable (BufferKind.w_text max_str_len) = true
is_variable other = false

abbrev pub IsOfKind : BufferDescription → AnyColumnBuffer → Type 0
IsOfKind desc col =
    (kind_of col ≡ desc.kind) × (has_indicators col ≡ (desc.nullable || is_variable desc.kind))

made :
    {A : Type 0} (column : A → AnyColumnBuffer) (new : Run A) (desc : BufferDescription)
    {col : AnyColumnBuffer}
    → ((a : A) → new ≡ ok a → IsOfKind desc (column a))
    → map_run column new ≡ ok col
    → IsOfKind desc col
made column (ok a) desc {col} h e =
    let same : column a ≡ col = cc in subst (IsOfKind desc) same (h a refl)
made column panic desc h e = cc

nullable_text : (b : Bool) → true ≡ (b || true)
nullable_text true = refl
nullable_text false = refl

bound_ok :
    {A B : Type 0} (m : Run A) (next : A → Run B) {b : B}
    → (m >>= next) ≡ ok b
    → (a : A) × (m ≡ ok a) × (next a ≡ ok b)
bound_ok (ok a) next e = (a, refl, e)
bound_ok panic next e = cc

text_max :
    ⦃s : OdbcSys⦄ (w : Width) (n m : ℕ) (col : TextColumn)
    → TextColumn.new w n m ≡ ok col
    → col.max_str_len ≡ m
unfolding TextColumn.new
text_max w n m col e =
    let (values, _, e') = bound_ok (alloc (size_of w) (mul_usize (slot m) n) 0) _ e in
    let (indicators, _, e'') = bound_ok (alloc size_of_isize n (pos 0)) _ e' in
    let same : record { max_str_len = m; values = values; indicators = indicators } ≡ col = cc in
    sym (ap (λ c. c.max_str_len) same)

binary_max : (n m : ℕ) (col : BinColumn) → BinColumn.new n m ≡ ok col → col.max_len ≡ m
unfolding BinColumn.new
binary_max n m col e =
    let (values, _, e') = bound_ok (alloc 1 (mul_usize m n) 0) _ e in
    let (indicators, _, e'') = bound_ok (alloc size_of_isize n (pos 0)) _ e' in
    let same : record { max_len = m; values = values; indicators = indicators } ≡ col = cc in
    sym (ap (λ c. c.max_len) same)

module _ ⦃s : OdbcSys⦄ (n : ℕ) where
  from_kind-IsOfKind :
      (kind : BufferKind) (nullable : Bool) (col : AnyColumnBuffer)
      → from_kind n kind nullable ≡ ok col
      → IsOfKind (record { nullable = nullable; kind = kind }) col
  unfolding from_kind
  from_kind-IsOfKind (BufferKind.binary m) b col e =
      made AnyColumnBuffer.binary (BinColumn.new n m)
        (record { nullable = b; kind = BufferKind.binary m })
        (λ a h. (ap BufferKind.binary (binary_max n m a h), nullable_text b)) e
  from_kind-IsOfKind (BufferKind.text m) b col e =
      made AnyColumnBuffer.text (TextColumn.new narrow n m)
        (record { nullable = b; kind = BufferKind.text m })
        (λ a h. (ap BufferKind.text (text_max narrow n m a h), nullable_text b)) e
  from_kind-IsOfKind (BufferKind.w_text m) b col e =
      made AnyColumnBuffer.w_text (TextColumn.new wide n m)
        (record { nullable = b; kind = BufferKind.w_text m })
        (λ a h. (ap BufferKind.w_text (text_max wide n m a h), nullable_text b)) e
  from_kind-IsOfKind BufferKind.date false col e =
      made AnyColumnBuffer.date (plain_new BufferKind.date n)
        (record { nullable = false; kind = BufferKind.date }) (λ a h. (refl, refl)) e
  from_kind-IsOfKind BufferKind.time false col e =
      made AnyColumnBuffer.time (plain_new BufferKind.time n)
        (record { nullable = false; kind = BufferKind.time }) (λ a h. (refl, refl)) e
  from_kind-IsOfKind BufferKind.timestamp false col e =
      made AnyColumnBuffer.timestamp (plain_new BufferKind.timestamp n)
        (record { nullable = false; kind = BufferKind.timestamp }) (λ a h. (refl, refl)) e
  from_kind-IsOfKind BufferKind.f64 false col e =
      made AnyColumnBuffer.f64 (plain_new BufferKind.f64 n)
        (record { nullable = false; kind = BufferKind.f64 }) (λ a h. (refl, refl)) e
  from_kind-IsOfKind BufferKind.f32 false col e =
      made AnyColumnBuffer.f32 (plain_new BufferKind.f32 n)
        (record { nullable = false; kind = BufferKind.f32 }) (λ a h. (refl, refl)) e
  from_kind-IsOfKind BufferKind.i8 false col e =
      made AnyColumnBuffer.i8 (plain_new BufferKind.i8 n)
        (record { nullable = false; kind = BufferKind.i8 }) (λ a h. (refl, refl)) e
  from_kind-IsOfKind BufferKind.i16 false col e =
      made AnyColumnBuffer.i16 (plain_new BufferKind.i16 n)
        (record { nullable = false; kind = BufferKind.i16 }) (λ a h. (refl, refl)) e
  from_kind-IsOfKind BufferKind.i32 false col e =
      made AnyColumnBuffer.i32 (plain_new BufferKind.i32 n)
        (record { nullable = false; kind = BufferKind.i32 }) (λ a h. (refl, refl)) e
  from_kind-IsOfKind BufferKind.i64 false col e =
      made AnyColumnBuffer.i64 (plain_new BufferKind.i64 n)
        (record { nullable = false; kind = BufferKind.i64 }) (λ a h. (refl, refl)) e
  from_kind-IsOfKind BufferKind.u8 false col e =
      made AnyColumnBuffer.u8 (plain_new BufferKind.u8 n)
        (record { nullable = false; kind = BufferKind.u8 }) (λ a h. (refl, refl)) e
  from_kind-IsOfKind BufferKind.bit false col e =
      made AnyColumnBuffer.bit (plain_new BufferKind.bit n)
        (record { nullable = false; kind = BufferKind.bit }) (λ a h. (refl, refl)) e
  from_kind-IsOfKind BufferKind.date true col e =
      made AnyColumnBuffer.nullable_date (nullable_new BufferKind.date n)
        (record { nullable = true; kind = BufferKind.date }) (λ a h. (refl, refl)) e
  from_kind-IsOfKind BufferKind.time true col e =
      made AnyColumnBuffer.nullable_time (nullable_new BufferKind.time n)
        (record { nullable = true; kind = BufferKind.time }) (λ a h. (refl, refl)) e
  from_kind-IsOfKind BufferKind.timestamp true col e =
      made AnyColumnBuffer.nullable_timestamp (nullable_new BufferKind.timestamp n)
        (record { nullable = true; kind = BufferKind.timestamp }) (λ a h. (refl, refl)) e
  from_kind-IsOfKind BufferKind.f64 true col e =
      made AnyColumnBuffer.nullable_f64 (nullable_new BufferKind.f64 n)
        (record { nullable = true; kind = BufferKind.f64 }) (λ a h. (refl, refl)) e
  from_kind-IsOfKind BufferKind.f32 true col e =
      made AnyColumnBuffer.nullable_f32 (nullable_new BufferKind.f32 n)
        (record { nullable = true; kind = BufferKind.f32 }) (λ a h. (refl, refl)) e
  from_kind-IsOfKind BufferKind.i8 true col e =
      made AnyColumnBuffer.nullable_i8 (nullable_new BufferKind.i8 n)
        (record { nullable = true; kind = BufferKind.i8 }) (λ a h. (refl, refl)) e
  from_kind-IsOfKind BufferKind.i16 true col e =
      made AnyColumnBuffer.nullable_i16 (nullable_new BufferKind.i16 n)
        (record { nullable = true; kind = BufferKind.i16 }) (λ a h. (refl, refl)) e
  from_kind-IsOfKind BufferKind.i32 true col e =
      made AnyColumnBuffer.nullable_i32 (nullable_new BufferKind.i32 n)
        (record { nullable = true; kind = BufferKind.i32 }) (λ a h. (refl, refl)) e
  from_kind-IsOfKind BufferKind.i64 true col e =
      made AnyColumnBuffer.nullable_i64 (nullable_new BufferKind.i64 n)
        (record { nullable = true; kind = BufferKind.i64 }) (λ a h. (refl, refl)) e
  from_kind-IsOfKind BufferKind.u8 true col e =
      made AnyColumnBuffer.nullable_u8 (nullable_new BufferKind.u8 n)
        (record { nullable = true; kind = BufferKind.u8 }) (λ a h. (refl, refl)) e
  from_kind-IsOfKind BufferKind.bit true col e =
      made AnyColumnBuffer.nullable_bit (nullable_new BufferKind.bit n)
        (record { nullable = true; kind = BufferKind.bit }) (λ a h. (refl, refl)) e

  pub from_description-IsOfKind :
      (desc : BufferDescription) (col : AnyColumnBuffer)
      → from_description n desc ≡ ok col
      → IsOfKind desc col
  unfolding from_description
  from_description-IsOfKind desc col e = from_kind-IsOfKind desc.kind desc.nullable col e
