-- ===== src/AnyColumnBuffer/Memory.antt =====
-- The memory that a column for a description takes, against what the description says of a row.
use odbc_api.Common.{
  ℕ, zero, suc, ◌+◌, ◌*◌, ◌≤◌, ◌≡◌, List, ok, true, false, Bool, length, isize_max, add_usize,
  mul_usize, add_usize_lem, mul_usize_lem, alloc_ok, replicate, length-replicate, arith,
}
use odbc_api.Indicator.{OdbcSys}
use odbc_api.Description.{BufferKind, BufferDescription, size_of_element, bytes_per_row}
use odbc_api.TextColumn.{Width, narrow, wide, TextColumn, size_of, size_of_isize}
use odbc_api.TextColumn.Resize.{CanHold}
use odbc_api.TextColumn.Reset as TextReset
use odbc_api.BinColumn.{BinColumn}
use odbc_api.BinColumn.Reset as BinReset
use odbc_api.ColumnWithIndicator.{ColumnWithIndicator}
use odbc_api.ColumnWithIndicator.Reset as NullableReset
use odbc_api.AnyColumnBuffer.{
  AnyColumnBuffer, plain_new, nullable_new, from_kind, from_description, capacity,
}
use odbc_api.AnyColumnBuffer.Cells.{Valid}

-- Bytes of the values and of the indicators
abbrev text_memory : Width → TextColumn → ℕ
text_memory w col = length col.values * size_of w + length col.indicators * size_of_isize

abbrev binary_memory : BinColumn → ℕ
binary_memory col = length col.values + length col.indicators * size_of_isize

abbrev plain_memory : BufferKind → List ℕ → ℕ
plain_memory kind col = length col * size_of_element kind

abbrev nullable_memory : BufferKind → ColumnWithIndicator ℕ → ℕ
nullable_memory kind col =
    length col.values * size_of_element kind + length col.indicators * size_of_isize

abbrev pub memory : AnyColumnBuffer → ℕ
memory (AnyColumnBuffer.binary col) = binary_memory col
memory (AnyColumnBuffer.text col) = text_memory narrow col
memory (AnyColumnBuffer.w_text col) = text_memory wide col
memory (AnyColumnBuffer.date col) = plain_memory BufferKind.date col
memory (AnyColumnBuffer.time col) = plain_memory BufferKind.time col
memory (AnyColumnBuffer.timestamp col) = plain_memory BufferKind.timestamp col
memory (AnyColumnBuffer.f64 col) = plain_memory BufferKind.f64 col
memory (AnyColumnBuffer.f32 col) = plain_memory BufferKind.f32 col
memory (AnyColumnBuffer.i8 col) = plain_memory BufferKind.i8 col
memory (AnyColumnBuffer.i16 col) = plain_memory BufferKind.i16 col
memory (AnyColumnBuffer.i32 col) = plain_memory BufferKind.i32 col
memory (AnyColumnBuffer.i64 col) = plain_memory BufferKind.i64 col
memory (AnyColumnBuffer.u8 col) = plain_memory BufferKind.u8 col
memory (AnyColumnBuffer.bit col) = plain_memory BufferKind.bit col
memory (AnyColumnBuffer.nullable_date col) = nullable_memory BufferKind.date col
memory (AnyColumnBuffer.nullable_time col) = nullable_memory BufferKind.time col
memory (AnyColumnBuffer.nullable_timestamp col) = nullable_memory BufferKind.timestamp col
memory (AnyColumnBuffer.nullable_f64 col) = nullable_memory BufferKind.f64 col
memory (AnyColumnBuffer.nullable_f32 col) = nullable_memory BufferKind.f32 col
memory (AnyColumnBuffer.nullable_i8 col) = nullable_memory BufferKind.i8 col
memory (AnyColumnBuffer.nullable_i16 col) = nullable_memory BufferKind.i16 col
memory (AnyColumnBuffer.nullable_i32 col) = nullable_memory BufferKind.i32 col
memory (AnyColumnBuffer.nullable_i64 col) = nullable_memory BufferKind.i64 col
memory (AnyColumnBuffer.nullable_u8 col) = nullable_memory BufferKind.u8 col
memory (AnyColumnBuffer.nullable_bit col) = nullable_memory BufferKind.bit col

-- The values and the indicators of so many rows can be allocated.
abbrev pub IsAllocatable : ℕ → BufferKind → Type 0
IsAllocatable n (BufferKind.binary max_len) =
    (max_len * n ≤ isize_max) × (n * size_of_isize ≤ isize_max)
IsAllocatable n (BufferKind.text max_len) =
    CanHold narrow max_len n × (n * size_of_isize ≤ isize_max)
IsAllocatable n (BufferKind.w_text max_len) =
    CanHold wide max_len n × (n * size_of_isize ≤ isize_max)
IsAllocatable n BufferKind.date = n * 16 ≤ isize_max
IsAllocatable n BufferKind.time = n * 16 ≤ isize_max
IsAllocatable n BufferKind.timestamp = n * 16 ≤ isize_max
IsAllocatable n BufferKind.f64 = n * 16 ≤ isize_max
IsAllocatable n BufferKind.f32 = n * 16 ≤ isize_max
IsAllocatable n BufferKind.i8 = n * 16 ≤ isize_max
IsAllocatable n BufferKind.i16 = n * 16 ≤ isize_max
IsAllocatable n BufferKind.i32 = n * 16 ≤ isize_max
IsAllocatable n BufferKind.i64 = n * 16 ≤ isize_max
IsAllocatable n BufferKind.u8 = n * 16 ≤ isize_max
IsAllocatable n BufferKind.bit = n * 16 ≤ isize_max

plain_new_lem :
    (kind : BufferKind) (n : ℕ)
    → n * size_of_element kind ≤ isize_max
    → (col : List ℕ) × (plain_new kind n ≡ ok col) × (length col ≡ n)
plain_new_lem kind n h =
    (replicate n 0, alloc_ok (size_of_element kind) n 0 h, length-replicate {A = ℕ} n 0)

row_le : (m n : ℕ) → m ≤ m * suc n
row_le m n = omega arith

-- A row of a text is its slot and its indicator.
text_row :
    (m n : ℕ) → CanHold narrow m n → (m + 1) * n * 1 + n * 8 ≡ n * add_usize (add_usize m 1) 8
text_row m zero c = omega arith
text_row m (suc n) c =
    rw
      (
        add_usize_lem m 1 c.small,
        add_usize_lem (m + 1) 8 (omega (arith, c.bounded, row_le (m + 1) n)),
      )
      (omega arith)

w_text_row :
    (m n : ℕ)
    → CanHold wide m n
    → (m + 1) * n * 2 + n * 8 ≡ n * add_usize (mul_usize (add_usize m 1) 2) 8
w_text_row m zero c = omega arith
w_text_row m (suc n) c =
    rw
      (
        add_usize_lem m 1 c.small,
        mul_usize_lem (m + 1) 2 (omega (arith, c.bounded, row_le (m + 1) n)),
        add_usize_lem ((m + 1) * 2) 8 (omega (arith, c.bounded, row_le (m + 1) n)),
      )
      (omega arith)

binary_row : (m n : ℕ) → m * n ≤ isize_max → m * n + n * 8 ≡ n * add_usize m 8
binary_row m zero h = omega arith
binary_row m (suc n) h = rw (add_usize_lem m 8 (omega (arith, h, row_le m n))) (omega arith)

module _ ⦃s : OdbcSys⦄ where
  nullable_new_lem :
      (kind : BufferKind) (n : ℕ)
      → n * size_of_element kind ≤ isize_max
      → n * size_of_isize ≤ isize_max
      → (col : ColumnWithIndicator ℕ) × (nullable_new kind n ≡ ok col)
        × (length col.indicators ≡ length col.values)
        × (length col.indicators ≡ n)
        × (nullable_memory kind col ≡ n * (size_of_element kind + 8))
  nullable_new_lem kind n h b =
      let (col, e, valid, rows, values) = NullableReset.new_lem (size_of_element kind) 0 n h b in
      (col, e, valid, rows, rw (values, rows) (omega arith))

  -- What a new column is, given the bytes of a row
  record IsNew (n row : ℕ) (col : AnyColumnBuffer) : Type 0 where
    pub valid : Valid col
    pub rows : capacity col ≡ n
    pub bytes : memory col ≡ n * row

  from_kind_lem :
      (n : ℕ) (kind : BufferKind) (nullable : Bool)
      → IsAllocatable n kind
      → (col : AnyColumnBuffer) × (from_kind n kind nullable ≡ ok col)
        × IsNew n (bytes_per_row (record { nullable = nullable; kind = kind })) col
  unfolding from_kind bytes_per_row capacity
  from_kind_lem n (BufferKind.binary max_len) nullable (h, b) =
      let (col, e, valid, rows, values) = BinReset.new_lem n max_len h b in
      (
        AnyColumnBuffer.binary col,
        rw e,
        record { valid = valid; rows = rows; bytes = rw (values, rows) (binary_row max_len n h) },
      )
  from_kind_lem n (BufferKind.text max_len) nullable (c, b) =
      let (col, e, valid, rows, values) = TextReset.new_lem n c b in
      (
        AnyColumnBuffer.text col,
        rw e,
        record { valid = valid; rows = rows; bytes = rw (values, rows) (text_row max_len n c) },
      )
  from_kind_lem n (BufferKind.w_text max_len) nullable (c, b) =
      let (col, e, valid, rows, values) = TextReset.new_lem n c b in
      (
        AnyColumnBuffer.w_text col,
        rw e,
        record { valid = valid; rows = rows; bytes = rw (values, rows) (w_text_row max_len n c) },
      )
  from_kind_lem n BufferKind.date false h =
      let (col, e, l) = plain_new_lem BufferKind.date n (omega (arith, h)) in
      (AnyColumnBuffer.date col, rw e, record { valid = tt; rows = l; bytes = rw l (omega arith) })
  from_kind_lem n BufferKind.time false h =
      let (col, e, l) = plain_new_lem BufferKind.time n (omega (arith, h)) in
      (AnyColumnBuffer.time col, rw e, record { valid = tt; rows = l; bytes = rw l (omega arith) })
  from_kind_lem n BufferKind.timestamp false h =
      let (col, e, l) = plain_new_lem BufferKind.timestamp n (omega (arith, h)) in
      (
        AnyColumnBuffer.timestamp col,
        rw e,
        record { valid = tt; rows = l; bytes = rw l (omega arith) },
      )
  from_kind_lem n BufferKind.f64 false h =
      let (col, e, l) = plain_new_lem BufferKind.f64 n (omega (arith, h)) in
      (AnyColumnBuffer.f64 col, rw e, record { valid = tt; rows = l; bytes = rw l (omega arith) })
  from_kind_lem n BufferKind.f32 false h =
      let (col, e, l) = plain_new_lem BufferKind.f32 n (omega (arith, h)) in
      (AnyColumnBuffer.f32 col, rw e, record { valid = tt; rows = l; bytes = rw l (omega arith) })
  from_kind_lem n BufferKind.i8 false h =
      let (col, e, l) = plain_new_lem BufferKind.i8 n (omega (arith, h)) in
      (AnyColumnBuffer.i8 col, rw e, record { valid = tt; rows = l; bytes = rw l (omega arith) })
  from_kind_lem n BufferKind.i16 false h =
      let (col, e, l) = plain_new_lem BufferKind.i16 n (omega (arith, h)) in
      (AnyColumnBuffer.i16 col, rw e, record { valid = tt; rows = l; bytes = rw l (omega arith) })
  from_kind_lem n BufferKind.i32 false h =
      let (col, e, l) = plain_new_lem BufferKind.i32 n (omega (arith, h)) in
      (AnyColumnBuffer.i32 col, rw e, record { valid = tt; rows = l; bytes = rw l (omega arith) })
  from_kind_lem n BufferKind.i64 false h =
      let (col, e, l) = plain_new_lem BufferKind.i64 n (omega (arith, h)) in
      (AnyColumnBuffer.i64 col, rw e, record { valid = tt; rows = l; bytes = rw l (omega arith) })
  from_kind_lem n BufferKind.u8 false h =
      let (col, e, l) = plain_new_lem BufferKind.u8 n (omega (arith, h)) in
      (AnyColumnBuffer.u8 col, rw e, record { valid = tt; rows = l; bytes = rw l (omega arith) })
  from_kind_lem n BufferKind.bit false h =
      let (col, e, l) = plain_new_lem BufferKind.bit n (omega (arith, h)) in
      (AnyColumnBuffer.bit col, rw e, record { valid = tt; rows = l; bytes = rw l (omega arith) })
  from_kind_lem n BufferKind.date true h =
      let (col, e, valid, rows, bytes) =
        nullable_new_lem BufferKind.date n (omega (arith, h)) (omega (arith, h)) in
      (
        AnyColumnBuffer.nullable_date col,
        rw e,
        record { valid = valid; rows = rows; bytes = bytes },
      )
  from_kind_lem n BufferKind.time true h =
      let (col, e, valid, rows, bytes) =
        nullable_new_lem BufferKind.time n (omega (arith, h)) (omega (arith, h)) in
      (
        AnyColumnBuffer.nullable_time col,
        rw e,
        record { valid = valid; rows = rows; bytes = bytes },
      )
  from_kind_lem n BufferKind.timestamp true h =
      let (col, e, valid, rows, bytes) =
        nullable_new_lem BufferKind.timestamp n (omega (arith, h)) (omega (arith, h)) in
      (
        AnyColumnBuffer.nullable_timestamp col,
        rw e,
        record { valid = valid; rows = rows; bytes = bytes },
      )
  from_kind_lem n BufferKind.f64 true h =
      let (col, e, valid, rows, bytes) =
        nullable_new_lem BufferKind.f64 n (omega (arith, h)) (omega (arith, h)) in
      (AnyColumnBuffer.nullable_f64 col, rw e, record { valid = valid; rows = rows; bytes = bytes })
  from_kind_lem n BufferKind.f32 true h =
      let (col, e, valid, rows, bytes) =
        nullable_new_lem BufferKind.f32 n (omega (arith, h)) (omega (arith, h)) in
      (AnyColumnBuffer.nullable_f32 col, rw e, record { valid = valid; rows = rows; bytes = bytes })
  from_kind_lem n BufferKind.i8 true h =
      let (col, e, valid, rows, bytes) =
        nullable_new_lem BufferKind.i8 n (omega (arith, h)) (omega (arith, h)) in
      (AnyColumnBuffer.nullable_i8 col, rw e, record { valid = valid; rows = rows; bytes = bytes })
  from_kind_lem n BufferKind.i16 true h =
      let (col, e, valid, rows, bytes) =
        nullable_new_lem BufferKind.i16 n (omega (arith, h)) (omega (arith, h)) in
      (AnyColumnBuffer.nullable_i16 col, rw e, record { valid = valid; rows = rows; bytes = bytes })
  from_kind_lem n BufferKind.i32 true h =
      let (col, e, valid, rows, bytes) =
        nullable_new_lem BufferKind.i32 n (omega (arith, h)) (omega (arith, h)) in
      (AnyColumnBuffer.nullable_i32 col, rw e, record { valid = valid; rows = rows; bytes = bytes })
  from_kind_lem n BufferKind.i64 true h =
      let (col, e, valid, rows, bytes) =
        nullable_new_lem BufferKind.i64 n (omega (arith, h)) (omega (arith, h)) in
      (AnyColumnBuffer.nullable_i64 col, rw e, record { valid = valid; rows = rows; bytes = bytes })
  from_kind_lem n BufferKind.u8 true h =
      let (col, e, valid, rows, bytes) =
        nullable_new_lem BufferKind.u8 n (omega (arith, h)) (omega (arith, h)) in
      (AnyColumnBuffer.nullable_u8 col, rw e, record { valid = valid; rows = rows; bytes = bytes })
  from_kind_lem n BufferKind.bit true h =
      let (col, e, valid, rows, bytes) =
        nullable_new_lem BufferKind.bit n (omega (arith, h)) (omega (arith, h)) in
      (AnyColumnBuffer.nullable_bit col, rw e, record { valid = valid; rows = rows; bytes = bytes })

  -- The column for a description, with so many rows that its values and indicators can be
  -- allocated, is created without a panic. It is valid, has as many rows, and its values and
  -- indicators take as many bytes as the description says for a row, times the rows.
  pub from_description-bytes_per_row :
      (n : ℕ) (desc : BufferDescription)
      → IsAllocatable n desc.kind
      → (col : AnyColumnBuffer) × (from_description n desc ≡ ok col)
        × Valid col
        × (capacity col ≡ n)
        × (memory col ≡ n * bytes_per_row desc)
  unfolding from_description
  from_description-bytes_per_row n desc h =
      let (col, e, p) = from_kind_lem n desc.kind desc.nullable h in
      (col, e, p.valid, p.rows, p.bytes)
