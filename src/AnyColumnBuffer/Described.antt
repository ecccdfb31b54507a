-- ===== src/AnyColumnBuffer/Described.antt =====
-- What the buffers made from descriptions are: valid, with unique indices, of the memory described.
use odbc_api.Common.{ℕ, ◌+◌, ◌*◌, ◌%◌, ◌^◌, ◌≤◌, ◌<◌, ◌≡◌, refl, List, [], ◌∷◌, ok, length, arith}
use odbc_api.Indicator.{OdbcSys}
use odbc_api.Description.{BufferDescription, bytes_per_row}
use odbc_api.ColumnarBuffer.{ColumnarBuffer}
use odbc_api.ColumnarBuffer.Laws.{IsValid, AreValid}
use odbc_api.ColumnarBuffer.Unique.{AreUnique, IsFresh}
use odbc_api.AnyColumnBuffer.{AnyColumnBuffer}
use odbc_api.AnyColumnBuffer.Memory.{IsAllocatable, memory, from_description-bytes_per_row}
use odbc_api.AnyColumnBuffer.Kinds.{IsOfKind, from_description-IsOfKind}
use odbc_api.AnyColumnBuffer.Lawful.{any_column-IsLawful}
use odbc_api.AnyColumnBuffer.Describe.{described_columns, buffer_from_description}

abbrev pub AreAllocatable : ℕ → List BufferDescription → Type 0
AreAllocatable n [] = Unit
AreAllocatable n (desc ∷ descs) = IsAllocatable n desc.kind × AreAllocatable n descs

-- The bytes of a row of all columns
abbrev pub row_bytes : List BufferDescription → ℕ
row_bytes [] = 0
row_bytes (desc ∷ descs) = bytes_per_row desc + row_bytes descs

-- The bytes of all columns
abbrev pub total_memory : List (ℕ × AnyColumnBuffer) → ℕ
total_memory [] = 0
total_memory (column ∷ columns) = memory column.1 + total_memory columns

-- The columns are bound to the indices behind `i`, in order.
abbrev pub AreNumbered : ℕ → List (ℕ × AnyColumnBuffer) → Type 0
AreNumbered i [] = Unit
AreNumbered i (column ∷ columns) = (column.0 ≡ i + 1) × AreNumbered (i + 1) columns

AreNumbered-IsFresh :
    (i j : ℕ) (columns : List (ℕ × AnyColumnBuffer))
    → j ≤ i
    → AreNumbered i columns
    → IsFresh j columns
AreNumbered-IsFresh i j [] h a = tt
AreNumbered-IsFresh i j (column ∷ columns) h a = (
  λ e. absurd (omega (arith, e, h, a.0)),
  AreNumbered-IsFresh (i + 1) j columns (omega (arith, h)) a.1,
)

AreNumbered-AreUnique :
    (i : ℕ) (columns : List (ℕ × AnyColumnBuffer)) → AreNumbered i columns → AreUnique columns
AreNumbered-AreUnique i [] a = tt
AreNumbered-AreUnique i (column ∷ columns) a = (
  AreNumbered-IsFresh (i + 1) column.0 columns (omega (arith, a.0)) a.1,
  AreNumbered-AreUnique (i + 1) columns a.1,
)

module _ ⦃s : OdbcSys⦄ where
  -- A column for each description, in order, numbered from `i + 1` on, and of the kind described
  abbrev pub AreDescribed : ℕ → List BufferDescription → List (ℕ × AnyColumnBuffer) → Type 0
  AreDescribed i [] [] = Unit
  AreDescribed i [] (column ∷ columns) = ⊥
  AreDescribed i (desc ∷ descs) [] = ⊥
  AreDescribed i (desc ∷ descs) (column ∷ columns) =
      (column.0 ≡ i + 1) × IsOfKind desc column.1 × AreDescribed (i + 1) descs columns

  record IsDescribed (n i : ℕ) (descs : List BufferDescription)
      (columns : List (ℕ × AnyColumnBuffer)) : Type 0 where
    valid : AreValid any_column-IsLawful n columns
    numbered : AreNumbered i columns
    as_described : AreDescribed i descs columns
    bytes : total_memory columns ≡ n * row_bytes descs

  described_columns_lem :
      (n i : ℕ) (descs : List BufferDescription)
      → AreAllocatable n descs
      → i + length descs < 2 ^ 16
      → (columns : List (ℕ × AnyColumnBuffer)) × (described_columns n i descs ≡ ok columns)
        × IsDescribed n i descs columns
  unfolding described_columns any_column-IsLawful
  described_columns_lem n i [] a h =
      ([], refl, record { valid = tt; numbered = tt; as_described = tt; bytes = omega arith })
  described_columns_lem n i (desc ∷ descs) a h =
      let (col, e, valid, rows, bytes) = from_description-bytes_per_row n desc a.0 in
      let (columns, es, p) = described_columns_lem n (i + 1) descs a.1 (omega (arith, h)) in
      let next_index : (i + 1) % 2 ^ 16 ≡ i + 1 = omega (arith, h) in
      (
        (i + 1, col) ∷ columns,
        rw (next_index, e, es),
        record {
          valid = (valid, omega (arith, rows), p.valid);
          numbered = (refl, p.numbered);
          as_described = (refl, from_description-IsOfKind n desc col e, p.as_described);
          bytes = rw (bytes, p.bytes) (omega arith);
        },
      )

  -- The buffer for fewer than 2 ^ 16 descriptions, with so many rows that all columns can be
  -- allocated, is created without a panic. It has no rows and the capacity asked for, and keeps
  -- what `new_unchecked` takes for granted: every column is valid and has this capacity, and no two
  -- have the same index. There is a column for each description, in order, numbered from one, of the
  -- kind and the length described, with indicators where it may be NULL, and for binary values and
  -- texts in any case. The columns take as many bytes as the descriptions say for a row, times the
  -- capacity.
  pub buffer_from_description_lem :
      (n : ℕ) (descs : List BufferDescription)
      → AreAllocatable n descs
      → length descs < 2 ^ 16
      → (buffer : ColumnarBuffer AnyColumnBuffer) × (buffer_from_description n descs ≡ ok buffer)
        × (buffer.num_rows ≡ 0)
        × (buffer.row_capacity ≡ n)
        × IsValid any_column-IsLawful buffer
        × AreUnique buffer.columns
        × AreDescribed 0 descs buffer.columns
        × (total_memory buffer.columns ≡ n * row_bytes descs)
  unfolding buffer_from_description
  buffer_from_description_lem n descs a h =
      let (columns, e, p) = described_columns_lem n 0 descs a (omega (arith, h)) in
      (
        record { num_rows = 0; row_capacity = n; columns = columns },
        rw e,
        refl,
        refl,
        record { rows_fit = omega arith; columns_valid = p.valid },
        AreNumbered-AreUnique 0 columns p.numbered,
        p.as_described,
        p.bytes,
      )
