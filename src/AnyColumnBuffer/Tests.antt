-- ===== src/AnyColumnBuffer/Tests.antt =====
-- Columns and buffers of several kinds: runs, and the theorems at inputs that meet their hypotheses.
use odbc_api.Common.{
  ℕ, ◌*◌, ◌≡◌, ◌↔◌, refl, List, [], ◌∷◌, pos, negsuc, ok, panic, true, false, arith,
}
use odbc_api.Indicator.{OdbcSys}
use odbc_api.Description.{BufferKind, BufferDescription, bytes_per_row}
use odbc_api.ColumnarBuffer.{ColumnarBuffer, set_num_rows, new, column}
use odbc_api.ColumnarBuffer.Laws.{IsValid, Extend, set_num_rows_extends}
use odbc_api.ColumnarBuffer.Unique.{AreUnique, IsCapacity, new_lem}
use odbc_api.AnyColumnBuffer.{AnyColumnBuffer, capacity, fill_default}
use odbc_api.AnyColumnBuffer.View.{AnyColumnView, any_column, view}
use odbc_api.AnyColumnBuffer.Lawful.{any_column-IsLawful}
use odbc_api.AnyColumnBuffer.Describe.{buffer_from_description}
use odbc_api.AnyColumnBuffer.Described.{
  AreAllocatable, AreDescribed, row_bytes, total_memory, buffer_from_description_lem,
}

-- The values that ODBC documents for the two constants: -1 and -4.
instance abbrev odbc : OdbcSys
odbc = record { null_code = 0; no_total_code = 3; distinct = omega arith }

-- Room for three rows, of which two are valid: an integer that is there, and one that may be NULL
abbrev columns : List (ℕ × AnyColumnBuffer)
columns =
    (1, AnyColumnBuffer.i32 (7 ∷ 8 ∷ 9 ∷ []))
    ∷ (
      4,
      AnyColumnBuffer.nullable_i8
          (record { values = 1 ∷ 2 ∷ 3 ∷ []; indicators = pos 0 ∷ negsuc 0 ∷ pos 0 ∷ [] }),
    )
    ∷ []

abbrev buffer : ColumnarBuffer AnyColumnBuffer
buffer = record { num_rows = 2; row_capacity = 3; columns = columns }

buffer-IsValid : IsValid any_column-IsLawful buffer
unfolding any_column-IsLawful capacity
buffer-IsValid = record {
  rows_fit = omega arith;
  columns_valid = (tt, omega arith, (refl, omega arith, tt));
}

set_num_rows_extends_example :
    (buffer' : ColumnarBuffer AnyColumnBuffer) × (set_num_rows any_column buffer 3 ≡ ok buffer')
    × IsValid any_column-IsLawful buffer'
    × (buffer'.num_rows ≡ 3)
    × (buffer'.row_capacity ≡ 3)
    × Extend any_column-IsLawful 2 3 columns buffer'.columns
set_num_rows_extends_example =
    set_num_rows_extends any_column-IsLawful buffer 3 buffer-IsValid (omega arith)

new_lem_example :
    ((new any_column columns ≡ panic) ↔ (¬ AreUnique columns))
    × (AreUnique columns
        → (made : ColumnarBuffer AnyColumnBuffer) × (new any_column columns ≡ ok made)
          × (made.columns ≡ columns)
          × (made.num_rows ≡ 0)
          × IsCapacity any_column.capacity made.row_capacity columns)
new_lem_example = new_lem any_column columns

-- The third value of the first column is hidden, and overwritten where the row becomes valid.
extended :
    set_num_rows any_column buffer 3
    ≡ ok (record {
      num_rows = 3;
      row_capacity = 3;
      columns =
          (1, AnyColumnBuffer.i32 (7 ∷ 8 ∷ 0 ∷ []))
          ∷ (
            4,
            AnyColumnBuffer.nullable_i8
                (record { values = 1 ∷ 2 ∷ 3 ∷ []; indicators = pos 0 ∷ negsuc 0 ∷ negsuc 0 ∷ [] }),
          )
          ∷ [];
    })
unfolding set_num_rows fill_default odbc_api.ColumnWithIndicator.fill_null
    odbc_api.TextColumn.store_range
extended = refl

viewed : column any_column buffer 0 ≡ ok (AnyColumnView.i32 (7 ∷ 8 ∷ []))
unfolding column view
viewed = refl

doubled_index :
    new any_column ((3, AnyColumnBuffer.i8 (0 ∷ [])) ∷ (3, AnyColumnBuffer.u8 (0 ∷ [])) ∷ [])
    ≡ panic
unfolding new
doubled_index = refl

abbrev descs : List BufferDescription
descs =
    record { nullable = true; kind = BufferKind.text 5 }
    ∷ record { nullable = true; kind = BufferKind.i32 }
    ∷ record { nullable = false; kind = BufferKind.timestamp }
    ∷ []

descs-AreAllocatable : AreAllocatable 10 descs
descs-AreAllocatable = (
  (record { small = omega arith; bounded = omega arith }, omega arith),
  (omega arith, (omega arith, tt)),
)

buffer_from_description_lem_example :
    (made : ColumnarBuffer AnyColumnBuffer) × (buffer_from_description 10 descs ≡ ok made)
    × (made.num_rows ≡ 0)
    × (made.row_capacity ≡ 10)
    × IsValid any_column-IsLawful made
    × AreUnique made.columns
    × AreDescribed 0 descs made.columns
    × (total_memory made.columns ≡ 10 * row_bytes descs)
buffer_from_description_lem_example =
    buffer_from_description_lem 10 descs descs-AreAllocatable (omega arith)

row_of_42_bytes : row_bytes descs ≡ 42
unfolding bytes_per_row odbc_api.Common.add_usize
row_of_42_bytes = refl
