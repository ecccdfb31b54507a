-- ===== src/Metadata/Describe.antt =====
-- What `describe_col` gives for a column that the driver describes.
use odbc_api.Common.{
  ℕ, suc, ◌+◌, ◌≤◌, ◌<◌, ◌≡◌, refl, ◌∙◌, min, List, ℤ, pos, Bool, true, false, ok, take, length,
  ltb, le→leb, if◌then◌else◌, Vec, Reserve, resize_zeroed, resize, arith,
}
use native.Mathlib.Decide.{dec_lt}
use odbc_api.DataType.{SqlDataType, DataType}
use odbc_api.DataType as SqlTypes
use odbc_api.Sql.{SqlReturn, SqlResult, is_err, into_sql_result}
use odbc_api.Diagnostics.Text.{
  written, take_whole, length-written, length-resize, resize_zeroed-capacity,
}
use odbc_api.Metadata.{
  SqlNullability, Nullability, new, ColumnDescription, MetadataApi, add_i16, lt_pos, describe_col,
}

-- The driver describes the column by this name, type and nullability. It tells the name's length
-- without the terminating zero, and that it cut off a name that does not fit.
pub record HasColumn {S : Type 0} (api : MetadataApi S) (s : S) (column_number : ℕ) (text : List ℕ)
    (data_type : SqlDataType) (column_size : ℕ) (decimal_digits : ℤ) (nullable : SqlNullability)
    : Type 0 where
  pub answers :
      (buffer : List ℕ) (len : ℕ)
      → len ≤ length buffer
      → api.sql_describe_col column_number buffer len s ≡ record {
        ret = if ltb (length text) len then SqlReturn.success else SqlReturn.success_with_info;
        name = written len text buffer;
        name_length = pos (length text);
        data_type = data_type;
        column_size = column_size;
        decimal_digits = decimal_digits;
        nullable = nullable;
      }

add_one : (n : ℕ) → n < 32767 → add_i16 n 1 ≡ pos (n + 1)
unfolding add_i16
add_one n h = rw (le→leb (n + 1) 32767 (omega (arith, h)))

-- Both codes that come with a description are a success.
pub no_error :
    (b : Bool) (function : _)
    → (res : SqlResult (Unit {0})) × (into_sql_result
          (if b then SqlReturn.success else SqlReturn.success_with_info)
          function
        ≡ ok res)
      × (is_err res ≡ false)
unfolding into_sql_result is_err
no_error true function = (SqlResult.success tt, refl, refl)
no_error false function = (SqlResult.success_with_info tt, refl, refl)

module _ {S : Type 0} ⦃r : Reserve⦄ (api : MetadataApi S) (s : S) (column_number : ℕ)
    {text : List ℕ} {data_type : SqlDataType} {column_size : ℕ} {decimal_digits : ℤ}
    {nullable : SqlNullability} {nullability : Nullability}
    (h : HasColumn api s column_number text data_type column_size decimal_digits nullable)
    (known : new nullable ≡ ok nullability) (short : length text < 32767) where
  -- The description that the driver's answer makes
  pub record IsDescribed (d : ColumnDescription) : Type 0 where
    pub name : d.name.elements ≡ text
    pub type : d.data_type ≡ SqlTypes.new data_type column_size decimal_digits
    pub nulls : d.nullability ≡ nullability

  Outcome : ℕ → ColumnDescription → Type 0
  Outcome fuel d =
      (res : SqlResult (Unit {0})) × (d' : ColumnDescription) × (describe_col api fuel column_number
          d s
        ≡ ok (res, d'))
      × (is_err res ≡ false)
      × IsDescribed d'

  abbrev buffer_of : ColumnDescription → Vec
  buffer_of d = resize_zeroed d.name d.name.capacity

  -- The description with the name that one call wrote
  abbrev filled_of : ColumnDescription → ColumnDescription
  filled_of d = record d {
    name = record (buffer_of d) {
      elements = written (min d.name.capacity 32767) text (buffer_of d).elements;
    };
    nullability = nullability;
  }

  length-filled : (d : ColumnDescription) → length (filled_of d).name.elements ≡ d.name.capacity
  length-filled d =
      length-written (min d.name.capacity 32767) text (buffer_of d).elements
      ∙ length-resize d.name.elements d.name.capacity

  -- The description with a name that is longer than the buffer, to be called again with
  abbrev longer_of : ColumnDescription → ColumnDescription
  longer_of d = record (filled_of d) { name = resize_zeroed (filled_of d).name (length text + 1) }

  abbrev complete_of : ColumnDescription → ColumnDescription
  complete_of d = record (filled_of d) {
    name = resize_zeroed (filled_of d).name (length text);
    data_type = SqlTypes.new data_type column_size decimal_digits;
  }

  one_call :
      (fuel : ℕ) (d : ColumnDescription)
      → (res : SqlResult (Unit {0})) × (is_err res ≡ false)
        × (describe_col api (suc fuel) column_number d s ≡ (
            if ltb (min d.name.capacity 32767) (length text + 1)
            then describe_col api fuel column_number (longer_of d) s
            else ok (res, complete_of d)))
  unfolding describe_col lt_pos
  one_call fuel d =
      let (res, er, fine) =
        no_error (ltb (length text) (min d.name.capacity 32767)) "SQLDescribeColW" in
      let filled : length (written (min d.name.capacity 32767) text (buffer_of d).elements)
          ≡ d.name.capacity =
        length-filled d in
      (
        res,
        fine,
        rw (
          length-resize d.name.elements d.name.capacity,
          h.answers (resize d.name.elements d.name.capacity 0) (min d.name.capacity 32767)
              (omega (arith, length-resize d.name.elements d.name.capacity)),
          er,
          fine,
          known,
          filled,
          add_one (length text) short,
        ),
      )

  fits : (fuel : ℕ) (d : ColumnDescription) → length text < d.name.capacity → Outcome (suc fuel) d
  unfolding Outcome
  fits fuel d hc =
      let (res, fine, e) = one_call fuel d in
      let enough : ltb (min d.name.capacity 32767) (length text + 1) ≡ false = ground arith in
      let reads : take (length text) (filled_of d).name.elements ≡ text =
        take_whole text (buffer_of d).elements (min d.name.capacity 32767)
          (omega (arith, hc, short))
          (omega (arith, length-resize d.name.elements d.name.capacity)) in
      (
        res,
        complete_of d,
        e ∙ rw enough,
        fine,
        record {
          name =
              rw
                (le→leb (length text) (length (filled_of d).name.elements)
                  (omega (arith, hc, length-filled d)))
                reads;
          type = refl;
          nulls = refl;
        },
      )

  -- A column that the driver describes, with a name below 2 ^ 15 - 1 characters and a nullability
  -- that ODBC knows, is described in at most two calls, whatever the capacity of the name's buffer
  -- and however far it grows: `describe_col` does not panic, reports no error, and gives the whole
  -- name, the type of the code, size and digits, and the nullability.
  pub describe_col_lem :
      (fuel : ℕ) (d : ColumnDescription)
      → (res : SqlResult (Unit {0})) × (d' : ColumnDescription) × (describe_col api
            (suc (suc fuel))
            column_number
            d
            s
          ≡ ok (res, d'))
        × (is_err res ≡ false)
        × IsDescribed d'
  unfolding Outcome
  describe_col_lem fuel d = elim (dec_lt (length text) d.name.capacity) [
    | yes lt ↦ fits (suc fuel) d lt
    | no ge ↦
        let (res', fine', e') = one_call (suc fuel) d in
        let short_buffer : ltb (min d.name.capacity 32767) (length text + 1) ≡ true =
          ground arith in
        let (res, d', e, fine, p) =
          fits fuel (longer_of d)
            (omega (arith, resize_zeroed-capacity (filled_of d).name (length text + 1))) in
        (res, d', e' ∙ rw short_buffer e, fine, p)
  ]
