-- ===== src/Metadata/ColName.antt =====
-- What `col_name` gives for a column that has a name.
use odbc_api.Common.{
  ℕ, ◌+◌, ◌*◌, ◌/◌, ◌≤◌, ◌<◌, ◌≡◌, ◌∙◌, min, List, pos, Bool, true, false, ok, length, ltb, leb,
  le→leb, if◌then◌else◌, Vec, Reserve, resize_zeroed, arith, Bool-cases, inl, inr,
}
use native.Mathlib.Decide.{dec_lt}
use odbc_api.Sql.{SqlReturn, SqlResult, is_err}
use odbc_api.Diagnostics.{clamp_small_int}
use odbc_api.Diagnostics.Text.{written, take_whole, length-written, length-resize}
use odbc_api.Metadata.{MetadataApi, add_i16, lt_pos, name_attribute, shrink_name, col_name}
use odbc_api.Metadata.Describe.{no_error}

-- The column has this name. The driver tells its length in bytes without the terminating zero, and
-- that it cut off a name that does not fit.
pub record HasName {S : Type 0} (api : MetadataApi S) (s : S) (column_number : ℕ) (text : List ℕ)
    : Type 0 where
  pub answers :
      (buffer : List ℕ) (len : ℕ)
      → len ≤ length buffer
      → api.sql_col_attribute_name column_number buffer (len * 2) s ≡ (
        (if ltb (length text) len then SqlReturn.success else SqlReturn.success_with_info),
        written len text buffer,
        length text * 2,
      )

-- A `Vec` that grows to a small number of elements has a small capacity.
pub record IsFrugal (r : Reserve) : Type 0 where
  pub frugal : (n : ℕ) → n ≤ 16383 → r.capacity_for n ≤ 16383

resize_zeroed-small :
    ⦃r : Reserve⦄ (v : Vec) (n : ℕ)
    → IsFrugal r
    → v.capacity ≤ 16383
    → n ≤ 16383
    → (resize_zeroed v n).capacity ≤ 16383
resize_zeroed-small v n f hv hn = elim (Bool-cases (leb n v.capacity)) [
  | inl e ↦ rw e hv
  | inr e ↦ rw e (f.frugal n hn)
]

small_sum : (n k : ℕ) → n + k ≤ 32767 → add_i16 n k ≡ pos (n + k)
unfolding add_i16
small_sum n k h = rw (le→leb (n + k) 32767 h)

module _ {S : Type 0} ⦃r : Reserve⦄ (api : MetadataApi S) (s : S) (column_number : ℕ)
    {text : List ℕ} (h : HasName api s column_number text) (short : length text ≤ 8191) where
  abbrev pub filled_of : Vec → Vec
  filled_of buf = record buf { elements = written (length buf.elements) text buf.elements }

  one_call :
      (buf : Vec)
      → length buf.elements ≤ 16383
      → (res : SqlResult (Unit {0})) × (is_err res ≡ false)
        × (name_attribute api column_number buf s ≡ ok (res, filled_of buf, length text * 2))
  unfolding name_attribute
  one_call buf hb =
      let (res, er, fine) = no_error (ltb (length text) (length buf.elements)) "SQLColAttributeW" in
      (
        res,
        fine,
        rw (
          le→leb (length buf.elements * 2) 32767 (omega (arith, hb)),
          h.answers buf.elements (length buf.elements) (omega arith),
          er,
        ),
      )

  abbrev pub name_of : Vec → Vec
  name_of buf = resize_zeroed (filled_of buf) (length text)

  -- The buffer shrinks to the name.
  shrinks :
      (res : SqlResult (Unit {0})) (buf : Vec)
      → shrink_name api (res, filled_of buf, length text * 2) ≡ ok (res, name_of buf)
  unfolding shrink_name
  shrinks res buf =
      let half : (length text * 2 + 1) / 2 ≡ length text = omega arith in
      rw (le→leb (length text * 2 + 1) 32767 (omega (arith, short)), half)

  reads : (buf : Vec) → length text < length buf.elements → (name_of buf).elements ≡ text
  reads buf hb =
      rw
        (le→leb (length text) (length (filled_of buf).elements)
          (omega (arith, hb, length-written (length buf.elements) text buf.elements)))
        (take_whole text buf.elements (length buf.elements) hb (omega arith))

  -- The first call is given all of the capacity, the second one more than the bytes of the name.
  abbrev pub first_buffer : Vec → Vec
  first_buffer buf = resize_zeroed buf buf.capacity

  abbrev pub second_buffer : Vec → Vec
  second_buffer buf = resize_zeroed (filled_of (first_buffer buf)) (length text * 2 + 1)

  abbrev pub Outcome : Vec → Vec → Type 0
  Outcome buf buf' =
      (res : SqlResult (Unit {0})) × (col_name api column_number buf s ≡ ok (res, buf'))
      × (is_err res ≡ false)
      × (buf'.elements ≡ text)

  module _ (buf : Vec) (hc : buf.capacity ≤ 16383) where
    first_length : length (first_buffer buf).elements ≡ buf.capacity
    first_length = length-resize buf.elements buf.capacity

    filled_length : length (filled_of (first_buffer buf)).elements ≡ buf.capacity
    filled_length =
        length-written (length (first_buffer buf).elements) text (first_buffer buf).elements
        ∙ first_length

    -- The test whether the name has been cut off
    test :
        (b : Bool)
        → ltb (min (buf.capacity * 2) 32767) (length text * 2 + 2) ≡ b
        → lt_pos
            (clamp_small_int (length (filled_of (first_buffer buf)).elements * 2))
            (add_i16 (length text * 2) 2)
          ≡ b
    unfolding lt_pos
    test b e = rw (filled_length, small_sum (length text * 2) 2 (omega (arith, short))) e

    first_suffices : length text < buf.capacity → Outcome buf (name_of (first_buffer buf))
    unfolding col_name
    first_suffices lt =
        let (res, fine, e) = one_call (first_buffer buf) (omega (arith, hc, first_length)) in
        let enough : ltb (min (buf.capacity * 2) 32767) (length text * 2 + 2) ≡ false =
          ground arith in
        (
          res,
          rw (e, fine, test false enough) (shrinks res (first_buffer buf)),
          fine,
          reads (first_buffer buf) (omega (arith, lt, first_length)),
        )

    second_suffices : ¬ (length text < buf.capacity) → Outcome buf (name_of (second_buffer buf))
    unfolding col_name
    second_suffices ge =
        let (res, fine, e) = one_call (first_buffer buf) (omega (arith, hc, first_length)) in
        let (res', fine', e') = one_call (second_buffer buf) (
          omega (
            arith,
            short,
            length-resize (filled_of (first_buffer buf)).elements (length text * 2 + 1),
          )) in
        let too_short : ltb (min (buf.capacity * 2) 32767) (length text * 2 + 2) ≡ true =
          ground arith in
        (
          res',
          rw
              (
                e,
                fine,
                test true too_short,
                small_sum (length text * 2) 1 (omega (arith, short)),
                e',
              )
              (shrinks res' (second_buffer buf)),
          fine',
          reads (second_buffer buf) (
              omega (
                arith,
                length-resize (filled_of (first_buffer buf)).elements (length text * 2 + 1),
              )),
        )

    small_first : IsFrugal r → (first_buffer buf).capacity ≤ 16383
    small_first f = resize_zeroed-small buf buf.capacity f hc hc

    small_second : IsFrugal r → (second_buffer buf).capacity ≤ 16383
    small_second f =
        resize_zeroed-small (filled_of (first_buffer buf)) (length text * 2 + 1) f (small_first f)
          (omega (arith, short))

    small_name : (v : Vec) → IsFrugal r → v.capacity ≤ 16383 → (name_of v).capacity ≤ 16383
    small_name v f hv = resize_zeroed-small (filled_of v) (length text) f hv (omega (arith, short))

    -- One of the two buffers holds the name.
    pub named : (buf' : Vec) × Outcome buf buf' × (IsFrugal r → buf'.capacity ≤ 16383)
    named = elim (dec_lt (length text) buf.capacity) [
      | yes lt ↦ (
        name_of (first_buffer buf),
        first_suffices lt,
        λ f. small_name (first_buffer buf) f (small_first f),
      )
      | no ge ↦ (
        name_of (second_buffer buf),
        second_suffices ge,
        λ f. small_name (second_buffer buf) f (small_second f),
      )
    ]
