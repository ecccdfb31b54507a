-- ===== src/BinColumn/Write.antt =====
-- Writing a value to a row of a binary column, and reading it and the other rows back.
use odbc_api.Common.{
  ℕ, ◌+◌, ◌*◌, ◌≤◌, ◌<◌, ◌≡◌, ◌≢◌, ◌⊎◌, inl, inr, refl, ap, sym, ◌∙◌, min, List, none, some, ℤ, pos,
  eq_ℤ, false, ok, map_run, add_usize, mul_usize, add_usize_lem, mul_usize_lem, slice_ok,
  copy_slice_ok, store_ok, to_isize_ok, segment, segment-overwrite_self, segment-overwrite_before,
  drop-overwrite_after, length, take, set, overwrite, get_elem?, get_elem?-set_self,
  get_elem?-set_ne, length-set, length-overwrite, lt_of_get_elem?, isize_max, ltb, if◌then◌else◌,
  arith, Bool-cases, Option-cases, eq→==,
}
use native.Mathlib.Decide.{dec_lt}
use native.Mathlib.Nat.{mul_comm}
use odbc_api.DataType.{as_usize}
use odbc_api.Indicator.{OdbcSys, null_data}
use odbc_api.TextColumn.{Cell}
use odbc_api.BinColumn.{BinColumn, value_of, value_at, set_value}

pub record IsValid (col : BinColumn) : Type 0 where
  pub sized : length col.values ≡ col.max_len * length col.indicators
  pub bounded : length col.values ≤ isize_max

-- A value that fits a slot.
abbrev pub Fits : ℕ → Cell → Type 0
Fits max_len none = Unit {0}
Fits max_len (some bytes) = length bytes ≤ max_len

slot_fits : (i n m : ℕ) → i < n → i * m + m ≤ m * n
slot_fits i n m h = grind arith

slots_apart : (i j m : ℕ) → j ≢ i → (j * m + m ≤ i * m) ⊎ (i * m + m ≤ j * m)
slots_apart i j m ne = elim (dec_lt j i) [ yes lt ↦ inl (grind arith) | no ge ↦ inr (grind arith) ]

-- What row `i` holds, by its indicator.
abbrev pub held : ⦃s : OdbcSys⦄ → BinColumn → ℕ → ℤ → Cell
held col i x =
    if eq_ℤ x null_data
    then none
    else some (segment (i * col.max_len) (min col.max_len (as_usize x)) col.values)

module _ {col : BinColumn} (v : IsValid col) (i : ℕ) (h : i < length col.indicators) where
  slot_inside : i * col.max_len + col.max_len ≤ length col.values
  slot_inside = omega (arith, slot_fits i (length col.indicators) col.max_len h, v.sized)

  pub offset_lem : mul_usize i col.max_len ≡ i * col.max_len
  offset_lem = mul_usize_lem i col.max_len (omega (arith, slot_inside, v.bounded))

  start_lem : mul_usize col.max_len i ≡ i * col.max_len
  start_lem =
      mul_usize_lem col.max_len i
        (rw (mul_comm col.max_len i) (omega (arith, slot_inside, v.bounded)))
      ∙ mul_comm col.max_len i

  pub end_lem : (k : ℕ) → k ≤ col.max_len → add_usize (i * col.max_len) k ≡ i * col.max_len + k
  end_lem k hk = add_usize_lem (i * col.max_len) k (omega (arith, slot_inside, v.bounded))

  pub value_of_lem : ⦃s : OdbcSys⦄ (x : ℤ) → value_of col i x ≡ ok (held col i x)
  unfolding value_of
  value_of_lem x = elim (Bool-cases (eq_ℤ x null_data)) [
    | inl e ↦ rw e
    | inr e ↦
        rw (e, offset_lem)
          (ap (map_run some) (
            slice_ok col.values (i * col.max_len) (min col.max_len (as_usize x)) _
              (end_lem (min col.max_len (as_usize x)) (omega arith)) (omega (arith, slot_inside))))
  ]

-- The column with `bytes` in row `i`.
abbrev pub with_bytes : BinColumn → ℕ → List ℕ → BinColumn
with_bytes col i bytes = record {
  max_len = col.max_len;
  values = overwrite col.values (i * col.max_len) bytes;
  indicators = set col.indicators i (pos (length bytes));
}

module _ ⦃s : OdbcSys⦄ {col : BinColumn} (v : IsValid col) (i : ℕ) (h : i < length col.indicators)
    (bytes : List ℕ) (hb : length bytes ≤ col.max_len) where
  pub in_range : i * col.max_len + length bytes ≤ length col.values
  in_range = omega (arith, slot_inside v i h, hb)

  set_value-some : set_value col i (some bytes) ≡ ok (with_bytes col i bytes)
  unfolding set_value
  set_value-some =
      let not_larger : ltb col.max_len (length bytes) ≡ false = ground arith in
      rw (
        to_isize_ok (length bytes) (omega (arith, in_range, v.bounded)),
        store_ok col.indicators i (pos (length bytes)) h,
        not_larger,
        start_lem v i h,
        end_lem v i h (length bytes) hb,
        copy_slice_ok col.values (i * col.max_len) (i * col.max_len + length bytes) bytes refl
            in_range,
      )

  pub with_bytes-IsValid : IsValid (with_bytes col i bytes)
  with_bytes-IsValid = record {
    sized =
        length-overwrite col.values (i * col.max_len) bytes
        ∙ v.sized
        ∙ ap (λ n. col.max_len * n) (sym (length-set col.indicators i (pos (length bytes))));
    bounded = rw (length-overwrite col.values (i * col.max_len) bytes) v.bounded;
  }

  pub rows_kept : length (with_bytes col i bytes).indicators ≡ length col.indicators
  rows_kept = length-set col.indicators i (pos (length bytes))

  pub with_bytes_reads : value_at (with_bytes col i bytes) i ≡ ok (some bytes)
  unfolding value_at
  with_bytes_reads =
      rw
        (
          get_elem?-set_self col.indicators i (pos (length bytes)) h,
          value_of_lem with_bytes-IsValid i (rw rows_kept h) (pos (length bytes)),
        )
        (ap (λ t. ok (some t))
          (ap (λ n. segment (i * col.max_len) n (overwrite col.values (i * col.max_len) bytes))
              whole
            ∙ segment-overwrite_self col.values (i * col.max_len) bytes in_range))
    where
      whole : min col.max_len (length bytes) ≡ length bytes
      whole = omega arith

  segment_kept :
      (j k : ℕ)
      → j ≢ i
      → k ≤ col.max_len
      → segment (j * col.max_len) k (overwrite col.values (i * col.max_len) bytes)
        ≡ segment (j * col.max_len) k col.values
  segment_kept j k ne hk = elim (slots_apart i j col.max_len ne) [
    | inl b ↦
        segment-overwrite_before col.values (j * col.max_len) k (i * col.max_len) bytes
          (omega arith)
    | inr b ↦ ap (take k) (
        drop-overwrite_after col.values (j * col.max_len) (i * col.max_len) bytes
          (omega (arith, b, hb)))
  ]

  pub with_bytes_others : (j : ℕ) → j ≢ i → value_at (with_bytes col i bytes) j ≡ value_at col j
  unfolding value_at
  with_bytes_others j ne =
      let same : get_elem? (set col.indicators i (pos (length bytes))) j
          ≡ get_elem? col.indicators j =
        get_elem?-set_ne col.indicators i j (pos (length bytes)) (λ e. ne (sym e)) in
      elim (Option-cases (get_elem? col.indicators j)) [
        | inl e ↦ rw (same, e)
        | inr (x, e) ↦
            let hj : j < length col.indicators = lt_of_get_elem? col.indicators j x e in
            rw (same, e)
              (value_of_lem with_bytes-IsValid j (rw rows_kept hj) x
                ∙ ap (λ t. ok (if eq_ℤ x null_data then none else some t))
                    (segment_kept j (min col.max_len (as_usize x)) ne (omega arith))
                ∙ sym (value_of_lem v j hj x))
      ]

module _ ⦃s : OdbcSys⦄ {col : BinColumn} (v : IsValid col) (i : ℕ)
    (h : i < length col.indicators) where
  -- The column with NULL in row `i`.
  abbrev with_null : BinColumn
  with_null = record {
    max_len = col.max_len;
    values = col.values;
    indicators = set col.indicators i null_data;
  }

  set_value-none : set_value col i none ≡ ok with_null
  unfolding set_value
  set_value-none = rw (store_ok col.indicators i null_data h)

  with_null-IsValid : IsValid with_null
  with_null-IsValid = record {
    sized = v.sized ∙ ap (λ n. col.max_len * n) (sym (length-set col.indicators i null_data));
    bounded = v.bounded;
  }

  with_null_reads : value_at with_null i ≡ ok none
  unfolding value_at value_of
  with_null_reads =
      rw (get_elem?-set_self col.indicators i null_data h, eq→== s.null_code s.null_code refl)

  with_null_others : (j : ℕ) → j ≢ i → value_at with_null j ≡ value_at col j
  unfolding value_at value_of
  with_null_others j ne = rw (get_elem?-set_ne col.indicators i j null_data (λ e. ne (sym e)))

-- Writing a cell that fits to a row that exists of a valid column does not panic, and gives a valid
-- column of as many rows, in which the row reads as the cell, and every other row as before.
pub set_value-keeps :
    ⦃s : OdbcSys⦄ {col : BinColumn} (i : ℕ) (cell : Cell)
    → IsValid col
    → i < length col.indicators
    → Fits col.max_len cell
    → (col' : BinColumn) × (set_value col i cell ≡ ok col')
      × IsValid col'
      × (length col'.indicators ≡ length col.indicators)
      × (value_at col' i ≡ ok cell)
      × ((j : ℕ) → j ≢ i → value_at col' j ≡ value_at col j)
set_value-keeps {col} i (some bytes) v h hb = (
  with_bytes col i bytes,
  set_value-some v i h bytes hb,
  with_bytes-IsValid v i h bytes hb,
  rows_kept v i h bytes hb,
  with_bytes_reads v i h bytes hb,
  with_bytes_others v i h bytes hb,
)
set_value-keeps {col} i none v h hb = (
  with_null v i h,
  set_value-none v i h,
  with_null-IsValid v i h,
  length-set col.indicators i null_data,
  with_null_reads v i h,
  with_null_others v i h,
)
