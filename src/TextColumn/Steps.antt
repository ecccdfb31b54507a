-- ===== src/TextColumn/Steps.antt =====
-- The calls of `set_value` and `append` into a slot that is large enough, run to their end.
use odbc_api.Common.{
  ℕ, ◌+◌, ◌*◌, ◌≤◌, ◌<◌, ◌≡◌, refl, List, none, some, pos, false, ok, mul_usize, mul_usize_lem,
  store_ok, slice_ok, copy_slice_ok, to_isize, to_isize_ok, length, set, overwrite, length-set,
  length-overwrite, ltb, isize_max, arith,
}
use odbc_api.Indicator.{OdbcSys}
use odbc_api.TextColumn.{Width, narrow, wide, size_of, TextColumn, Cell, set_value, append_fitting}
use odbc_api.TextColumn.Valid.{IsValid, slot_inside, offset_lem, start_lem, end_lem}

mul-size_of_mono : (w : Width) (a b : ℕ) → a ≤ b → a * size_of w ≤ b * size_of w
mul-size_of_mono narrow a b h = omega arith
mul-size_of_mono wide a b h = omega arith

-- A cell that fits a slot.
abbrev pub Fits : ℕ → Cell → Type 0
Fits max_len none = Unit {0}
Fits max_len (some text) = length text ≤ max_len

module _ {w : Width} {col : TextColumn} (v : IsValid w col) (i : ℕ)
    (h : i < length col.indicators) where
  pub indicator_lem :
      (n : ℕ) → n ≤ col.max_str_len → to_isize (mul_usize n (size_of w)) ≡ ok (pos (n * size_of w))
  indicator_lem n hn =
      let small : n * size_of w ≤ isize_max = omega (
        arith,
        mul-size_of_mono w n (length col.values) (omega (arith, slot_inside v i h)),
        v.bounded,
      ) in
      rw (mul_usize_lem n (size_of w) (omega arith)) (to_isize_ok (n * size_of w) small)

-- The column with `text` in row `i`, by the order of the two writes to the values.
abbrev pub with_values : Width → TextColumn → ℕ → List ℕ → List ℕ → TextColumn
with_values w col i text values = record col {
  values = values;
  indicators = set col.indicators i (pos (length text * size_of w));
}

module _ ⦃s : OdbcSys⦄ {w : Width} {col : TextColumn} (v : IsValid w col) (i : ℕ)
    (h : i < length col.indicators) where
  pub set_value-some :
      (text : List ℕ)
      → length text ≤ col.max_str_len
      → set_value w col i (some text)
        ≡ ok (
            with_values w col i text (
              overwrite
                (set col.values (i * (col.max_str_len + 1) + length text) 0)
                (i * (col.max_str_len + 1))
                text))
  unfolding set_value
  set_value-some text ht = rw (
    not_larger,
    indicator_lem v i h (length text) ht,
    store_ok col.indicators i (pos (length text * size_of w)) h,
    start_lem v i h,
    end_lem v i h (length text) ht,
    store_ok col.values (i * (col.max_str_len + 1) + length text) 0 in_range,
    slice_ok (set col.values (i * (col.max_str_len + 1) + length text) 0)
        (i * (col.max_str_len + 1)) (length text) (i * (col.max_str_len + 1) + length text) refl
        in_set,
    copy_slice_ok (set col.values (i * (col.max_str_len + 1) + length text) 0)
        (i * (col.max_str_len + 1)) (i * (col.max_str_len + 1) + length text) text refl in_set,
  )
    where
      not_larger : ltb col.max_str_len (length text) ≡ false
      not_larger = ground arith

      in_range : i * (col.max_str_len + 1) + length text < length col.values
      in_range = omega (arith, slot_inside v i h)

      in_range_le : i * (col.max_str_len + 1) + length text ≤ length col.values
      in_range_le = omega (arith, in_range)

      in_set :
          i * (col.max_str_len + 1) + length text
          ≤ length (set col.values (i * (col.max_str_len + 1) + length text) 0)
      in_set = rw (length-set col.values (i * (col.max_str_len + 1) + length text) 0) in_range_le

  pub append_fitting_some :
      (text : List ℕ)
      → length text ≤ col.max_str_len
      → append_fitting w col i text
        ≡ ok (
            with_values w col i text (
              set
                (overwrite col.values (i * (col.max_str_len + 1)) text)
                (i * (col.max_str_len + 1) + length text)
                0))
  unfolding append_fitting
  append_fitting_some text ht = rw (
    offset_lem v i h,
    end_lem v i h (length text) ht,
    copy_slice_ok col.values (i * (col.max_str_len + 1)) (i * (col.max_str_len + 1) + length text)
        text refl in_range_le,
    store_ok (overwrite col.values (i * (col.max_str_len + 1)) text)
        (i * (col.max_str_len + 1) + length text) 0 in_copied,
    indicator_lem v i h (length text) ht,
    store_ok col.indicators i (pos (length text * size_of w)) h,
  )
    where
      in_range : i * (col.max_str_len + 1) + length text < length col.values
      in_range = omega (arith, slot_inside v i h)

      in_range_le : i * (col.max_str_len + 1) + length text ≤ length col.values
      in_range_le = omega (arith, in_range)

      in_copied :
          i * (col.max_str_len + 1) + length text
          < length (overwrite col.values (i * (col.max_str_len + 1)) text)
      in_copied = rw (length-overwrite col.values (i * (col.max_str_len + 1)) text) in_range
