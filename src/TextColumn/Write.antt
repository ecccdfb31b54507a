-- ===== src/TextColumn/Write.antt =====
-- `set_value` and `append` into a slot that is large enough: what the row and the others read as.
use odbc_api.Common.{
  ℤ, ℕ, ◌+◌, ◌*◌, ◌≤◌, ◌<◌, ◌≡◌, ◌≢◌, refl, ap, sym, ◌∙◌, min, List, none, some, pos, ok, store_ok,
  segment, length, set, length-set, get_elem?-set_self, get_elem?-set_ne, arith, inl, inr, ◌⊎◌,
}
use native.Mathlib.Decide.{dec_lt}
use odbc_api.Indicator.{OdbcSys, null_data}
use odbc_api.Indicator.Laws.{from_isize-pos, from_isize-null}
use odbc_api.TextColumn.{
  Width, size_of, TextColumn, Cell, indicator_at, value_at, set_value, append_fitting,
}
use odbc_api.TextColumn.Valid.{IsValid, mul-size_of-div, value_at_lem, value_at_frame}
use odbc_api.TextColumn.Steps.{Fits, with_values, set_value-some, append_fitting_some}
use odbc_api.TextColumn.Slots.{InSlot, set_value-InSlot, append-InSlot}

slots_apart :
    (i j m : ℕ)
    → j ≢ i
    → (j * (m + 1) + (m + 1) ≤ i * (m + 1)) ⊎ (i * (m + 1) + (m + 1) ≤ j * (m + 1))
slots_apart i j m ne = elim (dec_lt j i) [ yes lt ↦ inl (grind arith) | no ge ↦ inr (grind arith) ]

module _ ⦃s : OdbcSys⦄ {w : Width} {col : TextColumn} (v : IsValid w col) (i : ℕ)
    (h : i < length col.indicators) (text values : List ℕ) (ht : length text ≤ col.max_str_len)
    (p : InSlot col i text values) where
  with_values-IsValid : IsValid w (with_values w col i text values)
  with_values-IsValid = record {
    sized =
        p.same_length
        ∙ v.sized
        ∙ ap (λ n. (col.max_str_len + 1) * n)
            (sym (length-set col.indicators i (pos (length text * size_of w))));
    bounded = rw p.same_length v.bounded;
    small = v.small;
  }

  with_values_reads : value_at w (with_values w col i text values) i ≡ ok (some text)
  unfolding indicator_at
  with_values_reads =
      rw
        (
          value_at_lem with_values-IsValid i,
          get_elem?-set_self col.indicators i (pos (length text * size_of w)) h,
          from_isize-pos (length text * size_of w),
          mul-size_of-div w (length text),
        )
        (ap (λ t. ok (some t))
          (ap (λ n. segment (i * (col.max_str_len + 1)) n values) whole ∙ p.begins))
    where
      whole : min col.max_str_len (length text) ≡ length text
      whole = omega arith

  with_values_others :
      (j : ℕ) → j ≢ i → value_at w (with_values w col i text values) j ≡ value_at w col j
  with_values_others j ne =
      value_at_frame j v with_values-IsValid refl
        (get_elem?-set_ne col.indicators i j (pos (length text * size_of w)) (λ e. ne (sym e)))
        (λ k hk. elim (slots_apart i j col.max_str_len ne) [
          | inl b ↦ p.before (j * (col.max_str_len + 1)) k (omega arith)
          | inr b ↦ p.behind (j * (col.max_str_len + 1)) k b
        ])

-- The column with NULL in row `i`.
abbrev pub with_null : ⦃s : OdbcSys⦄ → TextColumn → ℕ → TextColumn
with_null col i = record col { indicators = set col.indicators i null_data }

module _ ⦃s : OdbcSys⦄ {w : Width} {col : TextColumn} (v : IsValid w col) (i : ℕ)
    (h : i < length col.indicators) where
  pub with_null-IsValid : IsValid w (with_null col i)
  with_null-IsValid = record {
    sized =
        v.sized ∙ ap (λ n. (col.max_str_len + 1) * n) (sym (length-set col.indicators i null_data));
    bounded = v.bounded;
    small = v.small;
  }

  pub with_null_reads : value_at w (with_null col i) i ≡ ok none
  unfolding indicator_at
  with_null_reads = rw (
    value_at_lem with_null-IsValid i,
    get_elem?-set_self col.indicators i null_data h,
    from_isize-null,
  )

  pub with_null_others : (j : ℕ) → j ≢ i → value_at w (with_null col i) j ≡ value_at w col j
  with_null_others j ne =
      value_at_frame j v with_null-IsValid refl
        (get_elem?-set_ne col.indicators i j null_data (λ e. ne (sym e))) (λ k hk. refl)

-- The indicator that is written for a cell
abbrev pub indicator_of : ⦃s : OdbcSys⦄ → Width → Cell → ℤ
indicator_of w none = null_data
indicator_of w (some text) = pos (length text * size_of w)

-- A column `col'` that is `col` but for row `i`, which holds `cell`.
pub record HasWritten ⦃s : OdbcSys⦄ (w : Width) (col : TextColumn) (i : ℕ) (cell : Cell)
    (col' : TextColumn) : Type 0 where
  pub valid : IsValid w col'
  pub same_max : col'.max_str_len ≡ col.max_str_len
  pub same_rows : length col'.indicators ≡ length col.indicators
  pub reads : value_at w col' i ≡ ok cell
  pub others : (j : ℕ) → j ≢ i → value_at w col' j ≡ value_at w col j
  pub indicators : col'.indicators ≡ set col.indicators i (indicator_of w cell)

module _ ⦃s : OdbcSys⦄ {w : Width} {col : TextColumn} (v : IsValid w col) (i : ℕ)
    (h : i < length col.indicators) where
  pub with_null-HasWritten : HasWritten w col i none (with_null col i)
  with_null-HasWritten = record {
    valid = with_null-IsValid v i h;
    same_max = refl;
    same_rows = length-set col.indicators i null_data;
    reads = with_null_reads v i h;
    others = with_null_others v i h;
    indicators = refl;
  }

  with_values-HasWritten :
      (text values : List ℕ)
      → length text ≤ col.max_str_len
      → InSlot col i text values
      → HasWritten w col i (some text) (with_values w col i text values)
  with_values-HasWritten text values ht p = record {
    valid = with_values-IsValid v i h text values ht p;
    same_max = refl;
    same_rows = length-set col.indicators i (pos (length text * size_of w));
    reads = with_values_reads v i h text values ht p;
    others = with_values_others v i h text values ht p;
    indicators = refl;
  }

  pub set_value_lem :
      (cell : Cell)
      → Fits col.max_str_len cell
      → (col' : TextColumn) × (set_value w col i cell ≡ ok col') × HasWritten w col i cell col'
  unfolding set_value
  set_value_lem none ht =
      (with_null col i, rw (store_ok col.indicators i null_data h), with_null-HasWritten)
  set_value_lem (some text) ht = (
    _,
    set_value-some v i h text ht,
    with_values-HasWritten text _ ht (set_value-InSlot v i h text ht),
  )

  pub append_fitting_lem :
      (text : List ℕ)
      → length text ≤ col.max_str_len
      → (col' : TextColumn) × (append_fitting w col i text ≡ ok col')
        × HasWritten w col i (some text) col'
  append_fitting_lem text ht = (
    _,
    append_fitting_some v i h text ht,
    with_values-HasWritten text _ ht (append-InSlot v i h text ht),
  )
