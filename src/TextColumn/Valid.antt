-- ===== src/TextColumn/Valid.antt =====
-- The shape of a text column, and `value_at` in a valid one: every slot lies inside the values.
use odbc_api.Common.{
  ℕ, ◌+◌, ◌*◌, ◌/◌, ◌≤◌, ◌<◌, ◌≡◌, refl, ap, sym, ◌∙◌, min, none, some, ℤ, ok, ◌>>=◌, map_run,
  add_usize, mul_usize, add_usize_lem, mul_usize_lem, slice, slice_ok, segment, length, get_elem?,
  isize_max, usize_mod, arith, lt_of_get_elem?, Option-cases, inl, inr, Run-cases,
}
use mathlib.Core.Path.{ap₂, fun_ext}
use native.Mathlib.Nat.{mul_comm}
use odbc_api.Indicator.{OdbcSys, Indicator, from_isize}
use odbc_api.TextColumn.{
  Width, narrow, wide, size_of, TextColumn, Cell, slot, indicator_at, value_of, value_at,
}

pub record IsValid (w : Width) (col : TextColumn) : Type 0 where
  pub sized : length col.values ≡ (col.max_str_len + 1) * length col.indicators
  pub bounded : length col.values * size_of w ≤ isize_max
  pub small : col.max_str_len + 1 < usize_mod

pub le-mul-size_of : (w : Width) (n : ℕ) → n ≤ n * size_of w
le-mul-size_of narrow n = omega arith
le-mul-size_of wide n = omega arith

pub mul-size_of-div : (w : Width) (n : ℕ) → (n * size_of w) / size_of w ≡ n
mul-size_of-div narrow n = omega arith
mul-size_of-div wide n = omega arith

pub slot_fits : (i n m : ℕ) → i < n → i * (m + 1) + (m + 1) ≤ (m + 1) * n
slot_fits i n m h = grind arith

module _ {w : Width} {col : TextColumn} (v : IsValid w col) where
  pub slot_lem : slot col.max_str_len ≡ col.max_str_len + 1
  slot_lem = add_usize_lem col.max_str_len 1 v.small

  pub values_small : length col.values ≤ isize_max
  values_small = omega (arith, v.bounded, le-mul-size_of w (length col.values))

  module _ (i : ℕ) (h : i < length col.indicators) where
    -- The slot of a row lies inside the values.
    pub slot_inside : i * (col.max_str_len + 1) + (col.max_str_len + 1) ≤ length col.values
    slot_inside = omega (arith, slot_fits i (length col.indicators) col.max_str_len h, v.sized)

    pub offset_lem : mul_usize i (slot col.max_str_len) ≡ i * (col.max_str_len + 1)
    offset_lem =
        rw slot_lem
          (mul_usize_lem i (col.max_str_len + 1) (omega (arith, slot_inside, values_small)))

    pub start_lem : mul_usize (slot col.max_str_len) i ≡ i * (col.max_str_len + 1)
    start_lem = rw slot_lem (
        mul_usize_lem (col.max_str_len + 1) i (omega (arith, slot_inside, values_small))
        ∙ mul_comm (col.max_str_len + 1) i)

    pub end_lem :
        (k : ℕ)
        → k ≤ col.max_str_len
        → add_usize (i * (col.max_str_len + 1)) k ≡ i * (col.max_str_len + 1) + k
    end_lem k hk =
        add_usize_lem (i * (col.max_str_len + 1)) k (omega (arith, slot_inside, values_small))

-- The characters of a row that its indicator calls valid.
abbrev pub stored : Width → TextColumn → ℕ → Indicator → Cell
stored w col i Indicator.null = none
stored w col i Indicator.no_total =
    some (segment (i * (col.max_str_len + 1)) col.max_str_len col.values)
stored w col i (Indicator.length n) =
    some (segment (i * (col.max_str_len + 1)) (min col.max_str_len (n / size_of w)) col.values)

module _ ⦃s : OdbcSys⦄ {w : Width} {col : TextColumn} (v : IsValid w col) (i : ℕ) where
  value_slice :
      i < length col.indicators
      → (k : ℕ) → k ≤ col.max_str_len
      → slice col.values
          (mul_usize i (slot col.max_str_len))
          (add_usize (mul_usize i (slot col.max_str_len)) k)
        ≡ ok (segment (i * (col.max_str_len + 1)) k col.values)
  value_slice h k hk = rw (offset_lem v i h) (
      slice_ok col.values (i * (col.max_str_len + 1)) k _ (end_lem v i h k hk)
        (omega (arith, slot_inside v i h)))

  pub value_of_lem :
      i < length col.indicators → (ind : Indicator) → value_of w col i ind ≡ ok (stored w col i ind)
  unfolding value_of
  value_of_lem h Indicator.null = refl
  value_of_lem h Indicator.no_total = rw (value_slice h col.max_str_len (omega arith))
  value_of_lem h (Indicator.length n) =
      rw (value_slice h (min col.max_str_len (n / size_of w)) (omega arith))

  -- In a valid column `value_at` panics only where `indicator_at` does.
  pub value_at_lem : value_at w col i ≡ map_run (stored w col i) (indicator_at w col i)
  unfolding value_at indicator_at
  value_at_lem = elim (Option-cases (get_elem? col.indicators i)) [
    | inl e ↦ rw e
    | inr (x, e) ↦ rw e (by_indicator x (lt_of_get_elem? col.indicators i x e))
  ]
    where
      by_indicator :
          (x : ℤ)
          → i < length col.indicators
          → (from_isize x >>= value_of w col i) ≡ map_run (stored w col i) (from_isize x)
      by_indicator x h = elim (Run-cases (from_isize x)) [
        | inl e ↦ rw e
        | inr (ind, e) ↦ rw e (value_of_lem h ind)
      ]

indicator_at_cong :
    ⦃s : OdbcSys⦄ (w : Width) (i : ℕ) (col' col : TextColumn)
    → get_elem? col'.indicators i ≡ get_elem? col.indicators i
    → indicator_at w col' i ≡ indicator_at w col i
unfolding indicator_at
indicator_at_cong w i col' col e = rw e

-- A row reads the same in two valid columns that agree on its indicator and its characters.
pub value_at_frame :
    ⦃s : OdbcSys⦄ {w : Width} {col col' : TextColumn} (i : ℕ)
    → IsValid w col
    → IsValid w col'
    → col'.max_str_len ≡ col.max_str_len
    → get_elem? col'.indicators i ≡ get_elem? col.indicators i
    → ((k : ℕ)
        → k ≤ col.max_str_len
        → segment (i * (col.max_str_len + 1)) k col'.values
          ≡ segment (i * (col.max_str_len + 1)) k col.values)
    → value_at w col' i ≡ value_at w col i
value_at_frame {w} {col} {col'} i v v' em ei es =
    value_at_lem v' i ∙ ap₂ map_run same_stored same_indicator ∙ sym (value_at_lem v i)
  where
    stored_eq : (ind : Indicator) → stored w col' i ind ≡ stored w col i ind
    stored_eq Indicator.null = refl
    stored_eq Indicator.no_total = rw em (ap some (es col.max_str_len (omega arith)))
    stored_eq (Indicator.length n) =
        rw em (ap some (es (min col.max_str_len (n / size_of w)) (omega arith)))

    same_stored : stored w col' i ≡ stored w col i
    same_stored = fun_ext stored_eq

    same_indicator : indicator_at w col' i ≡ indicator_at w col i
    same_indicator = indicator_at_cong w i col' col ei
