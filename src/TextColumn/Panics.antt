-- ===== src/TextColumn/Panics.antt =====
-- Where the operations on a text column panic.
use odbc_api.Common.{
  ℕ, ◌<◌, ◌≡◌, ◌↔◌, List, none, some, true, false, panic, length, ltb, arith, inl, inr, to_isize,
  mul_usize, Run-cases, store, Bool-cases, ◌⊎◌,
}
use native.Mathlib.Decide.{dec_lt, dec_le}
use odbc_api.Indicator.{OdbcSys, null_data}
use odbc_api.TextColumn.{Width, size_of, TextColumn, Cell, set_value}
use odbc_api.TextColumn.Valid.{IsValid}
use odbc_api.TextColumn.Steps.{Fits}
use odbc_api.TextColumn.Write.{set_value_lem}

store_panics {ℓ} :
    {A : Type ℓ} (v : List A) (i : ℕ) (a : A) → ¬ (i < length v) → store v i a ≡ panic
store_panics v i a h = let e : ltb i (length v) ≡ false = ground arith in rw e

module _ ⦃s : OdbcSys⦄ {w : Width} {col : TextColumn} (v : IsValid w col) (i : ℕ) where
  no_row : (cell : Cell) → ¬ (i < length col.indicators) → set_value w col i cell ≡ panic
  unfolding set_value
  no_row none h = rw (store_panics col.indicators i null_data h)
  no_row (some text) h = elim (Bool-cases (ltb col.max_str_len (length text))) [
    | inl e ↦ rw e
    | inr e ↦ elim (Run-cases (to_isize (mul_usize (length text) (size_of w)))) [
      | inl f ↦ rw (e, f)
      | inr (x, f) ↦ rw (e, f, store_panics col.indicators i x h)
    ]
  ]

  too_long : (cell : Cell) → ¬ Fits col.max_str_len cell → set_value w col i cell ≡ panic
  unfolding set_value
  too_long none h = absurd (h tt)
  too_long (some text) h = let e : ltb col.max_str_len (length text) ≡ true = ground arith in rw e

  dec_fits : (cell : Cell) → Dec (Fits col.max_str_len cell)
  dec_fits none = yes tt
  dec_fits (some text) = dec_le (length text) col.max_str_len

  -- Writing a cell to a valid column panics exactly if the row does not exist, or the text is longer
  -- than the maximum length.
  pub set_value_panics :
      (cell : Cell)
      → (set_value w col i cell ≡ panic)
        ↔ ((¬ (i < length col.indicators)) ⊎ (¬ Fits col.max_str_len cell))
  set_value_panics cell = (
    λ e. elim (dec_lt i (length col.indicators)) [
      | no h ↦ inl h
      | yes h ↦ elim (dec_fits cell) [
        | no f ↦ inr f
        | yes f ↦ let (col', written, p) = set_value_lem v i h cell f in cc
      ]
    ],
    λ d. elim d [ inl h ↦ no_row cell h | inr f ↦ too_long cell f ],
  )
