-- ===== src/Rows.antt =====
-- The loop that `resize_max_str` of buffers/text_column.rs and `resize_max_element_length` of
-- buffers/bin_column.rs share: rows move from the slots of the old buffer to those of the new one.
pub mod Laws
use odbc_api.Common.{
  ℕ, zero, suc, ◌+◌, min, not, List, [], ◌∷◌, ◌++◌, ℤ, ok, ◌>>=◌, ◌>>◌, slice, copy_slice, length,
  take, drop, ltb, ◌||◌, if◌then◌else◌,
}
use odbc_api.Common.Panics.{Run}
use odbc_api.Indicator.{OdbcSys, Indicator, from_isize}

-- One round: the part of `old_value` that the indicator calls valid is copied. `chars` turns the
-- length that the indicator holds into one in elements.
unfoldable pub copy_row : (ℕ → ℕ) → ℕ → Indicator → List ℕ → List ℕ → Run (List ℕ)
copy_row chars max_copy_length Indicator.null old_value new_value = ok new_value
copy_row chars max_copy_length Indicator.no_total old_value new_value = do
  src ← slice old_value 0 max_copy_length
  copy_slice new_value 0 max_copy_length src
copy_row chars max_copy_length (Indicator.length n) old_value new_value = do
  src ← slice old_value 0 (min (chars n) max_copy_length)
  copy_slice new_value 0 (min (chars n) max_copy_length) src

module _ ⦃s : OdbcSys⦄ (chars : ℕ → ℕ) (old_slot new_slot : ℕ) (max_copy_length : ℕ) where
  -- `indicators.iter().zip(old.chunks_exact_mut(old_slot)).zip(new.chunks_exact_mut(new_slot))
  -- .take(num_rows)`: the first argument counts the rows left. The result is the new buffer.
  unfoldable pub copy_rows : ℕ → List ℤ → List ℕ → List ℕ → Run (List ℕ)
  copy_rows zero inds old new = ok new
  copy_rows (suc n) [] old new = ok new
  copy_rows (suc n) (i ∷ inds) old new =
      let rest = copy_rows n inds (drop old_slot old) (drop new_slot new) in
      if ltb (length old) old_slot || ltb (length new) new_slot then ok new else do
        ind ← from_isize i
        row ← copy_row chars max_copy_length ind (take old_slot old) (take new_slot new)
        copied ← rest
        ok (row ++ copied)
