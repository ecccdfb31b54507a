-- ===== src/Rows/Laws.antt =====
-- What the copying loop leaves in each slot of the new buffer.
use odbc_api.Common.{
  ℕ, zero, suc, ◌+◌, ◌*◌, ◌≤◌, ◌<◌, ◌≡◌, refl, ap, sym, ◌∙◌, min, List, [], ◌∷◌, ◌++◌, some, ℤ,
  false, ok, slice_ok, copy_slice_ok, segment, length, take, drop, overwrite, get_elem?, ltb,
  overwrite_nil, length-overwrite, length-take, length-drop, length-append, segment-overwrite_self,
  take-take, take-append_le, drop-append, drop-drop, arith, slice, copy_slice,
}
use odbc_api.Indicator.{OdbcSys, Indicator, from_isize}
use odbc_api.Rows.{copy_row, copy_rows}

-- How many elements of a row are copied.
abbrev pub copy_len : (ℕ → ℕ) → ℕ → Indicator → ℕ
copy_len chars max_copy_length Indicator.null = 0
copy_len chars max_copy_length Indicator.no_total = max_copy_length
copy_len chars max_copy_length (Indicator.length n) = min (chars n) max_copy_length

pub copy_len-le : (chars : ℕ → ℕ) (m : ℕ) (ind : Indicator) → copy_len chars m ind ≤ m
copy_len-le chars m Indicator.null = omega arith
copy_len-le chars m Indicator.no_total = omega arith
copy_len-le chars m (Indicator.length n) = omega arith

module _ (chars : ℕ → ℕ) (m : ℕ) (old new : List ℕ) (ho : m ≤ length old)
    (hn : m ≤ length new) where
  copy_prefix :
      (k : ℕ)
      → k ≤ m
      → (slice old 0 k ≡ ok (take k old))
        × (copy_slice new 0 k (take k old) ≡ ok (overwrite new 0 (take k old)))
  copy_prefix k hk = (
    slice_ok old 0 k k (omega arith) (omega (arith, hk, ho)),
    copy_slice_ok new 0 k (take k old) (omega (arith, length-take k old, hk, ho))
        (omega (arith, length-take k old, hk, hn)),
  )

  copy_row_lem :
      (ind : Indicator)
      → copy_row chars m ind old new ≡ ok (overwrite new 0 (take (copy_len chars m ind) old))
  unfolding copy_row
  copy_row_lem Indicator.null = rw (overwrite_nil new 0)
  copy_row_lem Indicator.no_total =
      rw ((copy_prefix m (omega arith)).0, (copy_prefix m (omega arith)).1)
  copy_row_lem (Indicator.length n) =
      let b : min (chars n) m ≤ m = omega arith in
      rw ((copy_prefix (min (chars n) m) b).0, (copy_prefix (min (chars n) m) b).1)

-- Reading the part that was copied gives what stood in the old slot.
take-overwrite-take :
    (k c : ℕ) (old new : List ℕ)
    → k ≤ c
    → c ≤ length old
    → c ≤ length new
    → take k (overwrite new 0 (take c old)) ≡ take k old
take-overwrite-take k c old new hk ho hn =
    sym (take-take k c (overwrite new 0 (take c old)) hk) ∙ ap (take k) whole ∙ take-take k c old hk
  where
    len : length (take c old) ≡ c
    len = omega (arith, length-take c old)

    whole : take c (overwrite new 0 (take c old)) ≡ take c old
    whole =
        ap (λ n. take n (overwrite new 0 (take c old))) (sym len)
        ∙ segment-overwrite_self new 0 (take c old) (omega (arith, len))

module _ ⦃s : OdbcSys⦄ where
  -- The first `n` indicators are such as the ODBC specification allows.
  abbrev pub AreReadable : ℕ → List ℤ → Type 0
  AreReadable zero inds = Unit
  AreReadable (suc n) [] = Unit
  AreReadable (suc n) (x ∷ inds) =
      ((ind : Indicator) × (from_isize x ≡ ok ind)) × AreReadable n inds

module _ ⦃s : OdbcSys⦄ (chars : ℕ → ℕ) (old_slot new_slot m : ℕ) where
  -- Every row among the first `n` has its valid part in its new slot.
  abbrev pub AreCopied : ℕ → List ℤ → List ℕ → List ℕ → Type 0
  AreCopied n inds old r =
      (i : ℕ) (x : ℤ) (ind : Indicator)
      → i < n
      → get_elem? inds i ≡ some x
      → from_isize x ≡ ok ind
      → (k : ℕ) → k ≤ copy_len chars m ind
      → segment (i * new_slot) k r ≡ segment (i * old_slot) k old

module _ ⦃s : OdbcSys⦄ (chars : ℕ → ℕ) (old_slot new_slot m : ℕ) (ho : m ≤ old_slot)
    (hn : m ≤ new_slot) where
  step-AreCopied :
      (n : ℕ) (x : ℤ) (inds : List ℤ) (ind : Indicator) (old row r : List ℕ)
      → from_isize x ≡ ok ind
      → length row ≡ new_slot
      → ((k : ℕ) → k ≤ copy_len chars m ind → take k row ≡ take k old)
      → AreCopied chars old_slot new_slot m n inds (drop old_slot old) r
      → AreCopied chars old_slot new_slot m (suc n) (x ∷ inds) old (row ++ r)
  step-AreCopied n x inds ind old row r ex len first rest zero y ind' lt ey e k hk =
      ap (λ z. segment z k (row ++ r)) (zero_mul new_slot)
      ∙ take-append_le k row r (omega (arith, len, hk, copy_len-le chars m ind', hn))
      ∙ first k (rw same at hk)
      ∙ ap (λ z. segment z k old) (sym (zero_mul old_slot))
    where
      zero_mul : (n : ℕ) → 0 * n ≡ 0
      zero_mul n = omega arith

      same : ind' ≡ ind
      same = cc
  step-AreCopied n x inds ind old row r ex len first rest (suc i) y ind' lt ey e k hk =
      ap (take k) (new_side ∙ drop_rest)
      ∙ rest i y ind' (omega (arith, lt)) ey e k hk
      ∙ ap (take k) old_side
    where
      new_side : drop (suc i * new_slot) (row ++ r) ≡ drop (i * new_slot) (drop new_slot (row ++ r))
      new_side =
          ap (λ n. drop n (row ++ r)) (grind arith)
          ∙ sym (drop-drop (i * new_slot) new_slot (row ++ r))

      drop_rest : drop (i * new_slot) (drop new_slot (row ++ r)) ≡ drop (i * new_slot) r
      drop_rest = ap (drop (i * new_slot)) (drop-append row r new_slot (sym len))

      old_side : drop (i * old_slot) (drop old_slot old) ≡ drop (suc i * old_slot) old
      old_side = drop-drop (i * old_slot) old_slot old ∙ ap (λ n. drop n old) (grind arith)

  first_row :
      (n : ℕ) (x : ℤ) (inds : List ℤ) (ind : Indicator) (old new r : List ℕ)
      → from_isize x ≡ ok ind
      → old_slot ≤ length old
      → new_slot ≤ length new
      → copy_rows chars old_slot new_slot m n inds (drop old_slot old) (drop new_slot new) ≡ ok r
      → length r ≡ length (drop new_slot new)
      → AreCopied chars old_slot new_slot m n inds (drop old_slot old) r
      → (r' : List ℕ) × (copy_rows chars old_slot new_slot m (suc n) (x ∷ inds) old new ≡ ok r')
        × (length r' ≡ length new)
        × AreCopied chars old_slot new_slot m (suc n) (x ∷ inds) old r'
  unfolding copy_rows
  first_row n x inds ind old new r ex fo fn er lr copied = (
    row ++ r,
    rw (
      not_short old_slot old fo,
      not_short new_slot new fn,
      ex,
      copy_row_lem chars m (take old_slot old) (take new_slot new) lo ln ind,
      er,
    ),
    omega (arith, length-append row r, len, lr, length-drop new_slot new),
    step-AreCopied n x inds ind old row r ex len first copied,
  )
    where
      not_short : (k : ℕ) (v : List ℕ) → k ≤ length v → ltb (length v) k ≡ false
      not_short k v h = ground arith

      lo : m ≤ length (take old_slot old)
      lo = omega (arith, length-take old_slot old)

      ln : m ≤ length (take new_slot new)
      ln = omega (arith, length-take new_slot new)

      row : List ℕ
      row = overwrite (take new_slot new) 0 (take (copy_len chars m ind) (take old_slot old))

      len : length row ≡ new_slot
      len =
          length-overwrite (take new_slot new) 0 (take (copy_len chars m ind) (take old_slot old))
          ∙ omega (arith, length-take new_slot new)

      first : (k : ℕ) → k ≤ copy_len chars m ind → take k row ≡ take k old
      first k hk =
          take-overwrite-take k (copy_len chars m ind) (take old_slot old) (take new_slot new) hk
            (omega (arith, copy_len-le chars m ind, lo))
            (omega (arith, copy_len-le chars m ind, ln))
          ∙ take-take k old_slot old (omega (arith, copy_len-le chars m ind))

  pub copy_rows_lem :
      (n : ℕ) (inds : List ℤ) (old new : List ℕ)
      → length old ≡ old_slot * length inds
      → length new ≡ new_slot * length inds
      → AreReadable n inds
      → (r : List ℕ) × (copy_rows chars old_slot new_slot m n inds old new ≡ ok r)
        × (length r ≡ length new)
        × AreCopied chars old_slot new_slot m n inds old r
  unfolding copy_rows
  copy_rows_lem zero inds old new lo ln readable =
      (new, refl, refl, λ i x ind lt. absurd (omega (arith, lt)))
  copy_rows_lem (suc n) [] old new lo ln readable = (new, refl, refl, λ i x ind lt e. cc)
  copy_rows_lem (suc n) (x ∷ inds) old new lo ln ((ind, ex), readable) =
      let lo' : old_slot + old_slot * length inds ≡ length old = grind arith in
      let ln' : new_slot + new_slot * length inds ≡ length new = grind arith in
      let (r, er, lr, copied) =
        copy_rows_lem n inds (drop old_slot old) (drop new_slot new)
          (omega (arith, length-drop old_slot old, lo'))
          (omega (arith, length-drop new_slot new, ln')) readable in
      first_row n x inds ind old new r ex (omega (arith, lo')) (omega (arith, ln')) er lr copied
