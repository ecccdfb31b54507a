-- ===== src/VarBinary/Laws.antt =====
-- What a binary parameter reads as, and what `hide_truncation` does to it.
use odbc_api.Common.{
  ℕ, ◌≤◌, ◌≡◌, inl, inr, refl, ap, sym, ◌∙◌, List, some, pos, Bool, true, false, ok, length, le→leb,
  isize_max, arith, take-length, slice_ok, to_isize_ok, Bool-cases,
}
use odbc_api.Indicator.{OdbcSys, Indicator, from_isize}
use odbc_api.Indicator.Laws.{from_isize-pos}
use odbc_api.VarBinary.{VarBinary, completes, is_complete, bytes_of, as_bytes, hide_truncation}

module _ ⦃s : OdbcSys⦄ where
  full_completes : (buf : List ℕ) → completes buf (Indicator.length (length buf)) ≡ true
  unfolding completes
  full_completes buf = le→leb (length buf) (length buf) (omega arith)

  -- A parameter that fills its buffer
  full :
      (buf : List ℕ)
      → as_bytes (record { buffer = buf; indicator = pos (length buf) }) ≡ ok (some buf)
  unfolding as_bytes bytes_of
  full buf =
      rw
        (
          from_isize-pos (length buf),
          slice_ok buf 0 (length buf) (length buf) (omega arith) (omega arith),
          full_completes buf,
        )
        (ap (λ t. ok (some t)) (take-length buf))

  incomplete_bytes :
      (buf : List ℕ) (ind : Indicator)
      → completes buf ind ≡ false
      → bytes_of buf ind ≡ ok (some buf)
  unfolding bytes_of completes
  incomplete_bytes buf Indicator.null e = cc
  incomplete_bytes buf Indicator.no_total e = refl
  incomplete_bytes buf (Indicator.length n) e = rw e

  full_is_complete :
      (buf : List ℕ) → is_complete (record { buffer = buf; indicator = pos (length buf) }) ≡ ok true
  unfolding is_complete completes
  full_is_complete buf =
      rw (from_isize-pos (length buf), le→leb (length buf) (length buf) (omega arith))

  module _ (v : VarBinary) (ind : Indicator) (e : from_isize v.indicator ≡ ok ind) where
    is_complete_by : (b : Bool) → completes v.buffer ind ≡ b → is_complete v ≡ ok b
    unfolding is_complete
    is_complete_by b c = rw (e, c)

    as_bytes_by : as_bytes v ≡ bytes_of v.buffer ind
    unfolding as_bytes
    as_bytes_by = rw e

  -- `hide_truncation` of a parameter whose indicator is such as ODBC allows, over a buffer that fits
  -- a `Vec`: afterwards the parameter is complete, and reads as the same bytes as before.
  pub hide_truncation_lem :
      (v : VarBinary) (ind : Indicator)
      → from_isize v.indicator ≡ ok ind
      → length v.buffer ≤ isize_max
      → (v' : VarBinary) × (hide_truncation v ≡ ok v')
        × (is_complete v' ≡ ok true)
        × (as_bytes v' ≡ as_bytes v)
  unfolding hide_truncation
  hide_truncation_lem v ind e h = elim (Bool-cases (completes v.buffer ind)) [
    | inl c ↦ (v, rw (is_complete_by v ind e true c), is_complete_by v ind e true c, refl)
    | inr c ↦ (
      record { buffer = v.buffer; indicator = pos (length v.buffer) },
      rw (is_complete_by v ind e false c, to_isize_ok (length v.buffer) h),
      full_is_complete v.buffer,
      full v.buffer ∙ sym (as_bytes_by v ind e ∙ incomplete_bytes v.buffer ind c),
    )
  ]
