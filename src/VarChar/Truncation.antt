-- ===== src/VarChar/Truncation.antt =====
-- What `hide_truncation` does to a text parameter.
use odbc_api.Common.{
  ℕ, ◌-◌, ◌≤◌, ◌≡◌, inl, inr, refl, ap, not, sym, ◌∙◌, List, some, pos, Bool, true, false, ok,
  length, take, sub_usize_lem, isize_max, arith, to_isize_ok, Bool-cases,
}
use odbc_api.Indicator.{OdbcSys, Indicator, from_isize}
use odbc_api.Indicator.Laws.{from_isize-pos}
use odbc_api.VarChar.{
  VarChar, lacks_zero, is_accepted, completes, is_complete, bytes_of, as_bytes, hide_truncation,
}
use odbc_api.VarChar.Laws.{completes_lem, nonempty, slice_start, reads_whole}

-- A truncated value ends with a zero.
truncated_ends :
    (buf : List ℕ) (ind : Indicator)
    → is_accepted buf ind ≡ true
    → completes buf ind ≡ false
    → lacks_zero buf ≡ false
unfolding is_accepted completes
truncated_ends buf ind a c = elim (Bool-cases (lacks_zero buf)) [
  | inr e ↦ e
  | inl e ↦ absurd (excluded ind a c e)
]
  where
    excluded :
        (ind : Indicator)
        → is_accepted buf ind ≡ true
        → completes buf ind ≡ false
        → lacks_zero buf ≡ true
        → ⊥
    excluded Indicator.null a c e = cc
    excluded Indicator.no_total a c e = cc (ap not e)
    excluded (Indicator.length n) a c e = cc (completes_lem buf n (inr e))

-- What a truncated value reads as
truncated_bytes :
    (buf : List ℕ) (ind : Indicator)
    → completes buf ind ≡ false
    → lacks_zero buf ≡ false
    → length buf ≤ isize_max
    → bytes_of buf ind ≡ ok (some (take (length buf - 1) buf))
unfolding bytes_of completes
truncated_bytes buf Indicator.null c e h = cc
truncated_bytes buf Indicator.no_total c e h = rw (
  sub_usize_lem (length buf) 1 (omega (arith, h)) (nonempty buf e),
  slice_start buf (length buf - 1) (omega arith),
)
truncated_bytes buf (Indicator.length n) c e h = rw (
  c,
  sub_usize_lem (length buf) 1 (omega (arith, h)) (nonempty buf e),
  slice_start buf (length buf - 1) (omega arith),
)

module _ ⦃s : OdbcSys⦄ (v : VarChar) (ind : Indicator) (e : from_isize v.indicator ≡ ok ind) where
  is_complete_by : (b : Bool) → completes v.buffer ind ≡ b → is_complete v ≡ ok b
  unfolding is_complete
  is_complete_by b c = rw (e, c)

  as_bytes_by : as_bytes v ≡ bytes_of v.buffer ind
  unfolding as_bytes
  as_bytes_by = rw e

  -- `hide_truncation` of a parameter whose indicator is such as ODBC allows, over a buffer that fits
  -- a `Vec` and that `from_buffer` accepts with this indicator: afterwards the parameter is complete,
  -- and reads as the same bytes as before.
  pub hide_truncation-keeps :
      is_accepted v.buffer ind ≡ true
      → length v.buffer ≤ isize_max
      → (v' : VarChar) × (hide_truncation v ≡ ok v')
        × (is_complete v' ≡ ok true)
        × (as_bytes v' ≡ as_bytes v)
  unfolding hide_truncation
  hide_truncation-keeps a h = elim (Bool-cases (completes v.buffer ind)) [
    | inl c ↦ (v, rw (is_complete_by true c), is_complete_by true c, refl)
    | inr c ↦
        let z : lacks_zero v.buffer ≡ false = truncated_ends v.buffer ind a c in
        let one : 1 ≤ length v.buffer = nonempty v.buffer z in
        let whole : completes v.buffer (Indicator.length (length v.buffer - 1)) ≡ true =
          completes_lem v.buffer (length v.buffer - 1) (inl (omega (arith, one))) in
        (
          record { buffer = v.buffer; indicator = pos (length v.buffer - 1) },
          rw (
            is_complete_by false c,
            sub_usize_lem (length v.buffer) 1 (omega (arith, h)) one,
            to_isize_ok (length v.buffer - 1) (omega (arith, h)),
          ),
          hidden_is_complete whole,
          reads_whole v.buffer (length v.buffer - 1) whole (omega arith)
              ∙ sym (as_bytes_by ∙ truncated_bytes v.buffer ind c z h),
        )
  ]
    where
      hidden_is_complete :
          completes v.buffer (Indicator.length (length v.buffer - 1)) ≡ true
          → is_complete (record { buffer = v.buffer; indicator = pos (length v.buffer - 1) })
            ≡ ok true
      hidden_is_complete whole = rw (from_isize-pos (length v.buffer - 1), whole)
