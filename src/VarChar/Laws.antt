-- ===== src/VarChar/Laws.antt =====
-- What a text parameter reads as, by how it was made.
use odbc_api.Common.{
  ◌⊎◌, length-replicate, ℕ, ◌-◌, ◌≤◌, ◌<◌, ◌≡◌, refl, ap, ◌∙◌, List, [], ◌∷◌, ◌++◌, none, some, pos,
  true, false, not, ok, ◌>>=◌, slice, sub_usize_lem, length, take, replicate, ltb, if◌then◌else◌,
  isize_max, arith, take-length, take_append, length-append, length-take, slice_ok, to_isize_ok,
  Bool-cases, inl, inr, ◌==◌,
}
use native.Mathlib.Decide.{dec_lt}
use mathlib.Core.List.{append-nil}
use odbc_api.Indicator.{OdbcSys, Indicator, into_isize}
use odbc_api.Indicator.Laws.{from_isize-pos}
use odbc_api.VarChar.{
  last, lacks_zero, is_accepted, from_buffer, from_vec, completes, bytes_of, as_bytes, filled, new,
}

last-snoc : (xs : List ℕ) (c : ℕ) → last (xs ++ c ∷ []) ≡ some c
last-snoc [] c = refl
last-snoc (x ∷ []) c = refl
last-snoc (x ∷ y ∷ xs) c = last-snoc (y ∷ xs) c

lacks_zero-snoc : (xs : List ℕ) → lacks_zero (xs ++ 0 ∷ []) ≡ false
unfolding lacks_zero
lacks_zero-snoc xs = ap (λ o. elim o [ none ↦ true | some c ↦ not (c == 0) ]) (last-snoc xs 0)

lacks_zero-nil : lacks_zero [] ≡ true
unfolding lacks_zero
lacks_zero-nil = refl

pub slice_start : (xs : List ℕ) (n : ℕ) → n ≤ length xs → slice xs 0 n ≡ ok (take n xs)
slice_start xs n h = slice_ok xs 0 n n (omega arith) (omega (arith, h))

not_shorter : (m n : ℕ) → n ≤ m → ltb m n ≡ false
not_shorter m n h = ground arith

shorter : (m n : ℕ) → m < n → ltb m n ≡ true
shorter m n h = ground arith

-- The end of `slice.len() - 1` is in range where the buffer ends with a zero.
pub nonempty : (buf : List ℕ) → lacks_zero buf ≡ false → 1 ≤ length buf
nonempty [] h = cc (lacks_zero-nil)
nonempty (x ∷ buf) h = omega arith

-- A value of `n` bytes behind which there is room, or which fills a buffer that does not end with zero.
pub completes_lem :
    (buf : List ℕ) (n : ℕ)
    → (n < length buf) ⊎ (lacks_zero buf ≡ true)
    → completes buf (Indicator.length n) ≡ true
unfolding completes
completes_lem buf n (inl h) = rw (shorter n (length buf) h)
completes_lem buf n (inr e) = elim (Bool-cases (ltb n (length buf))) [
  | inl c ↦ rw c
  | inr c ↦ rw (c, e)
]

truncates_lem :
    (buf : List ℕ) (n : ℕ)
    → length buf ≤ n
    → lacks_zero buf ≡ false
    → completes buf (Indicator.length n) ≡ false
unfolding completes
truncates_lem buf n h e = rw (not_shorter n (length buf) h, e)

module _ ⦃s : OdbcSys⦄ (buf : List ℕ) (n : ℕ) where
  pub reads_whole :
      completes buf (Indicator.length n) ≡ true
      → n ≤ length buf
      → as_bytes (record { buffer = buf; indicator = pos n }) ≡ ok (some (take n buf))
  unfolding as_bytes bytes_of
  reads_whole c h = rw (from_isize-pos n, c, slice_start buf n h)

  reads_cut :
      completes buf (Indicator.length n) ≡ false
      → lacks_zero buf ≡ false
      → length buf ≤ isize_max
      → as_bytes (record { buffer = buf; indicator = pos n })
        ≡ ok (some (take (length buf - 1) buf))
  unfolding as_bytes bytes_of
  reads_cut c z h = rw (
    from_isize-pos n,
    c,
    sub_usize_lem (length buf) 1 (omega (arith, h)) (nonempty buf z),
    slice_start buf (length buf - 1) (omega arith),
  )

module _ ⦃s : OdbcSys⦄ where
  from_vec_lem :
      (val : List ℕ)
      → length val ≤ isize_max
      → from_vec val ≡ ok (record { buffer = val; indicator = pos (length val) })
  unfolding from_vec from_buffer is_accepted into_isize
  from_vec_lem val h =
      rw (not_shorter (length val) (length val) (omega arith), to_isize_ok (length val) h)

  -- A `VarCharBox` or `VarCharSlice` made from a value reads as the value, where it does not end
  -- with a zero. One that does reads as a truncated value, without its last byte.
  pub as_bytes-from_vec :
      (val : List ℕ)
      → length val ≤ isize_max
      → (from_vec val >>= as_bytes)
        ≡ ok (some (if lacks_zero val then val else take (length val - 1) val))
  as_bytes-from_vec val h = elim (Bool-cases (lacks_zero val)) [
    | inl e ↦
        rw (from_vec_lem val h, e)
          (reads_whole val (length val) (completes_lem val (length val) (inr e)) (omega arith)
            ∙ ap (λ t. ok (some t)) (take-length val))
    | inr e ↦
        rw (from_vec_lem val h, e)
          (reads_cut val (length val) (truncates_lem val (length val) (omega arith) e) e h)
  ]

  -- `VarCharArray::new`, where the array has a byte for the terminating zero.
  new_long :
      (len : ℕ) (text : List ℕ)
      → 1 ≤ len
      → len < length text
      → length text ≤ isize_max
      → new len text
        ≡ ok (record { buffer = take (len - 1) text ++ 0 ∷ []; indicator = pos (length text) })
  unfolding new filled
  new_long len text h1 lt ht =
      let some_bytes : (len == 0) ≡ false = ground arith in
      rw (
        to_isize_ok (length text) ht,
        shorter len (length text) lt,
        some_bytes,
        sub_usize_lem len 1 (omega (arith, lt, ht)) h1,
      )

  new_short :
      (len : ℕ) (text : List ℕ)
      → length text ≤ len
      → len ≤ isize_max
      → new len text
        ≡ ok (record {
          buffer = text ++ replicate (len - length text) 0;
          indicator = pos (length text);
        })
  unfolding new filled
  new_short len text le hl = rw (
    to_isize_ok (length text) (omega (arith, le, hl)),
    not_shorter len (length text) le,
    sub_usize_lem len (length text) (omega (arith, hl)) le,
  )

  -- A `VarCharArray` of `len` bytes, at least one, reads as the text it was made from, which does not
  -- end with a zero; of a text longer than the array it keeps the first `len - 1` bytes.
  pub as_bytes-new :
      (len : ℕ) (text : List ℕ)
      → 1 ≤ len
      → len ≤ isize_max
      → length text ≤ isize_max
      → lacks_zero text ≡ true
      → (new len text >>= as_bytes)
        ≡ ok (some (if ltb len (length text) then take (len - 1) text else text))
  as_bytes-new len text h1 hl ht e = elim (dec_lt len (length text)) [
    | yes lt ↦
        let buf : List ℕ = take (len - 1) text ++ 0 ∷ [] in
        let head_len : length (take (len - 1) text) ≡ len - 1 =
          omega (arith, length-take (len - 1) text, lt) in
        let buf_len : length buf ≡ len =
          omega (arith, length-append (take (len - 1) text) (0 ∷ []), head_len, h1) in
        rw (new_long len text h1 lt ht, shorter len (length text) lt)
          (reads_cut buf (length text)
              (truncates_lem buf (length text) (omega (arith, buf_len, lt))
                (lacks_zero-snoc (take (len - 1) text)))
              (lacks_zero-snoc (take (len - 1) text)) (omega (arith, buf_len, hl))
            ∙ ap (λ t. ok (some t))
                (ap (λ k. take k buf)
                    (let k : length buf - 1 ≡ length (take (len - 1) text) =
                        omega (arith, buf_len, head_len) in
                      k)
                  ∙ take_append (take (len - 1) text) (0 ∷ [])))
    | no ge ↦
        let le : length text ≤ len = omega (arith, ge) in
        let buf : List ℕ = text ++ replicate (len - length text) 0 in
        rw (new_short len text le hl, not_shorter len (length text) le)
          (reads_whole buf (length text) (fits_whole len text le e)
              (omega (arith, length-append text (replicate (len - length text) 0)))
            ∙ ap (λ t. ok (some t)) (take_append text (replicate (len - length text) 0)))
  ]
    where
      fits_whole :
          (len : ℕ) (text : List ℕ)
          → length text ≤ len
          → lacks_zero text ≡ true
          → completes (text ++ replicate (len - length text) 0) (Indicator.length (length text))
            ≡ true
      fits_whole len text le e = elim (dec_lt (length text) len) [
        | yes lt ↦ completes_lem _ (length text) (
            inl (
              omega (
                arith,
                lt,
                length-append text (replicate (len - length text) 0),
                length-replicate {A = ℕ} (len - length text) 0,
              )))
        | no ge ↦
            let none_left : len - length text ≡ 0 = omega (arith, ge, le) in
            completes_lem _ (length text) (inr (rw none_left (rw (append-nil text) e)))
      ]
