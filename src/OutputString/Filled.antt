-- ===== src/OutputString/Filled.antt =====
-- What is in an output buffer that the driver has filled, and whether it counts as truncated.
use odbc_api.Common.{
  ℕ, zero, suc, ◌+◌, ◌-◌, ◌≤◌, ◌≡◌, refl, List, pos, some, ok, take, length, replicate,
  length-replicate, length-take, sub_usize, sub_usize_lem, add_usize_lem, alloc_ok, le→leb, leb,
  ltb, arith,
}
use odbc_api.Diagnostics.Text.{written, length-written}
use odbc_api.Environment.Texts.{from_slice_truncate}
use odbc_api.Environment.Infos.{first_part, from_slice_truncate_lem}
use odbc_api.OutputString.{OutputStringBuffer, with_buffer_size, buf_len, as_ucstr, is_truncated}

abbrev pub empty_buffer : ℕ → OutputStringBuffer
empty_buffer n = record { buffer = replicate (n + 1) 0; actual_length = pos 0 }

-- The buffer behind a call that was given so much of it: the text is cut off, its whole length told.
abbrev pub filled_by : ℕ → List ℕ → OutputStringBuffer → OutputStringBuffer
filled_by len text osb = record {
  buffer = written len text osb.buffer;
  actual_length = pos (length text);
}

read_written :
    (n : ℕ) (text : List ℕ)
    → from_slice_truncate (written n text (replicate (n + 1) 0))
      ≡ some (first_part (take (n - 1) text))
unfolding from_slice_truncate
read_written zero text = refl
read_written (suc k) text =
    let less : suc k - 1 ≡ k = omega arith in
    rw less (
      from_slice_truncate_lem (take k text) (replicate (suc k + 1) 0)
        (omega (arith, length-take k text, length-replicate {A = ℕ} (suc k + 1) 0)))

-- A buffer for a text of up to `n` characters gives the driver room for `n` characters, one of which
-- is the terminating zero. So behind the call it reads as the first `n - 1` characters, up to a zero
-- in them; but it counts as truncated only if the text has more than `n`. A text of exactly `n`
-- characters loses its last one, and does not count as truncated.
pub output_lem :
    (n : ℕ) (text : List ℕ)
    → n ≤ 32767
    → (osb : OutputStringBuffer) × (with_buffer_size n ≡ ok osb)
      × (buf_len osb ≡ ok n)
      × (as_ucstr (filled_by n text osb) ≡ ok (first_part (take (n - 1) text)))
      × (is_truncated (filled_by n text osb) ≡ ok (ltb n (length text)))
unfolding with_buffer_size buf_len as_ucstr is_truncated
output_lem n text h =
    let size : length (replicate {A = ℕ} (n + 1) 0) ≡ n + 1 = length-replicate {A = ℕ} (n + 1) 0 in
    let room : sub_usize (length (replicate {A = ℕ} (n + 1) 0)) 1 ≡ n =
      rw (size, sub_usize_lem (n + 1) 1 (omega arith) (omega (arith, h))) (omega arith) in
    let same : leb (n + 1) (length text) ≡ ltb n (length text) = ground arith in
    (
      empty_buffer n,
      rw (add_usize_lem n 1 (omega (arith, h)), alloc_ok {A = ℕ} 2 (n + 1) 0 (omega (arith, h))),
      rw (room, le→leb n 32767 h),
      rw (read_written n text),
      rw (length-written n text (replicate {A = ℕ} (n + 1) 0), size, same),
    )
