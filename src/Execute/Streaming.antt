-- ===== src/Execute/Streaming.antt =====
-- Delayed input reaches the driver whole and in order.
use odbc_api.Common.{
  ℕ, zero, suc, ◌+◌, ◌<◌, ◌≡◌, refl, ap, sym, ◌∙◌, List, [], ◌∷◌, ◌++◌, ok, panic, length,
  length-append, drop, arith, Bool, false, ◌⊎◌, inl, inr,
}
use mathlib.Core.List.{append_assoc, append-nil}
use odbc_api.Sql.{SqlReturn, Result, into_sql_result, into_result, map_result}
use odbc_api.Statement.{Call, Driver, checked, put_binary_batch, ◌>>=◌}
use odbc_api.Blob.{Blob, Batch, BlobSlice, slice_blob}
use odbc_api.Blob.Source.{Hands, slice-Hands}
use odbc_api.Blob.Read.{BufRead, BlobRead, Reads, with_upper_bound, read_blob}
use odbc_api.Blob.Reader.{read-Hands}
use odbc_api.Blob.Slice.{slice_next_batch_zero}
use odbc_api.Execute.{put_batches, put_next}

-- SQLPutData, as documented: called several times, it adds each piece of data to the value that it
-- builds for the current parameter.
pub record Receives {S : Type 0} (d : Driver S) : Type 0 where
  pub received : S → List ℕ
  pub put_succeeds : (bytes : List ℕ) (s : S) → (d.sql_put_data bytes s).0 ≡ SqlReturn.success
  pub put_appends :
      (bytes : List ℕ) (s : S) → received (d.sql_put_data bytes s).1 ≡ received s ++ bytes

List-cases {ℓ} : {A : Type ℓ} (xs : List A) → (xs ≡ []) ⊎ ((x : A) × (ys : List A) × (xs ≡ x ∷ ys))
List-cases [] = inl refl
List-cases (x ∷ xs) = inr (x, xs, refl)

module _ {S B : Type 0} (d : Driver S) (blob : Blob B) where
  no_batch :
      (fuel : ℕ) (b b' : B) (s : S)
      → blob.next_batch b ≡ (Batch.end_of_input, b')
      → put_batches d blob (suc fuel) b s ≡ ok (Result.done b', s)
  unfolding put_batches
  no_batch fuel b b' s e = ap (λ n. put_next d blob (put_batches d blob fuel) n s) e

  one_batch :
      (fuel : ℕ) (b : B) (bytes : List ℕ) (b₁ : B) (s s₁ : S)
      → blob.next_batch b ≡ (Batch.batch bytes, b₁)
      → checked d (put_binary_batch d bytes) s ≡ ok (Result.done false, s₁)
      → put_batches d blob (suc fuel) b s ≡ put_batches d blob fuel b₁ s₁
  unfolding put_batches
  one_batch fuel b bytes b₁ s s₁ e e₁ =
      ap (λ n. put_next d blob (put_batches d blob fuel) n s) e ∙ rw (e₁, ◌>>=◌)

module _ {S : Type 0} (d : Driver S) (r : Receives d) where
  put_ok :
      (bytes : List ℕ) (s : S)
      → 0 < length bytes
      → (s' : S) × (checked d (put_binary_batch d bytes) s ≡ ok (Result.done false, s'))
        × (r.received s' ≡ r.received s ++ bytes)
  unfolding put_binary_batch into_sql_result into_result map_result
  put_ok [] s h = absurd (omega (arith, h))
  put_ok (x ∷ bytes) s h = (
    (d.sql_put_data (x ∷ bytes) s).1,
    rw (r.put_succeeds (x ∷ bytes) s),
    r.put_appends (x ∷ bytes) s,
  )

  put_all :
      {B : Type 0} {blob : Blob B} (h : Hands blob) (fuel : ℕ) (b : B) (s : S)
      → h.Ready b
      → length (h.left b) < fuel
      → (b' : B) × (s' : S) × (put_batches d blob fuel b s ≡ ok (Result.done b', s'))
        × (h.left b' ≡ [])
        × (r.received s' ≡ r.received s ++ h.left b)
  put_all h zero b s ready enough = absurd (omega arith)
  put_all {blob = blob} h (suc fuel) b s ready enough = elim (List-cases (h.left b)) [
    | inl e ↦
        let (b', last, empty) = h.ends b ready e in
        (
          b',
          s,
          no_batch d blob fuel b b' s last,
          empty,
          sym (append-nil (r.received s)) ∙ ap (λ t. r.received s ++ t) (sym e),
        )
    | inr (x, xs, e) ↦
        let (bytes, b₁, p) = h.hands b ready (rw e (omega arith)) in
        let (s₁, e₁, q₁) = put_ok bytes s p.some_bytes in
        let shorter : length bytes + length (h.left b₁) ≡ length (h.left b) =
          sym (length-append bytes (h.left b₁)) ∙ ap length (sym p.split) in
        let (b₂, s₂, e₂, empty, q₂) =
          put_all h fuel b₁ s₁ p.still_ready (omega (arith, shorter, p.some_bytes, enough)) in
        (
          b₂,
          s₂,
          one_batch d blob fuel b bytes b₁ s s₁ p.handed e₁ ∙ e₂,
          empty,
          q₂
              ∙ ap (λ t. t ++ h.left b₁) q₁
              ∙ append_assoc (r.received s) bytes (h.left b₁)
              ∙ ap (λ t. r.received s ++ t) (sym p.split),
        )
  ]

  -- To a driver that takes each batch and adds it to what it has received, the loop sends a slice
  -- whole: with batches that are not empty, and fuel for more rounds than the slice has bytes, it
  -- ends without an error, nothing of the slice is left, and the driver has received its bytes in
  -- order behind what it had received before.
  pub put_batches_lem :
      (fuel : ℕ) (b : BlobSlice) (s : S)
      → 0 < b.batch_size
      → length b.blob < fuel
      → (b' : BlobSlice) × (s' : S) × (put_batches d slice_blob fuel b s ≡ ok (Result.done b', s'))
        × (b'.blob ≡ [])
        × (r.received s' ≡ r.received s ++ b.blob)
  put_batches_lem fuel b s hs h = put_all slice-Hands fuel b s hs h

  -- A `BlobRead` over a reader that does not fail, however its buffer is filled, is sent whole too:
  -- with fuel for more rounds than the reader has bytes, the loop ends without an error, everything
  -- of the reader has been read, and the driver has received its contents in order behind what it
  -- had received before, also where they are more or fewer than the upper bound.
  pub put_batches-read_blob :
      {R : Type 0} (reader : BufRead R) (reads : Reads reader) (fuel : ℕ) (buf_read : R)
      (upper_bound : ℕ) (s : S)
      → length (reads.contents buf_read) < fuel
      → (b' : BlobRead R) × (s' : S) × (put_batches d
            (read_blob reader)
            fuel
            (with_upper_bound buf_read upper_bound)
            s
          ≡ ok (Result.done b', s'))
        × (drop b'.consume (reads.contents b'.buf_read) ≡ [])
        × (r.received s' ≡ r.received s ++ reads.contents buf_read)
  put_batches-read_blob reader reads fuel buf_read upper_bound s h =
      put_all (read-Hands reader reads) fuel (with_upper_bound buf_read upper_bound) s (inl refl) h

module _ {S : Type 0} (d : Driver S) where
  -- A slice that is to be sent in batches of no bytes is not sent: the first batch that it hands
  -- out is empty, and the statement panics at it, whatever would be done behind it. So does the
  -- loop, in its first round.
  pub put_batches_zero :
      (fuel : ℕ) (is_binary : Bool) (x : ℕ) (xs : List ℕ) (s : S)
      → let b : BlobSlice = record { is_binary = is_binary; batch_size = 0; blob = x ∷ xs } in
        (slice_blob.next_batch b ≡ (Batch.batch [], b))
        × ((again : BlobSlice → Call S (Result BlobSlice))
            → put_next d slice_blob again (slice_blob.next_batch b) s ≡ panic)
        × (put_batches d slice_blob (suc fuel) b s ≡ panic)
  unfolding put_batches put_next put_binary_batch
  put_batches_zero fuel is_binary x xs s = (
    slice_next_batch_zero is_binary x xs,
    λ again. ap (λ n. put_next d slice_blob again n s) (slice_next_batch_zero is_binary x xs),
    ap (λ n. put_next d slice_blob (put_batches d slice_blob fuel) n s)
        (slice_next_batch_zero is_binary x xs),
  )
