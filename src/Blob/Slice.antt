-- ===== src/Blob/Slice.antt =====
-- What one call of `BlobSlice::next_batch` hands out, and what it leaves for the next.
use odbc_api.Common.{
  ℕ, ◌<◌, ◌≡◌, refl, ap, sym, List, [], ◌∷◌, ◌++◌, Bool, length, take, drop, take-append-drop,
  length-drop, length-take, arith,
}
use native.Mathlib.Decide.{dec_le}
use odbc_api.Blob.{Batch, BlobSlice, slice_next_batch}

-- A batch that is followed by the slice `rest`: it is not empty, and the two make up the slice.
pub record IsNext (b : BlobSlice) (bytes : List ℕ) (b' : BlobSlice) : Type 0 where
  pub handed : slice_next_batch b ≡ (Batch.batch bytes, b')
  pub split : b.blob ≡ bytes ++ b'.blob
  pub some_bytes : 0 < length bytes
  pub same_size : b'.batch_size ≡ b.batch_size
  pub shorter : length b'.blob < length b.blob

pub slice_next_batch_nil :
    (b : BlobSlice) → b.blob ≡ [] → slice_next_batch b ≡ (Batch.end_of_input, b)
unfolding slice_next_batch
slice_next_batch_nil b e = let z : length b.blob ≡ 0 = ap length e in ground arith

append-nil : (xs : List ℕ) → xs ≡ xs ++ []
append-nil [] = refl
append-nil (x ∷ xs) = ap (λ t. x ∷ t) (append-nil xs)

pub slice_next_batch_lem :
    (b : BlobSlice)
    → 0 < b.batch_size
    → 0 < length b.blob
    → (bytes : List ℕ) × (b' : BlobSlice) × IsNext b bytes b'
unfolding slice_next_batch
slice_next_batch_lem b hs hb = elim (dec_le b.batch_size (length b.blob)) [
  | yes h ↦ (
    take b.batch_size b.blob,
    record b { blob = drop b.batch_size b.blob },
    record {
      handed = ground arith;
      split = sym (take-append-drop b.batch_size b.blob);
      some_bytes = omega (arith, length-take b.batch_size b.blob);
      same_size = refl;
      shorter = omega (arith, length-drop b.batch_size b.blob);
    },
  )
  | no h ↦ (
    b.blob,
    record b { blob = [] },
    record {
      handed = ground arith;
      split = append-nil b.blob;
      some_bytes = hb;
      same_size = refl;
      shorter = hb;
    },
  )
]

pub slice_next_batch_zero :
    (is_binary : Bool) (x : ℕ) (xs : List ℕ)
    → let b : BlobSlice = record { is_binary = is_binary; batch_size = 0; blob = x ∷ xs } in
      slice_next_batch b ≡ (Batch.batch [], b)
unfolding slice_next_batch
slice_next_batch_zero is_binary x xs = ground arith
