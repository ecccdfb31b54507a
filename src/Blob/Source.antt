-- ===== src/Blob/Source.antt =====
-- What a source of batches promises to the loop that sends it, and that a slice keeps the promise.
use odbc_api.Common.{ℕ, ◌<◌, ◌≡◌, List, [], ◌++◌, length}
use odbc_api.Blob.{Blob, Batch, slice_blob}
use odbc_api.Blob.Slice.{slice_next_batch_nil, slice_next_batch_lem}

-- A batch that is not empty, and the source behind it
pub record IsHanded {B : Type 0} (blob : Blob B) (Ready : B → Type 0) (left : B → List ℕ) (b : B)
    (bytes : List ℕ) (b' : B) : Type 0 where
  pub handed : blob.next_batch b ≡ (Batch.batch bytes, b')
  pub split : left b ≡ bytes ++ left b'
  pub some_bytes : 0 < length bytes
  pub still_ready : Ready b'

-- As long as bytes are left, the next batch is a beginning of them; then the input ends.
pub record Hands {B : Type 0} (blob : Blob B) : Type 1 where
  pub Ready : B → Type 0
  pub left : B → List ℕ
  pub ends :
      (b : B)
      → Ready b
      → left b ≡ []
      → (b' : B) × (blob.next_batch b ≡ (Batch.end_of_input, b')) × (left b' ≡ [])
  pub hands :
      (b : B)
      → Ready b
      → 0 < length (left b)
      → (bytes : List ℕ) × (b' : B) × IsHanded blob Ready left b bytes b'

abbrev pub slice-Hands : Hands slice_blob
slice-Hands = record {
  Ready = λ b. 0 < b.batch_size;
  left = λ b. b.blob;
  ends = λ b h e. (b, slice_next_batch_nil b e, e);
  hands = λ b h some_left.
      let (bytes, b', p) = slice_next_batch_lem b h some_left in
      (
        bytes,
        b',
        record {
          handed = p.handed;
          split = p.split;
          some_bytes = p.some_bytes;
          still_ready = rw p.same_size h;
        },
      );
}
