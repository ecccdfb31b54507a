-- ===== src/Blob/Reader.antt =====
-- A buffered reader hands out all of its contents.
use odbc_api.Common.{
  ℕ, suc, ◌==◌, false, ◌<◌, ◌≡◌, ◌⊎◌, inl, inr, refl, ap, sym, ◌∙◌, List, [], ◌∷◌, ◌++◌, length,
  drop, arith,
}
use odbc_api.Blob.{Batch}
use odbc_api.Blob.Read.{Filled, BufRead, BlobRead, Reads, read_batch, read_next_batch, read_blob}
use odbc_api.Blob.Source.{Hands, IsHanded}

drop-append : (xs ys : List ℕ) → drop (length xs) (xs ++ ys) ≡ ys
drop-append [] ys = refl
drop-append (x ∷ xs) ys = drop-append xs ys

module _ {R : Type 0} (reader : BufRead R) (reads : Reads reader) where
  -- Nothing is to be consumed, or what the last call has filled.
  abbrev pub IsReady : BlobRead R → Type 0
  IsReady b =
      (b.consume ≡ 0)
      ⊎ ((r : R) × (bytes : List ℕ) × (reader.fill_buf r ≡ (Filled.filled bytes, b.buf_read))
          × (b.consume ≡ length bytes))

  abbrev pub left : BlobRead R → List ℕ
  left b = drop b.consume (reads.contents b.buf_read)

  -- The reader that the next call fills from
  consumed :
      (b : BlobRead R)
      → IsReady b
      → (r : R) × (reads.contents r ≡ left b)
        × (read_next_batch reader b ≡ read_batch b (reader.fill_buf r))
  unfolding read_next_batch
  consumed b (inl e) = (b.buf_read, rw e refl, rw e refl)
  consumed b (inr (r, [], e, n)) = (b.buf_read, rw n refl, rw n refl)
  consumed b (inr (r, x ∷ xs, e, n)) = (
    reader.consume (length (x ∷ xs)) b.buf_read,
    reads.consumes r b.buf_read (x ∷ xs) e ∙ rw n refl,
    (let z : (length (x ∷ xs) == 0) ≡ false = ground arith in rw (n, z)),
  )

  -- What is left of the reader behind a call that fills these bytes
  abbrev behind : BlobRead R → List ℕ → R → BlobRead R
  behind b bytes r' = record b { consume = length bytes; buf_read = r' }

  read_batch_some :
      (b : BlobRead R) (bytes : List ℕ) (r' : R)
      → 0 < length bytes
      → read_batch b (Filled.filled bytes, r') ≡ (Batch.batch bytes, behind b bytes r')
  unfolding read_batch
  read_batch_some b bytes r' h = let z : (length bytes == 0) ≡ false = ground arith in rw z

  -- Bytes that are filled at the end of the contents, and before it
  end_of :
      (b : BlobRead R) (r : R) (bytes rest : List ℕ) (r' : R)
      → read_next_batch reader b ≡ read_batch b (reader.fill_buf r)
      → reader.fill_buf r ≡ (Filled.filled bytes, r')
      → reads.contents r' ≡ bytes ++ rest
      → bytes ++ rest ≡ []
      → (b' : BlobRead R) × (read_next_batch reader b ≡ (Batch.end_of_input, b')) × (left b' ≡ [])
  unfolding read_batch
  end_of b r [] rest r' e f c n = (behind b [] r', e ∙ rw f refl, c ∙ n)
  end_of b r (x ∷ xs) rest r' e f c n =
      absurd (let k : suc (length (xs ++ rest)) ≡ 0 = ap length n in omega (arith, k))

  some_of :
      (bytes rest : List ℕ)
      → (bytes ≡ [] → rest ≡ [])
      → 0 < length (bytes ++ rest)
      → 0 < length bytes
  some_of [] rest eof h =
      absurd (let k : length rest ≡ 0 = ap length (eof refl) in omega (arith, h, k))
  some_of (x ∷ xs) rest eof h = omega arith

  pub read_ends :
      (b : BlobRead R)
      → IsReady b
      → left b ≡ []
      → (b' : BlobRead R) × (read_next_batch reader b ≡ (Batch.end_of_input, b')) × (left b' ≡ [])
  read_ends b ready e =
      let (r, same, called) = consumed b ready in
      let (bytes, rest, r', f, split, kept, eof) = reads.fills r in
      end_of b r bytes rest r' called f (kept ∙ split) (sym split ∙ same ∙ e)

  pub read_hands :
      (b : BlobRead R)
      → IsReady b
      → 0 < length (left b)
      → (bytes : List ℕ) × (b' : BlobRead R) × IsHanded (read_blob reader) IsReady left b bytes b'
  read_hands b ready h =
      let (r, same, called) = consumed b ready in
      let (bytes, rest, r', f, split, kept, eof) = reads.fills r in
      let all : left b ≡ bytes ++ rest = sym same ∙ split in
      let some_bytes : 0 < length bytes = some_of bytes rest eof (rw⁻¹ all h) in
      (
        bytes,
        behind b bytes r',
        record {
          handed = called ∙ rw f (read_batch_some b bytes r' some_bytes);
          split =
              all
              ∙ ap (λ t. bytes ++ t)
                  (sym (drop-append bytes rest)
                    ∙ ap (λ t. drop (length bytes) t) (sym (kept ∙ split)));
          some_bytes = some_bytes;
          still_ready = inr (r, bytes, f, refl);
        },
      )

  abbrev pub read-Hands : Hands (read_blob reader)
  read-Hands = record { Ready = IsReady; left = left; ends = read_ends; hands = read_hands }
