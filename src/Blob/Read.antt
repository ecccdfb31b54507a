-- ===== src/Blob/Read.antt =====
-- `BlobRead` of parameter/blob.rs: a large parameter that is read from a buffered reader.
use odbc_api.Common.{
  ℕ, ◌≡◌, List, [], ◌++◌, Bool, true, false, Option, none, some, length, drop, ◌==◌, if◌then◌else◌,
}
use odbc_api.DataType.{DataType}
use odbc_api.Blob.{Blob, Batch}

-- `io::Result<&[u8]>`
pub data Filled : Type 0 where
  filled : List ℕ → Filled
  io_error : ℕ → Filled

-- The trait `BufRead` of the standard library, for a reader with state `R`
pub record BufRead (R : Type 0) : Type 0 where
  pub fill_buf : R → Filled × R
  pub consume : ℕ → R → R

pub record BlobRead (R : Type 0) : Type 0 where
  pub exact : Bool
  pub size : ℕ
  pub consume : ℕ
  pub buf_read : R

module _ {R : Type 0} where
  abbrev pub with_upper_bound : R → ℕ → BlobRead R
  with_upper_bound buf_read upper_bound = record {
    exact = false;
    size = upper_bound;
    consume = 0;
    buf_read = buf_read;
  }

  abbrev pub with_exact_size : R → ℕ → BlobRead R
  with_exact_size buf_read exact_size = record {
    exact = true;
    size = exact_size;
    consume = 0;
    buf_read = buf_read;
  }

  abbrev pub read_size_hint : BlobRead R → Option ℕ
  read_size_hint b = if b.exact then some b.size else none

  -- The batch that has been filled is remembered, to be consumed by the next call. An error leaves
  -- what is to be consumed as it was.
  unfoldable pub read_batch : BlobRead R → Filled × R → Batch × BlobRead R
  read_batch b (Filled.filled batch, r) =
      let b' : BlobRead R = record b { consume = length batch; buf_read = r } in
      if length batch == 0 then (Batch.end_of_input, b') else (Batch.batch batch, b')
  read_batch b (Filled.io_error code, r) = (Batch.io_error code, record b { buf_read = r })

module _ {R : Type 0} (reader : BufRead R) where
  unfoldable pub read_next_batch : BlobRead R → Batch × BlobRead R
  unfolding read_batch
  read_next_batch b =
      let r = if b.consume == 0 then b.buf_read else reader.consume b.consume b.buf_read in
      read_batch b (reader.fill_buf r)

  abbrev pub read_blob : Blob (BlobRead R)
  read_blob = record {
    data_type = λ b. DataType.long_varbinary b.size;
    size_hint = read_size_hint;
    next_batch = read_next_batch;
  }

-- What the standard library documents of a reader that does not fail: a call fills the buffer with
-- a beginning of the contents, which is only empty at their end, and does not consume it. What has
-- been filled can be consumed.
pub record Reads {R : Type 0} (reader : BufRead R) : Type 0 where
  pub contents : R → List ℕ
  pub fills :
      (r : R)
      → (bytes rest : List ℕ) × (r' : R) × (reader.fill_buf r ≡ (Filled.filled bytes, r'))
        × (contents r ≡ bytes ++ rest)
        × (contents r' ≡ contents r)
        × (bytes ≡ [] → rest ≡ [])
  pub consumes :
      (r r' : R) (bytes : List ℕ)
      → reader.fill_buf r ≡ (Filled.filled bytes, r')
      → contents (reader.consume (length bytes) r') ≡ drop (length bytes) (contents r')
