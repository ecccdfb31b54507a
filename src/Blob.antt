-- ===== src/Blob.antt =====
-- parameter/blob.rs: sources of large parameters, which are read batch by batch.
pub mod Slice
pub mod Source
pub mod Read
pub mod Reader
use odbc_api.Common.{
  ℕ, zero, suc, List, [], ◌∷◌, ◌++◌, Bool, true, false, Option, none, some, ok, panic, length, take,
  drop, leb, ltb, if◌then◌else◌, ◌==◌,
}
use odbc_api.Common.Panics.{Run}
use odbc_api.DataType.{DataType}

-- `io::Result<Option<&[u8]>>`
pub data Batch : Type 0 where
  batch : List ℕ → Batch
  end_of_input : Batch
  io_error : ℕ → Batch

-- The trait `Blob`, of a source with state `B`.
pub record Blob (B : Type 0) : Type 0 where
  pub data_type : B → DataType
  pub size_hint : B → Option ℕ
  pub next_batch : B → Batch × B

pub record BlobSlice : Type 0 where
  pub is_binary : Bool
  pub batch_size : ℕ
  pub blob : List ℕ

abbrev pub from_byte_slice : List ℕ → BlobSlice
from_byte_slice blob = record { is_binary = true; batch_size = length blob; blob = blob }

abbrev pub from_text : List ℕ → BlobSlice
from_text text = record { is_binary = false; batch_size = length text; blob = text }

unfoldable pub slice_data_type : BlobSlice → DataType
slice_data_type b =
    if b.is_binary
    then DataType.long_varbinary (length b.blob)
    else DataType.long_varchar (length b.blob)

unfoldable pub slice_next_batch : BlobSlice → Batch × BlobSlice
slice_next_batch b =
    if length b.blob == 0
    then (Batch.end_of_input, b)
    else if leb b.batch_size (length b.blob)
    then (Batch.batch (take b.batch_size b.blob), record b { blob = drop b.batch_size b.blob })
    else (Batch.batch b.blob, record b { blob = [] })

abbrev pub slice_blob : Blob BlobSlice
slice_blob = record {
  data_type = slice_data_type;
  size_hint = λ b. some (length b.blob);
  next_batch = slice_next_batch;
}
