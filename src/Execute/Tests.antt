-- ===== src/Execute/Tests.antt =====
-- A driver that collects what it is sent: the theorems on sending a slice are applied to it.
use odbc_api.Common.{
  ℕ, ◌≡◌, refl, sym, pos, List, [], ◌∷◌, ◌++◌, true, false, none, ok, panic, take, drop,
  take-append-drop, arith,
}
use odbc_api.Sql.{SqlReturn, Result}
use odbc_api.Statement.{Driver, Call}
use odbc_api.Blob.{Batch, BlobSlice, slice_blob}
use odbc_api.Execute.{put_batches, put_next}
use odbc_api.Execute.Streaming.{Receives, put_batches_lem, put_batches_zero, put_batches-read_blob}
use odbc_api.Blob.Read.{Filled, BufRead, BlobRead, Reads, with_upper_bound, read_blob}

abbrev driver : Driver (List ℕ)
driver = record {
  sql_exec_direct = λ text s. (SqlReturn.success, s);
  sql_execute = λ s. (SqlReturn.success, s);
  sql_param_data = λ s. (SqlReturn.success, 0, s);
  sql_put_data = λ bytes s. (SqlReturn.success, s ++ bytes);
  sql_num_result_cols = λ s. (SqlReturn.success, pos 0);
  sql_set_stmt_attr = λ attribute value s. (SqlReturn.success, s);
  sql_free_stmt = λ option s. (SqlReturn.success, s);
  sql_close_cursor = λ s. (SqlReturn.success, s);
  sql_fetch = λ s. (SqlReturn.success, s);
  sql_get_data = λ col target s. (SqlReturn.success, target, pos 0, s);
  first_record = λ s. none;
}

driver-Receives : Receives driver
driver-Receives = record {
  received = λ s. s;
  put_succeeds = λ bytes s. refl;
  put_appends = λ bytes s. refl;
}

-- Five bytes that are sent two at a time
abbrev slice : BlobSlice
slice = record { is_binary = true; batch_size = 2; blob = 1 ∷ 2 ∷ 3 ∷ 4 ∷ 5 ∷ [] }

put_batches_lem_example :
    (b' : BlobSlice) × (s' : List ℕ) × (put_batches driver slice_blob 6 slice []
      ≡ ok (Result.done b', s'))
    × (b'.blob ≡ [])
    × (driver-Receives.received s' ≡ driver-Receives.received [] ++ slice.blob)
put_batches_lem_example =
    put_batches_lem driver driver-Receives 6 slice [] (omega arith) (omega arith)

-- Two bytes that are sent none at a time
abbrev stuck : BlobSlice
stuck = record { is_binary = false; batch_size = 0; blob = 7 ∷ 8 ∷ [] }

put_batches_zero_example :
    (slice_blob.next_batch stuck ≡ (Batch.batch [], stuck))
    × ((again : BlobSlice → Call (List ℕ) (Result BlobSlice))
        → put_next driver slice_blob again (slice_blob.next_batch stuck) [] ≡ panic)
    × (put_batches driver slice_blob 1 stuck [] ≡ panic)
put_batches_zero_example = put_batches_zero driver 0 false 7 (8 ∷ []) []

-- A reader whose buffer has two bytes
abbrev reader : BufRead (List ℕ)
reader = record { fill_buf = λ r. (Filled.filled (take 2 r), r); consume = drop }

end_of_two : (r : List ℕ) → take 2 r ≡ [] → drop 2 r ≡ []
end_of_two [] e = refl
end_of_two (x ∷ []) e = refl
end_of_two (x ∷ y ∷ r) e = absurd (cc)

reader-Reads : Reads reader
reader-Reads = record {
  contents = λ r. r;
  fills = λ r. (take 2 r, drop 2 r, r, refl, sym (take-append-drop 2 r), refl, end_of_two r);
  consumes = λ r r' bytes e. refl;
}

put_batches-read_blob_example :
    (b' : BlobRead (List ℕ)) × (s' : List ℕ) × (put_batches driver
        (read_blob reader)
        6
        (with_upper_bound (1 ∷ 2 ∷ 3 ∷ 4 ∷ 5 ∷ []) 3)
        []
      ≡ ok (Result.done b', s'))
    × (drop b'.consume (reader-Reads.contents b'.buf_read) ≡ [])
    × (driver-Receives.received s'
        ≡ driver-Receives.received [] ++ reader-Reads.contents (1 ∷ 2 ∷ 3 ∷ 4 ∷ 5 ∷ []))
unfolding reader-Reads
put_batches-read_blob_example =
    put_batches-read_blob driver driver-Receives reader reader-Reads 6 (1 ∷ 2 ∷ 3 ∷ 4 ∷ 5 ∷ []) 3 []
      (omega arith)
