-- ===== src/Csv/Fetched.antt =====
-- Fetching writes each row of a result set once, in order, whatever the size of a batch.
use odbc_api.Common.{
  take-append-drop, length-drop, ℕ, zero, suc, ◌+◌, ◌<◌, ◌≤◌, ◌≡◌, refl, ap, sym, ◌∙◌, List, [],
  ◌∷◌, ◌++◌, Bool, none, some, ok, map, length, take, drop, get_elem?, lt_of_get_elem?,
  if◌then◌else◌, arith,
}
use mathlib.Core.Path.{fun_ext}
use mathlib.Core.List.{map-append, append_assoc, append-nil}
use odbc_api.Indicator.{OdbcSys}
use odbc_api.Sql.{SqlReturn, Result, into_opt_sql_result}
use odbc_api.TextColumn.{Cell}
use odbc_api.TextRowSet.{TextRowSet}
use odbc_api.TextRowSet.Fetch.{written_columns, text_row_set}
use odbc_api.TextRowSet.Delivered.{
  AreColumns, AreDelivered, targets_of, targets-HasMemory, text_targets_lem,
  written_columns-AreColumns, written_columns-ColumnsRead,
}
use odbc_api.Statement.{Driver}
use odbc_api.Cursor.RowSet.{Targets, FetchApi}
use odbc_api.Cursor.RowSet as RowSetCursor
use odbc_api.Csv.{Outcome, ◌>>=◌, ◌>>◌, run}
use odbc_api.Csv.Records.{record_of}
use odbc_api.Csv.Fetch.{CsvWriter, write, write_rows, write_batches}
use odbc_api.Csv.Delivers.{
  Delivers, fields_of, record_of_lem, fields_of-written, AreDelivered-length, fetch_success,
}

module _ ⦃sys : OdbcSys⦄ {S : Type 0} (d : Driver S) (f : FetchApi S) (writer : CsvWriter S)
    (counter : ℕ) (documented : Delivers f writer) where
  open documented use {rest, size, out}

  -- A state behind calls that have written records
  record HasWritten (s : S) (records : List (List (List ℕ))) (s' : S) : Type 0 where
    same_rest : rest s' ≡ rest s
    same_size : size s' ≡ size s
    behind : out s' ≡ out s ++ records

  write_rows_lem :
      (buffer : TextRowSet) (fields : List Cell → List (List ℕ)) (j : ℕ) (rows : List (List Cell))
      (s : S)
      → ((k : ℕ) (row : List Cell)
          → get_elem? rows k ≡ some row
          → record_of buffer (j + k) 0 (length buffer.columns) ≡ ok (fields row))
      → (s' : S) × (write_rows d f writer counter buffer j (length rows) s
          ≡ ok (Outcome.done tt, s'))
        × HasWritten s (map fields rows) s'
  unfolding write_rows write
  write_rows_lem buffer fields j [] s reads =
      (s, refl, record { same_rest = refl; same_size = refl; behind = sym (append-nil (out s)) })
  write_rows_lem buffer fields j (row ∷ rows) s reads =
      let here : j + 0 ≡ j = omega arith in
      let first : record_of buffer j 0 (length buffer.columns) ≡ ok (fields row) =
        rw⁻¹ here (reads 0 row refl) in
      let (fine, same, sized, behind) = documented.writes (fields row) s in
      let s₁ : S = (writer.write_record (fields row) s).1 in
      let (s', e, h) = write_rows_lem buffer fields (j + 1) rows s₁ (λ k r e.
        let next : j + suc k ≡ j + 1 + k = omega arith in rw⁻¹ next (reads (suc k) r e)) in
      (
        s',
        rw (first, ◌>>=◌, run, ◌>>◌, fine) e,
        record {
          same_rest = h.same_rest ∙ same;
          same_size = h.same_size ∙ sized;
          behind =
              h.behind
              ∙ ap (λ l. l ++ map fields rows) behind
              ∙ append_assoc (out s) (fields row ∷ []) (map fields rows);
        },
      )

  module _ (capacity : ℕ) (some_rows : 0 < capacity) where
    -- The buffer behind a fetch
    abbrev filled : TextRowSet → Targets → ℕ → TextRowSet
    filled buffer after num_rows = record buffer {
      num_rows = num_rows;
      columns = written_columns after buffer.columns;
    }

    batch_lem :
        (buffer : TextRowSet) (after : Targets) (batch : List (List Cell)) (s : S)
        → AreColumns capacity buffer.columns
        → AreDelivered (targets_of buffer.columns) after batch
        → (s' : S) × (write_rows d f writer counter
              (filled buffer after (length batch))
              0
              (length batch)
              s
            ≡ ok (Outcome.done tt, s'))
          × HasWritten s (map (fields_of buffer.columns) batch) s'
    batch_lem buffer after batch s h del =
        let kept = AreDelivered-length buffer.columns after batch del in
        write_rows_lem (filled buffer after (length batch)) (fields_of buffer.columns) 0 batch s
          (λ k row e.
            let from_zero : 0 + k ≡ k = omega arith in
            let within : k < length batch = lt_of_get_elem? batch k row e in
            rw from_zero (
              record_of_lem (filled buffer after (length batch)) k []
                (written_columns after buffer.columns) row refl (ground (arith, within))
                (written_columns-ColumnsRead capacity k buffer.columns after batch row h del e)
              ∙ ap ok (fields_of-written after buffer.columns row kept)))

    -- What the driver gives
    abbrev answer : TextRowSet → S → SqlReturn × Targets × ℕ × S
    answer buffer s = f.sql_fetch_bound (targets_of buffer.columns) buffer.num_rows s

    fetch_end :
        (buffer : TextRowSet) (s : S)
        → AreColumns capacity buffer.columns
        → (answer buffer s).0 ≡ SqlReturn.no_data
        → RowSetCursor.fetch d f text_row_set counter buffer s
          ≡ ok ((none, filled buffer (answer buffer s).1 (answer buffer s).2), (answer buffer s).3)
    unfolding RowSetCursor.fetch into_opt_sql_result
    fetch_end buffer s h no_data =
        rw (RowSetCursor.fetch, text_targets_lem capacity buffer.columns some_rows h, no_data) refl

    fetch_batch :
        (buffer : TextRowSet) (s : S) (info : Bool) (n : ℕ)
        → AreColumns capacity buffer.columns
        → (answer buffer s).0 ≡ (if info then SqlReturn.success_with_info else SqlReturn.success)
        → (answer buffer s).2 ≡ n
        → RowSetCursor.fetch d f text_row_set counter buffer s
          ≡ ok ((some (Result.done tt), filled buffer (answer buffer s).1 n), (answer buffer s).3)
    unfolding RowSetCursor.fetch
    fetch_batch buffer s info n h success count =
        let (res, e, fine) = fetch_success info (d.first_record (answer buffer s).3) in
        rw
          (
            RowSetCursor.fetch,
            text_targets_lem capacity buffer.columns some_rows h,
            success,
            e,
            fine,
            count,
          )
          refl

    map-rest :
        {A B : Type 0} (g : A → B) (n : ℕ) (xs : List A)
        → map g (take n xs) ++ map g (drop n xs) ≡ map g xs
    map-rest g n xs =
        sym (map-append g (take n xs) (drop n xs)) ∙ ap (map g) (take-append-drop n xs)

    -- The loop that writes the batches, on more fuel than there are rows left to fetch, for a result
    -- set of any number of rows, ends without a panic and without an error, where the row set has
    -- memory for the size that the cursor has been given, which is not zero: it has then written a
    -- record for each row, once and in order, whatever that size is and whether or not the last
    -- batch is full. A record has the cells of its row, of each as many bytes as its column's texts
    -- may have, and NULL as an empty field. Nothing is left to fetch. The driver and the writer do
    -- as documented.
    pub write_batches_lem :
        (fuel : ℕ) (buffer : TextRowSet) (s : S) (rows : List (List Cell))
        → rest s ≡ rows
        → length rows < fuel
        → 0 < size s
        → size s ≤ capacity
        → AreColumns capacity buffer.columns
        → (s' : S) × (write_batches d f writer counter fuel buffer s ≡ ok (Outcome.done tt, s'))
          × (out s' ≡ out s ++ map (fields_of buffer.columns) rows)
          × (rest s' ≡ [])
    unfolding write_batches
    write_batches_lem zero buffer s rows e lt sized fits h = absurd (omega (arith, lt))
    write_batches_lem (suc fuel) buffer s [] e lt sized fits h =
        let (no_data, over, kept) =
          documented.ends (targets_of buffer.columns) buffer.num_rows s e in
        (
          (answer buffer s).3,
          rw (write_batches, fetch_end buffer s h no_data) refl,
          kept ∙ sym (append-nil (out s)),
          over,
        )
    write_batches_lem (suc fuel) buffer s (row ∷ rows) e lt sized fits h =
        let (info, success, del, count, left, same, kept) =
          documented.fetches (targets_of buffer.columns) buffer.num_rows s row rows e
            (targets-HasMemory (size s) capacity buffer.columns fits h) in
        let after : Targets = (answer buffer s).1 in
        let s₁ : S = (answer buffer s).3 in
        let batch : List (List Cell) = take (size s) (rest s) in
        let (s₂, wrote, w) = batch_lem buffer after batch s₁ h del in
        let next : TextRowSet = filled buffer after (length batch) in
        let columns : AreColumns capacity next.columns =
          written_columns-AreColumns capacity buffer.columns after batch h del in
        let (s₃, others, behind, over) =
          write_batches_lem fuel next s₂ (drop (size s) (rest s)) (w.same_rest ∙ left)
            (omega (arith, length-drop (size s) (rest s), ap length e, lt, sized))
            (omega (arith, sized, w.same_size, same)) (omega (arith, fits, w.same_size, same))
            columns in
        let fields : List Cell → List (List ℕ) = fields_of buffer.columns in
        let unchanged : fields_of next.columns ≡ fields = fun_ext (λ r.
          fields_of-written after buffer.columns r
            (AreDelivered-length buffer.columns after batch del)) in
        let later : List (List Cell) = drop (size s) (rest s) in
        (
          s₃,
          rw
              (
                write_batches,
                fetch_batch buffer s info (length batch) h success count,
                ◌>>◌,
                ◌>>=◌,
                wrote,
              )
              others,
          behind
              ∙ ap (λ g. out s₂ ++ map g later) unchanged
              ∙ ap (λ l. l ++ map fields later) (w.behind ∙ ap (λ l. l ++ map fields batch) kept)
              ∙ append_assoc (out s) (map fields batch) (map fields later)
              ∙ ap (λ l. out s ++ l) (map-rest fields (size s) (rest s) ∙ ap (map fields) e),
          over,
        )
