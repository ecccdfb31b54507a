-- ===== src/Csv/Fetch.antt =====
-- `cursor_to_csv` of odbcsv/src/main.rs: the names of the columns and the rows of a result set are
-- written as CSV, batch by batch.
use odbc_api.Common.{
  ℕ, zero, suc, ◌+◌, List, [], ◌∷◌, false, Option, none, some, ok, panic, length, Reserve,
}
use odbc_api.Indicator.{OdbcSys}
use odbc_api.Sql.{Result}
use odbc_api.Statement.{Driver, Call}
use odbc_api.TextRowSet.{TextRowSet}
use odbc_api.TextRowSet.ForCursor.{for_cursor}
use odbc_api.TextRowSet.Fetch.{text_row_set}
use odbc_api.Metadata.{MetadataApi}
use odbc_api.Metadata.Names.{ColumnNamesIt}
use odbc_api.Metadata.Names
use odbc_api.Cursor.Close.{dropped}
use odbc_api.Cursor.RowSet.{FetchApi, bind_buffer, unbound}
use odbc_api.Cursor.RowSet as RowSetCursor
use odbc_api.Csv.Records.{record_of}
use odbc_api.Csv.{Failure, Outcome, ◌>>=◌, ◌>>◌, pure, fail, odbc, run}

-- `csv::Writer::write_record`, with the number of its error
pub record CsvWriter (S : Type 0) : Type 0 where
  pub write_record : List (List ℕ) → S → Option ℕ × S

module _ ⦃sys : OdbcSys⦄ where
  module _ {S : Type 0} (d : Driver S) (f : FetchApi S) (writer : CsvWriter S) (counter : ℕ) where
    unfoldable pub write : List (List ℕ) → Call S (Outcome (Unit {0}))
    write fields s =
        let (error, s') = writer.write_record fields s in
        elim error [
          | none ↦ ok (Outcome.done tt, s')
          | some code ↦ ok (Outcome.failed (Failure.of_csv code), s')
        ]

    -- So many rows from `row_index` on
    unfoldable pub write_rows : TextRowSet → ℕ → ℕ → Call S (Outcome (Unit {0}))
    unfolding write record_of
    write_rows buffer row_index zero = pure tt
    write_rows buffer row_index (suc n) =
        run (record_of buffer row_index 0 (length buffer.columns)) >>= λ fields.
        write fields >> write_rows buffer (row_index + 1) n

    -- The loop over the batches, on fuel. To run out of it is a panic.
    unfoldable pub write_batches : ℕ → TextRowSet → Call S (Outcome (Unit {0}))
    unfolding write_rows
    write_batches zero buffer s = panic
    write_batches (suc fuel) buffer s =
        elim (RowSetCursor.fetch d f text_row_set counter buffer s) [
          | panic ↦ panic
          | ok ((none, buffer'), s') ↦ ok (Outcome.done tt, s')
          | ok ((some (Result.failed e), buffer'), s') ↦ ok (Outcome.failed (Failure.of_odbc e), s')
          | ok ((some (Result.done u), buffer'), s') ↦
              (write_rows buffer' 0 buffer'.num_rows >> write_batches fuel buffer') s'
        ]

    module _ ⦃r : Reserve⦄ (api : MetadataApi S) (decode : List ℕ → List ℕ) where
      -- `collect::<Result<_, _>>()` over the names, on fuel: the first error ends it.
      unfoldable pub collect_headline : ℕ → ColumnNamesIt → Call S (Result (List (List ℕ)))
      collect_headline zero it s = panic
      collect_headline (suc fuel) it s = elim (Names.next d api (List ℕ) decode it s) [
        | panic ↦ panic
        | ok (none, it') ↦ ok (Result.done [], s)
        | ok (some (Result.failed e), it') ↦ ok (Result.failed e, s)
        | ok (some (Result.done name), it') ↦ elim (collect_headline fuel it' s) [
          | panic ↦ panic
          | ok (Result.done names, s') ↦ ok (Result.done (name ∷ names), s')
          | ok (Result.failed e, s') ↦ ok (Result.failed e, s')
        ]
      ]

      -- What comes before the buffer is bound. `fuel` is for the names and for `describe_col`.
      unfoldable pub start_csv : ℕ → ℕ → Option ℕ → Call S (Outcome TextRowSet)
      unfolding collect_headline write
      start_csv fuel batch_size max_str_len = odbc (Names.new d api (List ℕ) decode) >>= λ names.
          odbc (collect_headline fuel names) >>= λ headline.
          write headline >> odbc (for_cursor d api fuel batch_size max_str_len)

      -- An early return drops the cursor, or the row set cursor, where there is one.
      unfoldable pub cursor_to_csv : ℕ → ℕ → Option ℕ → Call S (Outcome (Unit {0}))
      unfolding start_csv write_batches
      cursor_to_csv fuel batch_size max_str_len s = elim (start_csv fuel batch_size max_str_len s) [
        | panic ↦ panic
        | ok (Outcome.failed e, s') ↦ (odbc (dropped d false) >> fail e) s'
        | ok (Outcome.done buffer, s') ↦
            (odbc (bind_buffer d f text_row_set counter buffer) >>= λ bound. λ t.
                elim (write_batches fuel bound t) [
                  | panic ↦ panic
                  | ok (outcome, t') ↦ (odbc (unbound d f false) >> λ t''. ok (outcome, t'')) t'
                ])
              s'
      ]
