-- ===== src/Csv/Batches.antt =====
-- Inserting a CSV file sends each of its records once, in order, whatever the size of a batch.
use odbc_api.Common.{
  ℕ, zero, suc, ◌<◌, ◌≤◌, ◌≡◌, refl, ap, sym, ◌∙◌, List, [], ◌∷◌, ◌++◌, ok, map, length, length-map,
  length-append, usize_mod, ◌==◌, arith, inl, inr, Bool-cases,
}
use mathlib.Core.List.{map-append, append_assoc, append-nil}
use odbc_api.Indicator.{OdbcSys}
use odbc_api.TextColumn.{Cell, Growth}
use odbc_api.TextRowSet.{TextRowSet}
use odbc_api.TextRowSet.Rows.{HoldsRows, AllHaveRoom, cleared, append-HoldsRows}
use odbc_api.TextRowSet.Read.{AllWide}
use odbc_api.ColumnarBuffer.{clear}
use odbc_api.Statement.{Driver}
use odbc_api.Binding.{BindApi}
use odbc_api.Binding.Rows.{TableRow, row_in, Inserts, IsPrepared}
use odbc_api.Blob.{Blob}
use odbc_api.Execute.{Blobs}
use odbc_api.Prepared.Inserting.{execute_lem}
use odbc_api.Csv.{Outcome, ◌>>=◌, ◌>>◌, odbc, run}
use odbc_api.Csv.Insert.{Read, reading, cell_of, send, flush, insert_records}

module _ (table : List ℕ) (names : List (List ℕ)) where
  -- Rows that are in the data base or still to be sent
  abbrev all_rows : List TableRow → List (List Cell) → List TableRow
  all_rows rows cells = rows ++ map (row_in table names) cells

  all_rows-append :
      (rows : List TableRow) (cells more : List (List Cell))
      → all_rows rows (cells ++ more) ≡ all_rows rows cells ++ map (row_in table names) more
  all_rows-append rows cells more =
      ap (λ l. rows ++ l) (map-append (row_in table names) cells more)
      ∙ sym (append_assoc rows (map (row_in table names) cells) (map (row_in table names) more))

  behind :
      (rows₁ rows : List TableRow) (rest cells : List (List Cell)) (row : List Cell)
      (more : List (List Cell))
      → all_rows rows₁ rest ≡ all_rows rows cells
      → all_rows rows₁ ((rest ++ row ∷ []) ++ more) ≡ all_rows rows (cells ++ row ∷ more)
  behind rows₁ rows rest cells row more e =
      ap (all_rows rows₁) (append_assoc rest (row ∷ []) more)
      ∙ all_rows-append rows₁ rest (row ∷ more)
      ∙ ap (λ l. l ++ map (row_in table names) (row ∷ more)) e
      ∙ sym (all_rows-append rows cells (row ∷ more))

-- The row of a record
abbrev pub row_of : List (List ℕ) → List Cell
row_of fields = map cell_of fields

-- The records are as wide as the row set, with memory for each of their fields.
module _ ⦃s : OdbcSys⦄ ⦃g : Growth⦄ (batch_size width : ℕ) where
  abbrev pub AreInsertable : List (List (List ℕ)) → Type 0
  AreInsertable [] = Unit
  AreInsertable (fields ∷ records) =
      (length fields ≡ width) × AllHaveRoom batch_size (row_of fields) × AreInsertable records

module _ ⦃s : OdbcSys⦄ ⦃g : Growth⦄ {S B : Type 0} (d : Driver S) (api : BindApi S) (b : Blob B)
    (params batches : ℕ) (blobs : Blobs B) {from_utf16 : List ℕ → List ℕ}
    (inserts : Inserts d api from_utf16) (table : List ℕ) (names : List (List ℕ)) (batch_size : ℕ)
    (some_rows : 0 < batch_size) (small : batch_size < usize_mod) where
  open inserts use {rows}

  send_lem :
      (buffer : TextRowSet) (held : List (List Cell)) (t : S)
      → IsPrepared inserts table names t
      → HoldsRows batch_size (length names) buffer held
      → AllWide (length names) held
      → (t' : S) × (send d api b params batches blobs buffer t ≡ ok (Outcome.done tt, t'))
        × IsPrepared inserts table names t'
        × (rows t' ≡ rows t ++ map (row_in table names) held)
  unfolding send
  send_lem buffer held t prepared h wide =
      let (t', e, still, sent) =
        execute_lem d api b params batches blobs inserts table names batch_size buffer held t
          prepared some_rows h wide in
      (t', rw (send, ◌>>=◌, odbc, e), still, sent)

  -- The row set behind a flush holds fewer rows than fit; what is gone from it is in the data base.
  record HasFlushed (held : List (List Cell)) (t : S) (buffer : TextRowSet)
      (rest : List (List Cell)) (t' : S) : Type 0 where
    holds : HoldsRows batch_size (length names) buffer rest
    room : length rest < batch_size
    prepared : IsPrepared inserts table names t'
    wide : AllWide (length names) rest
    sent : rows t' ++ map (row_in table names) rest ≡ rows t ++ map (row_in table names) held

  flush_lem :
      (buffer : TextRowSet) (held : List (List Cell)) (t : S)
      → IsPrepared inserts table names t
      → HoldsRows batch_size (length names) buffer held
      → length held ≤ batch_size
      → AllWide (length names) held
      → (buffer' : TextRowSet) × (rest : List (List Cell)) × (t' : S) × (flush d api b params
            batches blobs batch_size buffer t
          ≡ ok (Outcome.done buffer', t'))
        × HasFlushed held t buffer' rest t'
  unfolding flush
  flush_lem buffer held t prepared h fits wide = elim (Bool-cases (buffer.num_rows == batch_size)) [
    | inl full ↦
        let (t', e, still, sent) = send_lem buffer held t prepared h wide in
        (
          clear buffer,
          [],
          t',
          rw (full, ◌>>◌, ◌>>=◌, e),
          record {
            holds = cleared batch_size (length names) buffer held h;
            room = some_rows;
            prepared = still;
            wide = λ j row e. cc;
            sent = append-nil (rows t') ∙ sent;
          },
        )
    | inr open_row ↦ (
      buffer,
      held,
      t,
      rw open_row,
      record {
        holds = h;
        prepared = prepared;
        room = ground (arith, fits, open_row, h.row_count);
        wide = wide;
        sent = refl;
      },
    )
  ]

  AllWide-snoc :
      (held : List (List Cell)) (row : List Cell)
      → AllWide (length names) held
      → length row ≡ length names
      → AllWide (length names) (held ++ row ∷ [])
  AllWide-snoc [] row wide h zero r e = let same : r ≡ row = cc in rw same h
  AllWide-snoc [] row wide h (suc j) r e = cc
  AllWide-snoc (first ∷ held) row wide h zero r e = wide zero r e
  AllWide-snoc (first ∷ held) row wide h (suc j) r e =
      AllWide-snoc held row (λ k r' e'. wide (suc k) r' e') h j r e

  -- From a row set that holds rows which are still to be sent
  pub insert_records_lem :
      (records : List (List (List ℕ))) (buffer : TextRowSet) (held : List (List Cell)) (t : S)
      → IsPrepared inserts table names t
      → HoldsRows batch_size (length names) buffer held
      → length held ≤ batch_size
      → AllWide (length names) held
      → AreInsertable batch_size (length names) records
      → (t' : S) × (insert_records d api b params batches blobs batch_size buffer
            (map Read.read records)
            t
          ≡ ok (Outcome.done tt, t'))
        × (rows t' ≡ rows t ++ map (row_in table names) (held ++ map row_of records))
  unfolding insert_records
  insert_records_lem [] buffer held t prepared h fits wide insertable =
      let (t', e, still, sent) = send_lem buffer held t prepared h wide in
      (t', e, sent ∙ ap (λ l. rows t ++ map (row_in table names) l) (sym (append-nil held)))
  insert_records_lem (fields ∷ records) buffer held t prepared h fits wide
        (same, room, insertable) =
      let (buffer₁, rest, t₁, e₁, f) = flush_lem buffer held t prepared h fits wide in
      let cells : length (row_of fields) ≡ length names = length-map cell_of fields ∙ same in
      let (buffer₂, e₂, h₂) =
        append-HoldsRows batch_size (length names) buffer₁ rest (row_of fields) f.holds f.room small
          cells room in
      let one_more : length (rest ++ row_of fields ∷ []) ≤ batch_size =
        omega (arith, f.room, length-append rest (row_of fields ∷ [])) in
      let (t', e, sent) =
        insert_records_lem records buffer₂ (rest ++ row_of fields ∷ []) t₁ f.prepared h₂ one_more
          (AllWide-snoc rest (row_of fields) f.wide cells) insertable in
      (
        t',
        rw (◌>>=◌, e₁, reading, ◌>>=◌, run, e₂) e,
        sent
            ∙ behind table names (rows t₁) (rows t) rest held (row_of fields) (map row_of records)
                f.sent,
      )
