-- ===== src/Csv/Insert.antt =====
-- `insert` of odbcsv/src/main.rs: the records of a CSV file are collected in a row set, which is
-- sent to the data base whenever it is full, and at the end.
use odbc_api.Common.{
  false, ℕ, zero, suc, ◌+◌, ◌%◌, ◌^◌, List, [], ◌∷◌, ◌++◌, Option, none, some, map, length,
  replicate, ◌==◌, if◌then◌else◌,
}
use odbc_api.Indicator.{OdbcSys}
use odbc_api.Statement.{Driver, Call}
use odbc_api.TextColumn.{Cell, Growth}
use odbc_api.TextRowSet.{TextRowSet, from_max_str_lens, append}
use odbc_api.TextRowSet.Bind.{text_parameters}
use odbc_api.ColumnarBuffer.{clear}
use odbc_api.Binding.{BindApi}
use odbc_api.Blob.{Blob}
use odbc_api.Cursor.Close.{dropped}
use odbc_api.Execute.{Blobs}
use odbc_api.Prepared
use odbc_api.Csv.{Failure, Outcome, ◌>>=◌, ◌>>◌, pure, fail, odbc, run, codes}

-- What the crate csv gives, or its error
pub data Read (A : Type 0) : Type 0 where
  read : A → Read A
  unreadable : ℕ → Read A

abbrev pub reading : {S A : Type 0} → Read A → Call S (Outcome A)
reading (read a) = pure a
reading (unreadable code) = fail (Failure.of_csv code)

-- The reader of `csv::Reader`: the headline, and what its iterator over the records yields
pub record Reader : Type 0 where
  pub headline : Read (List (List ℕ))
  pub records : List (Read (List (List ℕ)))

-- `join(", ")`
unfoldable pub join : List (List ℕ) → List ℕ
join [] = []
join (text ∷ []) = text
join (text ∷ next ∷ texts) = text ++ codes ", " ++ join (next ∷ texts)

unfoldable pub statement_text : List ℕ → List (List ℕ) → List ℕ
unfolding join
statement_text table column_names =
    codes "INSERT INTO "
    ++ table
    ++ codes " ("
    ++ join column_names
    ++ codes ") VALUES ("
    ++ join (map (λ _. codes "?") column_names)
    ++ codes ");"

-- An empty field is NULL.
abbrev pub cell_of : List ℕ → Cell
cell_of [] = none
cell_of (c ∷ field) = some (c ∷ field)

-- `from_utf8` of the standard library, to characters, and the conversion to UTF-16 of widestring
unfoldable pub collect_names : (List ℕ → Option (List ℕ)) → List (List ℕ) → Option (List (List ℕ))
collect_names from_utf8 [] = some []
collect_names from_utf8 (name ∷ names) = elim (from_utf8 name) [
  | none ↦ none
  | some text ↦ elim (collect_names from_utf8 names) [
    | none ↦ none
    | some texts ↦ some (text ∷ texts)
  ]
]

module _ ⦃s : OdbcSys⦄ ⦃g : Growth⦄ {S B : Type 0} (d : Driver S) (api : BindApi S) (b : Blob B)
    (params batches : ℕ) (blobs : Blobs B) where
  -- `statement.execute(&buffer)?;`: a cursor is dropped at once.
  unfoldable pub send : TextRowSet → Call S (Outcome (Unit {0}))
  send buffer =
      odbc (Prepared.execute d api b params batches (text_parameters d api buffer) blobs)
      >>= λ has_cursor. if has_cursor then odbc (dropped d false) else pure tt

  -- A full batch is sent and cleared.
  unfoldable pub flush : ℕ → TextRowSet → Call S (Outcome TextRowSet)
  unfolding send
  flush batch_size buffer =
      if buffer.num_rows == batch_size then send buffer >> pure (clear buffer) else pure buffer

  unfoldable pub insert_records :
      ℕ → TextRowSet → List (Read (List (List ℕ))) → Call S (Outcome (Unit {0}))
  unfolding flush
  insert_records batch_size buffer [] = send buffer
  insert_records batch_size buffer (try_record ∷ records) = flush batch_size buffer >>= λ ready.
      reading try_record >>= λ record_fields.
      run (append ready (map cell_of record_fields)) >>= λ filled.
      insert_records batch_size filled records

  -- Each parameter is described, to be logged: so many from `parameter_number` on.
  unfoldable pub describe_params : ℕ → ℕ → Call S (Outcome (Unit {0}))
  describe_params parameter_number zero = pure tt
  describe_params parameter_number (suc n) =
      odbc (Prepared.describe_param d api b params batches (parameter_number % 2 ^ 16)) >>= λ desc.
      describe_params (parameter_number + 1) n

  -- Behind the opening of the files and of the connection
  unfoldable pub insert :
      (List ℕ → Option (List ℕ))
      → (List ℕ → List ℕ)
      → ℕ
      → List ℕ
      → Reader
      → Call S (Outcome (Unit {0}))
  unfolding insert_records describe_params statement_text collect_names
  insert from_utf8 to_utf16 batch_size table reader = reading reader.headline >>= λ headline.
      elim (collect_names from_utf8 headline) [
        | none ↦ fail Failure.not_utf8
        | some column_names ↦
            odbc (
              Prepared.prepare d api b params batches
                (to_utf16 (statement_text table column_names)))
            >> describe_params 1 (length headline)
            >> (run (from_max_str_lens batch_size (replicate (length headline) 0)) >>= λ buffer.
                insert_records batch_size buffer reader.records)
      ]
