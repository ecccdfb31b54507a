-- ===== src/Csv/Inserted.antt =====
-- `insert` of odbcsv/src/main.rs as a whole: what it prepares, and what is in the table behind it.
use mathlib.Core.Path.{subst}
use odbc_api.Common.{
  sym, none, ◌∷◌, Option-cases, inl, inr, ℕ, zero, suc, ◌+◌, ◌%◌, ◌^◌, ◌*◌, ◌<◌, ◌≤◌, ◌≡◌, refl, ap,
  ◌∙◌, List, [], ◌++◌, Option, some, ok, map, length, isize_max, usize_mod, le→leb, arith,
}
use odbc_api.Indicator.{OdbcSys}
use odbc_api.DataType
use odbc_api.TextColumn.{Growth, narrow, size_of_isize}
use odbc_api.TextColumn.Resize.{CanHold}
use odbc_api.TextRowSet.Rows.{HoldsRows, from_max_str_lens-HoldsRows}
use odbc_api.Sql.{Result, into_sql_result, into_result, map_result}
use odbc_api.Statement.{Driver}
use odbc_api.Binding.{DescribedParam, BindApi}
use odbc_api.Binding.Describe.{ParameterDescription, described_param}
use odbc_api.Binding.Describe
use odbc_api.Binding.Insert.{read_insert}
use odbc_api.Binding.Rows.{Inserts, IsPrepared, row_in}
use odbc_api.Environment.Splits.{Lacks}
use odbc_api.Csv.Statement.{AreNames, read-statement_text}
use odbc_api.Blob.{Blob}
use odbc_api.Execute.{Blobs}
use odbc_api.Prepared
use odbc_api.Csv.{Outcome, ◌>>=◌, ◌>>◌, odbc, run}
use odbc_api.Csv.Insert.{Read, statement_text, collect_names, describe_params, insert}
use odbc_api.Csv.Batches.{AreInsertable, row_of, insert_records_lem}

length-collect_names :
    (from_utf8 : List ℕ → Option (List ℕ)) (headline names : List (List ℕ))
    → collect_names from_utf8 headline ≡ some names
    → length names ≡ length headline
unfolding collect_names
length-collect_names from_utf8 [] names e = let none_left : [] ≡ names = cc in rw⁻¹ none_left refl
length-collect_names from_utf8 (name ∷ headline) names e = elim (Option-cases (from_utf8 name)) [
  | inl en ↦ let k : none ≡ some names = sym (rw (collect_names, en)) ∙ e in cc
  | inr (text, en) ↦ elim (Option-cases (collect_names from_utf8 headline)) [
    | inl er ↦ let k : none ≡ some names = sym (rw (collect_names, en, er)) ∙ e in cc
    | inr (texts, er) ↦
        let k : some (text ∷ texts) ≡ some names = sym (rw (collect_names, en, er)) ∙ e in
        let same : text ∷ texts ≡ names = cc in
        rw⁻¹ same (ap suc (length-collect_names from_utf8 headline texts er))
  ]
]

module _ ⦃s : OdbcSys⦄ ⦃g : Growth⦄ {S B : Type 0} (d : Driver S) (api : BindApi S) (b : Blob B)
    (params batches : ℕ) (blobs : Blobs B) {from_utf16 : List ℕ → List ℕ}
    (inserts : Inserts d api from_utf16) where
  open inserts use {rows}

  prepare_ok :
      (text : List ℕ) (t : S)
      → length text ≤ 2147483647
      → Prepared.prepare d api b params batches text t
        ≡ ok (Result.done tt, (api.sql_prepare text t).1)
  unfolding Prepared.prepare Describe.prepare into_sql_result into_result
  prepare_ok text t h = rw (le→leb (length text) 2147483647 h, (inserts.prepares text t).0)

  module _ (table : List ℕ) (columns : List (List ℕ)) (t : S)
      (prepared : IsPrepared inserts table columns t) where
    describe_ok :
        (number : ℕ)
        → 1 ≤ number
        → number ≤ length columns
        → (desc : ParameterDescription) × (Prepared.describe_param d api b params batches number t
            ≡ ok (Result.done desc, t))
    unfolding Prepared.describe_param Describe.describe_param described_param into_sql_result
        into_result map_result
    describe_ok number least most =
        let (success, knows, known) =
          inserts.describes table columns number t prepared least most in
        let answer : DescribedParam = (api.sql_describe_param number t).1 in
        (
          record {
            nullable = knows;
            data_type = DataType.new answer.data_type answer.parameter_size answer.decimal_digits;
          },
          rw (success, known),
        )

    describe_params_lem :
        (number n : ℕ)
        → 1 ≤ number
        → number + n ≤ length columns + 1
        → length columns < 2 ^ 16
        → describe_params d api b params batches blobs number n t ≡ ok (Outcome.done tt, t)
    unfolding describe_params
    describe_params_lem number zero least most few = refl
    describe_params_lem number (suc n) least most few =
        let same : number % 2 ^ 16 ≡ number = omega (arith, most, few) in
        let (desc, e) = describe_ok number least (omega (arith, most)) in
        rw (same, ◌>>=◌, odbc, e)
          (describe_params_lem (number + 1) n (omega arith) (omega (arith, most)) few)

  module _ (batch_size : ℕ) (some_rows : 0 < batch_size) (small : batch_size < usize_mod)
      (room : CanHold narrow 0 batch_size)
      (indicators_fit : batch_size * size_of_isize ≤ isize_max) where
    -- From a CSV file that can be read, with at least one and fewer than 2 ^ 16 columns, as many
    -- fields in every record, and names in UTF-8 that an INSERT can have as they are (no space in
    -- the table's; no comma and no closing parenthesis in a column's, which is not empty), where the
    -- statement takes fewer than 2 ^ 31 units of UTF-16, from which it can be read back, and with
    -- memory for a batch of its longest fields, `insert` adds each record to the table of that name
    -- once, in order, as a row of its fields for the columns of the headline, NULL for the empty
    -- ones, whatever the batch size is, and whether or not the last batch is full. The data source
    -- is one that reads the statement, and executes an INSERT with arrays of parameters as ODBC
    -- documents it.
    pub insert_lem :
        (from_utf8 : List ℕ → Option (List ℕ)) (to_utf16 : List ℕ → List ℕ) (table_name : List ℕ)
        (headline names : List (List ℕ)) (records : List (List (List ℕ))) (t : S)
        → collect_names from_utf8 headline ≡ some names
        → Lacks 32 table_name
        → AreNames names
        → from_utf16 (to_utf16 (statement_text table_name names)) ≡ statement_text table_name names
        → length headline < 2 ^ 16
        → length (to_utf16 (statement_text table_name names)) ≤ 2147483647
        → AreInsertable batch_size (length headline) records
        → (t' : S) × (insert d api b params batches blobs from_utf8 to_utf16 batch_size table_name
              (record { headline = Read.read headline; records = map Read.read records })
              t
            ≡ ok (Outcome.done tt, t'))
          × (rows t' ≡ rows t ++ map (row_in table_name names) (map row_of records))
    unfolding insert
    insert_lem from_utf8 to_utf16 table_name headline names records t e one_word named read_back
          wide fits insertable =
        let text : List ℕ = to_utf16 (statement_text table_name names) in
        let t₁ : S = (api.sql_prepare text t).1 in
        let same : length headline ≡ length names =
          sym (length-collect_names from_utf8 headline names e) in
        let (success, stated, kept) = inserts.prepares text t in
        let prepared : IsPrepared inserts table_name names t₁ =
          ap (λ x. read_insert (from_utf16 x)) stated
          ∙ ap read_insert read_back
          ∙ read-statement_text table_name names one_word named in
        let (buffer, made, holds) =
          from_max_str_lens-HoldsRows batch_size room indicators_fit (length headline)
            (omega (arith, wide)) in
        let (t', inserted, sent) =
          insert_records_lem d api b params batches blobs inserts table_name names batch_size
            some_rows small records buffer [] t₁ prepared
            (subst (λ n. HoldsRows batch_size n buffer []) same holds) (omega arith) (λ j row e. cc)
            (subst (λ n. AreInsertable batch_size n records) same insertable) in
        (
          t',
          rw
              (
                ◌>>=◌,
                e,
                ◌>>◌,
                odbc,
                prepare_ok text t fits,
                describe_params_lem table_name names t₁ prepared 1 (length headline) (omega arith)
                    (omega (arith, same)) (omega (arith, wide, same)),
                run,
                made,
              )
              inserted,
          sent ∙ ap (λ l. l ++ map (row_in table_name names) (map row_of records)) kept,
        )
