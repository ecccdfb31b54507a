-- ===== src/Csv/Tests.antt =====
-- Three records are inserted in batches of two, into a table that a driver of a few lines keeps.
use odbc_api.Common.{
  ℕ, ◌≡◌, refl, pos, List, [], ◌∷◌, ◌++◌, Option, none, some, ok, map, true, length, ◌≤◌, arith,
}
use odbc_api.Indicator.{OdbcSys}
use odbc_api.DataType.{SqlDataType}
use odbc_api.TextColumn.{Growth, narrow}
use odbc_api.TextColumn.Resize.{CanHold}
use odbc_api.TextRowSet.Rows.{AllHaveRoom}
use odbc_api.Metadata.{SqlNullability, Nullability}
use odbc_api.Metadata
use odbc_api.Sql.{SqlReturn}
use odbc_api.Statement.{Driver, StatementAttribute, FreeStmtOption}
use odbc_api.Binding.{Bound, BindApi}
use odbc_api.Binding.Rows.{TableRow, row_in, Inserts, read_rows}
use odbc_api.Blob.{BlobSlice, slice_blob}
use odbc_api.Csv.{Outcome, codes}
use odbc_api.Csv.Insert.{Read, join, statement_text, collect_names, insert}
use odbc_api.Csv.Batches.{AreInsertable, row_of}
use odbc_api.Csv.Inserted.{insert_lem}
use odbc_api.Csv.Statement.{AreNames}
use odbc_api.Environment.Splits.{Lacks}
use odbc_api.Binding.Insert.{read_insert}

-- The values that ODBC documents for the two constants: -1 and -4.
instance abbrev odbc : OdbcSys
odbc = record { null_code = 0; no_total_code = 3; distinct = omega arith }

instance abbrev exact : Growth
exact = record { grow = λ n. n; le_grow = λ n. omega arith }

-- What the driver remembers. Texts are ASCII, whose UTF-16 has the same numbers.
record State : Type 0 where
  statement : List ℕ
  bound : List (ℕ × Bound)
  paramset : ℕ
  rows : List TableRow

-- The driver reads the statement, and knows nothing but an INSERT.
abbrev execution : Option (List ℕ × List (List ℕ)) → State → SqlReturn × State
execution none t = (SqlReturn.error, t)
execution (some (table, columns)) t =
    (SqlReturn.success, record t { rows = t.rows ++ read_rows table columns t.bound 0 t.paramset })

abbrev freed : FreeStmtOption → State → State
freed FreeStmtOption.unbind t = t
freed FreeStmtOption.reset_params t = record t { bound = [] }

abbrev attribute_set : StatementAttribute → ℕ → State → State
attribute_set StatementAttribute.paramset_size n t = record t { paramset = n }
attribute_set attribute n t = t

abbrev driver : Driver State
driver = record {
  sql_exec_direct = λ text t. (SqlReturn.success, t);
  sql_execute = λ t. execution (read_insert t.statement) t;
  sql_param_data = λ t. (SqlReturn.success, 0, t);
  sql_put_data = λ bytes t. (SqlReturn.success, t);
  sql_num_result_cols = λ t. (SqlReturn.success, pos 0);
  sql_set_stmt_attr = λ attribute value t. (SqlReturn.success, attribute_set attribute value t);
  sql_free_stmt = λ option t. (SqlReturn.success, freed option t);
  sql_close_cursor = λ t. (SqlReturn.success, t);
  sql_fetch = λ t. (SqlReturn.no_data, t);
  sql_get_data = λ col target t. (SqlReturn.success, target, pos 0, t);
  first_record = λ t. none;
}

abbrev api : BindApi State
api = record {
  sql_bind_parameter =
      λ number b t. (SqlReturn.success, record t { bound = t.bound ++ (number, b) ∷ [] });
  sql_describe_param = λ number t. (
    SqlReturn.success,
    record {
      data_type = SqlDataType.varchar;
      parameter_size = 10;
      decimal_digits = pos 0;
      nullable = SqlNullability.nullable;
    },
  );
  sql_prepare = λ text t. (SqlReturn.success, record t { statement = text });
}

driver-Inserts : Inserts driver api (λ text. text)
unfolding Metadata.new
driver-Inserts = record {
  statement = λ t. t.statement;
  bound = λ t. t.bound;
  paramset = λ t. t.paramset;
  rows = λ t. t.rows;
  prepares = λ text t. (refl, refl, refl);
  describes = λ table columns number t e least most. (refl, Nullability.nullable, refl);
  resets = λ t. (refl, refl, refl, refl);
  sets = λ n t. (refl, refl, refl, refl, refl);
  binds = λ number b t. (refl, refl, refl, refl, refl);
  executes = λ table columns t e. (rw e, rw e, rw e);
  no_result_set = λ table columns t e. refl;
}

abbrev empty : State
empty = record { statement = []; bound = []; paramset = 1; rows = [] }

abbrev lossless : List ℕ → Option (List ℕ)
lossless text = some text

abbrev headline : List (List ℕ)
headline = (97 ∷ []) ∷ (98 ∷ []) ∷ []

-- Rows of two fields; one of them is empty, and one longer than those before.
abbrev records : List (List (List ℕ))
records =
    ((65 ∷ []) ∷ (66 ∷ []) ∷ []) ∷ ((67 ∷ 68 ∷ 69 ∷ []) ∷ [] ∷ []) ∷ ([] ∷ (70 ∷ []) ∷ []) ∷ []

abbrev no_blob : BlobSlice
no_blob = record { is_binary = true; batch_size = 1; blob = [] }

names_read : collect_names lossless headline ≡ some headline
unfolding collect_names
names_read = refl

slots : (n : ℕ) → n ≤ 10 → CanHold narrow n 2
slots n h = record { small = omega (arith, h); bounded = omega (arith, h) }

short : length (statement_text (116 ∷ []) headline) ≤ 2147483647
unfolding statement_text join
short = omega arith

one_word : Lacks 32 (116 ∷ [])
one_word = (refl, tt)

named : AreNames headline
named = (((refl, tt), (refl, tt)), (((refl, tt), (refl, tt)), tt))

insertable : AreInsertable 2 2 records
insertable =
    let first : AllHaveRoom 2 (row_of ((65 ∷ []) ∷ (66 ∷ []) ∷ [])) =
      (slots 1 (omega arith), (slots 1 (omega arith), tt)) in
    let second : AllHaveRoom 2 (row_of ((67 ∷ 68 ∷ 69 ∷ []) ∷ [] ∷ [])) =
      (slots 3 (omega arith), (tt, tt)) in
    let third : AllHaveRoom 2 (row_of ([] ∷ (70 ∷ []) ∷ [])) = (tt, (slots 1 (omega arith), tt)) in
    (refl, first, (refl, second, (refl, third, tt)))

-- "t" and the columns "a" and "b" are read back, and another statement is no INSERT.
statement_read : read_insert (statement_text (116 ∷ []) headline) ≡ some (116 ∷ [], headline)
unfolding read_insert statement_text join
statement_read = refl

no_insert : read_insert (codes "DELETE FROM t (a) VALUES (?);") ≡ none
unfolding read_insert
no_insert = refl

marker_missing : read_insert (codes "INSERT INTO t (a, b) VALUES (?);") ≡ none
unfolding read_insert
marker_missing = refl

insert_lem_example :
    (t' : State) × (insert driver api slice_blob 0 0
        (λ p. no_blob)
        lossless
        (λ text. text)
        2
        (116 ∷ [])
        (record { headline = Read.read headline; records = map Read.read records })
        empty
      ≡ ok (Outcome.done tt, t'))
    × (driver-Inserts.rows t'
        ≡ driver-Inserts.rows empty ++ map (row_in (116 ∷ []) headline) (map row_of records))
insert_lem_example =
    insert_lem driver api slice_blob 0 0 (λ p. no_blob) driver-Inserts 2 (omega arith) (omega arith)
      (slots 0 (omega arith)) (omega arith) lossless (λ text. text) (116 ∷ []) headline headline
      records empty names_read one_word named refl (omega arith) short insertable
