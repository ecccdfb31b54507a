-- ===== src/Csv/Delivers.antt =====
-- The records that are to be written of fetched rows, and what is documented of fetching and writing.
use odbc_api.Common.{
  ℕ, suc, ◌+◌, ◌≡◌, refl, ap, sym, ◌∙◌, List, [], ◌∷◌, ◌++◌, Bool, true, false, Option, none, some,
  ok, map, length, length-append, take, drop, get_elem?, ltb, if◌then◌else◌, arith,
}
use mathlib.Core.List.{append_assoc}
use odbc_api.Indicator.{OdbcSys}
use odbc_api.Sql.{
  Record, into_sql_result, SqlReturn, SqlResult, Result, into_opt_sql_result, into_result,
}
use odbc_api.TextColumn.{TextColumn, Cell}
use odbc_api.TextRowSet.{TextRowSet, at}
use odbc_api.TextRowSet.Rows.{first_cell, other_cells}
use odbc_api.TextRowSet.Fetch.{written_columns}
use odbc_api.TextRowSet.Delivered.{cut, AreDelivered, HasMemory, targets_of, ColumnsRead}
use odbc_api.Cursor.RowSet.{Targets, FetchApi}
use odbc_api.Csv.Records.{field_of, record_of}
use odbc_api.Csv.Fetch.{CsvWriter}

-- The record that is written of a row
abbrev pub fields_of : List (ℕ × TextColumn) → List Cell → List (List ℕ)
fields_of [] row = []
fields_of (column ∷ columns) row =
    field_of (cut (column.1).max_str_len (first_cell row)) ∷ fields_of columns (other_cells row)

get_elem?-middle :
    {A : Type 0} (front : List A) (x : A) (rest : List A)
    → get_elem? (front ++ x ∷ rest) (length front) ≡ some x
get_elem?-middle [] x rest = refl
get_elem?-middle (y ∷ front) x rest = get_elem?-middle front x rest

module _ ⦃sys : OdbcSys⦄ where
  pub record_of_lem :
      (buffer : TextRowSet) (j : ℕ) (front columns : List (ℕ × TextColumn)) (row : List Cell)
      → buffer.columns ≡ front ++ columns
      → ltb j buffer.num_rows ≡ true
      → ColumnsRead columns j row
      → record_of buffer j (length front) (length columns) ≡ ok (fields_of columns row)
  unfolding record_of at
  record_of_lem buffer j front [] row split inside reads = refl
  record_of_lem buffer j front (column ∷ columns) row split inside (value, reads) =
      let next : length (front ++ column ∷ []) ≡ length front + 1 =
        length-append front (column ∷ []) in
      let others : record_of buffer j (length front + 1) (length columns)
          ≡ ok (fields_of columns (other_cells row)) =
        rw⁻¹ next (
          record_of_lem buffer j (front ++ column ∷ []) columns (other_cells row)
            (split ∙ sym (append_assoc front (column ∷ []) columns)) inside reads) in
      rw (inside, split, get_elem?-middle front column columns, value, others) refl

-- Fetching changes neither the lengths of texts nor the number of columns.
pub fields_of-written :
    (after : Targets) (columns : List (ℕ × TextColumn)) (row : List Cell)
    → length after ≡ length columns
    → fields_of (written_columns after columns) row ≡ fields_of columns row
unfolding written_columns
fields_of-written [] columns row e = refl
fields_of-written (a ∷ after) [] row e = absurd (omega (arith, e))
fields_of-written (a ∷ after) (column ∷ columns) row e =
    ap (λ l. field_of (cut (column.1).max_str_len (first_cell row)) ∷ l)
      (fields_of-written after columns (other_cells row) (omega (arith, e)))

-- What ODBC documents of fetching into bound columns, and the crate csv of writing. `rest` are the
-- rows that have not been fetched, `size` is the size of the row set, and `out` what has been
-- written. A text that is cut off makes a success with information.
pub record Delivers ⦃sys : OdbcSys⦄ {S : Type 0} (f : FetchApi S) (writer : CsvWriter S)
    : Type 0 where
  pub rest : S → List (List Cell)
  pub size : S → ℕ
  pub out : S → List (List (List ℕ))
  pub ends :
      (before : Targets) (n : ℕ) (s : S)
      → rest s ≡ []
      → let (ret, after, num_rows, s') = f.sql_fetch_bound before n s in
        (ret ≡ SqlReturn.no_data) × (rest s' ≡ []) × (out s' ≡ out s)
  pub fetches :
      (before : Targets) (n : ℕ) (s : S) (row : List Cell) (rows : List (List Cell))
      → rest s ≡ row ∷ rows
      → HasMemory (size s) before
      → let (ret, after, num_rows, s') = f.sql_fetch_bound before n s in
        (info : Bool) × (ret ≡ (if info then SqlReturn.success_with_info else SqlReturn.success))
        × AreDelivered before after (take (size s) (rest s))
        × (num_rows ≡ length (take (size s) (rest s)))
        × (rest s' ≡ drop (size s) (rest s))
        × (size s' ≡ size s)
        × (out s' ≡ out s)
  pub writes :
      (fields : List (List ℕ)) (s : S)
      → let (error, s') = writer.write_record fields s in
        (error ≡ none) × (rest s' ≡ rest s) × (size s' ≡ size s) × (out s' ≡ out s ++ fields ∷ [])

pub AreDelivered-length :
    ⦃sys : OdbcSys⦄ (columns : List (ℕ × TextColumn)) (after : Targets) (rows : List (List Cell))
    → AreDelivered (targets_of columns) after rows
    → length after ≡ length columns
AreDelivered-length [] [] rows del = refl
AreDelivered-length [] (a ∷ after) rows del = absurd del
AreDelivered-length (column ∷ columns) [] rows del = absurd del
AreDelivered-length (column ∷ columns) (a ∷ after) rows (del, dels) =
    ap suc (AreDelivered-length columns after (map other_cells rows) dels)

pub fetch_success :
    (info : Bool) (rec : Option Record)
    → (res : SqlResult (Unit {0})) × (into_opt_sql_result
          (if info then SqlReturn.success_with_info else SqlReturn.success)
          "SQLFetch"
        ≡ ok (some res))
      × (into_result rec res ≡ Result.done tt)
unfolding into_opt_sql_result into_sql_result into_result
fetch_success true rec = (SqlResult.success_with_info tt, refl, refl)
fetch_success false rec = (SqlResult.success tt, refl, refl)
