-- ===== src/Csv/FetchTests.antt =====
-- Two rows of a text and a NULL are written, by a driver of a few lines that fetches one row at once.
use odbc_api.Common.{
  ℕ, zero, suc, ◌+◌, ◌*◌, ◌-◌, ◌≤◌, ◌≡◌, refl, ap, sym, ◌∙◌, ℤ, pos, negsuc, List, [], ◌∷◌, ◌++◌,
  true, none, some, ok, length, length-append, length-take, length-drop, min, take, drop, set,
  length-set, get_elem?, get_elem?-set_self, segment, arith,
}
use mathlib.Core.Path.{subst}
use odbc_api.Indicator.{OdbcSys, null_data}
use odbc_api.Sql.{SqlReturn}
use odbc_api.Binding.{CData}
use odbc_api.TextColumn.{TextColumn, Cell, narrow}
use odbc_api.TextColumn.Valid.{IsValid}
use odbc_api.TextRowSet.{TextRowSet}
use odbc_api.TextRowSet.Rows.{first_cell, other_cells}
use odbc_api.TextRowSet.Delivered.{HasCell, IsDelivered, AreDelivered, HasMemory}
use odbc_api.Statement.{Driver}
use odbc_api.Cursor.RowSet.{Targets, FetchApi}
use odbc_api.Csv.{Outcome}
use odbc_api.Csv.Fetch.{CsvWriter, write_batches}
use odbc_api.Csv.Delivers.{Delivers}
use odbc_api.Csv.Fetched.{write_batches_lem}

-- The values that ODBC documents for the two constants: -1 and -4.
instance abbrev odbc : OdbcSys
odbc = record { null_code = 0; no_total_code = 3; distinct = omega arith }

record State : Type 0 where
  rows : List (List Cell)
  lines : List (List (List ℕ))

-- How much of a text fits
abbrev room : ℤ → ℕ
room (pos n) = n - 1
room (negsuc n) = 0

abbrev put : ℕ → List ℕ → List ℕ → List ℕ
put m text values = take m text ++ drop (length (take m text)) values

abbrev deliver : CData → Cell → CData
deliver cdata none = record cdata { indicators = set cdata.indicators 0 null_data }
deliver cdata (some text) = record cdata {
  indicators = set cdata.indicators 0 (pos (length text));
  values = put (room cdata.buffer_length) text cdata.values;
}

abbrev deliver_all : Targets → List Cell → Targets
deliver_all [] row = []
deliver_all (b ∷ before) row =
    (b.0, deliver b.1 (first_cell row)) ∷ deliver_all before (other_cells row)

abbrev answer : Targets → ℕ → State → List (List Cell) → SqlReturn × Targets × ℕ × State
answer before n s [] = (SqlReturn.no_data, before, n, s)
answer before n s (row ∷ rows) =
    (SqlReturn.success_with_info, deliver_all before row, 1, record s { rows = rows })

abbrev fetching : FetchApi State
fetching = record {
  sql_bind_col = λ number target s. (SqlReturn.success, s);
  sql_fetch_bound = λ before n s. answer before n s s.rows;
}

abbrev writer : CsvWriter State
writer = record { write_record = λ fields s. (none, record s { lines = s.lines ++ fields ∷ [] }) }

length-put :
    (m : ℕ) (text values : List ℕ)
    → min m (length text) ≤ length values
    → length (put m text values) ≡ length values
length-put m text values h = omega (
  arith,
  h,
  length-append (take m text) (drop (length (take m text)) values),
  length-take m text,
  length-drop (length (take m text)) values,
)

take-front : {A : Type 0} (front back : List A) → take (length front) (front ++ back) ≡ front
take-front [] back = refl
take-front (x ∷ front) back = ap (λ l. x ∷ l) (take-front front back)

room_fits : (x : ℤ) (n : ℕ) → ((m : ℕ) → x ≡ pos (m + 1) → 1 * (m + 1) ≤ n) → room x ≤ n
room_fits (pos zero) n memory = omega arith
room_fits (pos (suc k)) n memory =
    let same : suc k ≡ k + 1 = omega arith in omega (arith, memory k (ap pos same))
room_fits (negsuc k) n memory = omega arith

-- There is one row.
has_only :
    (cdata : CData) (c : Cell)
    → HasCell cdata 0 c
    → (j : ℕ) (cell : Cell) → get_elem? (c ∷ []) j ≡ some cell
    → HasCell cdata j cell
has_only cdata c h zero cell e = let same : c ≡ cell = cc in subst (λ x. HasCell cdata 0 x) same h
has_only cdata c h (suc j) cell e = absurd (cc)

segment-put :
    (m : ℕ) (text values : List ℕ)
    → segment (0 * (m + 1)) (min m (length text)) (put m text values) ≡ take m text
segment-put m text values =
    let start : 0 * (m + 1) ≡ 0 = omega arith in
    rw (start, sym (length-take m text))
      (take-front (take m text) (drop (length (take m text)) values))

delivered :
    (before : CData) (cell : Cell)
    → 1 ≤ length before.indicators
    → ((m : ℕ) → before.buffer_length ≡ pos (m + 1) → 1 * (m + 1) ≤ length before.values)
    → IsDelivered before (deliver before cell) (cell ∷ [])
delivered before none some_row memory = record {
  same_values = refl;
  same_indicators = length-set before.indicators 0 null_data;
  same_length = refl;
  has =
      has_only (deliver before none) none
        (get_elem?-set_self before.indicators 0 null_data (omega (arith, some_row)));
}
delivered before (some text) some_row memory = record {
  same_values =
      let fits : room before.buffer_length ≤ length before.values =
        room_fits before.buffer_length (length before.values) memory in
      length-put (room before.buffer_length) text before.values (omega (arith, fits));
  same_indicators = length-set before.indicators 0 (pos (length text));
  same_length = refl;
  has = has_only (deliver before (some text)) (some text) (
    get_elem?-set_self before.indicators 0 (pos (length text)) (omega (arith, some_row)),
    λ m e.
        let all : room before.buffer_length ≡ m =
          ap room e ∙ (let back : m + 1 - 1 ≡ m = omega arith in back) in
        rw all (segment-put m text before.values),
  );
}

all_delivered :
    (before : Targets) (row : List Cell)
    → HasMemory 1 before
    → AreDelivered before (deliver_all before row) (row ∷ [])
all_delivered [] row h = tt
all_delivered (b ∷ before) row (some_row, memory, hs) =
    (delivered b.1 (first_cell row) some_row memory, all_delivered before (other_cells row) hs)

documented : Delivers fetching writer
documented = record {
  rest = λ s. s.rows;
  size = λ s. 1;
  out = λ s. s.lines;
  ends = λ before n s e. rw e (refl, refl, refl);
  fetches = λ before n s row rows e memory.
      rw e (true, refl, all_delivered before row memory, refl, refl, refl, refl);
  writes = λ fields s. (refl, refl, refl, refl);
}

abbrev driver : Driver State
driver = record {
  sql_exec_direct = λ text s. (SqlReturn.success, s);
  sql_execute = λ s. (SqlReturn.success, s);
  sql_param_data = λ s. (SqlReturn.success, 0, s);
  sql_put_data = λ bytes s. (SqlReturn.success, s);
  sql_num_result_cols = λ s. (SqlReturn.success, pos 2);
  sql_set_stmt_attr = λ attribute value s. (SqlReturn.success, s);
  sql_free_stmt = λ option s. (SqlReturn.success, s);
  sql_close_cursor = λ s. (SqlReturn.success, s);
  sql_fetch = λ s. (SqlReturn.no_data, s);
  sql_get_data = λ col target s. (SqlReturn.success, target, pos 0, s);
  first_record = λ s. none;
}

-- Texts of at most two bytes, and memory for one row
abbrev column : TextColumn
column = record { max_str_len = 2; values = 0 ∷ 0 ∷ 0 ∷ []; indicators = pos 0 ∷ [] }

abbrev buffer : TextRowSet
buffer = record { num_rows = 0; row_capacity = 1; columns = (1, column) ∷ (2, column) ∷ [] }

-- `abc`
abbrev text : List ℕ
text = 97 ∷ 98 ∷ 99 ∷ []

abbrev two_rows : List (List Cell)
two_rows = (some text ∷ none ∷ []) ∷ (none ∷ some (120 ∷ []) ∷ []) ∷ []

column-IsValid : IsValid narrow column
column-IsValid = record { sized = refl; bounded = ground arith; small = ground arith }

write_batches_lem_example :
    (s' : State) × (write_batches driver fetching writer 0 3 buffer
        (record { rows = two_rows; lines = [] })
      ≡ ok (Outcome.done tt, s'))
    × (s'.lines ≡ ((97 ∷ 98 ∷ []) ∷ [] ∷ []) ∷ ([] ∷ (120 ∷ []) ∷ []) ∷ [])
    × (s'.rows ≡ [])
unfolding documented
write_batches_lem_example =
    write_batches_lem driver fetching writer 0 documented 1 (omega arith) 3 buffer
      (record { rows = two_rows; lines = [] }) two_rows refl (omega arith) (omega arith)
      (omega arith) (column-IsValid, refl, (column-IsValid, refl, tt))
