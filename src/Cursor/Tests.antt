-- ===== src/Cursor/Tests.antt =====
-- A driver that hands out one text part by part: it documents what a source promises, and the
-- theorems are applied to it.
use odbc_api.Common.{
  ℕ, ◌+◌, ◌-◌, ◌≤◌, ◌<◌, ◌≡◌, refl, ℤ, pos, List, [], ◌∷◌, ◌++◌, Bool, true, false, Option, none,
  some, ok, length, take, drop, ltb, if◌then◌else◌, arith,
}
use odbc_api.Indicator.{OdbcSys, null_data, no_total_data}
use odbc_api.Sql.{SqlReturn, Result}
use odbc_api.Statement.{Driver}
use odbc_api.Cursor.{get_text}
use odbc_api.Cursor.Source.{TextSource}
use odbc_api.Cursor.GetText.{get_text_lem}
use odbc_api.Cursor.NoTotal.{get_text_no_total}

-- The values that ODBC documents for the two constants: -1 and -4.
instance abbrev odbc : OdbcSys
odbc = record { null_code = 0; no_total_code = 3; distinct = omega arith }

-- What the field has still to hand out
abbrev Field : Type 0
Field = Option (List ℕ)

abbrev next_part : ℕ → Field → Field
next_part n none = none
next_part n (some v) = some (if ltb (length v) n then [] else drop (n - 1) v)

-- `total` says whether the driver tells the length of what it cuts off.
abbrev hand_out : Bool → List ℕ → Field → SqlReturn × List ℕ × ℤ × Field
hand_out total target none = (SqlReturn.success, target, null_data, none)
hand_out total target (some v) =
    if ltb (length v) (length target)
    then (
      SqlReturn.success,
      v ++ 0 ∷ drop (length v + 1) target,
      pos (length v),
      next_part (length target) (some v),
    )
    else (
      SqlReturn.success_with_info,
      take (length target - 1) v ++ 0 ∷ [],
      (if total then pos (length v) else no_total_data),
      next_part (length target) (some v),
    )

abbrev driver : Bool → Driver Field
driver total = record {
  sql_exec_direct = λ text s. (SqlReturn.success, s);
  sql_execute = λ s. (SqlReturn.success, s);
  sql_param_data = λ s. (SqlReturn.success, 0, s);
  sql_put_data = λ bytes s. (SqlReturn.success, s);
  sql_num_result_cols = λ s. (SqlReturn.success, pos 1);
  sql_set_stmt_attr = λ attribute value s. (SqlReturn.success, s);
  sql_free_stmt = λ option s. (SqlReturn.success, s);
  sql_close_cursor = λ s. (SqlReturn.success, s);
  sql_fetch = λ s. (SqlReturn.success, s);
  sql_get_data = λ col target s. hand_out total target s;
  first_record = λ s. none;
}

short_lem : (m n : ℕ) → m < n → ltb m n ≡ true
short_lem m n h = ground arith

long_lem : (m n : ℕ) → n ≤ m → ltb m n ≡ false
long_lem m n h = ground arith

field_null :
    (total : Bool) (target : List ℕ) (s : Field)
    → s ≡ none
    → hand_out total target s ≡ (SqlReturn.success, target, null_data, next_part (length target) s)
field_null total target s e = rw e refl

field_all :
    (total : Bool) (target v : List ℕ) (s : Field)
    → s ≡ some v
    → length v < length target
    → hand_out total target s ≡ (
      SqlReturn.success,
      v ++ 0 ∷ drop (length v + 1) target,
      pos (length v),
      next_part (length target) s,
    )
field_all total target v s e h = rw (e, short_lem (length v) (length target) h) refl

field_part :
    (total : Bool) (target v : List ℕ) (s : Field)
    → s ≡ some v
    → 0 < length target
    → length target ≤ length v
    → hand_out total target s ≡ (
      SqlReturn.success_with_info,
      take (length target - 1) v ++ 0 ∷ [],
      (if total then pos (length v) else no_total_data),
      next_part (length target) s,
    )
field_part total target v s e h0 h = rw (e, long_lem (length v) (length target) h) refl

field_pending :
    (n : ℕ) (v : List ℕ) (s : Field)
    → s ≡ some v
    → 0 < n
    → n ≤ length v
    → next_part n s ≡ some (drop (n - 1) v)
field_pending n v s e h0 h = rw (e, long_lem (length v) n h) refl

abbrev source : (total : Bool) → TextSource (driver total) 1
source total = record {
  pending = λ s. s;
  knows_total = λ s. total;
  next = next_part;
  gives_null = field_null total;
  gives_all = field_all total;
  gives_part = field_part total;
  part_pending = field_pending;
}

abbrev field : List ℕ
field = 104 ∷ 101 ∷ 108 ∷ 108 ∷ 111 ∷ []

get_text_lem_example :
    (s' : Field) × (get_text (driver true) 1 2 3 [] (some field)
      ≡ ok (Result.done (true, field), s'))
get_text_lem_example =
    get_text_lem (driver true) 1 (source true) (some field) 3 [] (omega arith) 0 (some field)
      (λ t. refl) refl (omega arith)

get_text_no_total_example :
    (s' : Field) × (get_text (driver false) 1 2 4 [] (some field)
      ≡ ok (Result.done (true, field ++ 0 ∷ []), s'))
get_text_no_total_example =
    get_text_no_total (driver false) 1 (source false) (some field) 4 [] field 0 refl refl
      (omega arith) (omega arith) (omega arith)
