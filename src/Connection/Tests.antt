-- ===== src/Connection/Tests.antt =====
-- A password with a semicolon and a brace is escaped and read back; a text is fetched whole.
use odbc_api.Common.{
  ℕ, ◌≡◌, refl, List, [], ◌∷◌, ◌++◌, some, arith, ok, false, length, ltb, ◌*◌, ◌/◌, if◌then◌else◌,
  Reserve, Bool, true, pos,
}
use odbc_api.Sql.{SqlReturn, Record}
use odbc_api.Diagnostics.State.{invalid_state_transaction}
use odbc_api.Connection.Calls.{ConnectionApi}
use odbc_api.Connection.Drop.{drop}
use odbc_api.Connection.Dropped.{Disconnects, drop_lem}
use odbc_api.Diagnostics.Text.{written}
use odbc_api.Connection.{contains_special, double_braces, escape_attribute_value}
use odbc_api.Connection.Escape.{read_value, read_value-escape_attribute_value}

-- `a;b}c`
abbrev password : List ℕ
password = 97 ∷ 59 ∷ 98 ∷ 125 ∷ 99 ∷ []

-- `{a;b}}c}`
escaped_password : escape_attribute_value password ≡ 123 ∷ 97 ∷ 59 ∷ 98 ∷ 125 ∷ 125 ∷ 99 ∷ 125 ∷ []
unfolding escape_attribute_value contains_special double_braces
escaped_password = refl

read_value-escape_attribute_value_example :
    read_value (escape_attribute_value password ++ 59 ∷ 85 ∷ []) ≡ some (password, 59 ∷ 85 ∷ [])
read_value-escape_attribute_value_example =
    read_value-escape_attribute_value password (59 ∷ 85 ∷ []) (ground arith) refl

instance abbrev exact : Reserve
exact = record { capacity_for = λ n. n; le_capacity_for = λ n. omega arith }

-- A connection that tells the password as its name
abbrev ask : List ℕ → ℕ → SqlReturn × List ℕ × ℕ
ask buffer len = (
  (if ltb (length password) (len / 2) then SqlReturn.success else SqlReturn.success_with_info),
  written (len / 2) password buffer,
  length password * 2,
)

-- Whether the connection is up, whether a transaction is open, and the rows that are committed
record Session : Type 0 where
  up : Bool
  busy : Bool
  rows : ℕ

abbrev refusal : Record
refusal = record { state = invalid_state_transaction; native_error = pos 0; message = [] }

abbrev sessions : ConnectionApi Session
sessions = record {
  sql_alloc_handle = λ handle_type s. (SqlReturn.success, s);
  sql_connect = λ name user pwd s. (SqlReturn.success, record s { up = true });
  sql_disconnect =
      λ s. if s.busy then (SqlReturn.error, s) else (SqlReturn.success, record s { up = false });
  sql_end_tran = λ completion s. (SqlReturn.success, record s { busy = false });
  sql_set_auto_commit = λ value s. (SqlReturn.success, s);
  sql_get_connection_dead = λ s. (SqlReturn.success, 0);
  sql_get_info = λ info_type s. (SqlReturn.success, 128);
  sql_get_dbms_name = λ buffer len s. ask buffer (len / 2);
  sql_get_current_catalog = λ buffer len s. ask buffer (len / 2);
  first_record = λ s. some refusal;
}

documented : Disconnects sessions (λ s. s.up) (λ s. s.busy) (λ s. s.rows)
documented = record {
  refuses = λ s up busy. (refusal, rw busy refl, refl, refl, rw busy up, rw busy refl);
  rolls_back = λ s up. (refl, up, refl, refl);
  disconnects = λ s up free. (rw free refl, rw free refl, rw free refl);
}

abbrev in_transaction : Session
in_transaction = record { up = true; busy = true; rows = 7 }

drop_lem_example :
    (s' : Session) × (drop sessions false in_transaction ≡ ok s') × (s'.up ≡ false) × (s'.rows ≡ 7)
drop_lem_example = drop_lem documented false in_transaction refl
