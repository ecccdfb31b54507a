-- ===== src/Csv/ConnectTests.antt =====
-- A user and a password with special characters, behind a connection string of two attributes.
use odbc_api.Common.{ℕ, ◌≡◌, refl, List, [], ◌∷◌, none, some, false, arith}
use odbc_api.Sql.{SqlReturn}
use odbc_api.Connection.{escape_attribute_value, contains_special, double_braces}
use odbc_api.Connection.Calls.{ConnectionApi}
use odbc_api.Connection.Escape.{read_value, read_plain}
use odbc_api.Environment.Connect.{ConnectApi, DriverCompleteOption, driver_connect_with_hwnd}
use odbc_api.Csv.{codes, odbc, ◌>>=◌, pure}
use odbc_api.Csv.Connect.{with_attribute, full_connection_string, open_connection}
use odbc_api.Csv.Attributes.{Lists, open_connection_lem}

-- The state is the last connection string.
abbrev api : ConnectionApi (List ℕ)
api = record {
  sql_alloc_handle = λ handle_type s. (SqlReturn.success, s);
  sql_connect = λ name user pwd s. (SqlReturn.success, s);
  sql_disconnect = λ s. (SqlReturn.success, s);
  sql_end_tran = λ completion s. (SqlReturn.success, s);
  sql_set_auto_commit = λ value s. (SqlReturn.success, s);
  sql_get_connection_dead = λ s. (SqlReturn.success, 0);
  sql_get_info = λ info_type s. (SqlReturn.success, 128);
  sql_get_dbms_name = λ buffer len s. (SqlReturn.success, buffer, 0);
  sql_get_current_catalog = λ buffer len s. (SqlReturn.success, buffer, 0);
  first_record = λ s. none;
}

abbrev env : ConnectApi (List ℕ)
env = record {
  sql_set_env_attr = λ attribute value s. (SqlReturn.success, s);
  sql_driver_connect =
      λ text window completed len completion s. (SqlReturn.success, completed, text);
  env_record = λ s. none;
}

abbrev file : List ℕ
file = codes "Driver=d;Server=s;"

file-Lists : Lists file ((codes "Driver", codes "d") ∷ (codes "Server", codes "s") ∷ [])
unfolding read_value read_plain
file-Lists =
    Lists.attribute (codes "Driver") (codes "d;Server=s;") (ground arith) refl
      (Lists.attribute (codes "Server") (codes "s;") (ground arith) refl Lists.nothing)

open_connection_lem_example :
    (text : List ℕ) × (open_connection api env false 0
        (λ t. t)
        (record {
          prompt = false;
          connection_string = some file;
          dsn = none;
          user = some (codes "sa");
          password = some (codes "p;w}");
        })
        []
      ≡ (odbc (driver_connect_with_hwnd api env text none DriverCompleteOption.no_prompt 0)
            >>= λ completed. pure tt)
          [])
    × Lists text (
        (codes "Driver", codes "d")
        ∷ (codes "Server", codes "s")
        ∷ (codes "UID", codes "sa")
        ∷ (codes "PWD", codes "p;w}")
        ∷ [])
open_connection_lem_example =
    open_connection_lem api env false 0 (λ t. t) file (some (codes "sa")) (some (codes "p;w}"))
      ((codes "Driver", codes "d") ∷ (codes "Server", codes "s") ∷ []) [] file-Lists (ground arith)
      (ground arith)

-- Where the last attribute has no semicolon behind it, the user becomes a part of its value.
run_together :
    full_connection_string (record {
      prompt = false;
      connection_string = some (codes "Server=s");
      dsn = none;
      user = some (codes "sa");
      password = none;
    })
    ≡ codes "Server=sUID=sa;"
unfolding full_connection_string with_attribute escape_attribute_value contains_special
    double_braces
run_together = refl
