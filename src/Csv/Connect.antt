-- ===== src/Csv/Connect.antt =====
-- `open_connection` of odbcsv/src/main.rs: a data source, or a connection string to which the user
-- and the password are appended.
use odbc_api.Common.{ℕ, List, [], ◌++◌, Option, none, some, Bool, true, false, ◌&&◌, if◌then◌else◌}
use odbc_api.Statement.{Call}
use odbc_api.Connection.{escape_attribute_value}
use odbc_api.Connection.Calls.{ConnectionApi}
use odbc_api.Environment.Connect.{
  ConnectApi, DriverCompleteOption, connect_utf16, driver_connect_hidden,
}
use odbc_api.Csv.{Failure, Outcome, ◌>>=◌, pure, fail, odbc, codes}

pub record ConnectOpts : Type 0 where
  pub prompt : Bool
  pub connection_string : Option (List ℕ)
  pub dsn : Option (List ℕ)
  pub user : Option (List ℕ)
  pub password : Option (List ℕ)

abbrev pub unwrap_or_default : Option (List ℕ) → List ℕ
unwrap_or_default none = []
unwrap_or_default (some text) = text

abbrev is_none : Option (List ℕ) → Bool
is_none none = true
is_none (some text) = false

-- `format!` with the keyword and the sign of equality that follows it
unfoldable pub with_attribute : List ℕ → List ℕ → Option (List ℕ) → List ℕ
unfolding escape_attribute_value
with_attribute cs keyword none = cs
with_attribute cs keyword (some value) =
    cs ++ keyword ++ codes "=" ++ escape_attribute_value value ++ codes ";"

unfoldable pub full_connection_string : ConnectOpts → List ℕ
unfolding with_attribute
full_connection_string opt =
    with_attribute (with_attribute (unwrap_or_default opt.connection_string) (codes "UID") opt.user)
      (codes "PWD") opt.password

-- Only Windows can prompt.
unfoldable pub driver_completion :
    {S : Type 0} → Bool → Bool → Call S (Outcome DriverCompleteOption)
driver_completion windows false = pure DriverCompleteOption.no_prompt
driver_completion true true = pure DriverCompleteOption.complete
driver_completion false true = fail (Failure.message "--prompt is only supported on windows.")

module _ {S : Type 0} (api : ConnectionApi S) (env : ConnectApi S) (windows : Bool)
    (hidden_window : ℕ) (to_utf16 : List ℕ → List ℕ) where
  -- The connection is a part of the state.
  unfoldable pub connect_by_string : ConnectOpts → Call S (Outcome (Unit {0}))
  unfolding full_connection_string driver_completion
  connect_by_string opt = driver_completion windows opt.prompt >>= λ completion.
      if ((if opt.prompt then false else true) && is_none opt.connection_string) && is_none opt.dsn
      then fail (Failure.message "Either DSN, connection string or prompt must be specified.")
      else odbc (
          driver_connect_hidden api env windows hidden_window
            (to_utf16 (full_connection_string opt)) none completion)
        >>= λ completed. pure tt

  unfoldable pub open_connection : ConnectOpts → Call S (Outcome (Unit {0}))
  unfolding connect_by_string
  open_connection opt = elim opt.dsn [
    | none ↦ connect_by_string opt
    | some dsn ↦ odbc (
        connect_utf16 api env (to_utf16 dsn) (to_utf16 (unwrap_or_default opt.user))
          (to_utf16 (unwrap_or_default opt.password)))
  ]
