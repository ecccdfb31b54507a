-- ===== src/Connection/Texts.antt =====
-- handles/connection.rs: the two texts that a connection tells, each in a buffer that grows. Lengths
-- in bytes are `i16` for the name of the data base management system, `i32` for the current catalog.
use Prim.Native.String.{String}
use odbc_api.Common.{
  ℕ, ◌+◌, ◌-◌, ◌*◌, ◌/◌, List, Bool, ok, ◌>>=◌, ◌>>◌, length, min, leb, ltb, ℤ, pos, negsuc,
  to_usize, if◌then◌else◌, map_run, Vec, Reserve, resize_zeroed, empty_vec,
}
use odbc_api.Common.Panics.{Run}
use odbc_api.Sql.{SqlReturn, SqlResult, Result, into_sql_result, into_result, is_err}
use odbc_api.Statement.{Call}
use odbc_api.Connection.Calls.{ConnectionApi, fits_in}

-- The largest `i16` and `i32`
abbrev pub i16_max : ℕ
i16_max = 32767

abbrev pub i32_max : ℕ
i32_max = 2147483647

-- `n + k` of signed integers that reach to `largest`, which wraps round in a release build
abbrev pub add_signed : ℕ → ℕ → ℕ → ℤ
add_signed largest n k =
    if leb (n + k) largest then pos (n + k) else negsuc (2 * largest + 1 - (n + k))

abbrev pub lt_signed : ℕ → ℤ → Bool
lt_signed n (pos m) = ltb n m
lt_signed n (negsuc m) = ltb n 0

module _ ⦃r : Reserve⦄ (largest : ℕ) (function : String)
    (ask : List ℕ → ℕ → SqlReturn × List ℕ × ℕ) where
  -- The call with a buffer, whose length in bytes is to fit
  unfoldable pub asked : Vec → Run (SqlResult (Unit {0}) × Vec × ℕ)
  asked buf = do
    fits_in largest (length buf.elements * 2)
    let answer = ask buf.elements (length buf.elements * 2)
    res ← into_sql_result answer.0 function
    ok (res, record buf { elements = answer.1 }, answer.2)

  -- The buffer shrinks to the text.
  unfoldable pub shrunk : SqlResult (Unit {0}) × Vec × ℕ → Run (SqlResult (Unit {0}) × Vec)
  shrunk (res, buf, string_length_in_bytes) = if is_err res then ok (res, buf) else do
    bytes ← to_usize (add_signed largest string_length_in_bytes 1)
    ok (res, resize_zeroed buf (bytes / 2))

  unfoldable pub fetch_text : Vec → Run (SqlResult (Unit {0}) × Vec)
  unfolding asked shrunk
  fetch_text buf = do
    first ← asked (resize_zeroed buf buf.capacity)
    let too_short : Bool =
        lt_signed (min (length (first.1).elements * 2) largest) (add_signed largest first.2 2)
    let last : Run (SqlResult (Unit {0}) × Vec × ℕ) =
        if too_short then asked (resize_zeroed first.1 (first.2 / 2 + 1)) else ok first
    if is_err first.0 then ok (first.0, first.1) else last >>= shrunk

module _ {S : Type 0} ⦃r : Reserve⦄ (api : ConnectionApi S) where
  unfoldable pub dbms_name : Vec → S → Run (SqlResult (Unit {0}) × Vec)
  unfolding fetch_text
  dbms_name buf s =
      fetch_text i16_max "SQLGetInfoW" (λ buffer len. api.sql_get_dbms_name buffer len s) buf

  unfoldable pub current_catalog_name : Vec → S → Run (SqlResult (Unit {0}) × Vec)
  unfolding fetch_text
  current_catalog_name buf s =
      fetch_text i32_max "SQLGetConnectAttrW"
        (λ buffer len. api.sql_get_current_catalog buffer len s) buf

  -- `.into_result(&self.connection)`, with the buffer
  abbrev filled :
      (Vec → S → Run (SqlResult (Unit {0}) × Vec)) → Vec → Call S (Result (Unit {0}) × Vec)
  filled call buf s =
      map_run (λ answer. ((into_result (api.first_record s) answer.0, answer.1), s)) (call buf s)

  unfoldable pub fetch_database_management_system_name : Vec → Call S (Result (Unit {0}) × Vec)
  fetch_database_management_system_name = filled dbms_name

  unfoldable pub fetch_current_catalog : Vec → Call S (Result (Unit {0}) × Vec)
  fetch_current_catalog = filled current_catalog_name

  -- `to_string().unwrap()`, the conversion from UTF-16, is that of `widestring`.
  abbrev decoded :
      {Text : Type 0} → (List ℕ → Run Text) → Result (Unit {0}) × Vec → Run (Result Text)
  decoded decode (Result.done u, buf) = map_run Result.done (decode buf.elements)
  decoded decode (Result.failed e, buf) = ok (Result.failed e)

  module _ {Text : Type 0} (decode : List ℕ → Run Text) where
    unfoldable pub database_management_system_name : Call S (Result Text)
    database_management_system_name s =
        fetch_database_management_system_name empty_vec s >>= λ answer.
        map_run (λ text. (text, answer.1)) (decoded decode answer.0)

    unfoldable pub current_catalog : Call S (Result Text)
    current_catalog s = fetch_current_catalog empty_vec s >>= λ answer.
        map_run (λ text. (text, answer.1)) (decoded decode answer.0)
