-- ===== src/Csv.antt =====
-- odbcsv/src/main.rs: the command line tool that queries a data source and writes CSV, or reads CSV
-- and inserts it. Its errors are those of the library, of the crate csv, and its own messages.
pub mod Connect
pub mod Attributes
pub mod Records
pub mod Delivers
pub mod Fetched
pub mod Fetch
pub mod Insert
pub mod Batches
pub mod Statement
pub mod Inserted
mod ConnectTests
mod FetchTests
mod Tests
use Prim.Native.Char.{code}
use Prim.Native.String.{String}
use odbc_api.Common.{ℕ, List, [], ◌∷◌, ◌++◌, Option, none, some, ok, panic}
use odbc_api.Common.Panics.{Run}
use odbc_api.Sql.{Error, Result}
use odbc_api.Statement.{Call}

-- An error of another crate is a number here: it is only passed on.
pub data Failure : Type 0 where
  of_odbc : Error → Failure
  of_csv : ℕ → Failure
  not_utf8 : Failure
  message : String → Failure

pub data Outcome (A : Type 0) : Type 0 where
  done : A → Outcome A
  failed : Failure → Outcome A

module _ {S : Type 0} where
  infixl 5 ◌>>=◌ ◌>>◌
  abbrev pub ◌>>=◌ :
      {A B : Type 0} → Call S (Outcome A) → (A → Call S (Outcome B)) → Call S (Outcome B)
  ◌>>=◌ m f s = elim (m s) [
    | panic ↦ panic
    | ok (Outcome.done a, s') ↦ f a s'
    | ok (Outcome.failed e, s') ↦ ok (Outcome.failed e, s')
  ]

  abbrev pub ◌>>◌ :
      {B : Type 0} → Call S (Outcome (Unit {0})) → Call S (Outcome B) → Call S (Outcome B)
  m >> k = m >>= λ _. k

  abbrev pub pure : {A : Type 0} → A → Call S (Outcome A)
  pure a s = ok (Outcome.done a, s)

  abbrev pub fail : {A : Type 0} → Failure → Call S (Outcome A)
  fail e s = ok (Outcome.failed e, s)

  -- A call of the library, with `?`
  abbrev pub odbc : {A : Type 0} → Call S (Result A) → Call S (Outcome A)
  odbc call s = elim (call s) [
    | panic ↦ panic
    | ok (Result.done a, s') ↦ ok (Outcome.done a, s')
    | ok (Result.failed e, s') ↦ ok (Outcome.failed (Failure.of_odbc e), s')
  ]

  abbrev pub run : {A : Type 0} → Run A → Call S (Outcome A)
  run (ok a) s = ok (Outcome.done a, s)
  run panic s = panic

-- The characters of a text
abbrev pub codes : String → List ℕ
codes String.[] = []
codes (String.◌∷◌ c s) = code c ∷ codes s
