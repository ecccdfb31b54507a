-- ===== src/Cursor.antt =====
-- cursor.rs: stepping through the rows of a result set, and retrieving a field of any size from the
-- current row by repeated calls of SQLGetData.
pub mod Close
pub mod RowSet
pub mod Bound
pub mod Source
pub mod Loop
pub mod Refetch
pub mod GetText
pub mod NoTotal
mod BoundTests
mod Tests
use odbc_api.Common.{
  ℕ, zero, suc, ℤ, pos, List, [], ◌∷◌, ◌++◌, Bool, true, false, Option, none, some, ok, panic, max,
  length, take, resize, slice, add_usize, sub_usize, mul_usize, isize_max, ltb, leb, if◌then◌else◌,
}
use odbc_api.Common.Panics.{Run}
use odbc_api.Indicator.{OdbcSys, Indicator, from_isize}
use odbc_api.Sql.{SqlResult, Result, into_result}
use odbc_api.Statement
use odbc_api.Statement.{Driver, Call, checked, pure, ◌>>=◌, ◌>>◌}

-- Where a computation that may panic stands among the calls
abbrev pub lift : {S A : Type 0} → Run A → Call S (Result A)
lift (ok a) s = ok (Result.done a, s)
lift panic s = panic

-- `Vec::resize(n, 0)`, which panics at a capacity above `isize::MAX`
abbrev pub resize_vec : List ℕ → ℕ → Run (List ℕ)
resize_vec v n = if leb n isize_max then ok (resize v n 0) else panic

module _ {S : Type 0} (d : Driver S) where
  -- `Cursor::next_row`: whether there is a row
  unfoldable pub next_row : Call S (Result Bool)
  next_row s = elim (Statement.fetch d s) [
    | panic ↦ panic
    | ok (none, s') ↦ ok (Result.done false, s')
    | ok (some res, s') ↦ (checked d (λ t. ok (res, t)) >>= λ _. pure true) s'
  ]

  -- `self.get_data(col, &mut Target::from_buffer(&mut buf[from..], Indicator::Null))`: the buffer
  -- with what the driver wrote behind `from`, and the indicator.
  unfoldable pub fetch_into : ℕ → List ℕ → ℕ → Call S (Result (List ℕ × ℤ))
  fetch_into col buf from = do
    target ← lift (slice buf from (length buf))
    res ← checked d (Statement.get_data d col target)
    pure (take from buf ++ res.0, res.1)

  module _ ⦃sys : OdbcSys⦄ (col_or_param_num : ℕ) where
    -- What is left of a loop, given the buffer, `fetch_size` and the indicator
    abbrev pub Rest : Type 0
    Rest = List ℕ → ℕ → ℤ → Call S (Result (Bool × List ℕ))

    -- The value is complete: the buffer shrinks to it.
    unfoldable pub shrink : ℕ → List ℕ → ℕ → Call S (Result (Bool × List ℕ))
    shrink n buf fetch_size = do
      buf' ← lift (resize_vec buf (sub_usize (length buf) (sub_usize fetch_size n)))
      pure (true, buf')

    -- The driver told how much is missing: the buffer grows by that, and the rest is fetched behind
    -- what there is, over the last `overlap` bytes, the terminating zero of a text.
    unfoldable pub refetch : Rest → List ℕ → ℕ → ℕ → Call S (Result (Bool × List ℕ))
    refetch again buf still_missing overlap = do
      buf' ← lift (resize_vec buf (add_usize (length buf) still_missing))
      res ← fetch_into col_or_param_num buf' (sub_usize (length buf) overlap)
      again res.0 (add_usize still_missing overlap) res.1

    -- One round of the loop of `get_text`: the arms of `match target.indicator()`
    unfoldable pub text_round : Rest → Indicator → List ℕ → ℕ → Call S (Result (Bool × List ℕ))
    text_round again Indicator.null buf fetch_size = pure (false, [])
    text_round again Indicator.no_total buf fetch_size = do
      buf' ← lift (resize_vec buf (mul_usize (length buf) 2))
      res ← fetch_into col_or_param_num buf' (sub_usize (length buf) 1)
      again res.0 fetch_size res.1
    text_round again (Indicator.length n) buf fetch_size =
        if ltb n fetch_size
        then shrink n buf fetch_size
        else refetch again buf (add_usize (sub_usize n fetch_size) 1) 1

    -- The loop, on fuel. One that takes longer is a panic here.
    unfoldable pub text_loop : ℕ → Rest
    unfolding text_round shrink refetch
    text_loop zero buf fetch_size indicator = lift panic
    text_loop (suc fuel) buf fetch_size indicator = do
      ind ← lift (from_isize indicator)
      text_round (text_loop fuel) ind buf fetch_size

    -- The buffer comes with its capacity. The result is whether there is a value, and the buffer.
    unfoldable pub get_text : ℕ → ℕ → List ℕ → Call S (Result (Bool × List ℕ))
    unfolding text_loop
    get_text fuel capacity buf = do
      buf' ← lift (resize_vec buf (max 1 capacity))
      res ← fetch_into col_or_param_num buf' 0
      text_loop fuel res.0 (length buf') res.1

    -- The same for `get_binary`: there is no terminating zero.
    unfoldable pub binary_round : Rest → Indicator → List ℕ → ℕ → Call S (Result (Bool × List ℕ))
    binary_round again Indicator.null buf fetch_size = pure (false, [])
    binary_round again Indicator.no_total buf fetch_size = do
      buf' ← lift (resize_vec buf (mul_usize (length buf) 2))
      res ← fetch_into col_or_param_num buf' (length buf)
      again res.0 fetch_size res.1
    binary_round again (Indicator.length n) buf fetch_size =
        if leb n fetch_size
        then shrink n buf fetch_size
        else refetch again buf (sub_usize n fetch_size) 0

    unfoldable pub binary_loop : ℕ → Rest
    unfolding binary_round shrink refetch
    binary_loop zero buf fetch_size indicator = lift panic
    binary_loop (suc fuel) buf fetch_size indicator = do
      ind ← lift (from_isize indicator)
      binary_round (binary_loop fuel) ind buf fetch_size

    unfoldable pub get_binary : ℕ → ℕ → List ℕ → Call S (Result (Bool × List ℕ))
    unfolding binary_loop
    get_binary fuel capacity buf = do
      buf' ← lift (resize_vec buf (max 1 capacity))
      res ← fetch_into col_or_param_num buf' 0
      binary_loop fuel res.0 (length buf') res.1
