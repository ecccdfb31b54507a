-- ===== src/VarChar.antt =====
-- parameter/varchar.rs: a text parameter, a buffer and an indicator. Where the value is longer than
-- the buffer, the buffer holds its beginning with a zero behind it.
pub mod Laws
pub mod Truncation
mod Tests
use odbc_api.Common.{
  ℕ, List, [], ◌∷◌, ◌++◌, Option, none, some, ℤ, Bool, true, false, not, ok, ◌>>=◌, ◌>>◌, assert,
  map_run, to_isize, slice, sub_usize, length, take, replicate, ltb, ◌==◌, ◌||◌, ◌&&◌,
  if◌then◌else◌,
}
use odbc_api.Common.Panics.{Run}
use odbc_api.DataType.{DataType}
use odbc_api.Indicator.{OdbcSys, Indicator, from_isize, into_isize}
use odbc_api.TextColumn.{Cell}

pub record VarChar : Type 0 where
  pub buffer : List ℕ
  pub indicator : ℤ

-- `*buf.last().unwrap()`
abbrev pub last : List ℕ → Option ℕ
last [] = none
last (x ∷ []) = some x
last (x ∷ y ∷ xs) = last (y ∷ xs)

-- `buf.is_empty() || *buf.last().unwrap() != 0`
unfoldable pub lacks_zero : List ℕ → Bool
lacks_zero buf = elim (last buf) [ none ↦ true | some c ↦ not (c == 0) ]

-- The buffer of a `VarCharArray` of `len` bytes
unfoldable pub filled : ℕ → List ℕ → Run (List ℕ)
filled len text =
    if ltb len (length text)
    then assert (not (len == 0)) >> ok (take (sub_usize len 1) text ++ 0 ∷ [])
    else ok (text ++ replicate (sub_usize len (length text)) 0)

-- A truncated value must be terminated with zero.
unfoldable pub is_accepted : List ℕ → Indicator → Bool
is_accepted buf Indicator.null = true
is_accepted buf Indicator.no_total = not (lacks_zero buf)
is_accepted buf (Indicator.length len) = not (ltb (length buf) len && lacks_zero buf)

-- the arms of `is_complete`
unfoldable pub completes : List ℕ → Indicator → Bool
completes buf Indicator.null = true
completes buf Indicator.no_total = false
completes buf (Indicator.length len) = ltb len (length buf) || lacks_zero buf

-- the arms of `as_bytes`
unfoldable pub bytes_of : List ℕ → Indicator → Run Cell
unfolding completes
bytes_of buf Indicator.null = ok none
bytes_of buf Indicator.no_total = map_run some (slice buf 0 (sub_usize (length buf) 1))
bytes_of buf (Indicator.length len) =
    if completes buf (Indicator.length len)
    then map_run some (slice buf 0 len)
    else map_run some (slice buf 0 (sub_usize (length buf) 1))

-- `VarCharArray::new`, for a buffer of `len` bytes
unfoldable pub new : ℕ → List ℕ → Run VarChar
unfolding filled
new len text = do
  indicator ← to_isize (length text)
  buffer ← filled len text
  ok (record { buffer = buffer; indicator = indicator })

module _ ⦃s : OdbcSys⦄ where
  unfoldable pub from_buffer : List ℕ → Indicator → Run VarChar
  unfolding is_accepted
  from_buffer buffer indicator = do
    assert (is_accepted buffer indicator)
    ind ← into_isize indicator
    ok (record { buffer = buffer; indicator = ind })

  -- `VarCharBox::from_vec`, and `VarCharSlice::new`
  unfoldable pub from_vec : List ℕ → Run VarChar
  from_vec val = from_buffer val (Indicator.length (length val))

  -- `VarCharBox::null`
  unfoldable pub null : Run VarChar
  null = from_buffer (0 ∷ []) Indicator.null

  unfoldable pub is_complete : VarChar → Run Bool
  unfolding completes
  is_complete v = map_run (completes v.buffer) (from_isize v.indicator)

  unfoldable pub as_bytes : VarChar → Run Cell
  unfolding bytes_of
  as_bytes v = from_isize v.indicator >>= bytes_of v.buffer

  unfoldable pub hide_truncation : VarChar → Run VarChar
  unfolding is_complete
  hide_truncation v = do
    complete ← is_complete v
    (if complete then ok v else do
      indicator ← to_isize (sub_usize (length v.buffer) 1)
      ok (record v { indicator = indicator }))

abbrev pub buffer_length : VarChar → Run ℤ
buffer_length v = to_isize (length v.buffer)

abbrev pub data_type : VarChar → DataType
data_type v = DataType.varchar (length v.buffer)
