-- ===== src/VarBinary.antt =====
-- parameter/varbin.rs: a binary parameter, a buffer and an indicator. Where the value is longer than
-- the buffer, the buffer holds its beginning.
pub mod Laws
mod Tests
use odbc_api.Common.{
  ℕ, List, [], ◌∷◌, ◌++◌, none, some, ℤ, Bool, true, false, ok, ◌>>=◌, map_run, to_isize, slice,
  sub_usize, length, take, replicate, ltb, leb, if◌then◌else◌,
}
use odbc_api.Common.Panics.{Run}
use odbc_api.DataType.{DataType}
use odbc_api.Indicator.{OdbcSys, Indicator, from_isize, into_isize}
use odbc_api.TextColumn.{Cell}

pub record VarBinary : Type 0 where
  pub buffer : List ℕ
  pub indicator : ℤ

-- the arms of `is_complete`
unfoldable pub completes : List ℕ → Indicator → Bool
completes buf Indicator.null = true
completes buf Indicator.no_total = false
completes buf (Indicator.length len) = leb len (length buf)

-- the arms of `as_bytes`
unfoldable pub bytes_of : List ℕ → Indicator → Run Cell
unfolding completes
bytes_of buf Indicator.null = ok none
bytes_of buf Indicator.no_total = ok (some buf)
bytes_of buf (Indicator.length len) =
    if completes buf (Indicator.length len) then map_run some (slice buf 0 len) else ok (some buf)

-- `VarBinaryArray::new`, for a buffer of `len` bytes
unfoldable pub new : ℕ → List ℕ → Run VarBinary
new len bytes = do
  indicator ← to_isize (length bytes)
  (if ltb len (length bytes)
      then ok (record { buffer = take len bytes; indicator = indicator })
      else ok (record {
        buffer = bytes ++ replicate (sub_usize len (length bytes)) 0;
        indicator = indicator;
      }))

module _ ⦃s : OdbcSys⦄ where
  unfoldable pub from_buffer : List ℕ → Indicator → Run VarBinary
  from_buffer buffer indicator = do
    ind ← into_isize indicator
    ok (record { buffer = buffer; indicator = ind })

  -- `VarBinaryBox::from_vec`, and `VarBinarySlice::new`
  unfoldable pub from_vec : List ℕ → Run VarBinary
  from_vec val = from_buffer val (Indicator.length (length val))

  -- `VarBinaryBox::null`
  unfoldable pub null : Run VarBinary
  null = from_buffer (0 ∷ []) Indicator.null

  unfoldable pub is_complete : VarBinary → Run Bool
  unfolding completes
  is_complete v = map_run (completes v.buffer) (from_isize v.indicator)

  unfoldable pub as_bytes : VarBinary → Run Cell
  unfolding bytes_of
  as_bytes v = from_isize v.indicator >>= bytes_of v.buffer

  unfoldable pub hide_truncation : VarBinary → Run VarBinary
  unfolding is_complete
  hide_truncation v = do
    complete ← is_complete v
    (if complete
        then ok v
        else do indicator ← to_isize (length v.buffer); ok (record v { indicator = indicator }))

abbrev pub buffer_length : VarBinary → Run ℤ
buffer_length v = to_isize (length v.buffer)

abbrev pub data_type : VarBinary → DataType
data_type v = DataType.varbinary (length v.buffer)
