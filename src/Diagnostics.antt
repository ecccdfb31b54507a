-- ===== src/Diagnostics.antt =====
-- handles/diagnostics.rs and handles/logging.rs: reading the diagnostic records of a handle.
pub mod Text
pub mod State
pub mod Message
mod Tests
use odbc_api.Common.{
  ℕ, zero, suc, ◌+◌, ◌%◌, min, map, List, [], ◌∷◌, ℤ, Bool, true, false, Option, none, some, ok,
  panic, ◌>>=◌, ◌>>◌, assert, map_run, index, take, to_usize, replicate, pos, length, ltb, ◌==◌,
  if◌then◌else◌, Vec, Reserve, resize_zeroed, empty_vec,
}
use odbc_api.Common.Panics.{Run}
use odbc_api.Sql.{SqlReturn, Record}

-- `clamp_small_int` of handles/buffer.rs: at most `i16::MAX`
abbrev pub clamp_small_int : ℕ → ℕ
clamp_small_int n = min n 32767

-- `SQLSTATE_SIZE`
abbrev sqlstate_size : ℕ
sqlstate_size = 5

-- What `SQLGetDiagRecW` returns and writes. The buffer for the text comes back.
pub record DiagRec : Type 0 where
  pub ret : SqlReturn
  pub state : List ℕ
  pub native_error : ℤ
  pub message_text : List ℕ
  pub text_length : ℤ

-- The function for one handle. It is given the number, the buffer and the buffer's length.
pub record DiagApi : Type 0 where
  pub sql_get_diag_rec : ℕ → List ℕ → ℕ → DiagRec

-- `State::from_wide_chars_with_nul`; `as u8` keeps the lower byte.
unfoldable pub from_wide_chars_with_nul : List ℕ → List ℕ
from_wide_chars_with_nul code = map (λ letter. letter % 256) (take sqlstate_size code)

pub record DiagnosticResult : Type 0 where
  pub state : List ℕ
  pub native_error : ℤ

-- `Record`, with the capacity of its message
pub record RecordBuffer : Type 0 where
  pub state : List ℕ
  pub native_error : ℤ
  pub message : Vec

abbrev pub logged_record : RecordBuffer → Record
logged_record rec = record {
  state = rec.state;
  native_error = rec.native_error;
  message = rec.message.elements;
}

-- `Record::default()`
abbrev pub empty_record : RecordBuffer
empty_record = record {
  state = replicate sqlstate_size 0;
  native_error = pos 0;
  message = empty_vec;
}

-- The loop that steps back over zeros at the end of the text
unfoldable pub without_padding : List ℕ → ℕ → Run ℕ
without_padding message_text zero = ok 0
without_padding message_text (suc n) = do
  let shorter = without_padding message_text n
  letter ← index message_text n
  if letter == 0 then shorter else ok (suc n)

module _ ⦃r : Reserve⦄ (api : DiagApi) where
  -- The arms of `match ret`
  unfoldable pub answered :
      (ℕ → Vec → Run (Option DiagnosticResult × Vec))
      → DiagnosticResult
      → SqlReturn
      → ℕ
      → ℕ
      → Vec
      → Run (Option DiagnosticResult × Vec)
  unfolding without_padding
  answered again result SqlReturn.no_data rec_number text_length message_text =
      ok (none, message_text)
  answered again result SqlReturn.need_data rec_number text_length message_text = panic
  answered again result SqlReturn.error rec_number text_length message_text = panic
  answered again result (SqlReturn.other_value code) rec_number text_length message_text = panic
  answered again result _ rec_number text_length message_text =
      if ltb (length message_text.elements) text_length
      then again rec_number (resize_zeroed message_text (text_length + 1))
      else do
        exact ← without_padding message_text.elements text_length
        ok (some result, resize_zeroed message_text exact)

  -- The recursion is on fuel. One that goes deeper is a panic here.
  unfoldable pub diagnostics : ℕ → ℕ → Vec → Run (Option DiagnosticResult × Vec)
  unfolding answered from_wide_chars_with_nul
  diagnostics zero rec_number message_text = panic
  diagnostics (suc fuel) rec_number message_text = do
    assert (ltb 0 rec_number)
    let buffer : Vec = resize_zeroed message_text message_text.capacity
    let answer : DiagRec =
        api.sql_get_diag_rec rec_number buffer.elements (clamp_small_int (length buffer.elements))
    let result : DiagnosticResult = record {
      state = from_wide_chars_with_nul answer.state;
      native_error = answer.native_error;
    }
    text_length ← to_usize answer.text_length
    answered (diagnostics fuel) result answer.ret rec_number text_length
        (record buffer { elements = answer.message_text })

  -- `Record::fill_from`, and whether there was a record
  unfoldable pub fill_from : ℕ → ℕ → RecordBuffer → Run (Bool × RecordBuffer)
  unfolding diagnostics
  fill_from fuel record_number rec = do
    answer ← diagnostics fuel record_number rec.message
    elim answer.0 [
      | some result ↦ ok (
        true,
        record { state = result.state; native_error = result.native_error; message = answer.1 },
      )
      | none ↦ ok (false, record rec { message = answer.1 })
    ]

  -- The loop of `log_diagnostics`, with the records that it logs. The first argument is the
  -- fuel of the loop, which ends at the number `i16::MAX`.
  unfoldable pub log_records : ℕ → ℕ → ℕ → RecordBuffer → Run (List Record)
  unfolding fill_from
  log_records zero fuel rec_number rec = panic
  log_records (suc rounds) fuel rec_number rec = do
    filled ← fill_from fuel rec_number rec
    let rest = log_records rounds fuel (rec_number + 1) filled.1
    let logged : Record = logged_record filled.1
    (if filled.0
        then if rec_number == 32767
          then ok (logged ∷ [])
          else (do records ← rest; ok (logged ∷ records))
        else ok [])

  unfoldable pub log_diagnostics : ℕ → ℕ → Run (List Record)
  unfolding log_records
  log_diagnostics rounds fuel = log_records rounds fuel 1 empty_record
