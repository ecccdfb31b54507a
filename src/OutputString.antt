-- ===== src/OutputString.antt =====
-- `OutputStringBuffer` of handles/buffer.rs: a buffer for a text that the driver gives out.
pub mod Filled
mod Tests
use odbc_api.Common.{
  ℕ, List, ℤ, pos, Bool, Option, ok, panic, ◌>>=◌, ◌>>◌, assert, unwrap, to_usize, alloc, length,
  leb, add_usize, sub_usize,
}
use odbc_api.Common.Panics.{Run}
use odbc_api.Environment.Texts.{from_slice_truncate}

pub record OutputStringBuffer : Type 0 where
  pub buffer : List ℕ
  pub actual_length : ℤ

unfoldable pub with_buffer_size : ℕ → Run OutputStringBuffer
with_buffer_size max_str_len = do
  buffer ← alloc 2 (add_usize max_str_len 1) 0
  ok (record { buffer = buffer; actual_length = pos 0 })

-- One less than the length, which is to fit an `i16`
unfoldable pub buf_len : OutputStringBuffer → Run ℕ
buf_len osb = let len = sub_usize (length osb.buffer) 1 in assert (leb len 32767) >> ok len

unfoldable pub as_ucstr : OutputStringBuffer → Run (List ℕ)
unfolding from_slice_truncate
as_ucstr osb = unwrap (from_slice_truncate osb.buffer)

-- The conversion from UTF-16 is that of `widestring`.
unfoldable pub to_utf8 : {Text : Type 0} → (List ℕ → Option Text) → OutputStringBuffer → Run Text
unfolding as_ucstr
to_utf8 decode osb = do text ← as_ucstr osb; unwrap (decode text)

unfoldable pub is_truncated : OutputStringBuffer → Run Bool
is_truncated osb = do len ← to_usize osb.actual_length; ok (leb (length osb.buffer) len)
