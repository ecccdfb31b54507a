-- ===== src/Connection/Fetched.antt =====
-- A text that the connection tells is fetched whole.
use Prim.Native.String.{String}
use odbc_api.Common.{
  ℕ, ◌+◌, ◌*◌, ◌/◌, ◌≤◌, ◌≡◌, List, length, ltb, if◌then◌else◌, Vec, Reserve, resize_zeroed,
}
use odbc_api.Sql.{SqlReturn}
use odbc_api.Diagnostics.Text.{written}

-- What ODBC documents of such a call: it tells the length of the text in bytes, without the
-- terminating zero, and cuts the text off where it does not fit.
pub record Tells (ask : List ℕ → ℕ → SqlReturn × List ℕ × ℕ) (text : List ℕ) : Type 0 where
  pub answers :
      (buffer : List ℕ) (len : ℕ)
      → len ≤ length buffer
      → ask buffer (len * 2) ≡ (
        (if ltb (length text) len then SqlReturn.success else SqlReturn.success_with_info),
        written len text buffer,
        length text * 2,
      )

module _ ⦃r : Reserve⦄ (largest : ℕ) (function : String) (ask : List ℕ → ℕ → SqlReturn × List ℕ × ℕ)
    {text : List ℕ} (h : Tells ask text) (short : length text * 2 + 2 ≤ largest) where
  abbrev filled_of : Vec → Vec
  filled_of buf = record buf { elements = written (length buf.elements) text buf.elements }

  abbrev text_in : Vec → Vec
  text_in buf = resize_zeroed (filled_of buf) (length text)

  -- The first call is given all of the capacity, the second one room for the text.
  abbrev first_buffer : Vec → Vec
  first_buffer buf = resize_zeroed buf buf.capacity

  abbrev second_buffer : Vec → Vec
  second_buffer buf = resize_zeroed (filled_of (first_buffer buf)) (length text * 2 / 2 + 1)
