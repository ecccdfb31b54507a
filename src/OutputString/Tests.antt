-- ===== src/OutputString/Tests.antt =====
-- A text of three characters in a buffer for three.
use odbc_api.Common.{ℕ, ◌-◌, ◌≡◌, refl, List, [], ◌∷◌, false, ok, take, length, ltb, arith}
use odbc_api.Environment.Texts.{from_slice_truncate}
use odbc_api.Environment.Infos.{first_part}
use odbc_api.OutputString.{OutputStringBuffer, with_buffer_size, buf_len, as_ucstr, is_truncated}
use odbc_api.OutputString.Filled.{empty_buffer, filled_by, output_lem}

abbrev text : List ℕ
text = 65 ∷ 66 ∷ 67 ∷ []

output_lem_example :
    (osb : OutputStringBuffer) × (with_buffer_size 3 ≡ ok osb)
    × (buf_len osb ≡ ok 3)
    × (as_ucstr (filled_by 3 text osb) ≡ ok (first_part (take (3 - 1) text)))
    × (is_truncated (filled_by 3 text osb) ≡ ok (ltb 3 (length text)))
output_lem_example = output_lem 3 text (omega arith)

-- The last character is missing, and nothing tells so.
last_missing :
    (as_ucstr (filled_by 3 text (empty_buffer 3)) ≡ ok (65 ∷ 66 ∷ []))
    × (is_truncated (filled_by 3 text (empty_buffer 3)) ≡ ok false)
unfolding as_ucstr from_slice_truncate is_truncated
last_missing = (refl, refl)
