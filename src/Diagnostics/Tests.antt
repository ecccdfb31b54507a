-- ===== src/Diagnostics/Tests.antt =====
-- A handle with one record: the theorem at inputs that meet its hypotheses, and runs.
use odbc_api.Common.{
  ℕ, ◌≡◌, refl, List, [], ◌∷◌, some, pos, negsuc, ok, arith, ltb, length, if◌then◌else◌, Vec,
  Reserve, ◌==◌,
}
use odbc_api.Sql.{SqlReturn}
use odbc_api.Diagnostics.{DiagApi, diagnostics, log_diagnostics, from_wide_chars_with_nul}
use odbc_api.Diagnostics.Text.{written}
use odbc_api.Diagnostics.Message.{HasRecord, diagnostics_lem}

instance abbrev exact : Reserve
exact = record { capacity_for = λ n. n; le_capacity_for = λ n. omega arith }

abbrev text : List ℕ
text = 70 ∷ 97 ∷ 105 ∷ 108 ∷ []

abbrev state : List ℕ
state = 48 ∷ 49 ∷ 48 ∷ 48 ∷ 48 ∷ 0 ∷ []

-- A handle with this record under number 1, and no other
abbrev api : DiagApi
api = record {
  sql_get_diag_rec = λ rec_number buffer len. record {
    ret =
        if rec_number == 1
        then if ltb (length text) len then SqlReturn.success else SqlReturn.success_with_info
        else SqlReturn.no_data;
    state = state;
    native_error = negsuc 6;
    message_text = if rec_number == 1 then written len text buffer else buffer;
    text_length = if rec_number == 1 then pos (length text) else pos 0;
  };
}

api-HasRecord : HasRecord api 1 state (negsuc 6) text
api-HasRecord = record { answers = λ buffer len h. refl }

-- Into a buffer of four characters
diagnostics_lem_example :
    (v : Vec) × (diagnostics api 2 1 (record { capacity = 4; elements = [] })
      ≡ ok (some (record { state = from_wide_chars_with_nul state; native_error = negsuc 6 }), v))
    × (v.elements ≡ 70 ∷ 97 ∷ 105 ∷ [])
diagnostics_lem_example =
    diagnostics_lem api (omega arith) api-HasRecord 0 (record { capacity = 4; elements = [] })
      (omega arith) (λ e. absurd (omega (arith, e)))

logged :
    log_diagnostics api 2 2
    ≡ ok (
        record { state = 48 ∷ 49 ∷ 48 ∷ 48 ∷ 48 ∷ []; native_error = negsuc 6; message = text }
        ∷ [])
unfolding log_diagnostics diagnostics
logged = refl
