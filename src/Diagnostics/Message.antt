-- ===== src/Diagnostics/Message.antt =====
-- The message that `diagnostics` reads from a driver that has a record with a text.
use odbc_api.Common.{
  ℕ, zero, suc, ◌+◌, ◌-◌, ◌≤◌, ◌<◌, ◌≡◌, ◌≢◌, refl, ap, ◌∙◌, min, List, [], ◌∷◌, ◌++◌, ℤ, pos, Bool,
  true, false, Option, some, ok, take, length, overwrite, ltb, ◌==◌, if◌then◌else◌, Vec, Reserve,
  resize_zeroed, resize, arith, length-take, lt→ltb, le→leb, ==_iff,
}
use mathlib.Core.Path.{subst}
use native.Mathlib.Decide.{dec_lt}
use odbc_api.Common.Panics.{Run}
use odbc_api.Sql.{SqlReturn}
use odbc_api.Diagnostics.{
  DiagApi, DiagnosticResult, from_wide_chars_with_nul, without_padding, answered, diagnostics,
}
use odbc_api.Diagnostics.Text.{
  written, IsUnpadded, read_text, without_padding_lem, without_terminator, length-resize,
  take_whole, length-written, resize_zeroed-capacity,
}

-- The driver has this record under this number. It tells the text's length without the terminating
-- zero, and that it cut off a text that does not fit.
pub record HasRecord (api : DiagApi) (rec_number : ℕ) (state : List ℕ) (native_error : ℤ)
    (text : List ℕ) : Type 0 where
  pub answers :
      (buffer : List ℕ) (len : ℕ)
      → len ≤ length buffer
      → api.sql_get_diag_rec rec_number buffer len ≡ record {
        ret = if ltb (length text) len then SqlReturn.success else SqlReturn.success_with_info;
        state = state;
        native_error = native_error;
        message_text = written len text buffer;
        text_length = pos (length text);
      }

module _ ⦃r : Reserve⦄ (api : DiagApi) where
  -- Both codes that come with a record are treated the same.
  either_answer :
      (again : ℕ → Vec → Run (Option DiagnosticResult × Vec)) (result : DiagnosticResult) (b : Bool)
      (rec_number text_length : ℕ) (filled : Vec)
      → answered api again result
          (if b then SqlReturn.success else SqlReturn.success_with_info)
          rec_number
          text_length
          filled
        ≡ answered api again result SqlReturn.success rec_number text_length filled
  unfolding answered
  either_answer again result true rec_number text_length filled = refl
  either_answer again result false rec_number text_length filled = refl

  -- Where the buffer holds at least the length that the driver told
  answered_whole :
      (again : ℕ → Vec → Run (Option DiagnosticResult × Vec)) (result : DiagnosticResult)
      (rec_number text_length : ℕ) (filled : Vec) (text : List ℕ)
      → text_length ≤ length filled.elements
      → without_padding filled.elements text_length ≡ ok (length text)
      → length text ≤ length filled.elements
      → take (length text) filled.elements ≡ text
      → (v : Vec) × (answered api again result SqlReturn.success rec_number text_length filled
          ≡ ok (some result, v))
        × (v.elements ≡ text)
  unfolding answered
  answered_whole again result rec_number text_length filled text h e l t =
      let enough : ltb (length filled.elements) text_length ≡ false = ground arith in
      (
        resize_zeroed filled (length text),
        rw (enough, e),
        rw (le→leb (length text) (length filled.elements) l) t,
      )

  module _ {rec_number : ℕ} {state : List ℕ} {native_error : ℤ} {text : List ℕ}
      (number : 0 < rec_number) (h : HasRecord api rec_number state native_error text) where
    -- What is told of the record
    abbrev pub told : DiagnosticResult
    told = record { state = from_wide_chars_with_nul state; native_error = native_error }

    abbrev buffer_of : Vec → Vec
    buffer_of m = resize_zeroed m m.capacity

    abbrev filled_of : Vec → Vec
    filled_of m = record (buffer_of m) {
      elements = written (min m.capacity 32767) text (buffer_of m).elements;
    }

    one_call :
        (fuel : ℕ) (m : Vec)
        → diagnostics api (suc fuel) rec_number m
          ≡ answered api
              (diagnostics api fuel)
              told
              SqlReturn.success
              rec_number
              (length text)
              (filled_of m)
    unfolding diagnostics
    one_call fuel m =
        rw
          (
            lt→ltb 0 rec_number number,
            length-resize m.elements m.capacity,
            h.answers (resize m.elements m.capacity 0) (min m.capacity 32767)
                (omega (arith, length-resize m.elements m.capacity)),
          )
          (either_answer (diagnostics api fuel) told (ltb (length text) (min m.capacity 32767))
            rec_number (length text) (filled_of m))

    -- The buffer has room for the text and the zero behind it.
    fits :
        (fuel : ℕ) (m : Vec)
        → length text < m.capacity
        → length text < 32767
        → IsUnpadded text
        → (v : Vec) × (diagnostics api (suc fuel) rec_number m ≡ ok (some told, v))
          × (v.elements ≡ text)
    fits fuel m hc ht u =
        let filled : List ℕ = (filled_of m).elements in
        let len : length filled ≡ m.capacity =
          length-written (min m.capacity 32767) text (buffer_of m).elements
          ∙ length-resize m.elements m.capacity in
        let reads : take (length text) filled ≡ text =
          take_whole text (buffer_of m).elements (min m.capacity 32767) (omega (arith, hc, ht))
            (omega (arith, length-resize m.elements m.capacity)) in
        let (v, e, same) =
          answered_whole (diagnostics api fuel) told rec_number (length text) (filled_of m) text
            (omega (arith, hc, len)) (without_padding_lem text filled u reads)
            (omega (arith, hc, len)) reads in
        (v, one_call fuel m ∙ e, same)

    -- The buffer is too short, and the second call finds one that is longer than the text.
    retried :
        (fuel : ℕ) (m : Vec)
        → m.capacity < length text
        → length text < 32767
        → IsUnpadded text
        → (v : Vec) × (diagnostics api (suc (suc fuel)) rec_number m ≡ ok (some told, v))
          × (v.elements ≡ text)
    unfolding answered
    retried fuel m hc ht u =
        let len : length (filled_of m).elements ≡ m.capacity =
          length-written (min m.capacity 32767) text (buffer_of m).elements
          ∙ length-resize m.elements m.capacity in
        let short : ltb (length (filled_of m).elements) (length text) ≡ true =
          lt→ltb (length (filled_of m).elements) (length text) (omega (arith, hc, len)) in
        let longer : Vec = resize_zeroed (filled_of m) (length text + 1) in
        let (v, e, same) =
          fits fuel longer (omega (arith, resize_zeroed-capacity (filled_of m) (length text + 1)))
            ht u in
        (v, one_call (suc fuel) m ∙ rw short e, same)

    -- The buffer has room for the text, but not for the zero behind it.
    cut_off :
        (fuel n : ℕ) (m : Vec)
        → m.capacity ≡ suc n
        → length text ≡ suc n
        → length text < 32767
        → IsUnpadded (take n text)
        → (v : Vec) × (diagnostics api (suc fuel) rec_number m ≡ ok (some told, v))
          × (v.elements ≡ take n text)
    cut_off fuel n m hc hl ht u =
        let buffer : List ℕ = (buffer_of m).elements in
        let size : length buffer ≡ suc n = length-resize m.elements m.capacity ∙ hc in
        let kept : length (take n text) ≡ n = omega (arith, length-take n text, hl) in
        let all : min m.capacity 32767 ≡ suc n = omega (arith, hc, hl, ht) in
        let len : length (filled_of m).elements ≡ suc n =
          length-written (min m.capacity 32767) text buffer ∙ size in
        let filled : (filled_of m).elements ≡ overwrite buffer 0 (take n text ++ 0 ∷ []) =
          ap (λ k. written k text buffer) all in
        let (reads, stripped) =
          without_terminator (take n text) buffer (filled_of m).elements (omega (arith, kept, size))
            filled u in
        let told_length : length text ≡ suc (length (take n text)) = omega (arith, hl, kept) in
        let (v, e, same) =
          answered_whole (diagnostics api fuel) told rec_number (length text) (filled_of m)
            (take n text) (omega (arith, hl, len)) (rw told_length stripped)
            (omega (arith, kept, len)) reads in
        (v, one_call fuel m ∙ e, same)

    -- There is no text, and no room for one.
    empty :
        (fuel : ℕ) (m : Vec)
        → length text ≡ 0
        → (v : Vec) × (diagnostics api (suc fuel) rec_number m ≡ ok (some told, v))
          × (v.elements ≡ [])
    unfolding without_padding
    empty fuel m hl =
        let (v, e, same) =
          answered_whole (diagnostics api fuel) told rec_number (length text) (filled_of m) []
            (omega (arith, hl)) (rw hl) (omega arith) refl in
        (v, one_call fuel m ∙ e, same)

    as_long :
        (fuel n : ℕ) (m : Vec)
        → m.capacity ≡ n
        → length text ≡ n
        → length text < 32767
        → IsUnpadded (take (n - 1) text)
        → (v : Vec) × (diagnostics api (suc fuel) rec_number m ≡ ok (some told, v))
          × (v.elements ≡ take (n - 1) text)
    as_long fuel zero m hc hl ht u = empty fuel m hl
    as_long fuel (suc n) m hc hl ht u =
        let same : suc n - 1 ≡ n = omega arith in
        rw same (cut_off fuel n m hc hl ht (subst (λ k. IsUnpadded (take k text)) same u))

    not_as_long :
        (fuel : ℕ) (m : Vec)
        → m.capacity ≢ length text
        → length text < 32767
        → IsUnpadded text
        → (v : Vec) × (diagnostics api (suc (suc fuel)) rec_number m ≡ ok (some told, v))
          × (v.elements ≡ text)
    not_as_long fuel m ne ht u = elim (dec_lt (length text) m.capacity) [
      | yes lt ↦ fits (suc fuel) m lt ht u
      | no ge ↦ retried fuel m (omega (arith, ge, ne)) ht u
    ]

    -- A record with a text below 2 ^ 15 - 1 characters is read in at most two calls, whatever the
    -- capacity of the buffer and however far it grows: `diagnostics` does not panic, and gives the
    -- state, the native error and the text, unless the text is as long as the capacity, in which
    -- case its last character is missing. What is read must not end with a zero.
    pub diagnostics_lem :
        (fuel : ℕ) (m : Vec)
        → length text < 32767
        → IsUnpadded (read_text m.capacity text)
        → (v : Vec) × (diagnostics api (suc (suc fuel)) rec_number m ≡ ok (some told, v))
          × (v.elements ≡ read_text m.capacity text)
    diagnostics_lem fuel m ht u = by_length (m.capacity == length text) refl u
      where
        by_length :
            (b : Bool)
            → (m.capacity == length text) ≡ b
            → IsUnpadded (if b then take (length text - 1) text else text)
            → (v : Vec) × (diagnostics api (suc (suc fuel)) rec_number m ≡ ok (some told, v))
              × (v.elements ≡ (if b then take (length text - 1) text else text))
        by_length true e u =
            as_long (suc fuel) (length text) m ((==_iff m.capacity (length text)).0 e) refl ht u
        by_length false e u = not_as_long fuel m (ground arith) ht u
