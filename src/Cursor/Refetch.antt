-- ===== src/Cursor/Refetch.antt =====
-- The round of `get_text` that fetches what did not fit, where the driver told how long it is.
use odbc_api.Common.{
  ℕ, suc, ◌+◌, ◌-◌, ◌≤◌, ◌<◌, ◌≡◌, ap, sym, ◌∙◌, ℤ, pos, List, ◌∷◌, ◌++◌, Bool, true, false, some,
  ok, length, take, drop, resize, ltb, add_usize, sub_usize, add_usize_lem, sub_usize_lem,
  length-append, length-take, length-drop, take_append, isize_max, arith,
}
use mathlib.Core.List.{append_assoc}
use odbc_api.Common.Panics.{Run}
use odbc_api.Indicator.{OdbcSys}
use odbc_api.Indicator.Laws.{from_isize-pos}
use odbc_api.Sql.{Result}
use odbc_api.Statement.{Driver, ◌>>=◌}
use odbc_api.Cursor.{refetch, text_loop}
use odbc_api.Cursor.Source.{TextSource, fetch_all}
use odbc_api.Cursor.Loop.{length-resize, take-resize, resize_vec_ok, text_loop_done}

pub take-all_first : (v rest : List ℕ) (n : ℕ) → n ≡ length v → take n (v ++ rest) ≡ v
take-all_first v rest n e = ap (λ k. take k (v ++ rest)) e ∙ take_append v rest

module _ {S : Type 0} (d : Driver S) ⦃sys : OdbcSys⦄ (col : ℕ) (src : TextSource d col)
    (s : S) where
  -- The buffer after the last call of `get_data`, whose target lies over the zero at its end.
  abbrev completed : List ℕ → List ℕ → List ℕ
  completed buf v =
      let grown = resize buf (length buf + length v) 0 in
      take (length buf - 1) grown ++ (v ++ 0 ∷ drop (length v + 1) (drop (length buf - 1) grown))

  module _ (v buf : List ℕ) (hb : 0 < length buf) (small : length buf + length v ≤ isize_max) where
    length-completed : length (completed buf v) ≡ length buf + length v
    length-completed =
        let grown = resize buf (length buf + length v) 0 in
        omega (
          arith,
          length-append (take (length buf - 1) grown)
              (v ++ 0 ∷ drop (length v + 1) (drop (length buf - 1) grown)),
          length-append v (0 ∷ drop (length v + 1) (drop (length buf - 1) grown)),
          length-take (length buf - 1) grown,
          length-drop (length v + 1) (drop (length buf - 1) grown),
          length-drop (length buf - 1) grown,
          length-resize buf (length buf + length v),
          hb,
        )

    take-completed :
        (n : ℕ)
        → n ≡ length buf - 1 + length v
        → take n (completed buf v) ≡ take (length buf - 1) buf ++ v
    take-completed n e =
        let grown = resize buf (length buf + length v) 0 in
        ap (take n) (
          sym (
            append_assoc (take (length buf - 1) grown) v
              (0 ∷ drop (length v + 1) (drop (length buf - 1) grown))))
        ∙ take-all_first (take (length buf - 1) grown ++ v) _ n (
            omega (
              arith,
              e,
              length-append (take (length buf - 1) grown) v,
              length-take (length buf - 1) grown,
              length-resize buf (length buf + length v),
            ))
        ∙ ap (λ u. u ++ v)
            (take-resize (length buf - 1) buf (length buf + length v) (omega arith) (omega arith))

    refetch_lem :
        (again : List ℕ → ℕ → ℤ → S → Run (Result (Bool × List ℕ) × S))
        → src.pending s ≡ some v
        → refetch d col again buf (length v) 1 s
          ≡ again
              (completed buf v)
              (length v + 1)
              (pos (length v))
              (src.next (length (resize buf (length buf + length v) 0) - (length buf - 1)) s)
    unfolding refetch
    refetch_lem again e =
        let grown : List ℕ = resize buf (length buf + length v) 0 in
        let grown_len : length grown ≡ length buf + length v =
          length-resize buf (length buf + length v) in
        rw (
          add_usize_lem (length buf) (length v) (omega (arith, small)),
          resize_vec_ok buf (length buf + length v) small,
          sub_usize_lem (length buf) 1 (omega (arith, small)) (omega (arith, hb)),
          ◌>>=◌,
          fetch_all d col src grown (length buf - 1) s (omega (arith, grown_len)) v e
              (omega (arith, grown_len, hb)),
          add_usize_lem (length v) 1 (omega (arith, small, hb)),
        )

    -- Once the driver has told the length of a value that did not fit, one more call completes it.
    pub refetch_rest :
        (fuel len : ℕ)
        → src.pending s ≡ some v
        → len ≡ length buf - 1 + length v
        → 1 ≤ length v
        → (s' : S) × (text_loop d col (suc (suc fuel)) buf (length buf) (pos len) s
            ≡ ok (Result.done (true, take (length buf - 1) buf ++ v), s'))
    unfolding text_loop
    refetch_rest fuel len e el hv =
        let longer : ltb len (length buf) ≡ false = ground arith in
        let missing : add_usize (sub_usize len (length buf)) 1 ≡ length v =
          ap (λ n. add_usize n 1)
            (sub_usize_lem len (length buf) (omega (arith, small)) (omega (arith, hb)))
          ∙ add_usize_lem (len - length buf) 1 (omega (arith, small))
          ∙ omega (arith, hb) in
        let s' = src.next (length (resize buf (length buf + length v) 0) - (length buf - 1)) s in
        (
          s',
          rw (from_isize-pos len, longer)
              (ap (λ n. refetch d col (text_loop d col (suc fuel)) buf n 1 s) missing
                ∙ refetch_lem (text_loop d col (suc fuel)) e
                ∙ text_loop_done d col (completed buf v) (rw length-completed small) s' fuel
                    (length v) (length v + 1) (omega arith)
                    (rw length-completed (omega (arith, hb)))
                ∙ ap (λ u. ok (Result.done (true, u), s'))
                    (take-completed _ (omega (arith, length-completed, hb)))),
        )
