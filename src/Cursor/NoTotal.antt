-- ===== src/Cursor/NoTotal.antt =====
-- `get_text` where the driver does not tell the length of what it cuts off in the first call.
use odbc_api.Common.{
  ℕ, suc, ◌+◌, ◌-◌, ◌*◌, ◌≤◌, ◌<◌, ◌≡◌, ap, sym, ◌∙◌, List, [], ◌∷◌, ◌++◌, true, false, some, ok,
  length, take, drop, resize, max, mul_usize_lem, sub_usize_lem, length-append, length-take,
  length-drop, take-append-drop, isize_max, arith,
}
use mathlib.Core.List.{append_assoc}
use odbc_api.Indicator.{OdbcSys, no_total_data}
use odbc_api.Indicator.Laws.{from_isize-no_total}
use odbc_api.Sql.{Result}
use odbc_api.Statement.{Driver, ◌>>=◌}
use odbc_api.Cursor.{text_loop, get_text}
use odbc_api.Cursor.Source.{TextSource, fetch_all}
use odbc_api.Cursor.Loop.{length-resize, take-resize, resize_vec_ok, text_loop_done}
use odbc_api.Cursor.Refetch.{take-all_first}
use odbc_api.Cursor.GetText.{get_text-first, cut, length-cut, take-cut, pending_rest, fetch_cut}

module _ {S : Type 0} (d : Driver S) ⦃sys : OdbcSys⦄ (col : ℕ) (src : TextSource d col)
    (s : S) where
  -- The buffer after the second call, whose target is the doubled buffer from its old zero on.
  abbrev doubled : List ℕ → List ℕ → List ℕ
  doubled buf v =
      let grown = resize buf (length buf * 2) 0 in
      take (length buf - 1) grown ++ (v ++ 0 ∷ drop (length v + 1) (drop (length buf - 1) grown))

  module _ (v buf : List ℕ) (hv : length v < length buf) (small : length buf * 2 ≤ isize_max) where
    length-doubled : length (doubled buf v) ≡ length buf * 2
    length-doubled =
        let grown = resize buf (length buf * 2) 0 in
        omega (
          arith,
          length-append (take (length buf - 1) grown)
              (v ++ 0 ∷ drop (length v + 1) (drop (length buf - 1) grown)),
          length-append v (0 ∷ drop (length v + 1) (drop (length buf - 1) grown)),
          length-take (length buf - 1) grown,
          length-drop (length v + 1) (drop (length buf - 1) grown),
          length-drop (length buf - 1) grown,
          length-resize buf (length buf * 2),
          hv,
        )

    -- The zero behind the value is kept.
    take-doubled :
        (n : ℕ)
        → n ≡ length buf + length v
        → take n (doubled buf v) ≡ take (length buf - 1) buf ++ (v ++ 0 ∷ [])
    take-doubled n e =
        let grown = resize buf (length buf * 2) 0 in
        let rest = drop (length v + 1) (drop (length buf - 1) grown) in
        ap (take n) (regroup (take (length buf - 1) grown) v rest)
        ∙ take-all_first (take (length buf - 1) grown ++ (v ++ 0 ∷ [])) rest n (
            omega (
              arith,
              e,
              hv,
              length-append (take (length buf - 1) grown) (v ++ 0 ∷ []),
              length-append v (0 ∷ []),
              length-take (length buf - 1) grown,
              length-resize buf (length buf * 2),
            ))
        ∙ ap (λ u. u ++ (v ++ 0 ∷ []))
            (take-resize (length buf - 1) buf (length buf * 2) (omega arith) (omega arith))
      where
        regroup : (xs ys zs : List ℕ) → xs ++ (ys ++ 0 ∷ zs) ≡ (xs ++ (ys ++ 0 ∷ [])) ++ zs
        regroup xs ys zs = simp append_assoc

    loop_doubled :
        (fuel : ℕ)
        → src.pending s ≡ some v
        → (s' : S) × (text_loop d col (suc (suc fuel)) buf (length buf) no_total_data s
            ≡ ok (Result.done (true, take (length buf - 1) buf ++ (v ++ 0 ∷ [])), s'))
    unfolding text_loop
    loop_doubled fuel e =
        let grown : List ℕ = resize buf (length buf * 2) 0 in
        let grown_len : length grown ≡ length buf * 2 = length-resize buf (length buf * 2) in
        let s' = src.next (length grown - (length buf - 1)) s in
        (
          s',
          rw
              (
                from_isize-no_total,
                mul_usize_lem (length buf) 2 (omega (arith, small)),
                resize_vec_ok buf (length buf * 2) small,
                sub_usize_lem (length buf) 1 (omega (arith, small)) (omega (arith, hv)),
                ◌>>=◌,
                fetch_all d col src grown (length buf - 1) s (omega (arith, grown_len)) v e
                    (omega (arith, grown_len, hv)),
              )
              (text_loop_done d col (doubled buf v) (rw length-doubled small) s' fuel (length v)
                  (length buf) hv (rw length-doubled (omega arith))
                ∙ ap (λ u. ok (Result.done (true, u), s'))
                    (take-doubled _ (omega (arith, length-doubled, hv)))),
        )

module _ {S : Type 0} (d : Driver S) ⦃sys : OdbcSys⦄ (col : ℕ) (src : TextSource d col)
    (s : S) where
  -- Where the first call cuts the value off without telling its length, the rest is shorter than the
  -- buffer was, and twice the buffer can be allocated, `get_text` returns the value with a zero
  -- behind it that is not part of it.
  pub get_text_no_total :
      (capacity : ℕ) (buf v : List ℕ) (fuel : ℕ)
      → src.pending s ≡ some v
      → src.knows_total s ≡ false
      → max 1 capacity ≤ length v
      → length v < max 1 capacity - 1 + max 1 capacity
      → max 1 capacity * 2 ≤ isize_max
      → (s' : S) × (get_text d col (suc (suc fuel)) capacity buf s
          ≡ ok (Result.done (true, v ++ 0 ∷ []), s'))
  get_text_no_total capacity buf v fuel e unknown cut_off short room =
      let small : max 1 capacity ≤ isize_max = omega (arith, room) in
      let n : ℕ = max 1 capacity in
      let start : List ℕ = cut d col src s capacity buf small v in
      let start_len : length start ≡ n = length-cut d col src s capacity buf small v e cut_off in
      let rest : List ℕ = drop (n - 1) v in
      let rest_len : length rest ≡ length v - (n - 1) = length-drop (n - 1) v in
      let (s', e') =
        loop_doubled d col src (src.next n s) rest start (omega (arith, start_len, rest_len, short))
          (omega (arith, start_len, room)) fuel
          (pending_rest d col src s capacity buf small v e cut_off) in
      (
        s',
        get_text-first d col src s capacity buf small (suc (suc fuel)) start no_total_data
              (src.next n s) (fetch_cut d col src s capacity buf small v e cut_off ∙ rw unknown)
            ∙ ap (λ k. text_loop d col (suc (suc fuel)) start k no_total_data (src.next n s))
                (sym start_len)
            ∙ e'
            ∙ ap (λ u. ok (Result.done (true, u), s'))
                (ap (λ u. u ++ (rest ++ 0 ∷ []))
                    (take-cut d col src s capacity buf small v e cut_off _
                      (omega (arith, start_len)))
                  ∙ sym (append_assoc (take (n - 1) v) rest (0 ∷ []))
                  ∙ ap (λ u. u ++ 0 ∷ []) (take-append-drop (n - 1) v)),
      )
