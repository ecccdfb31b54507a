-- ===== src/Cursor/Source.antt =====
-- SQLGetData, as documented: each call hands out the next part of the value of a column.
use odbc_api.Common.{
  ℕ, ◌+◌, ◌-◌, ◌≤◌, ◌<◌, ◌≡◌, refl, ap, ◌∙◌, ℤ, pos, List, [], ◌∷◌, ◌++◌, Bool, Option, none, some,
  ok, length, take, drop, take_all, slice, slice_ok, length-drop, arith, if◌then◌else◌, ◌⊎◌, inl,
  inr,
}
use odbc_api.Indicator.{OdbcSys, null_data, no_total_data}
use odbc_api.Sql.{SqlReturn, Result, into_sql_result, into_result, map_result}
use odbc_api.Statement.{Driver, get_data, ◌>>=◌}
use odbc_api.Cursor.{fetch_into}

-- `pending` is what the column has still to hand out, nothing for NULL. Where all of it fits, behind
-- it a text is terminated by zero. Otherwise the target is filled, a text with a terminating zero at
-- its end. The indicator tells the length of what was pending, if the driver knows it.
module _ ⦃sys : OdbcSys⦄ {S : Type 0} (d : Driver S) (col : ℕ) where
  pub record TextSource : Type 0 where
    pub pending : S → Option (List ℕ)
    pub knows_total : S → Bool
    pub next : ℕ → S → S
    pub gives_null :
        (target : List ℕ) (s : S)
        → pending s ≡ none
        → d.sql_get_data col target s
          ≡ (SqlReturn.success, target, null_data, next (length target) s)
    pub gives_all :
        (target v : List ℕ) (s : S)
        → pending s ≡ some v
        → length v < length target
        → d.sql_get_data col target s ≡ (
          SqlReturn.success,
          v ++ 0 ∷ drop (length v + 1) target,
          pos (length v),
          next (length target) s,
        )
    pub gives_part :
        (target v : List ℕ) (s : S)
        → pending s ≡ some v
        → 0 < length target
        → length target ≤ length v
        → d.sql_get_data col target s ≡ (
          SqlReturn.success_with_info,
          take (length target - 1) v ++ 0 ∷ [],
          (if knows_total s then pos (length v) else no_total_data),
          next (length target) s,
        )
    pub part_pending :
        (n : ℕ) (v : List ℕ) (s : S)
        → pending s ≡ some v
        → 0 < n
        → n ≤ length v
        → pending (next n s) ≡ some (drop (n - 1) v)

  module _ (src : TextSource) (buf : List ℕ) (from : ℕ) (s : S) (h : from ≤ length buf) where
    target_lem : slice buf from (length buf) ≡ ok (drop from buf)
    target_lem =
        slice_ok buf from (length buf - from) (length buf) (omega (arith, h)) (omega (arith, h))
        ∙ ap ok (take_all (length buf - from) (drop from buf) (omega (arith, length-drop from buf)))

    -- A call that succeeds leaves what the driver wrote behind `from`.
    fetch_success :
        (ret : SqlReturn) (target' : List ℕ) (indicator : ℤ) (s' : S)
        → d.sql_get_data col (drop from buf) s ≡ (ret, target', indicator, s')
        → (ret ≡ SqlReturn.success) ⊎ (ret ≡ SqlReturn.success_with_info)
        → fetch_into d col buf from s ≡ ok (Result.done (take from buf ++ target', indicator), s')
    unfolding fetch_into get_data into_sql_result into_result map_result
    fetch_success ret target' indicator s' e good =
        let e0 : (d.sql_get_data col (drop from buf) s).0 ≡ ret = ap (λ p. p.0) e in
        let e1 : (d.sql_get_data col (drop from buf) s).1 ≡ target' = ap (λ p. p.1) e in
        let e2 : (d.sql_get_data col (drop from buf) s).2 ≡ indicator = ap (λ p. p.2) e in
        let e3 : (d.sql_get_data col (drop from buf) s).3 ≡ s' = ap (λ p. p.3) e in
        elim good [
          | inl g ↦
              let e0' : (d.sql_get_data col (drop from buf) s).0 ≡ SqlReturn.success = e0 ∙ g in
              rw (target_lem, ◌>>=◌, get_data, e0', ◌>>=◌, e1, e2, e3)
          | inr g ↦
              let e0' : (d.sql_get_data col (drop from buf) s).0 ≡ SqlReturn.success_with_info =
                e0 ∙ g in
              rw (target_lem, ◌>>=◌, get_data, e0', ◌>>=◌, e1, e2, e3)
        ]

    pub fetch_all :
        (v : List ℕ)
        → src.pending s ≡ some v
        → from + length v < length buf
        → fetch_into d col buf from s
          ≡ ok (
            Result.done
                (take from buf ++ (v ++ 0 ∷ drop (length v + 1) (drop from buf)), pos (length v)),
            src.next (length buf - from) s,
          )
    fetch_all v e room =
        fetch_success _ _ _ _
          (src.gives_all (drop from buf) v s e (omega (arith, length-drop from buf, room)))
          (inl refl)
        ∙ ap
            (λ n. ok (
              Result.done
                  (take from buf ++ (v ++ 0 ∷ drop (length v + 1) (drop from buf)), pos (length v)),
              src.next n s,
            ))
            (length-drop from buf)

    pub fetch_part :
        (v : List ℕ)
        → src.pending s ≡ some v
        → from < length buf
        → length buf ≤ from + length v
        → fetch_into d col buf from s
          ≡ ok (
            Result.done (
              take from buf ++ (take (length buf - from - 1) v ++ 0 ∷ []),
              if src.knows_total s then pos (length v) else no_total_data,
            ),
            src.next (length buf - from) s,
          )
    fetch_part v e room full =
        fetch_success _ _ _ _
          (src.gives_part (drop from buf) v s e (omega (arith, length-drop from buf, room))
            (omega (arith, length-drop from buf, full)))
          (inr refl)
        ∙ ap
            (λ n. ok (
              Result.done (
                take from buf ++ (take (n - 1) v ++ 0 ∷ []),
                if src.knows_total s then pos (length v) else no_total_data,
              ),
              src.next n s,
            ))
            (length-drop from buf)

    pub fetch_null :
        src.pending s ≡ none
        → fetch_into d col buf from s
          ≡ ok (
            Result.done (take from buf ++ drop from buf, null_data),
            src.next (length buf - from) s,
          )
    fetch_null e =
        fetch_success _ _ _ _ (src.gives_null (drop from buf) s e) (inl refl)
        ∙ ap (λ n. ok (Result.done (take from buf ++ drop from buf, null_data), src.next n s))
            (length-drop from buf)
