-- ===== src/TextColumn/Append.antt =====
-- `append`: it makes room if the text is longer than the slots, and the earlier rows keep theirs.
use odbc_api.Common.{
  ℕ, ◌+◌, ◌/◌, ◌≤◌, ◌<◌, ◌≡◌, refl, ap, sym, ◌∙◌, min, List, some, false, ok, ltb, lt→ltb, length,
  take_all, map_run, arith, inl, inr, if◌then◌else◌, ◌*◌, Run-cases, length-take, drop, set,
}
use native.Mathlib.Decide.{dec_lt}
use odbc_api.Indicator.{OdbcSys, Indicator}
use odbc_api.Rows.Laws.{AreReadable}
use odbc_api.TextColumn.{
  Width, size_of, Growth, TextColumn, indicator_at, value_at, append, resize_max_str,
}
use odbc_api.TextColumn.Valid.{IsValid, stored, value_at_lem}
use odbc_api.TextColumn.Write.{append_fitting_lem, indicator_of}
use odbc_api.TextColumn.Resize.{CanHold, IsHeld, truncate, resize_max_str_ok, value_at-HasResized}

-- A row whose text was not cut off when it was written.
abbrev pub IsWhole : Width → ℕ → Indicator → Type 0
IsWhole w max_len Indicator.null = Unit
IsWhole w max_len Indicator.no_total = ⊥
IsWhole w max_len (Indicator.length n) = n / size_of w ≤ max_len

IsHeld-IsWhole :
    (w : Width) (old_max new_max : ℕ) (ind : Indicator)
    → IsWhole w old_max ind
    → IsHeld w old_max new_max ind
IsHeld-IsWhole w old_max new_max Indicator.null h = tt
IsHeld-IsWhole w old_max new_max Indicator.no_total h = absurd h
IsHeld-IsWhole w old_max new_max (Indicator.length n) h = omega (arith, h)

module _ ⦃s : OdbcSys⦄ {w : Width} {col : TextColumn} (v : IsValid w col) where
  -- A text of a valid column is not longer than the maximum.
  truncate-stored :
      (i m : ℕ) (ind : Indicator)
      → col.max_str_len ≤ m
      → truncate m (stored w col i ind) ≡ stored w col i ind
  truncate-stored i m Indicator.null h = refl
  truncate-stored i m Indicator.no_total h = ap some (
      take_all m _ (
        omega
          (arith, h, length-take col.max_str_len (drop (i * (col.max_str_len + 1)) col.values))))
  truncate-stored i m (Indicator.length n) h = ap some (
      take_all m _ (
        omega (
          arith,
          h,
          length-take (min col.max_str_len (n / size_of w))
              (drop (i * (col.max_str_len + 1)) col.values),
        )))

  truncate-value_at :
      (i m : ℕ) → col.max_str_len ≤ m → map_run (truncate m) (value_at w col i) ≡ value_at w col i
  truncate-value_at i m h = rw (value_at_lem v i) (elim (Run-cases (indicator_at w col i)) [
    | inl e ↦ rw e
    | inr (ind, e) ↦ rw e (ap ok (truncate-stored i m ind h))
  ])

module _ ⦃s : OdbcSys⦄ ⦃g : Growth⦄ {w : Width} {col : TextColumn} (v : IsValid w col) (i : ℕ)
    (h : i < length col.indicators) (readable : AreReadable i col.indicators) (text : List ℕ)
    (room : CanHold w (g.grow (length text)) (length col.indicators)) where
  -- The column that the text is written to: it has room for it, and the rows before keep theirs.
  record HasGrown (col' : TextColumn) : Type 0 where
    valid : IsValid w col'
    fits : length text ≤ col'.max_str_len
    same_rows : length col'.indicators ≡ length col.indicators
    indicators : col'.indicators ≡ col.indicators
    no_shorter : col.max_str_len ≤ col'.max_str_len
    kept :
        (j : ℕ) (ind : Indicator)
        → j < i
        → indicator_at w col j ≡ ok ind
        → IsWhole w col.max_str_len ind
        → value_at w col' j ≡ value_at w col j

  grown :
      (col' : TextColumn) × ((if ltb col.max_str_len (length text)
          then resize_max_str w col (g.grow (length text)) i
          else ok col)
        ≡ ok col')
      × HasGrown col'
  grown = elim (dec_lt col.max_str_len (length text)) [
    | yes longer ↦
        let (col', e, r) = resize_max_str_ok v room i readable in
        (
          col',
          rw (lt→ltb col.max_str_len (length text) longer) e,
          record {
            valid = r.valid;
            fits = rw r.max_len (g.le_grow (length text));
            same_rows = ap length r.indicators;
            indicators = r.indicators;
            no_shorter = rw r.max_len (omega (arith, longer, g.le_grow (length text)));
            kept = λ j ind lt ej whole.
                value_at-HasResized v room i readable r j lt ind ej
                  (IsHeld-IsWhole w col.max_str_len (g.grow (length text)) ind whole)
                ∙ truncate-value_at v j (g.grow (length text))
                    (omega (arith, longer, g.le_grow (length text)));
          },
        )
    | no shorter ↦ (
      col,
      rw (not_longer shorter),
      record {
        valid = v;
        fits = omega (arith, shorter);
        same_rows = refl;
        indicators = refl;
        no_shorter = omega arith;
        kept = λ j ind lt ej whole. refl;
      },
    )
  ]
    where
      not_longer : ¬ (col.max_str_len < length text) → ltb col.max_str_len (length text) ≡ false
      not_longer n = ground arith

  pub append-some :
      (col' : TextColumn) × (append w col i (some text) ≡ ok col')
      × IsValid w col'
      × (length col'.indicators ≡ length col.indicators)
      × (value_at w col' i ≡ ok (some text))
      × ((j : ℕ) (ind : Indicator)
          → j < i
          → indicator_at w col j ≡ ok ind
          → IsWhole w col.max_str_len ind
          → value_at w col' j ≡ value_at w col j)
  unfolding append
  append-some =
      let (bigger, e, b) = grown in
      let (col', e', p) = append_fitting_lem b.valid i (rw b.same_rows h) text b.fits in
      (
        col',
        rw e e',
        p.valid,
        p.same_rows ∙ b.same_rows,
        p.reads,
        λ j ind lt ej whole. p.others j (omega (arith, lt)) ∙ b.kept j ind lt ej whole,
      )

  -- The shape of the column: its slots are long enough, and only the row's indicator is written.
  pub append_shape :
      (col' : TextColumn) × (append w col i (some text) ≡ ok col')
      × (col.max_str_len ≤ col'.max_str_len)
      × (length text ≤ col'.max_str_len)
      × (col'.indicators ≡ set col.indicators i (indicator_of w (some text)))
  unfolding append
  append_shape =
      let (bigger, e, b) = grown in
      let (col', e', p) = append_fitting_lem b.valid i (rw b.same_rows h) text b.fits in
      (
        col',
        rw e e',
        rw p.same_max b.no_shorter,
        rw p.same_max b.fits,
        p.indicators ∙ ap (λ inds. set inds i (indicator_of w (some text))) b.indicators,
      )

  -- Appending a text to a valid column, at a row that exists and with memory for the larger slots,
  -- does not panic. The column is valid again, has as many rows, and the row reads as the text.
  pub append_reads :
      (col' : TextColumn) × (append w col i (some text) ≡ ok col')
      × IsValid w col'
      × (length col'.indicators ≡ length col.indicators)
      × (value_at w col' i ≡ ok (some text))
  append_reads =
      let (col', e, valid, rows, reads, kept) = append-some in (col', e, valid, rows, reads)

  -- Appending a text to a valid column, where the rows before exist and have indicators such as ODBC
  -- allows, and there is memory for the larger slots, keeps what every earlier row reads as, also
  -- where the slots grow, if that row's indicator reports no more than its slot could hold.
  pub append_keeps :
      (j : ℕ) (ind : Indicator) (col' : TextColumn)
      → j < i
      → indicator_at w col j ≡ ok ind
      → IsWhole w col.max_str_len ind
      → append w col i (some text) ≡ ok col'
      → value_at w col' j ≡ value_at w col j
  append_keeps j ind col' lt ej whole e =
      let (col'', e'', valid, rows, reads, kept) = append-some in
      let same : ok col' ≡ ok col'' = sym e ∙ e'' in
      let same_col : col' ≡ col'' = cc in rw same_col (kept j ind lt ej whole)
