-- ===== src/TextColumn/RoundTrip.antt =====
-- Writing rows through `TextColumnWriter::write` and reading them back through `TextColumnIt`.
use odbc_api.Common.{
  ℕ, zero, suc, ◌+◌, ◌≤◌, ◌<◌, ◌≡◌, refl, sym, ◌∙◌, List, [], ◌∷◌, none, some, true, false, ok,
  panic, ◌>>=◌, length, take, ◌==◌, arith,
}
use mathlib.Core.Path.{subst}
use odbc_api.Common.Panics.{Run}
use odbc_api.Indicator.{OdbcSys}
use odbc_api.TextColumn.{
  Width, TextColumn, TextColumnIt, Cell, value_at, write_from, write, iter, next,
}
use odbc_api.TextColumn.Valid.{IsValid}
use odbc_api.TextColumn.Steps.{Fits}
use odbc_api.TextColumn.Write.{HasWritten, set_value_lem}

-- Every cell fits a slot.
abbrev pub AllFit : ℕ → List Cell → Type 0
AllFit max_len [] = Unit
AllFit max_len (cell ∷ cells) = Fits max_len cell × AllFit max_len cells

module _ (w : Width) ⦃s : OdbcSys⦄ where
  -- A `for` loop over the iterator that collects what it yields. Running out of fuel is a panic.
  pub collect : ℕ → TextColumnIt → Run (List Cell)
  collect zero it = panic
  collect (suc fuel) it = do
    step ← next w it
    elim (step.0) [ none ↦ ok [] | some cell ↦ do cells ← collect fuel step.1; ok (cell ∷ cells) ]

  -- The rows from `i` on read as the cells.
  abbrev Reads : ℕ → List Cell → TextColumn → Type 0
  Reads i [] col = Unit
  Reads i (cell ∷ cells) col = (value_at w col i ≡ ok cell) × Reads (i + 1) cells col

  collect_lem :
      (cells : List Cell) (i n : ℕ) (col : TextColumn)
      → Reads i cells col
      → i + length cells ≡ n
      → collect (suc (length cells)) (record { pos = i; num_rows = n; col = col }) ≡ ok cells
  unfolding collect next
  collect_lem [] i n col r e = let at_end : (i == n) ≡ true = ground arith in rw (at_end, next)
  collect_lem (cell ∷ cells) i n col r e =
      let more : (i == n) ≡ false = ground arith in
      rw (more, r.0, collect_lem cells (i + 1) n col r.1 (omega (arith, e)))

  -- What `write_from` leaves: the rows it wrote, and the rows before them.
  record HasWrittenFrom (i : ℕ) (cells : List Cell) (col col' : TextColumn) : Type 0 where
    valid : IsValid w col'
    same_max : col'.max_str_len ≡ col.max_str_len
    same_rows : length col'.indicators ≡ length col.indicators
    reads : Reads i cells col'
    before : (j : ℕ) → j < i → value_at w col' j ≡ value_at w col j

  nothing_written : (i : ℕ) (col : TextColumn) → IsValid w col → HasWrittenFrom i [] col col
  nothing_written i col v = record {
    valid = v;
    same_max = refl;
    same_rows = refl;
    reads = tt;
    before = λ j lt. refl;
  }

  one_more :
      (i : ℕ) (cell : Cell) (cells : List Cell) (col col₁ col₂ : TextColumn)
      → HasWritten w col i cell col₁
      → HasWrittenFrom (i + 1) cells col₁ col₂
      → HasWrittenFrom i (cell ∷ cells) col col₂
  one_more i cell cells col col₁ col₂ p q = record {
    valid = q.valid;
    same_max = q.same_max ∙ p.same_max;
    same_rows = q.same_rows ∙ p.same_rows;
    reads = (q.before i (omega arith) ∙ p.reads, q.reads);
    before = λ j lt. q.before j (omega (arith, lt)) ∙ p.others j (omega (arith, lt));
  }

  write_from_lem :
      (n i : ℕ) (col : TextColumn) (cells : List Cell)
      → IsValid w col
      → AllFit col.max_str_len (take n cells)
      → i + length (take n cells) ≤ length col.indicators
      → (col' : TextColumn) × (write_from w n i col cells ≡ ok col')
        × HasWrittenFrom i (take n cells) col col'
  unfolding write_from
  write_from_lem zero i col cells v fits room = (col, refl, nothing_written i col v)
  write_from_lem (suc n) i col [] v fits room = (col, refl, nothing_written i col v)
  write_from_lem (suc n) i col (cell ∷ cells) v fits room =
      let (col₁, e₁, p) = set_value_lem v i (omega arith) cell fits.0 in
      let (col₂, e₂, q) =
        write_from_lem n (i + 1) col₁ cells p.valid
          (subst (λ m. AllFit m (take n cells)) (sym p.same_max) fits.1)
          (rw p.same_rows (omega (arith, room))) in
      (col₂, rw e₁ e₂, one_more i cell (take n cells) col col₁ col₂ p q)

  -- The first `to` cells of an iterator, written to a valid column whose slots and rows hold them,
  -- are what an iterator over as many rows then yields, in the same order, before it ends. The
  -- column is valid again, and has as many rows as before.
  pub iter-write :
      (col : TextColumn) (to : ℕ) (cells : List Cell)
      → IsValid w col
      → AllFit col.max_str_len (take to cells)
      → length (take to cells) ≤ length col.indicators
      → (col' : TextColumn) × (write w col to cells ≡ ok col')
        × IsValid w col'
        × (length col'.indicators ≡ length col.indicators)
        × (collect (suc (length (take to cells))) (iter w col' (length (take to cells)))
            ≡ ok (take to cells))
  unfolding write
  iter-write col to cells v fits room =
      let (col', e, p) = write_from_lem to 0 col cells v fits (omega (arith, room)) in
      (
        col',
        e,
        p.valid,
        p.same_rows,
        collect_lem (take to cells) 0 (length (take to cells)) col' p.reads (omega arith),
      )
