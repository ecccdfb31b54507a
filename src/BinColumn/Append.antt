-- ===== src/BinColumn/Append.antt =====
-- `append`: the slots grow where the value is too long, and the earlier rows keep their values.
use odbc_api.Common.{
  ℕ, ◌+◌, ◌*◌, ◌≤◌, ◌<◌, ◌≡◌, refl, ap, ◌∙◌, min, List, some, pos, true, false, ok, map_run, ltb,
  if◌then◌else◌, copy_slice_ok, store_ok, to_isize_ok, segment, length, get_elem?, take_all,
  length-take, drop, isize_max, arith,
}
use native.Mathlib.Decide.{dec_lt}
use odbc_api.Indicator.{OdbcSys}
use odbc_api.Rows.Laws.{AreReadable}
use odbc_api.TextColumn.{Growth}
use odbc_api.TextColumn.Resize.{truncate}
use odbc_api.BinColumn.{BinColumn, value_at, append, append_fitting, resize_max_element_length}
use odbc_api.BinColumn.Write.{
  IsValid, with_bytes, in_range, offset_lem, end_lem, with_bytes-IsValid, rows_kept,
  with_bytes_reads, with_bytes_others,
}
use odbc_api.BinColumn.Resize.{value_at-held, resize_ok}

append_fitting-some :
    ⦃s : OdbcSys⦄ {col : BinColumn} (v : IsValid col) (i : ℕ) (h : i < length col.indicators)
    (bytes : List ℕ)
    → length bytes ≤ col.max_len
    → append_fitting col i bytes ≡ ok (with_bytes col i bytes)
unfolding append_fitting
append_fitting-some {col} v i h bytes hb = rw (
  offset_lem v i h,
  end_lem v i h (length bytes) hb,
  copy_slice_ok col.values (i * col.max_len) (i * col.max_len + length bytes) bytes refl
      (in_range v i h bytes hb),
  to_isize_ok (length bytes) (omega (arith, in_range v i h bytes hb, v.bounded)),
  store_ok col.indicators i (pos (length bytes)) h,
)

-- A whole value is not cut off by a larger length.
truncate-whole :
    ⦃s : OdbcSys⦄ {col : BinColumn} (v : IsValid col) (j n m : ℕ)
    → get_elem? col.indicators j ≡ some (pos n)
    → col.max_len ≤ m
    → map_run (truncate m) (value_at col j) ≡ value_at col j
truncate-whole {col} v j n m e h = rw (value_at-held v j (pos n) e) (
    ap (λ t. ok (some t))
      (take_all m (segment (j * col.max_len) (min col.max_len n) col.values)
        (omega (arith, h, length-take (min col.max_len n) (drop (j * col.max_len) col.values)))))

-- The column that the value is written to: it has room for it, and the rows before keep theirs.
record HasGrown ⦃s : OdbcSys⦄ (col : BinColumn) (i : ℕ) (bytes : List ℕ) (col' : BinColumn)
    : Type 0 where
  valid : IsValid col'
  fits : length bytes ≤ col'.max_len
  same_rows : length col'.indicators ≡ length col.indicators
  kept :
      (j n : ℕ)
      → j < i
      → get_elem? col.indicators j ≡ some (pos n)
      → n ≤ col.max_len
      → value_at col' j ≡ value_at col j

module _ ⦃s : OdbcSys⦄ ⦃g : Growth⦄ {col : BinColumn} (v : IsValid col) (i : ℕ)
    (h : i < length col.indicators) (some_len : 0 < col.max_len)
    (readable : AreReadable i col.indicators) (bytes : List ℕ)
    (room : g.grow (length bytes) * length col.indicators ≤ isize_max) where
  grown :
      (col' : BinColumn) × ((if ltb col.max_len (length bytes)
          then resize_max_element_length col (g.grow (length bytes)) i
          else ok col)
        ≡ ok col')
      × HasGrown col i bytes col'
  grown = elim (dec_lt col.max_len (length bytes)) [
    | yes lt ↦
        let larger : ltb col.max_len (length bytes) ≡ true = ground arith in
        let ge : length bytes ≤ g.grow (length bytes) = g.le_grow (length bytes) in
        let (col', e, valid, same_max, rows, kept) =
          resize_ok (g.grow (length bytes)) i v some_len (omega (arith, ge, lt)) room readable in
        (
          col',
          rw larger e,
          record {
            valid = valid;
            fits = rw same_max ge;
            same_rows = rows;
            kept = λ j n lj ej whole.
                kept j n lj ej whole
                ∙ truncate-whole v j n (g.grow (length bytes)) ej (omega (arith, ge, lt));
          },
        )
    | no ge ↦
        let fitting : ltb col.max_len (length bytes) ≡ false = ground arith in
        (
          col,
          rw fitting refl,
          record {
            valid = v;
            fits = omega (arith, ge);
            same_rows = refl;
            kept = λ j n lj ej whole. refl;
          },
        )
  ]

  -- Appending a value to a valid column whose slots are not empty, at a row that exists, with memory
  -- for the larger slots and indicators such as ODBC allows in the rows before, does not panic. The
  -- column is valid again and has as many rows, the row reads as the value, and every earlier row
  -- that holds a whole value reads as before, also where the slots grow.
  pub append-value_at :
      (col' : BinColumn) × (append col i (some bytes) ≡ ok col')
      × IsValid col'
      × (length col'.indicators ≡ length col.indicators)
      × (value_at col' i ≡ ok (some bytes))
      × ((j n : ℕ)
          → j < i
          → get_elem? col.indicators j ≡ some (pos n)
          → n ≤ col.max_len
          → value_at col' j ≡ value_at col j)
  unfolding append
  append-value_at =
      let (big, e, b) = grown in
      let hi : i < length big.indicators = rw b.same_rows h in
      (
        with_bytes big i bytes,
        rw e (append_fitting-some b.valid i hi bytes b.fits),
        with_bytes-IsValid b.valid i hi bytes b.fits,
        rows_kept b.valid i hi bytes b.fits ∙ b.same_rows,
        with_bytes_reads b.valid i hi bytes b.fits,
        λ j n lt ej whole.
            with_bytes_others b.valid i hi bytes b.fits j (λ (q : j ≡ i). omega (arith, lt, q))
            ∙ b.kept j n lt ej whole,
      )
