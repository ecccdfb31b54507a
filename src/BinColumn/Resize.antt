-- ===== src/BinColumn/Resize.antt =====
-- `resize_max_element_length`: the rows move to slots of another size, and keep what both hold.
use odbc_api.Common.{
  ℕ, ◌*◌, ◌≤◌, ◌<◌, ◌≡◌, refl, ap, sym, ◌∙◌, min, some, ℤ, pos, false, ok, ◌==◌, mul_usize_lem,
  alloc_ok, segment, length, get_elem?, drop, replicate, length-replicate, lt_of_get_elem?, map_run,
  isize_max, arith,
}
use odbc_api.Indicator.{OdbcSys, Indicator}
use odbc_api.Indicator.Laws.{from_isize-pos}
use odbc_api.Rows.Laws.{AreReadable, copy_rows_lem}
use odbc_api.TextColumn.Resize.{truncate, take-take-min}
use odbc_api.BinColumn.{BinColumn, value_at, resize_max_element_length}
use odbc_api.BinColumn.Write.{IsValid, held, value_of_lem}

pub value_at-held :
    ⦃s : OdbcSys⦄ {col : BinColumn} (v : IsValid col) (i : ℕ) (x : ℤ)
    → get_elem? col.indicators i ≡ some x
    → value_at col i ≡ ok (held col i x)
unfolding value_at
value_at-held {col} v i x e = rw e (value_of_lem v i (lt_of_get_elem? col.indicators i x e) x)

-- The whole of a resizing, for every row among those copied.
pub resize_ok :
    ⦃s : OdbcSys⦄ {col : BinColumn} (new_max num_rows : ℕ)
    → IsValid col
    → 0 < col.max_len
    → 0 < new_max
    → new_max * length col.indicators ≤ isize_max
    → AreReadable num_rows col.indicators
    → (col' : BinColumn) × (resize_max_element_length col new_max num_rows ≡ ok col')
      × IsValid col'
      × (col'.max_len ≡ new_max)
      × (length col'.indicators ≡ length col.indicators)
      × ((i n : ℕ)
          → i < num_rows
          → get_elem? col.indicators i ≡ some (pos n)
          → n ≤ col.max_len
          → value_at col' i ≡ map_run (truncate new_max) (value_at col i))
unfolding resize_max_element_length
resize_ok {col} new_max num_rows v h0 h1 room readable =
    let (r, er, lr, copied) =
      copy_rows_lem (λ k. k) col.max_len new_max (min col.max_len new_max) (omega arith)
        (omega arith) num_rows col.indicators col.values
        (replicate (new_max * length col.indicators) 0) v.sized
        (length-replicate (new_max * length col.indicators) 0) readable in
    let sized : length r ≡ new_max * length col.indicators =
      lr ∙ length-replicate (new_max * length col.indicators) 0 in
    let valid : IsValid (record { max_len = new_max; values = r; indicators = col.indicators }) =
      record { sized = sized; bounded = rw sized room } in
    (
      record { max_len = new_max; values = r; indicators = col.indicators },
      rw (
        mul_usize_lem new_max (length col.indicators) (omega (arith, room)),
        alloc_ok {A = ℕ} 1 (new_max * length col.indicators) 0 (omega (arith, room)),
        not_zero col.max_len h0,
        not_zero new_max h1,
        er,
      ),
      valid,
      refl,
      refl,
      λ i n h e whole.
          rw (value_at-held valid i (pos n) e, value_at-held v i (pos n) e)
            (ap (λ t. ok (some t))
              (copied i (pos n) (Indicator.length n) h e (from_isize-pos n) (min new_max n)
                  (omega (arith, whole))
                ∙ sym (
                    take-take-min new_max (min col.max_len n) (drop (i * col.max_len) col.values)
                    ∙ ap (λ k. segment (i * col.max_len) k col.values) (same n whole)))),
    )
  where
    not_zero : (k : ℕ) → 0 < k → (k == 0) ≡ false
    not_zero k hk = ground arith

    same : (n : ℕ) → n ≤ col.max_len → min new_max (min col.max_len n) ≡ min new_max n
    same n hn = omega (arith, hn)

-- Resizing a valid column, where neither length is zero, the new slots can be allocated and the
-- indicators of the rows to copy are such as ODBC allows, does not panic and gives a valid column of
-- the new maximum length with as many rows. A row among those copied that holds a whole value reads
-- as before, cut off at the new length.
pub resize-keeps :
    ⦃s : OdbcSys⦄ {col : BinColumn} (new_max num_rows i n : ℕ)
    → IsValid col
    → 0 < col.max_len
    → 0 < new_max
    → new_max * length col.indicators ≤ isize_max
    → AreReadable num_rows col.indicators
    → i < num_rows
    → get_elem? col.indicators i ≡ some (pos n)
    → n ≤ col.max_len
    → (col' : BinColumn) × (resize_max_element_length col new_max num_rows ≡ ok col')
      × IsValid col'
      × (col'.max_len ≡ new_max)
      × (length col'.indicators ≡ length col.indicators)
      × (value_at col' i ≡ map_run (truncate new_max) (value_at col i))
resize-keeps new_max num_rows i n v h0 h1 room readable h e whole =
    let (col', ok', valid, same_max, rows, kept) =
      resize_ok new_max num_rows v h0 h1 room readable in
    (col', ok', valid, same_max, rows, kept i n h e whole)
