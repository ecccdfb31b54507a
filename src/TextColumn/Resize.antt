-- ===== src/TextColumn/Resize.antt =====
-- `resize_max_str`: the rows move to slots of another size, and keep what both sizes hold.
use odbc_api.Common.{
  ℕ, ◌+◌, ◌*◌, ◌/◌, ◌≤◌, ◌<◌, ◌≡◌, refl, ap, sym, ◌∙◌, min, List, none, some, ℤ, false, ok, ◌==◌,
  mul_usize, mul_usize_lem, add_usize_lem, alloc_ok, segment, length, get_elem?, take, drop,
  replicate, length-replicate, take_all, take-take, length-take, map_run, isize_max, usize_mod,
  arith, unwrap, Option-cases, inl, inr, ◌>>=◌,
}
use native.Mathlib.Decide.{dec_le}
use odbc_api.Indicator.{OdbcSys, Indicator, from_isize}
use odbc_api.Rows.Laws.{AreReadable, AreCopied, copy_rows_lem}
use odbc_api.TextColumn.{
  Width, size_of, TextColumn, Cell, slot, indicator_at, value_at, resize_max_str,
}
use odbc_api.TextColumn.Valid.{IsValid, slot_lem, stored, value_at_lem, le-mul-size_of}

pub take-take-min {ℓ} : {A : Type ℓ} (m n : ℕ) (v : List A) → take m (take n v) ≡ take (min m n) v
take-take-min m n v = elim (dec_le m n) [
  | yes h ↦ take-take m n v h ∙ min_is m (omega arith)
  | no h ↦ take_all m (take n v) (omega (arith, length-take n v)) ∙ min_is n (omega arith)
]
  where
    min_is : (k : ℕ) → k ≡ min m n → take k v ≡ take (min m n) v
    min_is k e = ap (λ l. take l v) e

-- A buffer of these slots can be allocated.
pub record CanHold (w : Width) (max_len batch_size : ℕ) : Type 0 where
  pub small : max_len + 1 < usize_mod
  pub bounded : (max_len + 1) * batch_size * size_of w ≤ isize_max

-- What the valid part of a row loses to a new maximum length.
abbrev pub truncate : ℕ → Cell → Cell
truncate max_len none = none
truncate max_len (some text) = some (take max_len text)

-- The row's text up to the new length stands whole in its old slot.
abbrev pub IsHeld : Width → ℕ → ℕ → Indicator → Type 0
IsHeld w old_max new_max Indicator.null = Unit
IsHeld w old_max new_max Indicator.no_total = new_max ≤ old_max
IsHeld w old_max new_max (Indicator.length n) = min new_max (n / size_of w) ≤ old_max

module _ ⦃s : OdbcSys⦄ {w : Width} {col : TextColumn} (v : IsValid w col) {new_max : ℕ}
    (c : CanHold w new_max (length col.indicators)) (num_rows : ℕ)
    (readable : AreReadable num_rows col.indicators) where
  -- The column with its rows in slots for `new_max`.
  pub record HasResized (col' : TextColumn) : Type 0 where
    pub max_len : col'.max_str_len ≡ new_max
    pub indicators : col'.indicators ≡ col.indicators
    pub valid : IsValid w col'
    pub copied :
        AreCopied
          (λ n. n / size_of w)
          (col.max_str_len + 1)
          (new_max + 1)
          (min col.max_str_len new_max)
          num_rows
          col.indicators
          col.values
          col'.values

  pub resize_max_str_ok :
      (col' : TextColumn) × (resize_max_str w col new_max num_rows ≡ ok col') × HasResized col'
  unfolding resize_max_str
  resize_max_str_ok =
      let sz : mul_usize (slot new_max) (length col.indicators)
          ≡ (new_max + 1) * length col.indicators =
        rw (add_usize_lem new_max 1 c.small) (
          mul_usize_lem (new_max + 1) (length col.indicators)
            (omega (arith, c.bounded, le-mul-size_of w ((new_max + 1) * length col.indicators)))) in
      let (r, er, lr, copied) =
        copy_rows_lem (λ n. n / size_of w) (col.max_str_len + 1) (new_max + 1)
          (min col.max_str_len new_max) (omega arith) (omega arith) num_rows col.indicators
          col.values (replicate ((new_max + 1) * length col.indicators) 0) v.sized
          (length-replicate ((new_max + 1) * length col.indicators) 0) readable in
      let lr' : length r ≡ (new_max + 1) * length col.indicators =
        lr ∙ length-replicate ((new_max + 1) * length col.indicators) 0 in
      (
        record col { max_str_len = new_max; values = r },
        rw (
          sz,
          alloc_ok {A = ℕ} (size_of w) ((new_max + 1) * length col.indicators) 0 c.bounded,
          slot_lem v,
          add_usize_lem new_max 1 c.small,
          not_zero col.max_str_len,
          not_zero new_max,
          er,
        ),
        record {
          max_len = refl;
          indicators = refl;
          valid = record { sized = lr'; bounded = rw lr' c.bounded; small = c.small };
          copied = copied;
        },
      )
    where
      not_zero : (n : ℕ) → ((n + 1) == 0) ≡ false
      not_zero n = ground arith

module _ ⦃s : OdbcSys⦄ {w : Width} {col : TextColumn} (v : IsValid w col) {new_max : ℕ}
    (c : CanHold w new_max (length col.indicators)) (num_rows : ℕ)
    (readable : AreReadable num_rows col.indicators) {col' : TextColumn}
    (r : HasResized v c num_rows readable col') (i : ℕ) (h : i < num_rows) where
  stored_resized :
      (x : ℤ) (ind : Indicator)
      → get_elem? col.indicators i ≡ some x
      → from_isize x ≡ ok ind
      → IsHeld w col.max_str_len new_max ind
      → stored w col' i ind ≡ truncate new_max (stored w col i ind)
  stored_resized x Indicator.null ex e held = refl
  stored_resized x Indicator.no_total ex e held = rw r.max_len (
      ap some (
        r.copied i x Indicator.no_total h ex e new_max (omega (arith, held))
        ∙ sym (
            take-take-min new_max col.max_str_len (drop (i * (col.max_str_len + 1)) col.values)
            ∙ ap (λ k. segment (i * (col.max_str_len + 1)) k col.values) (omega (arith, held)))))
  stored_resized x (Indicator.length n) ex e held = rw r.max_len (
      ap some (
        r.copied i x (Indicator.length n) h ex e (min new_max (n / size_of w)) (omega (arith, held))
        ∙ sym (
            take-take-min new_max (min col.max_str_len (n / size_of w))
              (drop (i * (col.max_str_len + 1)) col.values)
            ∙ ap (λ k. segment (i * (col.max_str_len + 1)) k col.values) same)))
    where
      same : min new_max (min col.max_str_len (n / size_of w)) ≡ min new_max (n / size_of w)
      same = omega (arith, held)

  -- A row that the old slot held up to the new length keeps its text up to that length.
  pub value_at-HasResized :
      (ind : Indicator)
      → indicator_at w col i ≡ ok ind
      → IsHeld w col.max_str_len new_max ind
      → value_at w col' i ≡ map_run (truncate new_max) (value_at w col i)
  unfolding indicator_at
  value_at-HasResized ind e held = elim (Option-cases (get_elem? col.indicators i)) [
    | inl missing ↦ cc (ap (λ o. unwrap o >>= from_isize) missing)
    | inr (x, ex) ↦
        let ei : from_isize x ≡ ok ind = ap (λ o. unwrap o >>= from_isize) (sym ex) ∙ e in
        rw (value_at_lem v i, value_at_lem r.valid i, r.indicators, ex, ei)
          (ap ok (stored_resized x ind ex ei held))
  ]

-- Resizing a valid column, where the new slots can be allocated and the indicators of the rows to
-- copy are such as ODBC allows, does not panic and gives a valid column of the new maximum length
-- with as many rows. A row among those copied reads as before, cut off at the new length, if its old
-- slot held its text up to that length.
pub resize_max_str_keeps :
    ⦃s : OdbcSys⦄ {w : Width} {col : TextColumn} (new_max num_rows i : ℕ) (ind : Indicator)
    → IsValid w col
    → CanHold w new_max (length col.indicators)
    → AreReadable num_rows col.indicators
    → i < num_rows
    → indicator_at w col i ≡ ok ind
    → IsHeld w col.max_str_len new_max ind
    → (col' : TextColumn) × (resize_max_str w col new_max num_rows ≡ ok col')
      × IsValid w col'
      × (col'.max_str_len ≡ new_max)
      × (length col'.indicators ≡ length col.indicators)
      × (value_at w col' i ≡ map_run (truncate new_max) (value_at w col i))
resize_max_str_keeps new_max num_rows i ind v c readable h e held =
    let (col', e', r) = resize_max_str_ok v c num_rows readable in
    (
      col',
      e',
      r.valid,
      r.max_len,
      ap length r.indicators,
      value_at-HasResized v c num_rows readable r i h ind e held,
    )
