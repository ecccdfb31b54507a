-- ===== src/TextColumn/Holds.antt =====
-- A column whose first rows hold given cells, each of them whole, and appending the next one.
use odbc_api.Common.{
  ℕ, zero, suc, ◌<◌, ◌≤◌, ◌≡◌, ◌≢◌, ◌⊎◌, inl, inr, ◌*◌, refl, ap, sym, ◌∙◌, List, [], ◌∷◌, ◌++◌, ℤ,
  pos, none, some, ok, ◌>>=◌, index, length, set, length-set, get_elem?, get_elem?-set_self,
  get_elem?-set_ne, get_elem?-some, lt_of_get_elem?, store_ok, arith,
}
use odbc_api.Indicator.{OdbcSys, Indicator, from_isize, null_data}
use odbc_api.Indicator.Laws.{from_isize-null, from_isize-pos}
use odbc_api.Rows.Laws.{AreReadable}
use odbc_api.TextColumn.{Width, size_of, Growth, TextColumn, Cell, indicator_at, value_at, append}
use odbc_api.TextColumn.Valid.{IsValid, mul-size_of-div}
use odbc_api.TextColumn.Write.{with_null, with_null-HasWritten, indicator_of}
use odbc_api.TextColumn.Resize.{CanHold}
use odbc_api.TextColumn.Append.{IsWhole, append-some, append_shape}

AreReadable-index :
    ⦃s : OdbcSys⦄ (n : ℕ) (inds : List ℤ)
    → ((j : ℕ) → j < n → (ind : Indicator) × ((index inds j >>= from_isize) ≡ ok ind))
    → AreReadable n inds
AreReadable-index zero inds h = tt
AreReadable-index (suc n) [] h = tt
AreReadable-index (suc n) (x ∷ inds) h =
    (h 0 (omega arith), AreReadable-index n inds (λ j lt. h (suc j) (omega (arith, lt))))

module _ ⦃s : OdbcSys⦄ where
  -- Row `j` reads as the cell, and its indicator tells no more than the slot holds.
  pub record HoldsRow (w : Width) (col : TextColumn) (j : ℕ) (cell : Cell) : Type 0 where
    pub ind : Indicator
    pub indicator : indicator_at w col j ≡ ok ind
    pub whole : IsWhole w col.max_str_len ind
    pub value : value_at w col j ≡ ok cell

  -- A column of so many rows, the first of which hold the cells
  pub record Holds (w : Width) (rows : ℕ) (col : TextColumn) (cells : List Cell) : Type 0 where
    pub valid : IsValid w col
    pub row_count : length col.indicators ≡ rows
    pub holds : (j : ℕ) (cell : Cell) → get_elem? cells j ≡ some cell → HoldsRow w col j cell

get_elem?-snoc {ℓ} :
    {A : Type ℓ} (xs : List A) (x y : A) (j : ℕ)
    → get_elem? (xs ++ x ∷ []) j ≡ some y
    → (get_elem? xs j ≡ some y) ⊎ ((j ≡ length xs) × (y ≡ x))
get_elem?-snoc [] x y zero e = inr (refl, (cc))
get_elem?-snoc [] x y (suc j) e = cc
get_elem?-snoc (z ∷ xs) x y zero e = inl e
get_elem?-snoc (z ∷ xs) x y (suc j) e = elim (get_elem?-snoc xs x y j e) [
  | inl h ↦ inl h
  | inr (h, k) ↦ inr (ap suc h, k)
]

IsWhole-longer : (w : Width) (m n : ℕ) (ind : Indicator) → m ≤ n → IsWhole w m ind → IsWhole w n ind
IsWhole-longer w m n Indicator.null h whole = tt
IsWhole-longer w m n Indicator.no_total h whole = absurd whole
IsWhole-longer w m n (Indicator.length k) h whole = omega (arith, h, whole)

module _ ⦃s : OdbcSys⦄ (w : Width) where
  indicator_frame :
      (col col' : TextColumn) (j : ℕ)
      → get_elem? col'.indicators j ≡ get_elem? col.indicators j
      → indicator_at w col' j ≡ indicator_at w col j
  unfolding indicator_at
  indicator_frame col col' j e = rw e

  -- The row that has just been written, of which the column's text may be as long as a slot
  HoldsRow-written :
      (col col' : TextColumn) (i : ℕ) (cell : Cell)
      → i < length col.indicators
      → col'.indicators ≡ set col.indicators i (indicator_of w cell)
      → ((text : List ℕ) → cell ≡ some text → length text ≤ col'.max_str_len)
      → value_at w col' i ≡ ok cell
      → HoldsRow w col' i cell
  unfolding indicator_at
  HoldsRow-written col col' i none h e fits value = record {
    ind = Indicator.null;
    indicator = rw (e, get_elem?-set_self col.indicators i null_data h, from_isize-null);
    whole = tt;
    value = value;
  }
  HoldsRow-written col col' i (some text) h e fits value = record {
    ind = Indicator.length (length text * size_of w);
    indicator = rw (
      e,
      get_elem?-set_self col.indicators i (pos (length text * size_of w)) h,
      from_isize-pos (length text * size_of w),
    );
    whole = rw (mul-size_of-div w (length text)) (fits text refl);
    value = value;
  }

  HoldsRow-kept :
      (col col' : TextColumn) (i j : ℕ) (new : ℤ) (cell : Cell)
      → j ≢ i
      → col'.indicators ≡ set col.indicators i new
      → col.max_str_len ≤ col'.max_str_len
      → (r : HoldsRow w col j cell) → value_at w col' j ≡ value_at w col j
      → HoldsRow w col' j cell
  HoldsRow-kept col col' i j new cell ne e longer r same = record {
    ind = r.ind;
    indicator =
        indicator_frame col col' j (
          ap (λ inds. get_elem? inds j) e
          ∙ get_elem?-set_ne col.indicators i j new (λ k. ne (sym k)))
        ∙ r.indicator;
    whole = IsWhole-longer w col.max_str_len col'.max_str_len r.ind longer r.whole;
    value = same ∙ r.value;
  }

module _ ⦃s : OdbcSys⦄ ⦃g : Growth⦄ (w : Width) (rows : ℕ) where
  -- There is memory for slots that hold the cell.
  abbrev pub HasRoom : Cell → Type 0
  HasRoom none = Unit
  HasRoom (some text) = CanHold w (g.grow (length text)) rows

  module _ {col : TextColumn} {cells : List Cell} (h : Holds w rows col cells)
      (below : length cells < rows) where
    readable : AreReadable (length cells) col.indicators
    unfolding indicator_at
    readable = AreReadable-index (length cells) col.indicators (λ j lt.
        let (cell, e) = get_elem?-some cells j lt in
        let r = h.holds j cell e in (r.ind, r.indicator))

    -- A column where the next cell is written, and the others read as before
    extended :
        (cell : Cell) (col' : TextColumn)
        → IsValid w col'
        → col'.indicators ≡ set col.indicators (length cells) (indicator_of w cell)
        → col.max_str_len ≤ col'.max_str_len
        → ((text : List ℕ) → cell ≡ some text → length text ≤ col'.max_str_len)
        → value_at w col' (length cells) ≡ ok cell
        → ((j : ℕ) (old : Cell)
            → j < length cells
            → HoldsRow w col j old
            → value_at w col' j ≡ value_at w col j)
        → Holds w rows col' (cells ++ cell ∷ [])
    extended cell col' valid e longer fits value kept = record {
      valid = valid;
      row_count = ap length e ∙ length-set col.indicators (length cells) _ ∙ h.row_count;
      holds = λ j old found. elim (get_elem?-snoc cells cell old j found) [
        | inl before ↦
            let lt : j < length cells = lt_of_get_elem? cells j old before in
            let r = h.holds j old before in
            HoldsRow-kept w col col' (length cells) j (indicator_of w cell) old
              (λ same. omega (arith, lt, same)) e longer r (kept j old lt r)
        | inr (here, new) ↦
            rw (here, new)
              (HoldsRow-written w col col' (length cells) cell (rw h.row_count below) e fits value)
      ];
    }

    -- The next cell is appended behind those that the column holds.
    pub append-Holds :
        (cell : Cell)
        → HasRoom cell
        → (col' : TextColumn) × (append w col (length cells) cell ≡ ok col')
          × Holds w rows col' (cells ++ cell ∷ [])
    unfolding append
    append-Holds none room =
        let below' : length cells < length col.indicators = rw h.row_count below in
        let p = with_null-HasWritten h.valid (length cells) below' in
        (
          with_null col (length cells),
          rw (store_ok col.indicators (length cells) null_data below'),
          extended none (with_null col (length cells)) p.valid p.indicators (omega arith)
              (λ text e. cc) p.reads (λ j old lt r. p.others j (omega (arith, lt))),
        )
    append-Holds (some text) room =
        let below' : length cells < length col.indicators = rw h.row_count below in
        let room' : CanHold w (g.grow (length text)) (length col.indicators) =
          rw h.row_count room in
        let (col', e, valid, same_rows, reads, kept) =
          append-some h.valid (length cells) below' readable text room' in
        let (col₂, e₂, longer, fits, inds) =
          append_shape h.valid (length cells) below' readable text room' in
        let same : ok col' ≡ ok col₂ = sym e ∙ e₂ in
        let same_col : col₂ ≡ col' = cc in
        (
          col',
          e,
          extended (some text) col' valid (rw⁻¹ same_col inds) (rw⁻¹ same_col longer)
              (λ text' k. let same_text : text' ≡ text = cc in rw (same_text, ← same_col) fits)
              reads (λ j old lt r. kept j r.ind lt r.indicator r.whole),
        )
