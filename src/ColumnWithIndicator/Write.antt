-- ===== src/ColumnWithIndicator/Write.antt =====
-- What an iterator over the rows yields after a writer has filled them.
use odbc_api.Common.{
  ℕ, zero, suc, ◌+◌, ◌≤◌, ◌≡◌, refl, ap, sym, ◌∙◌, List, [], ◌∷◌, ◌++◌, Option, none, some, ℤ, pos,
  eq_ℤ, ok, panic, ◌>>=◌, store_ok, length, take, drop, set, length-set, eq→==, if◌then◌else◌,
  arith, drop-nil,
}
use odbc_api.Common.Panics.{Run}
use odbc_api.Indicator.{OdbcSys, null_data}
use odbc_api.ColumnWithIndicator.{ColumnWithIndicator, next, write_from, write}

module _ {A : Type 0} ⦃s : OdbcSys⦄ where
  -- A `for` loop over the rows that collects what they yield. Running out of fuel is a panic.
  pub collect : ℕ → List ℤ → List A → Run (List (Option A))
  collect zero inds values = panic
  collect (suc fuel) inds values = do
    step ← next inds values
    elim step [
      | none ↦ ok []
      | some rest ↦ do cells ← collect fuel (rest.1) (rest.2); ok (rest.0 ∷ cells)
    ]

  -- The rows as cells
  abbrev pub cells : List ℤ → List A → List (Option A)
  cells [] values = []
  cells (ind ∷ inds) [] = []
  cells (ind ∷ inds) (value ∷ values) =
      (if eq_ℤ ind null_data then none else some value) ∷ cells inds values

  collect-cells :
      (inds : List ℤ) (values : List A)
      → length inds ≡ length values
      → collect (suc (length inds)) inds values ≡ ok (cells inds values)
  unfolding collect next
  collect-cells [] values e = refl
  collect-cells (ind ∷ inds) [] e = absurd (omega arith)
  collect-cells (ind ∷ inds) (value ∷ values) e = rw (collect-cells inds values (omega arith))

  -- What the writer leaves: the indicators and the values.
  abbrev written : ℕ → ℕ → List ℤ → List A → List (Option A) → List ℤ × List A
  written zero i inds values items = (inds, values)
  written (suc n) i inds values [] = (inds, values)
  written (suc n) i inds values (some value ∷ items) =
      written n (suc i) (set inds i (pos 0)) (set values i value) items
  written (suc n) i inds values (none ∷ items) =
      written n (suc i) (set inds i null_data) values items

  write_from-written :
      (n i : ℕ) (inds : List ℤ) (values : List A) (items : List (Option A))
      → i + n ≤ length inds
      → i + n ≤ length values
      → write_from n i inds values items
        ≡ ok (record {
          values = (written n i inds values items).1;
          indicators = (written n i inds values items).0;
        })
  unfolding write_from
  write_from-written zero i inds values items hi hv = refl
  write_from-written (suc n) i inds values [] hi hv = refl
  write_from-written (suc n) i inds values (some value ∷ items) hi hv =
      rw (store_ok inds i (pos 0) (omega (arith, hi)), store_ok values i value (omega (arith, hv)))
        (write_from-written n (suc i) (set inds i (pos 0)) (set values i value) items
          (omega (arith, length-set inds i (pos 0), hi))
          (omega (arith, length-set values i value, hv)))
  write_from-written (suc n) i inds values (none ∷ items) hi hv =
      rw (store_ok inds i null_data (omega (arith, hi))) (
        write_from-written n (suc i) (set inds i null_data) values items
          (omega (arith, length-set inds i null_data, hi)) (omega (arith, hv)))

  -- Behind the first row
  written-suc :
      (n i : ℕ) (x : ℤ) (a : A) (inds : List ℤ) (values : List A) (items : List (Option A))
      → written n (suc i) (x ∷ inds) (a ∷ values) items
        ≡ (x ∷ (written n i inds values items).0, a ∷ (written n i inds values items).1)
  written-suc zero i x a inds values items = refl
  written-suc (suc n) i x a inds values [] = refl
  written-suc (suc n) i x a inds values (some value ∷ items) =
      written-suc n (suc i) x a (set inds i (pos 0)) (set values i value) items
  written-suc (suc n) i x a inds values (none ∷ items) =
      written-suc n (suc i) x a (set inds i null_data) values items

  cells-written :
      (inds : List ℤ) (values : List A) (items : List (Option A))
      → length inds ≡ length values
      → (length (written (length values) 0 inds values items).0 ≡ length inds)
        × (length (written (length values) 0 inds values items).1 ≡ length values)
        × (cells
              (written (length values) 0 inds values items).0
              (written (length values) 0 inds values items).1
            ≡ take (length values) items ++ drop (length items) (cells inds values))
  cells-written [] [] items e = (refl, refl, sym (drop-nil (length items)))
  cells-written [] (v ∷ values) items e = absurd (omega arith)
  cells-written (x ∷ inds) [] items e = absurd (omega arith)
  cells-written (x ∷ inds) (v ∷ values) [] e = (refl, refl, refl)
  cells-written (x ∷ inds) (v ∷ values) (some value ∷ items) e =
      let (li, lv, c) = cells-written inds values items (omega arith) in
      rw (written-suc (length values) 0 (pos 0) value inds values items)
        (ap suc li, ap suc lv, ap (λ t. some value ∷ t) c)
  cells-written (x ∷ inds) (v ∷ values) (none ∷ items) e =
      let (li, lv, c) = cells-written inds values items (omega arith) in
      rw (written-suc (length values) 0 null_data v inds values items)
        (ap suc li, ap suc lv, rw (eq→== s.null_code s.null_code refl) (ap (λ t. none ∷ t) c))

  -- Writing an iterator's items to rows with as many indicators as values does not panic. Iterating
  -- over the rows then yields the items, as many as there are rows, and behind them what the rows
  -- that were not written yielded before.
  pub collect-write :
      (rows : ColumnWithIndicator A) (items : List (Option A))
      → length rows.indicators ≡ length rows.values
      → (rows' : ColumnWithIndicator A) × (write rows items ≡ ok rows')
        × (collect (suc (length rows.values)) rows'.indicators rows'.values
            ≡ ok (
                take (length rows.values) items
                ++ drop (length items) (cells rows.indicators rows.values)))
  unfolding write
  collect-write rows items e =
      let (li, lv, c) = cells-written rows.indicators rows.values items e in
      let w : List ℤ × List A = written (length rows.values) 0 rows.indicators rows.values items in
      (
        record { values = w.1; indicators = w.0 },
        write_from-written (length rows.values) 0 rows.indicators rows.values items
            (omega (arith, e)) (omega arith),
        ap (λ n. collect (suc n) w.0 w.1)
              (let k : length rows.values ≡ length w.0 = omega (arith, li, e) in k)
            ∙ collect-cells w.0 w.1 (omega (arith, li, lv, e))
            ∙ ap ok c,
      )
