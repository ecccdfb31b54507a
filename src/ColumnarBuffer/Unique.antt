-- ===== src/ColumnarBuffer/Unique.antt =====
-- `ColumnarBuffer::new`: the indices of its columns are unique, and its capacity is the smallest.
use odbc_api.Common.{
  ℕ, ◌≤◌, ◌≡◌, ◌≢◌, refl, sym, ◌∙◌, ◌↔◌, ◌⊎◌, List, [], ◌∷◌, true, false, Bool, ok, panic, map, min,
  Bool-cases, inl, inr, arith, ◌||◌,
}
use mathlib.Core.Path.{subst}
use odbc_api.ColumnarBuffer.{
  ColumnBuffer, ColumnarBuffer, contains, any_duplicate, min_or, new, new_unchecked,
}

-- The index is not among those of the columns.
abbrev pub IsFresh : {C : Type 0} → ℕ → List (ℕ × C) → Type 0
IsFresh i [] = Unit
IsFresh i (column ∷ columns) = (i ≢ column.0) × IsFresh i columns

-- No two columns have the same index.
abbrev pub AreUnique : {C : Type 0} → List (ℕ × C) → Type 0
AreUnique [] = Unit
AreUnique (column ∷ columns) = IsFresh column.0 columns × AreUnique columns

-- None of the seen indices is one of a column.
abbrev AreFresh : {C : Type 0} → List ℕ → List (ℕ × C) → Type 0
AreFresh [] columns = Unit
AreFresh (i ∷ seen) columns = IsFresh i columns × AreFresh seen columns

-- No column has a smaller capacity.
abbrev pub IsLeast : {C : Type 0} → (C → ℕ) → ℕ → List (ℕ × C) → Type 0
IsLeast capacity n [] = Unit
IsLeast capacity n (column ∷ columns) = (n ≤ capacity column.1) × IsLeast capacity n columns

AreFresh-nil : (C : Type 0) (seen : List ℕ) → AreFresh {C = C} seen []
AreFresh-nil C [] = tt
AreFresh-nil C (i ∷ seen) = (tt, AreFresh-nil C seen)

contains_cons :
    (i j : ℕ) (seen : List ℕ)
    → (contains (i ∷ seen) j ≡ false) ↔ ((i ≢ j) × (contains seen j ≡ false))
unfolding contains
contains_cons i j seen = ground arith

||_false : (a b : Bool) → (a || b) ≡ false → (a ≡ false) × (b ≡ false)
||_false true b e = cc
||_false false b e = (refl, e)

-- A column has this capacity.
abbrev pub Occurs : {C : Type 0} → (C → ℕ) → ℕ → List (ℕ × C) → Type 0
Occurs capacity n [] = ⊥
Occurs capacity n (column ∷ columns) = (n ≡ capacity column.1) ⊎ Occurs capacity n columns

min_is : (n m : ℕ) → (min n m ≡ n) ⊎ (min n m ≡ m)
min_is n m = ground arith

IsLeast-le :
    {C : Type 0} (capacity : C → ℕ) (n m : ℕ) (columns : List (ℕ × C))
    → n ≤ m
    → IsLeast capacity m columns
    → IsLeast capacity n columns
IsLeast-le capacity n m [] h l = tt
IsLeast-le capacity n m (column ∷ columns) h l =
    (omega (arith, h, l.0), IsLeast-le capacity n m columns h l.1)

module _ {C : Type 0} where
  -- One more column in front of the others
  AreFresh-cons :
      (seen : List ℕ) (column : ℕ × C) (columns : List (ℕ × C))
      → AreFresh seen (column ∷ columns)
        ↔ ((contains seen column.0 ≡ false) × AreFresh seen columns)
  unfolding contains
  AreFresh-cons [] column columns = (λ f. (refl, tt), λ f. tt)
  AreFresh-cons (i ∷ seen) column columns =
      let (to, from) = AreFresh-cons seen column columns in
      let (split, join) = contains_cons i column.0 seen in
      (
        λ f. (join (f.0.0, (to f.1).0), (f.0.1, (to f.1).1)),
        λ g. (((split g.0).0, g.1.0), from ((split g.0).1, g.1.1)),
      )

  any_duplicate_lem :
      (seen : List ℕ) (columns : List (ℕ × C))
      → (any_duplicate seen columns ≡ false) ↔ (AreFresh seen columns × AreUnique columns)
  unfolding any_duplicate
  any_duplicate_lem seen [] = (λ e. (AreFresh-nil C seen, tt), λ f. refl)
  any_duplicate_lem seen (column ∷ columns) =
      let (to, from) = any_duplicate_lem (column.0 ∷ seen) columns in
      let (split, join) = AreFresh-cons seen column columns in
      (
        λ e.
            let (unseen, rest) =
              ||_false (contains seen column.0) (any_duplicate (column.0 ∷ seen) columns) e in
            let (fresh, unique) = to rest in (join (unseen, fresh.1), (fresh.0, unique)),
        λ f. let (unseen, fresh) = split f.0 in rw (unseen, from ((f.1.0, fresh), f.1.1)),
      )

  module _ (capacity : C → ℕ) where
    least : List (ℕ × C) → ℕ
    least columns = min_or 0 (map (λ column. capacity column.1) columns)

    least-IsLeast : (columns : List (ℕ × C)) → IsLeast capacity (least columns) columns
    unfolding least min_or
    least-IsLeast [] = tt
    least-IsLeast (column ∷ []) = (omega arith, tt)
    least-IsLeast (column ∷ next ∷ columns) = (
      omega arith,
      IsLeast-le capacity _ (least (next ∷ columns)) (next ∷ columns) (omega arith)
          (least-IsLeast (next ∷ columns)),
    )

    least-Occurs :
        (column : ℕ × C) (columns : List (ℕ × C))
        → Occurs capacity (least (column ∷ columns)) (column ∷ columns)
    unfolding least min_or
    least-Occurs column [] = inl refl
    least-Occurs column (next ∷ columns) =
        elim (min_is (capacity column.1) (least (next ∷ columns))) [
          | inl e ↦ inl e
          | inr e ↦
              inr (
                subst (λ n. Occurs capacity n (next ∷ columns)) (sym e) (least-Occurs next columns))
        ]

  -- The capacity is the smallest of a column, or zero if there is none.
  pub IsCapacity : (C → ℕ) → ℕ → List (ℕ × C) → Type 0
  IsCapacity capacity n [] = n ≡ 0
  IsCapacity capacity n (column ∷ columns) =
      IsLeast capacity n (column ∷ columns) × Occurs capacity n (column ∷ columns)

  least-IsCapacity :
      (capacity : C → ℕ) (columns : List (ℕ × C))
      → IsCapacity capacity (least capacity columns) columns
  unfolding least min_or IsCapacity
  least-IsCapacity capacity [] = refl
  least-IsCapacity capacity (column ∷ columns) =
      (least-IsLeast capacity (column ∷ columns), least-Occurs capacity column columns)

  module _ {V : Type 0} (b : ColumnBuffer C V) (columns : List (ℕ × C)) where
    duplicates : ¬ AreUnique columns → new b columns ≡ panic
    unfolding new
    duplicates n = elim (Bool-cases (any_duplicate [] columns)) [
      | inl e ↦ rw e
      | inr e ↦ absurd (n ((any_duplicate_lem [] columns).0 e).1)
    ]

    created :
        AreUnique columns
        → (buffer : ColumnarBuffer C) × (new b columns ≡ ok buffer)
          × (buffer.columns ≡ columns)
          × (buffer.num_rows ≡ 0)
          × IsCapacity b.capacity buffer.row_capacity columns
    unfolding new least
    created unique = (
      new_unchecked (least b.capacity columns) columns,
      rw ((any_duplicate_lem [] columns).1 (tt, unique)),
      refl,
      refl,
      least-IsCapacity b.capacity columns,
    )

    refused : new b columns ≡ panic → ¬ AreUnique columns
    refused e unique = let made = created unique in let k : panic ≡ ok made.0 = sym e ∙ made.1 in cc

    -- Creating a buffer panics exactly where two of its columns have the same index. Otherwise the
    -- buffer has these columns and no rows, and its capacity is the smallest of a column, or zero
    -- if there is none.
    pub new_lem :
        ((new b columns ≡ panic) ↔ (¬ AreUnique columns))
        × (AreUnique columns
            → (buffer : ColumnarBuffer C) × (new b columns ≡ ok buffer)
              × (buffer.columns ≡ columns)
              × (buffer.num_rows ≡ 0)
              × IsCapacity b.capacity buffer.row_capacity columns)
    new_lem = ((refused, duplicates), created)
