-- ===== src/TextColumn/Fill.antt =====
-- The indicators that the loop of `fill_null` leaves.
use odbc_api.Common.{
  ℕ, zero, suc, ◌+◌, ◌-◌, ◌≤◌, ◌<◌, ◌≡◌, refl, ap, ◌∙◌, List, Option, some, ℤ, ◌&&◌, ok, store_ok,
  set, length, length-set, replicate, get_elem?, get_elem?-set_self, get_elem?-set_ne, leb, ltb,
  arith, if◌then◌else◌,
}
use odbc_api.TextColumn.{store_range}

-- The indicators after `store_range`.
abbrev pub filled : ℕ → ℕ → ℤ → List ℤ → ℕ → Option ℤ
filled n i v inds j = if leb i j && ltb j (i + n) then some v else get_elem? inds j

filled_step :
    (n i : ℕ) (v : ℤ) (inds : List ℤ) (j : ℕ)
    → i < length inds
    → filled n (i + 1) v (set inds i v) j ≡ filled (suc n) i v inds j
filled_step n i v inds j h =
    ground (arith, get_elem?-set_self inds i v h, get_elem?-set_ne inds i j v)

pub store_range_lem :
    (n i : ℕ) (v : ℤ) (inds : List ℤ)
    → i + n ≤ length inds
    → (r : List ℤ) × (store_range n i v inds ≡ ok r)
      × (length r ≡ length inds)
      × ((j : ℕ) → get_elem? r j ≡ filled n i v inds j)
unfolding store_range
store_range_lem zero i v inds h = (inds, refl, refl, λ j. ground arith)
store_range_lem (suc n) i v inds h =
    let (r, e, l, g) =
      store_range_lem n (i + 1) v (set inds i v) (rw (length-set inds i v) (omega (arith, h))) in
    (
      r,
      rw (store_ok inds i v (omega (arith, h))) e,
      l ∙ length-set inds i v,
      λ j. g j ∙ filled_step n i v inds j (omega (arith, h)),
    )

pub all_rows :
    (n : ℕ) (v : ℤ) (inds : List ℤ) → store_range (n - 0) 0 v inds ≡ store_range n 0 v inds
all_rows n v inds = ap (λ k. store_range k 0 v inds) (omega arith)

pub in_range : (n i : ℕ) (v : ℤ) (inds : List ℤ) → i < n → filled n 0 v inds i ≡ some v
in_range n i v inds h = ground arith

pub get_elem?-replicate {ℓ} :
    {A : Type ℓ} (n i : ℕ) (a : A) → i < n → get_elem? (replicate n a) i ≡ some a
get_elem?-replicate zero i a h = absurd (omega arith)
get_elem?-replicate (suc n) zero a h = refl
get_elem?-replicate (suc n) (suc i) a h = get_elem?-replicate n i a (omega arith)
