-- ===== src/Common/Slices.antt =====
-- The panicking accesses of slices where they are in range, and what they do.
use Prim.Native.Nat.{ℕ, ◌+◌, ◌-◌, ◌*◌, ◌≤◌, ◌<◌}
use mathlib.Core.Path.{◌≡◌, refl, ap}
use mathlib.Core.Logic.{◌⊎◌, inl, inr}
use mathlib.Core.Bool.{true}
use mathlib.Core.List.{List}
use native.Mathlib.Omega.{arith}
use odbc_api.Common.Tests.{leb, lt→ltb, ◌==◌}
use odbc_api.Common.Lists.{length, set, overwrite, replicate}
use odbc_api.Common.Segments.{segment}
use odbc_api.Common.Int.{pos}
use odbc_api.Common.Panics.{Run, ok, panic, store, slice, copy_slice, alloc, to_isize, isize_max}

pub le→leb : (a b : ℕ) → a ≤ b → leb a b ≡ true
le→leb a b h = ground arith

pub eq→== : (a b : ℕ) → a ≡ b → (a == b) ≡ true
eq→== a b h = ground arith

module _ {ℓ} {A : Type ℓ} where
  pub slice_ok :
      (v : List A) (s n e : ℕ) → e ≡ s + n → s + n ≤ length v → slice v s e ≡ ok (segment s n v)
  slice_ok v s n e q h =
      rw (le→leb s e (omega arith), le→leb e (length v) (omega arith))
        (ap (λ (k : ℕ). ok (segment s k v)) (omega arith))

  pub copy_slice_ok :
      (v : List A) (s e : ℕ) (src : List A)
      → e ≡ s + length src
      → s + length src ≤ length v
      → copy_slice v s e src ≡ ok (overwrite v s src)
  copy_slice_ok v s e src q h = rw (
    le→leb s e (omega arith),
    le→leb e (length v) (omega arith),
    eq→== (e - s) (length src) (omega arith),
  )

  pub store_ok : (v : List A) (i : ℕ) (a : A) → i < length v → store v i a ≡ ok (set v i a)
  store_ok v i a h = rw (lt→ltb i (length v) h)

  pub alloc_ok : (size n : ℕ) (a : A) → n * size ≤ isize_max → alloc size n a ≡ ok (replicate n a)
  alloc_ok size n a h = rw (le→leb (n * size) isize_max h)

pub to_isize_ok : (n : ℕ) → n ≤ isize_max → to_isize n ≡ ok (pos n)
to_isize_ok n h = rw (le→leb n isize_max h)

pub Run-cases {ℓ} : {A : Type ℓ} (r : Run A) → (r ≡ panic) ⊎ ((a : A) × (r ≡ ok a))
Run-cases (ok a) = inr (a, refl)
Run-cases panic = inl refl
