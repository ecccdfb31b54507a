-- ===== src/Common/Segments.antt =====
-- Reading a segment of a list back after a write: inside the written range, before it, behind it.
use Prim.Native.Nat.{ℕ, zero, suc, ◌+◌, ◌≤◌}
use mathlib.Core.Path.{◌≡◌, refl, ap, ◌∙◌, sym}
use mathlib.Core.List.{List, [], ◌∷◌, ◌++◌}
use native.Mathlib.Omega.{arith}
use odbc_api.Common.Lists.{length, take, drop, set, overwrite}

module _ {ℓ} {A : Type ℓ} where
  pub take-nil : (n : ℕ) → take {A = A} n [] ≡ []
  take-nil zero = refl
  take-nil (suc n) = refl

  pub drop-nil : (n : ℕ) → drop {A = A} n [] ≡ []
  drop-nil zero = refl
  drop-nil (suc n) = refl

module _ {ℓ} {A : Type ℓ} where
  -- the `n` elements from position `s` on
  abbrev pub segment : ℕ → ℕ → List A → List A
  segment s n v = take n (drop s v)

  pub take-length : (v : List A) → take (length v) v ≡ v
  take-length [] = refl
  take-length (x ∷ v) = ap (λ t. x ∷ t) (take-length v)

  pub take_all : (n : ℕ) (v : List A) → length v ≤ n → take n v ≡ v
  take_all zero [] h = refl
  take_all zero (x ∷ v) h = absurd (omega arith)
  take_all (suc n) [] h = refl
  take_all (suc n) (x ∷ v) h = ap (λ t. x ∷ t) (take_all n v (omega arith))

  pub take-take : (m n : ℕ) (v : List A) → m ≤ n → take m (take n v) ≡ take m v
  take-take zero n v h = refl
  take-take (suc m) zero v h = absurd (omega arith)
  take-take (suc m) (suc n) [] h = refl
  take-take (suc m) (suc n) (x ∷ v) h = ap (λ t. x ∷ t) (take-take m n v (omega arith))

  pub drop-drop : (m n : ℕ) (v : List A) → drop m (drop n v) ≡ drop (n + m) v
  drop-drop m zero v = ap (λ (k : ℕ). drop k v) (omega arith)
  drop-drop m (suc n) [] = drop-nil m ∙ sym (drop-nil (suc n + m))
  drop-drop m (suc n) (x ∷ v) =
      drop-drop m n v
      ∙ ap (λ (k : ℕ). drop k (x ∷ v)) (let e : suc (n + m) ≡ suc n + m = omega arith in e)

  pub overwrite_nil : (v : List A) (o : ℕ) → overwrite v o [] ≡ v
  overwrite_nil [] o = refl
  overwrite_nil (x ∷ v) zero = refl
  overwrite_nil (x ∷ v) (suc o) = ap (λ t. x ∷ t) (overwrite_nil v o)

  pub set-eq-overwrite : (v : List A) (i : ℕ) (a : A) → set v i a ≡ overwrite v i (a ∷ [])
  set-eq-overwrite [] i a = refl
  set-eq-overwrite (x ∷ v) zero a = ap (λ t. a ∷ t) (sym (overwrite_nil v zero))
  set-eq-overwrite (x ∷ v) (suc i) a = ap (λ t. x ∷ t) (set-eq-overwrite v i a)

  pub segment-overwrite_self :
      (v : List A) (o : ℕ) (src : List A)
      → o + length src ≤ length v
      → segment o (length src) (overwrite v o src) ≡ src
  segment-overwrite_self [] zero [] h = refl
  segment-overwrite_self [] zero (y ∷ src) h = absurd (omega arith)
  segment-overwrite_self [] (suc o) src h = absurd (omega arith)
  segment-overwrite_self (x ∷ v) zero [] h = refl
  segment-overwrite_self (x ∷ v) zero (y ∷ src) h =
      ap (λ t. y ∷ t) (segment-overwrite_self v zero src (omega arith))
  segment-overwrite_self (x ∷ v) (suc o) src h = segment-overwrite_self v o src (omega arith)

  pub segment-overwrite_before :
      (v : List A) (s n o : ℕ) (src : List A)
      → s + n ≤ o
      → segment s n (overwrite v o src) ≡ segment s n v
  segment-overwrite_before [] s n o src h = refl
  segment-overwrite_before (x ∷ v) zero zero o src h = refl
  segment-overwrite_before (x ∷ v) zero (suc n) zero src h = absurd (omega arith)
  segment-overwrite_before (x ∷ v) zero (suc n) (suc o) src h =
      ap (λ t. x ∷ t) (segment-overwrite_before v zero n o src (omega arith))
  segment-overwrite_before (x ∷ v) (suc s) n zero src h = absurd (omega arith)
  segment-overwrite_before (x ∷ v) (suc s) n (suc o) src h =
      segment-overwrite_before v s n o src (omega arith)

  pub drop-overwrite_after :
      (v : List A) (s o : ℕ) (src : List A)
      → o + length src ≤ s
      → drop s (overwrite v o src) ≡ drop s v
  drop-overwrite_after [] s o src h = refl
  drop-overwrite_after (x ∷ v) zero zero [] h = refl
  drop-overwrite_after (x ∷ v) zero zero (y ∷ src) h = absurd (omega arith)
  drop-overwrite_after (x ∷ v) zero (suc o) src h = absurd (omega arith)
  drop-overwrite_after (x ∷ v) (suc s) zero [] h = refl
  drop-overwrite_after (x ∷ v) (suc s) zero (y ∷ src) h =
      drop-overwrite_after v s zero src (omega arith)
  drop-overwrite_after (x ∷ v) (suc s) (suc o) src h = drop-overwrite_after v s o src (omega arith)

  pub take_append : (xs ys : List A) → take (length xs) (xs ++ ys) ≡ xs
  take_append [] ys = refl
  take_append (x ∷ xs) ys = ap (λ t. x ∷ t) (take_append xs ys)

  pub take-append_le : (n : ℕ) (xs ys : List A) → n ≤ length xs → take n (xs ++ ys) ≡ take n xs
  take-append_le zero xs ys h = refl
  take-append_le (suc n) [] ys h = absurd (omega arith)
  take-append_le (suc n) (x ∷ xs) ys h = ap (λ t. x ∷ t) (take-append_le n xs ys (omega arith))

  pub drop-append : (xs ys : List A) (n : ℕ) → n ≡ length xs → drop n (xs ++ ys) ≡ ys
  drop-append [] ys zero h = refl
  drop-append [] ys (suc n) h = absurd (omega arith)
  drop-append (x ∷ xs) ys zero h = absurd (omega arith)
  drop-append (x ∷ xs) ys (suc n) h = drop-append xs ys n (omega arith)

  pub length-segment : (v : List A) (s n : ℕ) → s + n ≤ length v → length (segment s n v) ≡ n
  length-segment v zero zero h = refl
  length-segment [] zero (suc n) h = absurd (omega arith)
  length-segment (x ∷ v) zero (suc n) h = ap suc (length-segment v zero n (omega arith))
  length-segment [] (suc s) zero h = absurd (omega arith)
  length-segment [] (suc s) (suc n) h = absurd (omega arith)
  length-segment (x ∷ v) (suc s) n h = length-segment v s n (omega arith)
