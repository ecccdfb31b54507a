-- ===== src/Common/Panics.antt =====
-- Code that may panic: a value, or the panic that ends the call.
use Prim.Native.Nat.{ℕ, ◌+◌, ◌-◌, ◌*◌, ◌%◌, ◌^◌, ◌≤◌, ◌<◌}
use mathlib.Core.Path.{◌≡◌}
use mathlib.Core.Bool.{Bool, true, false, ◌&&◌}
use mathlib.Core.List.{List, ◌++◌}
use mathlib.Core.Option.{Option, none, some}
use native.Mathlib.Nat.{mod-eq_of_lt}
use native.Mathlib.Omega.{arith}
use odbc_api.Common.Tests.{ltb, leb, if◌then◌else◌, ◌==◌}
use odbc_api.Common.Lists.{length, take, drop, set, get_elem?, overwrite, replicate}
use odbc_api.Common.Int.{ℤ, pos, negsuc}

pub data Run {ℓ} (A : Type ℓ) : Type ℓ where
  ok : A → Run A
  panic : Run A

infixl 5 ◌>>=◌ ◌>>◌
abbrev pub ◌>>=◌ {ℓ κ} : {A : Type ℓ} {B : Type κ} → Run A → (A → Run B) → Run B
ok a >>= f = f a
panic >>= f = panic

abbrev pub ◌>>◌ {ℓ} : {B : Type ℓ} → Run (Unit {0}) → Run B → Run B
m >> k = m >>= λ _. k

-- `assert!(b)`
abbrev pub assert : Bool → Run (Unit {0})
assert true = ok tt
assert false = panic

abbrev pub map_run {ℓ κ} : {A : Type ℓ} {B : Type κ} → (A → B) → Run A → Run B
map_run f (ok a) = ok (f a)
map_run f panic = panic

-- `Option::unwrap`
abbrev pub unwrap {ℓ} : {A : Type ℓ} → Option A → Run A
unwrap none = panic
unwrap (some a) = ok a

-- The bounds of a 64 bit target.
abbrev pub usize_mod : ℕ
usize_mod = 2 ^ 64

abbrev pub isize_max : ℕ
isize_max = 2 ^ 63 - 1

-- `a + b`, `a * b` and `a - b` on `usize`, which wrap round in a release build
unfoldable pub add_usize : ℕ → ℕ → ℕ
add_usize a b = (a + b) % usize_mod

unfoldable pub mul_usize : ℕ → ℕ → ℕ
mul_usize a b = (a * b) % usize_mod

unfoldable pub sub_usize : ℕ → ℕ → ℕ
sub_usize a b = (a + usize_mod - b) % usize_mod

pub add_usize_lem : (a b : ℕ) → a + b < usize_mod → add_usize a b ≡ a + b
unfolding add_usize
add_usize_lem a b h = mod-eq_of_lt h

pub mul_usize_lem : (a b : ℕ) → a * b < usize_mod → mul_usize a b ≡ a * b
unfolding mul_usize
mul_usize_lem a b h = mod-eq_of_lt h

pub sub_usize_lem : (a b : ℕ) → a < usize_mod → b ≤ a → sub_usize a b ≡ a - b
unfolding sub_usize
sub_usize_lem a b h k = omega arith

-- `usize` to `isize` by `try_into().unwrap()`, and back
abbrev pub to_isize : ℕ → Run ℤ
to_isize n = if leb n isize_max then ok (pos n) else panic

abbrev pub to_usize : ℤ → Run ℕ
to_usize (pos n) = ok n
to_usize (negsuc n) = panic

module _ {ℓ} {A : Type ℓ} where
  -- `v[i]`
  abbrev pub index : List A → ℕ → Run A
  index v i = unwrap (get_elem? v i)

  -- `v[i] = a`
  abbrev pub store : List A → ℕ → A → Run (List A)
  store v i a = if ltb i (length v) then ok (set v i a) else panic

  -- `&v[start..end]`
  abbrev pub slice : List A → ℕ → ℕ → Run (List A)
  slice v start end =
      if leb start end && leb end (length v) then ok (take (end - start) (drop start v)) else panic

  -- `v[start..end].copy_from_slice(src)`
  abbrev pub copy_slice : List A → ℕ → ℕ → List A → Run (List A)
  copy_slice v start end src =
      if leb start end && leb end (length v)
      then if (end - start) == length src then ok (overwrite v start src) else panic
      else panic

  -- `vec![a; n]` of elements of `size` bytes; a capacity above `isize::MAX` bytes panics
  abbrev pub alloc : ℕ → ℕ → A → Run (List A)
  alloc size n a = if leb (n * size) isize_max then ok (replicate n a) else panic

  -- `Vec::resize(n, a)`
  abbrev pub resize : List A → ℕ → A → List A
  resize v n a = if leb n (length v) then take n v else v ++ replicate (n - length v) a
