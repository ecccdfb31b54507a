-- ===== src/Description/Fits.antt =====
-- The buffer that is chosen for a data type can hold its values.
use odbc_api.Common.{
  ℕ, ◌+◌, ◌^◌, ◌≤◌, ◌<◌, ◌≡◌, ◌≢◌, ◌↔◌, ◌⊎◌, inl, inr, pos, Option, none, some, ok, panic, arith,
}
use native.Mathlib.Decide.{dec_lt}
use native.Mathlib.Nat.{pow-le-pow_right}
use odbc_api.DataType.{DataType, display_size}
use odbc_api.Description.{BufferKind, from_data_type, from_exact_numeric}

-- The types for which no buffer is chosen.
abbrev pub HasNoBuffer : DataType → Type 0
HasNoBuffer DataType.unknown = Unit
HasNoBuffer (DataType.other kind column_size decimal_digits) = Unit
HasNoBuffer (DataType.float precision) = 53 < precision
HasNoBuffer _ = ⊥

-- The choice of a buffer never panics, though it unwraps a display size. It is empty exactly for an
-- unknown type, a type without a variant of its own, and a float of more than 53 binary digits.
pub from_data_type_total :
    (dt : DataType) → (from_data_type dt ≢ panic) × ((from_data_type dt ≡ ok none) ↔ HasNoBuffer dt)
unfolding from_data_type display_size
from_data_type_total DataType.unknown = ground arith
from_data_type_total (DataType.numeric precision scale) = ground arith
from_data_type_total (DataType.decimal precision scale) = ground arith
from_data_type_total _ = ground arith

-- The greatest magnitude, plus one, of the integers that a buffer element holds.
abbrev pub int_bound : BufferKind → Option ℕ
int_bound BufferKind.i8 = some (2 ^ 7)
int_bound BufferKind.i16 = some (2 ^ 15)
int_bound BufferKind.i32 = some (2 ^ 31)
int_bound BufferKind.i64 = some (2 ^ 63)
int_bound _ = none

-- A power of ten with fewer than `n + 1` zeros is at most that with `n`.
pow_le : (p n : ℕ) → p < n + 1 → 10 ^ p ≤ 10 ^ n
pow_le p n h = pow-le-pow_right (omega arith) (omega arith)

exact_fits :
    (p : ℕ) (kind : BufferKind) (bound : ℕ) (dt : DataType)
    → from_exact_numeric dt p (pos 0) ≡ ok (some kind)
    → int_bound kind ≡ some bound
    → 10 ^ p ≤ bound
unfolding from_exact_numeric
exact_fits p kind bound dt e b = elim (dec_lt p 3) [
  | yes h ↦ ground (arith, pow_le p 2 h)
  | no h3 ↦ elim (dec_lt p 10) [
    | yes h ↦ ground (arith, pow_le p 9 h)
    | no h10 ↦ elim (dec_lt p 19) [ yes h ↦ ground (arith, pow_le p 18 h) | no h19 ↦ ground arith ]
  ]
]

-- A NUMERIC or DECIMAL of `p` digits and no fraction that is bound to an integer buffer has its
-- values, which lie below ten to the power `p`, inside the range of the buffer's elements.
pub numeric_fits :
    (p : ℕ) (kind : BufferKind) (bound : ℕ) (dt : DataType)
    → (dt ≡ DataType.numeric p (pos 0)) ⊎ (dt ≡ DataType.decimal p (pos 0))
    → from_data_type dt ≡ ok (some kind)
    → int_bound kind ≡ some bound
    → 10 ^ p ≤ bound
unfolding from_data_type
numeric_fits p kind bound dt (inl e) h b =
    exact_fits p kind bound (DataType.numeric p (pos 0)) (rw e at h) b
numeric_fits p kind bound dt (inr e) h b =
    exact_fits p kind bound (DataType.decimal p (pos 0)) (rw e at h) b

-- A text buffer that is chosen for a type is as long as the type's display size.
pub text_len :
    (dt : DataType) (n : ℕ)
    → from_data_type dt ≡ ok (some (BufferKind.text n))
    → display_size dt ≡ some n
unfolding from_data_type display_size
text_len (DataType.numeric precision scale) n e = ground arith
text_len (DataType.decimal precision scale) n e = ground arith
text_len (DataType.time precision) n e = ground arith
text_len (DataType.float precision) n e = ground arith
text_len _ n e = cc
