-- ===== src/DataType/Sizes.antt =====
-- The lengths of texts in UTF-8 and UTF-16, against what the characters of a type take.
use odbc_api.Common.{
  ℕ, zero, suc, ◌+◌, ◌*◌, ◌≤◌, ◌<◌, ◌≡◌, refl, ap, List, [], ◌∷◌, Option, none, some, length,
  replicate, length-replicate, arith, mul_usize, mul_usize_lem, usize_mod, ltb, if◌then◌else◌,
}
use odbc_api.DataType.{DataType, column_size, display_size, utf8_len, utf16_len}

-- How many bytes UTF-8, and how many units UTF-16, takes for a character, a Unicode scalar value
unfoldable pub utf8_width : ℕ → ℕ
utf8_width c = if ltb c 128 then 1 else if ltb c 2048 then 2 else if ltb c 65536 then 3 else 4

unfoldable pub utf16_width : ℕ → ℕ
utf16_width c = if ltb c 65536 then 1 else 2

abbrev pub total : (ℕ → ℕ) → List ℕ → ℕ
total width [] = 0
total width (c ∷ text) = width c + total width text

-- How many characters a value of a type may have, where the type is one of characters. Those of
-- a long VARCHAR are not among them.
unfoldable pub characters : DataType → Option ℕ
characters (DataType.varchar n) = some n
characters (DataType.w_varchar n) = some n
characters (DataType.w_char n) = some n
characters (DataType.char n) = some n
characters rest = none

-- The length is the least one that suffices for every text of at most so many characters.
pub record IsLeast (width : ℕ → ℕ) (chars : ℕ) (len : Option ℕ) : Type 0 where
  pub units : ℕ
  pub there : len ≡ some units
  pub suffices : (text : List ℕ) → length text ≤ chars → total width text ≤ units
  pub needed : (text : List ℕ) × (length text ≤ chars) × (total width text ≡ units)

utf8_width_le : (c : ℕ) → utf8_width c ≤ 4
unfolding utf8_width
utf8_width_le c = ground arith

utf16_width_le : (c : ℕ) → utf16_width c ≤ 2
unfolding utf16_width
utf16_width_le c = ground arith

total_le :
    (width : ℕ → ℕ) (k : ℕ)
    → ((c : ℕ) → width c ≤ k)
    → (text : List ℕ) → total width text ≤ length text * k
total_le width k h [] = omega arith
total_le width k h (c ∷ text) = omega (arith, h c, total_le width k h text)

total-replicate : (width : ℕ → ℕ) (c k n : ℕ) → width c ≡ k → total width (replicate n c) ≡ n * k
total-replicate width c k zero e = omega arith
total-replicate width c k (suc n) e = omega (arith, e, total-replicate width c k n e)

le_mul : (a b k : ℕ) → a ≤ b → a * k ≤ b * k
le_mul a b k h = grind arith

-- A character outside the basic plane takes most.
least :
    (width : ℕ → ℕ) (k n : ℕ)
    → ((c : ℕ) → width c ≤ k)
    → width 65536 ≡ k
    → n * k < usize_mod
    → IsLeast width n (some (mul_usize n k))
least width k n h most small = record {
  units = n * k;
  there = ap some (mul_usize_lem n k small);
  suffices = λ text short. omega (arith, total_le width k h text, le_mul (length text) n k short);
  needed = (
    replicate n 65536,
    omega (arith, length-replicate {A = ℕ} n 65536),
    total-replicate width 65536 k n most,
  );
}

least_utf8 : (n : ℕ) → n * 4 < usize_mod → IsLeast utf8_width n (some (mul_usize n 4))
unfolding utf8_width
least_utf8 n h = least utf8_width 4 n utf8_width_le refl h

least_utf16 : (n : ℕ) → n * 4 < usize_mod → IsLeast utf16_width n (some (mul_usize n 2))
unfolding utf16_width
least_utf16 n h = least utf16_width 2 n utf16_width_le refl (omega (arith, h))

-- The lengths of a type, as its characters ask for, if it has any
abbrev pub HasLengths : DataType → Option ℕ → Type 0
HasLengths dt (some n) = IsLeast utf8_width n (utf8_len dt) × IsLeast utf16_width n (utf16_len dt)
HasLengths dt none = (utf8_len dt ≡ display_size dt) × (utf16_len dt ≡ display_size dt)

-- For VARCHAR, WVARCHAR, CHAR and WCHAR, where four times the length does not wrap round, `utf8_len`
-- is the least number of bytes, and `utf16_len` the least number of units, that suffices for every
-- text of as many characters as the type has. For any other type, that of a long VARCHAR included,
-- both are the display size.
pub utf8_len-HasLengths :
    (dt : DataType) → column_size dt * 4 < usize_mod → HasLengths dt (characters dt)
unfolding utf8_len utf16_len column_size characters
utf8_len-HasLengths (DataType.varchar n) h = (least_utf8 n h, least_utf16 n h)
utf8_len-HasLengths (DataType.w_varchar n) h = (least_utf8 n h, least_utf16 n h)
utf8_len-HasLengths (DataType.w_char n) h = (least_utf8 n h, least_utf16 n h)
utf8_len-HasLengths (DataType.char n) h = (least_utf8 n h, least_utf16 n h)
utf8_len-HasLengths dt h = (refl, refl)
