-- ===== src/Connection/Escape.antt =====
-- Escaped values are read back from a connection string.
use odbc_api.Common.{
  ℕ, ◌≡◌, ◌≢◌, refl, List, [], ◌∷◌, ◌++◌, Option, none, some, Bool, true, false, ◌||◌, ◌==◌, ==_iff,
  if◌then◌else◌, Bool-cases, inl, inr, arith,
}
use mathlib.Core.List.{append_assoc}
use odbc_api.Connection.{
  semicolon, plus, open_brace, close_brace, contains_special, double_braces, escape_attribute_value,
}

-- A character in front of what has been read
abbrev pub push : ℕ → Option (List ℕ × List ℕ) → Option (List ℕ × List ℕ)
push c none = none
push c (some (value, rest)) = some (c ∷ value, rest)

-- How a connection string is read, as ODBC documents it. Behind an opening brace a value reaches up
-- to a closing one that is not doubled; a doubled one stands for one.
unfoldable pub read_braced : List ℕ → Option (List ℕ × List ℕ)
read_braced [] = none
read_braced (c ∷ []) = if c == close_brace then some ([], []) else none
read_braced (c ∷ d ∷ text) =
    let after = read_braced text in
    let next = read_braced (d ∷ text) in
    if c == close_brace
    then if d == close_brace then push close_brace after else some ([], d ∷ text)
    else push c next

-- Any other value reaches up to a semicolon or the end.
unfoldable pub read_plain : List ℕ → Option (List ℕ × List ℕ)
read_plain [] = some ([], [])
read_plain (c ∷ text) =
    let rest = read_plain text in if c == semicolon then some ([], c ∷ text) else push c rest

unfoldable pub read_value : List ℕ → Option (List ℕ × List ℕ)
unfolding read_braced read_plain
read_value [] = some ([], [])
read_value (c ∷ text) = if c == open_brace then read_braced text else read_plain (c ∷ text)

-- The end of the string, or of the attribute
abbrev pub EndsValue : List ℕ → Type 0
EndsValue [] = Unit
EndsValue (c ∷ rest) = c ≡ semicolon

abbrev pub StartsPlain : List ℕ → Type 0
StartsPlain [] = Unit
StartsPlain (c ∷ value) = c ≢ open_brace

read_braced_other :
    (c : ℕ) (text : List ℕ)
    → (c == close_brace) ≡ false
    → read_braced (c ∷ text) ≡ push c (read_braced text)
unfolding read_braced
read_braced_other c [] e = rw e
read_braced_other c (d ∷ text) e = rw e

read_braced_end :
    (rest : List ℕ) → EndsValue rest → read_braced (close_brace ∷ rest) ≡ some ([], rest)
unfolding read_braced
read_braced_end [] h = refl
read_braced_end (d ∷ rest) h = let e : (d == close_brace) ≡ false = ground arith in rw e

read_braced-double_braces :
    (value rest : List ℕ)
    → EndsValue rest
    → read_braced (double_braces value ++ close_brace ∷ rest) ≡ some (value, rest)
unfolding double_braces read_braced
read_braced-double_braces [] rest h = read_braced_end rest h
read_braced-double_braces (c ∷ value) rest h = elim (Bool-cases (c == close_brace)) [
  | inl e ↦
      let same : c ≡ close_brace = (==_iff c close_brace).0 e in
      rw (e, read_braced-double_braces value rest h, same)
  | inr e ↦ rw (
    e,
    read_braced_other c (double_braces value ++ close_brace ∷ rest) e,
    read_braced-double_braces value rest h,
  )
]

read_plain_end : (rest : List ℕ) → EndsValue rest → read_plain rest ≡ some ([], rest)
unfolding read_plain
read_plain_end [] h = refl
read_plain_end (c ∷ rest) h = let e : (c == semicolon) ≡ true = ground arith in rw e

-- A test and another that both fail
both_false : (a b : Bool) → (a || b) ≡ false → (a ≡ false) × (b ≡ false)
both_false true b e = absurd (cc)
both_false false b e = (refl, e)

read_plain_lem :
    (value rest : List ℕ)
    → contains_special value ≡ false
    → EndsValue rest
    → read_plain (value ++ rest) ≡ some (value, rest)
unfolding read_plain contains_special
read_plain_lem [] rest e h = read_plain_end rest h
read_plain_lem (c ∷ value) rest e h =
    let (special, none_left) =
      both_false ((c == semicolon) || (c == plus)) (contains_special value) e in
    let (s, p) = both_false (c == semicolon) (c == plus) special in
    rw (s, read_plain_lem value rest none_left h)

read_value_plain :
    (value rest : List ℕ)
    → StartsPlain value
    → EndsValue rest
    → read_value (value ++ rest) ≡ read_plain (value ++ rest)
unfolding read_value read_plain
read_value_plain [] [] first h = refl
read_value_plain [] (c ∷ rest) first h = let e : (c == open_brace) ≡ false = ground arith in rw e
read_value_plain (c ∷ value) rest first h = let e : (c == open_brace) ≡ false = ground arith in rw e

-- An escaped value, put in front of the end of the string or of the next attribute, is read back as
-- the value, whatever braces, semicolons and plus signs it has, and what follows it is left. The
-- value does not begin with an opening brace.
pub read_value-escape_attribute_value :
    (value rest : List ℕ)
    → StartsPlain value
    → EndsValue rest
    → read_value (escape_attribute_value value ++ rest) ≡ some (value, rest)
unfolding escape_attribute_value read_value
read_value-escape_attribute_value value rest first h = elim (Bool-cases (contains_special value)) [
  | inl e ↦ rw (
    e,
    append_assoc (double_braces value) (close_brace ∷ []) rest,
    read_braced-double_braces value rest h,
  )
  | inr e ↦ rw (e, read_value_plain value rest first h, read_plain_lem value rest e h)
]
