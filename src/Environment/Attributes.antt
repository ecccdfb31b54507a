-- ===== src/Environment/Attributes.antt =====
-- `attributes_iter` of environment.rs: the attributes of a driver, as `key=value` texts with a zero
-- behind each, and one more behind the last.
use odbc_api.Common.{ℕ, List, [], ◌∷◌, ok, panic, ◌>>=◌, ◌==◌, if◌then◌else◌}
use odbc_api.Common.Panics.{Run}

abbrev pub Pair : Type 0
Pair = List ℕ × List ℕ

-- `split` at a character: what is in front of the first one, and the rest
unfoldable pub split : ℕ → List ℕ → List ℕ × List (List ℕ)
split c [] = ([], [])
split c (x ∷ text) =
    let rest = split c text in if x == c then ([], rest.0 ∷ rest.1) else (x ∷ rest.0, rest.1)

-- `take_while` not empty
unfoldable pub take_non_empty : List (List ℕ) → List (List ℕ)
take_non_empty [] = []
take_non_empty ([] ∷ texts) = []
take_non_empty ((x ∷ text) ∷ texts) = (x ∷ text) ∷ take_non_empty texts

abbrev pub equals_sign : ℕ
equals_sign = 61

-- The key, and the value behind the first `=`, up to the next one
abbrev pub pair_of : List ℕ × List (List ℕ) → Run Pair
pair_of (key, []) = panic
pair_of (key, value ∷ rest) = ok (key, value)

unfoldable pub pairs : List (List ℕ) → Run (List Pair)
unfolding split
pairs [] = ok []
pairs (text ∷ texts) = do
  pair ← pair_of (split equals_sign text)
  rest ← pairs texts
  ok (pair ∷ rest)

-- The pairs, of which a `HashMap` keeps the last of each key
unfoldable pub attributes_iter : List ℕ → Run (List Pair)
unfolding pairs take_non_empty
attributes_iter attributes =
    let texts : List ℕ × List (List ℕ) = split 0 attributes in
    pairs (take_non_empty (texts.0 ∷ texts.1))
