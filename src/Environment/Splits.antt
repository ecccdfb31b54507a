-- ===== src/Environment/Splits.antt =====
-- What `split` makes of a text that is put together with the character it is split at.
use odbc_api.Common.{ℕ, ◌≡◌, refl, true, false, List, [], ◌∷◌, ◌++◌, ◌==◌}
use odbc_api.Environment.Attributes.{split}

-- A text without a character
abbrev pub Lacks : ℕ → List ℕ → Type 0
Lacks c [] = Unit
Lacks c (x ∷ text) = ((x == c) ≡ false) × Lacks c text

pub split-Lacks : (c : ℕ) (text : List ℕ) → Lacks c text → split c text ≡ (text, [])
unfolding split
split-Lacks c [] h = refl
split-Lacks c (x ∷ text) (different, h) = rw (different, split-Lacks c text h)

pub split-append :
    (c : ℕ) (text behind : List ℕ)
    → Lacks c text
    → (c == c) ≡ true
    → split c (text ++ c ∷ behind) ≡ (text, (split c behind).0 ∷ (split c behind).1)
unfolding split
split-append c [] behind h same = rw same
split-append c (x ∷ text) behind (different, h) same =
    rw (different, split-append c text behind h same)
