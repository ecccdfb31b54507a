-- ===== src/Diagnostics/State.antt =====
-- handles/diagnostics.rs: `State`, five characters in ASCII, with the comparison that it derives.
use odbc_api.Common.{ℕ, List, [], ◌∷◌, Bool, true, false, ◌==◌, ◌&&◌}

-- `State::INVALID_STATE_TRANSACTION`: the characters of 25000
abbrev pub invalid_state_transaction : List ℕ
invalid_state_transaction = 50 ∷ 53 ∷ 48 ∷ 48 ∷ 48 ∷ []

-- `==` of two states
unfoldable pub same_state : List ℕ → List ℕ → Bool
same_state [] [] = true
same_state [] (d ∷ text) = false
same_state (c ∷ state) [] = false
same_state (c ∷ state) (d ∷ text) = (c == d) && same_state state text
