-- ===== src/Connection.antt =====
-- connection.rs: the escaping of attribute values in connection strings.
pub mod Escape
pub mod Calls
pub mod Methods
pub mod Texts
pub mod Fetched
pub mod Drop
pub mod Dropped
mod Tests
use odbc_api.Common.{ℕ, List, [], ◌∷◌, ◌++◌, Bool, false, ◌||◌, ◌==◌, if◌then◌else◌}

-- The characters that the code names
abbrev pub semicolon : ℕ
semicolon = 59

abbrev pub plus : ℕ
plus = 43

abbrev pub open_brace : ℕ
open_brace = 123

abbrev pub close_brace : ℕ
close_brace = 125

-- `unescaped.contains(&[';', '+'][..])`
unfoldable pub contains_special : List ℕ → Bool
contains_special [] = false
contains_special (c ∷ text) = (c == semicolon) || (c == plus) || contains_special text

-- `unescaped.replace("}", "}}")`
unfoldable pub double_braces : List ℕ → List ℕ
double_braces [] = []
double_braces (c ∷ text) =
    let rest = double_braces text in
    if c == close_brace then close_brace ∷ close_brace ∷ rest else c ∷ rest

unfoldable pub escape_attribute_value : List ℕ → List ℕ
unfolding contains_special double_braces
escape_attribute_value unescaped =
    if contains_special unescaped
    then open_brace ∷ (double_braces unescaped ++ close_brace ∷ [])
    else unescaped
