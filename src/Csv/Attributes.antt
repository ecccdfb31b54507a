-- ===== src/Csv/Attributes.antt =====
-- The driver reads from the connection string what the user has given.
use odbc_api.Common.{
  ℕ, ◌≡◌, ◌≢◌, refl, List, [], ◌∷◌, ◌++◌, Option, none, some, Bool, false, arith, Bool-cases, inl,
  inr, ◌==◌,
}
use mathlib.Core.List.{append_assoc, append-nil}
use odbc_api.Connection.Escape.{
  read_braced, read_plain, read_value, push, StartsPlain, read_value-escape_attribute_value,
}
use odbc_api.Connection.{semicolon, open_brace, close_brace, escape_attribute_value}
use odbc_api.Connection.Calls.{ConnectionApi}
use odbc_api.Environment.Connect.{
  ConnectApi, DriverCompleteOption, driver_connect_with_hwnd, driver_connect_hidden, prompts,
}
use odbc_api.Csv.{codes, odbc, ◌>>=◌, pure}
use odbc_api.Csv.Connect.{
  with_attribute, full_connection_string, driver_completion, connect_by_string, open_connection,
}

abbrev equals : ℕ
equals = 61

abbrev NoEquals : List ℕ → Type 0
NoEquals [] = Unit
NoEquals (c ∷ keyword) = (c ≢ equals) × NoEquals keyword

-- A text is read as attributes, each a keyword without a sign of equality, that sign, and a value
-- that a semicolon ends.
pub data Lists : List ℕ → List (List ℕ × List ℕ) → Type 0 where
  nothing : Lists [] []
  attribute :
      (keyword text : List ℕ) {value rest : List ℕ} {attributes : List (List ℕ × List ℕ)}
      → NoEquals keyword
      → read_value text ≡ some (value, semicolon ∷ rest)
      → Lists rest attributes
      → Lists (keyword ++ equals ∷ text) ((keyword, value) ∷ attributes)

pushed :
    (c : ℕ) (read : Option (List ℕ × List ℕ)) (value rest : List ℕ)
    → push c read ≡ some (value, rest)
    → (v : List ℕ) × (read ≡ some (v, rest)) × (c ∷ v ≡ value)
pushed c none value rest e = absurd (cc)
pushed c (some (v, r)) value rest e = (v, cc, cc)

-- What is read of a value does not depend on what follows its semicolon.
read_braced-more :
    (text value rest more : List ℕ)
    → read_braced text ≡ some (value, semicolon ∷ rest)
    → read_braced (text ++ more) ≡ some (value, semicolon ∷ rest ++ more)
unfolding read_braced
read_braced-more [] value rest more e = absurd (cc)
read_braced-more (c ∷ []) value rest more e = absurd (elim (Bool-cases (c == close_brace)) [
  | inl t ↦ let ended : read_braced (c ∷ []) ≡ some ([], []) = rw t refl in cc
  | inr t ↦ let ended : read_braced (c ∷ []) ≡ none = rw t refl in cc
])
read_braced-more (c ∷ d ∷ text) value rest more e = elim (Bool-cases (c == close_brace)) [
  | inl t ↦ elim (Bool-cases (d == close_brace)) [
    | inl u ↦
        let step : read_braced (c ∷ d ∷ text) ≡ push close_brace (read_braced text) =
          rw (t, u) refl in
        let (v, inner, same) =
          pushed close_brace (read_braced text) value (semicolon ∷ rest) (cc) in
        rw (t, u, read_braced-more text v rest more inner) (cc)
    | inr u ↦
        let step : read_braced (c ∷ d ∷ text) ≡ some ([], d ∷ text) = rw (t, u) refl in
        rw (t, u) (cc)
  ]
  | inr t ↦
      let step : read_braced (c ∷ d ∷ text) ≡ push c (read_braced (d ∷ text)) = rw t refl in
      let (v, inner, same) = pushed c (read_braced (d ∷ text)) value (semicolon ∷ rest) (cc) in
      rw (t, read_braced-more (d ∷ text) v rest more inner) (cc)
]

read_plain-more :
    (text value rest more : List ℕ)
    → read_plain text ≡ some (value, semicolon ∷ rest)
    → read_plain (text ++ more) ≡ some (value, semicolon ∷ rest ++ more)
unfolding read_plain
read_plain-more [] value rest more e = absurd (cc)
read_plain-more (c ∷ text) value rest more e = elim (Bool-cases (c == semicolon)) [
  | inl t ↦ let step : read_plain (c ∷ text) ≡ some ([], c ∷ text) = rw t refl in rw t (cc)
  | inr t ↦
      let step : read_plain (c ∷ text) ≡ push c (read_plain text) = rw t refl in
      let (v, inner, same) = pushed c (read_plain text) value (semicolon ∷ rest) (cc) in
      rw (t, read_plain-more text v rest more inner) (cc)
]

read_value-more :
    (text value rest more : List ℕ)
    → read_value text ≡ some (value, semicolon ∷ rest)
    → read_value (text ++ more) ≡ some (value, semicolon ∷ rest ++ more)
unfolding read_value
read_value-more [] value rest more e = absurd (cc)
read_value-more (c ∷ text) value rest more e = elim (Bool-cases (c == open_brace)) [
  | inl t ↦
      let step : read_value (c ∷ text) ≡ read_braced text = rw t refl in
      rw t (read_braced-more text value rest more (cc))
  | inr t ↦
      let step : read_value (c ∷ text) ≡ read_plain (c ∷ text) = rw t refl in
      rw t (read_plain-more (c ∷ text) value rest more (cc))
]

-- Attributes that are put behind others are read behind them.
Lists-append :
    {text more : List ℕ} {attributes others : List (List ℕ × List ℕ)}
    → Lists text attributes
    → Lists more others
    → Lists (text ++ more) (attributes ++ others)
Lists-append Lists.nothing other = other
Lists-append {more = more} (Lists.attribute keyword text {value} {rest} name read tail) other =
    rw (append_assoc keyword (equals ∷ text) more) (
      Lists.attribute keyword (text ++ more) name (read_value-more text value rest more read)
        (Lists-append tail other))

-- What is given is added to the attributes.
abbrev given : List ℕ → Option (List ℕ) → List (List ℕ × List ℕ)
given keyword none = []
given keyword (some value) = (keyword, value) ∷ []

-- A value is escaped unless it begins with a brace, so that it is not to do so without being escaped.
abbrev IsGiven : Option (List ℕ) → Type 0
IsGiven none = Unit
IsGiven (some value) = StartsPlain value

with_attribute-Lists :
    (cs keyword : List ℕ) (value : Option (List ℕ)) {attributes : List (List ℕ × List ℕ)}
    → NoEquals keyword
    → IsGiven value
    → Lists cs attributes
    → Lists (with_attribute cs keyword value) (attributes ++ given keyword value)
unfolding with_attribute
with_attribute-Lists cs keyword none {attributes} name plain lists =
    rw (append-nil attributes) lists
with_attribute-Lists cs keyword (some value) name plain lists = simp (append_assoc) (
    Lists-append lists (
      Lists.attribute keyword (escape_attribute_value value ++ codes ";") name
        (read_value-escape_attribute_value value (codes ";") plain refl) Lists.nothing))

uid-NoEquals : NoEquals (codes "UID")
uid-NoEquals = (ground arith, (ground arith, (ground arith, tt)))

pwd-NoEquals : NoEquals (codes "PWD")
pwd-NoEquals = (ground arith, (ground arith, (ground arith, tt)))

module _ {S : Type 0} (api : ConnectionApi S) (env : ConnectApi S) (windows : Bool)
    (hidden_window : ℕ) (to_utf16 : List ℕ → List ℕ) where
  -- Where odbcsv is given a connection string whose attributes all end with a semicolon, and neither
  -- a data source nor the flag to prompt, it connects without a prompt and without a window, by a
  -- string that is read as the attributes it was given, and behind them the user and the password,
  -- each where it was given, whatever special characters they contain. Neither begins with an
  -- opening brace.
  pub open_connection_lem :
      (cs : List ℕ) (user password : Option (List ℕ)) (attributes : List (List ℕ × List ℕ)) (s : S)
      → Lists cs attributes
      → IsGiven user
      → IsGiven password
      → (text : List ℕ) × (open_connection api env windows hidden_window to_utf16
            (record {
              prompt = false;
              connection_string = some cs;
              dsn = none;
              user = user;
              password = password;
            })
            s
          ≡ (odbc (
                  driver_connect_with_hwnd api env
                    (to_utf16 text)
                    none
                    DriverCompleteOption.no_prompt
                    0)
                >>= λ completed. pure tt)
              s)
        × Lists text ((attributes ++ given (codes "UID") user) ++ given (codes "PWD") password)
  unfolding open_connection connect_by_string driver_connect_hidden prompts driver_completion
      full_connection_string
  open_connection_lem cs user password attributes s lists named secret = (
    with_attribute (with_attribute cs (codes "UID") user) (codes "PWD") password,
    refl,
    with_attribute-Lists (with_attribute cs (codes "UID") user) (codes "PWD") password pwd-NoEquals
        secret (with_attribute-Lists cs (codes "UID") user uid-NoEquals named lists),
  )
