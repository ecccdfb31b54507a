-- ===== src/Binding/Insert.antt =====
-- What the text of an INSERT with parameters says: the table, the columns, and a marker for the value
-- of each column.
use odbc_api.Common.{
  ℕ, Bool, true, false, List, [], ◌∷◌, Option, none, some, map, ◌==◌, if◌then◌else◌,
}
use odbc_api.Csv.{codes}
use odbc_api.Environment.Attributes.{split}

abbrev pub then_read : {A B : Type 0} → Option A → (A → Option B) → Option B
then_read none next = none
then_read (some a) next = next a

-- The text behind a word that it starts with
unfoldable pub expect : List ℕ → List ℕ → Option (List ℕ)
expect [] text = some text
expect (c ∷ word) [] = none
expect (c ∷ word) (x ∷ text) = let rest = expect word text in if x == c then rest else none

-- The text in front of a character, and behind it
unfoldable pub read_until : ℕ → List ℕ → Option (List ℕ × List ℕ)
read_until c [] = none
read_until c (x ∷ text) =
    let rest = read_until c text in
    if x == c then some ([], text) else then_read rest (λ r. some (x ∷ r.0, r.1))

-- A space in front is left out.
abbrev pub trimmed : List ℕ → List ℕ
trimmed [] = []
trimmed (x ∷ text) = if x == 32 then text else x ∷ text

-- The items of a list with commas in between, of which there is at least one
unfoldable pub items_of : List ℕ → Option (List (List ℕ))
unfolding split
items_of [] = none
items_of (x ∷ text) =
    let texts : List ℕ × List (List ℕ) = split 44 (x ∷ text) in some (texts.0 ∷ map trimmed texts.1)

abbrev pub is_marker : List ℕ → Bool
is_marker [] = false
is_marker (x ∷ []) = x == 63
is_marker (x ∷ y ∷ text) = false

-- A marker for each name
abbrev pub all_marked : List (List ℕ) → List (List ℕ) → Bool
all_marked [] [] = true
all_marked [] (m ∷ markers) = false
all_marked (name ∷ names) [] = false
all_marked (name ∷ names) (m ∷ markers) =
    let rest = all_marked names markers in if is_marker m then rest else false

abbrev pub ended : List ℕ → List ℕ × List (List ℕ) → Option (List ℕ × List (List ℕ))
ended [] statement = some statement
ended (x ∷ text) statement = none

-- The table and its columns
unfoldable pub read_insert : List ℕ → Option (List ℕ × List (List ℕ))
unfolding expect read_until items_of
read_insert text = then_read (expect (codes "INSERT INTO ") text) (λ t.
    then_read (read_until 32 t) (λ table. then_read (expect (codes "(") table.1) (λ u.
      then_read (read_until 41 u) (λ columns. then_read (items_of columns.0) (λ names.
        then_read (expect (codes " VALUES (") columns.1) (λ v.
          then_read (read_until 41 v) (λ values. then_read (items_of values.0) (λ markers.
            then_read (expect (codes ";") values.1)
              (λ end. if all_marked names markers then ended end (table.0, names) else none)))))))))
