-- ===== src/Csv/Statement.antt =====
-- The text that `insert` of odbcsv/src/main.rs prepares, as a data source reads it.
use odbc_api.Common.{ℕ, ◌≡◌, refl, sym, ◌∙◌, ap, true, List, [], ◌∷◌, ◌++◌, some, map, ◌==◌, arith}
use mathlib.Core.Path.{subst}
use mathlib.Core.List.{append_assoc}
use odbc_api.Environment.Attributes.{split}
use odbc_api.Environment.Splits.{Lacks, split-Lacks, split-append}
use odbc_api.Binding.Insert.{expect, read_until, trimmed, items_of, all_marked, read_insert}
use odbc_api.Csv.{codes}
use odbc_api.Csv.Insert.{join, statement_text}

-- A name of a column: not empty, without a comma and a closing parenthesis
abbrev pub IsName : List ℕ → Type 0
IsName [] = ⊥
IsName (c ∷ name) = Lacks 44 (c ∷ name) × Lacks 41 (c ∷ name)

-- At least one name
abbrev AreMore : List (List ℕ) → Type 0
AreMore [] = Unit
AreMore (name ∷ names) = IsName name × AreMore names

abbrev pub AreNames : List (List ℕ) → Type 0
AreNames [] = ⊥
AreNames (name ∷ names) = IsName name × AreMore names

until-append :
    (c : ℕ) (text behind : List ℕ)
    → Lacks c text
    → read_until c (text ++ c ∷ behind) ≡ some (text, behind)
unfolding read_until
until-append c [] behind h = let same : (c == c) ≡ true = ground arith in rw same
until-append c (x ∷ text) behind (different, h) = rw (different, until-append c text behind h)

Lacks-append : (c : ℕ) (xs ys : List ℕ) → Lacks c xs → Lacks c ys → Lacks c (xs ++ ys)
Lacks-append c [] ys h k = k
Lacks-append c (x ∷ xs) ys (different, h) k = (different, Lacks-append c xs ys h k)

join-cons :
    (name next : List ℕ) (names : List (List ℕ))
    → join (name ∷ next ∷ names) ≡ name ++ 44 ∷ 32 ∷ join (next ∷ names)
unfolding join
join-cons name next names = append_assoc name (codes ", ") (join (next ∷ names))

join-one : (name : List ℕ) → join (name ∷ []) ≡ name
unfolding join
join-one name = refl

join-Lacks :
    (name : List ℕ) (names : List (List ℕ))
    → IsName name
    → AreMore names
    → Lacks 41 (join (name ∷ names))
unfolding join
join-Lacks [] names h hs = absurd h
join-Lacks (c ∷ name) [] (h, k) hs = k
join-Lacks (c ∷ name) (next ∷ names) (h, k) (hn, hs) =
    subst (Lacks 41) (sym (join-cons (c ∷ name) next names)) (
      Lacks-append 41 (c ∷ name) (codes ", " ++ join (next ∷ names)) k
        (refl, (refl, join-Lacks next names hn hs)))

split-join :
    (name : List ℕ) (names : List (List ℕ))
    → IsName name
    → AreMore names
    → split 44 (join (name ∷ names)) ≡ (name, map (λ n. 32 ∷ n) names)
unfolding split
split-join [] names h hs = absurd h
split-join (c ∷ name) [] h hs = ap (split 44) (join-one (c ∷ name)) ∙ split-Lacks 44 (c ∷ name) h.0
split-join (c ∷ name) (next ∷ names) h (hn, hs) =
    ap (split 44) (join-cons (c ∷ name) next names)
    ∙ split-append 44 (c ∷ name) (32 ∷ join (next ∷ names)) h.0 refl
    ∙ rw (split-join next names hn hs)

trimmed-space : (names : List (List ℕ)) → map trimmed (map (λ n. 32 ∷ n) names) ≡ names
trimmed-space [] = refl
trimmed-space (name ∷ names) = rw (trimmed-space names)

items-join :
    (name : List ℕ) (names : List (List ℕ))
    → IsName name
    → AreMore names
    → items_of (join (name ∷ names)) ≡ some (name ∷ names)
unfolding items_of join
items-join [] names h hs = absurd h
items-join (c ∷ name) [] h hs = let splits = split-join (c ∷ name) [] h hs in rw (items_of, splits)
items-join (c ∷ name) (next ∷ names) h hs =
    let splits = split-join (c ∷ name) (next ∷ names) h hs in
    rw (items_of, splits) (ap (λ l. some ((c ∷ name) ∷ next ∷ l)) (trimmed-space names))

abbrev marks : List (List ℕ) → List (List ℕ)
marks names = map (λ _. codes "?") names

marks-AreMore : (names : List (List ℕ)) → AreMore (marks names)
marks-AreMore [] = tt
marks-AreMore (name ∷ names) = (((refl, tt), (refl, tt)), marks-AreMore names)

marked : (names : List (List ℕ)) → all_marked names (marks names) ≡ true
marked [] = refl
marked (name ∷ names) = rw (marked names)

nested :
    (table : List ℕ) (names : List (List ℕ))
    → statement_text table names
      ≡ codes "INSERT INTO "
        ++ (table
            ++ 32
              ∷ 40
              ∷ (join names ++ 41 ∷ (codes " VALUES (" ++ (join (marks names) ++ codes ");"))))
unfolding statement_text
nested table names = simp (append_assoc)

-- What `insert` prepares, for names that need no quotes, is an INSERT into the table, of a marker for
-- each column.
pub read-statement_text :
    (table : List ℕ) (names : List (List ℕ))
    → Lacks 32 table
    → AreNames names
    → read_insert (statement_text table names) ≡ some (table, names)
unfolding read_insert expect
read-statement_text table [] h hs = absurd hs
read-statement_text table (name ∷ names) h (hn, hs) =
    let all : List (List ℕ) = name ∷ names in
    let values : List ℕ = codes ");" in
    let columns : List ℕ = codes " VALUES (" ++ (join (marks all) ++ values) in
    ap read_insert (nested table all)
    ∙ rw (
      until-append 32 table (codes "(" ++ (join all ++ 41 ∷ columns)) h,
      until-append 41 (join all) columns (join-Lacks name names hn hs),
      items-join name names hn hs,
      until-append 41 (join (marks all)) (codes ";")
          (join-Lacks (codes "?") (marks names) ((refl, tt), (refl, tt)) (marks-AreMore names)),
      items-join (codes "?") (marks names) ((refl, tt), (refl, tt)) (marks-AreMore names),
      marked names,
    )
