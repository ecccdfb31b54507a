-- ===== src/Environment/Described.antt =====
-- What an entry of the listing says of a driver, and that `driver_info` makes just that of it.
use odbc_api.Common.{ℕ, ◌≡◌, refl, List, [], ◌∷◌, ◌++◌, Option, some, ok, panic, ◌>>=◌}
use odbc_api.Common.Panics.{Run}
use odbc_api.Environment.Attributes.{Pair, take_non_empty, pairs, attributes_iter}
use odbc_api.Environment.Splits.{Lacks, split-Lacks, split-append}
use odbc_api.Environment.Texts.{Text, DriverInfo, from_slice_truncate, read_text, driver_info}
use odbc_api.Environment.Listings.{Entry}
use odbc_api.Environment.Infos.{first_part, info_of, infos}

-- A text whose conversion from UTF-16 is `text`
abbrev pub IsText : (List ℕ → Option Text) → List ℕ → Text → Type 0
IsText decode units text = Lacks 0 units × (decode units ≡ some text)

-- The first of the attributes in a text in which each of them is `key=value` with a zero behind it:
-- none where the text is empty
pub data IsFirst (decode : List ℕ → Option Text) : List ℕ → List Pair → Type 0 where
  nothing : decode [] ≡ some [] → IsFirst decode [] []
  first :
      (units rest key value : List ℕ)
      → IsText decode units (key ++ 61 ∷ value)
      → Lacks 0 (key ++ 61 ∷ value)
      → Lacks 61 key
      → Lacks 61 value
      → IsFirst decode (units ++ 0 ∷ rest) ((key, value) ∷ [])

-- The entries of the listing, and the description and the first attribute of each driver in it
abbrev pub AreListed : (List ℕ → Option Text) → List Entry → List DriverInfo → Type 0
AreListed decode [] [] = Unit
AreListed decode [] (info ∷ drivers) = ⊥
AreListed decode (entry ∷ entries) [] = ⊥
AreListed decode (entry ∷ entries) (info ∷ drivers) =
    IsText decode entry.0 info.description
    × IsFirst decode entry.1 info.attributes
    × AreListed decode entries drivers

first_part-Lacks : (units : List ℕ) → Lacks 0 units → first_part units ≡ units
first_part-Lacks [] h = refl
first_part-Lacks (c ∷ units) (different, h) = rw (different, first_part-Lacks units h)

first_part-append : (units rest : List ℕ) → Lacks 0 units → first_part (units ++ 0 ∷ rest) ≡ units
first_part-append [] rest h = refl
first_part-append (c ∷ units) rest (different, h) = rw (different, first_part-append units rest h)

truncate-Lacks :
    (units : List ℕ) → Lacks 0 units → from_slice_truncate (units ++ 0 ∷ []) ≡ some units
unfolding from_slice_truncate
truncate-Lacks [] h = refl
truncate-Lacks (c ∷ units) (different, h) = rw (different, truncate-Lacks units h)

read_text-IsText :
    (decode : List ℕ → Option Text) (units : List ℕ) (text : Text)
    → IsText decode units text
    → read_text decode (units ++ 0 ∷ []) ≡ ok text
unfolding read_text
read_text-IsText decode units text (h, e) = rw (truncate-Lacks units h, e)

attributes_iter-one :
    (key value : List ℕ)
    → Lacks 0 (key ++ 61 ∷ value)
    → Lacks 61 key
    → Lacks 61 value
    → attributes_iter (key ++ 61 ∷ value) ≡ ok ((key, value) ∷ [])
unfolding attributes_iter pairs take_non_empty
attributes_iter-one [] value h k v = rw (split-Lacks 0 value h.1, split-Lacks 61 value v)
attributes_iter-one (c ∷ key) value h k v = rw (
  h.0,
  split-Lacks 0 (key ++ 61 ∷ value) h.1,
  k.0,
  split-append 61 key value k.1 refl,
  split-Lacks 61 value v,
)

read_text-IsFirst :
    (decode : List ℕ → Option Text) {units : List ℕ} {attributes : List Pair}
    → IsFirst decode units attributes
    → (read_text decode (first_part units ++ 0 ∷ []) >>= attributes_iter) ≡ ok attributes
unfolding attributes_iter
read_text-IsFirst decode (nothing e) = rw (read_text-IsText decode [] [] (tt, e), attributes_iter)
read_text-IsFirst decode (first units rest key value h none_inside k v) = rw (
  first_part-append units rest h.0,
  read_text-IsText decode units (key ++ 61 ∷ value) h,
  attributes_iter-one key value none_inside k v,
)

abbrev info_with : Text → List Pair → DriverInfo
info_with description attributes = record { description = description; attributes = attributes }

chained :
    (description : Text) (read : Run Text) (attributes : List Pair)
    → (read >>= attributes_iter) ≡ ok attributes
    → (read >>= λ text. attributes_iter text >>= λ parsed. ok (info_with description parsed))
      ≡ ok (info_with description attributes)
chained description (ok text) attributes e = rw e
chained description panic attributes e = cc

info_of-IsFirst :
    (decode : List ℕ → Option Text) (entry : Entry) (info : DriverInfo)
    → IsText decode entry.0 info.description
    → IsFirst decode entry.1 info.attributes
    → info_of decode entry ≡ ok info
unfolding driver_info
info_of-IsFirst decode entry info text given =
    rw (first_part-Lacks entry.0 text.0, read_text-IsText decode entry.0 info.description text)
      (chained info.description (read_text decode (first_part entry.1 ++ 0 ∷ [])) info.attributes
        (read_text-IsFirst decode given))

pub infos-AreListed :
    (decode : List ℕ → Option Text) (entries : List Entry) (drivers : List DriverInfo)
    → AreListed decode entries drivers
    → infos decode entries ≡ ok drivers
infos-AreListed decode [] [] h = refl
infos-AreListed decode [] (info ∷ drivers) h = absurd h
infos-AreListed decode (entry ∷ entries) [] h = absurd h
infos-AreListed decode (entry ∷ entries) (info ∷ drivers) (text, given, h) =
    rw (info_of-IsFirst decode entry info text given, infos-AreListed decode entries drivers h)
