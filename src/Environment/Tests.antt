-- ===== src/Environment/Tests.antt =====
-- A driver manager with two drivers and two data sources: the theorem at an input that meets its
-- hypotheses, and runs.
use odbc_api.Common.{
  ℕ, ◌+◌, ◌≡◌, refl, List, [], ◌∷◌, Option, some, none, ok, arith, ltb, length, get_elem?,
  if◌then◌else◌, Reserve,
}
use odbc_api.Sql.{Result}
use odbc_api.Environment.{EnvironmentApi, drivers}
use odbc_api.Environment.Enumerators.{FetchOrientation, Enumerator}
use odbc_api.Environment.Texts.{DriverInfo}
use odbc_api.Environment.Listings.{Entry, Enumerates, listing_of}
use odbc_api.Environment.Described.{IsText, IsFirst, AreListed}
use odbc_api.Environment.Drivers.{outcome, drivers_lem}
use odbc_api.Environment.Attributes.{attributes_iter}

instance abbrev exact : Reserve
exact = record { capacity_for = λ n. n; le_capacity_for = λ n. omega arith }

-- "ab" with the attributes "k=v" and "u=w", and "c" without any
abbrev entries : List Entry
entries = (97 ∷ 98 ∷ [], 107 ∷ 61 ∷ 118 ∷ 0 ∷ 117 ∷ 61 ∷ 119 ∷ 0 ∷ []) ∷ (99 ∷ [], []) ∷ []

-- The state is the position.
abbrev enumerator : List Entry → Enumerator ℕ
enumerator es direction a len_a b len_b position =
    let at : ℕ = elim direction [
      | FetchOrientation.next ↦ position
      | FetchOrientation.first ↦ 0
      | FetchOrientation.first_user ↦ 0
      | FetchOrientation.first_system ↦ 0
    ] in
    (listing_of (get_elem? es at) a len_a b len_b, (if ltb at (length es) then at + 1 else 0))

abbrev api : EnvironmentApi ℕ
api = record {
  sql_drivers = enumerator entries;
  sql_data_sources = enumerator ((115 ∷ [], 100 ∷ []) ∷ (115 ∷ 50 ∷ [], 100 ∷ []) ∷ []);
  first_record = λ s. none;
}

abbrev lossless : List ℕ → Option (List ℕ)
lossless text = some text

walks : Enumerates api.sql_drivers entries
walks = record {
  position = λ s. s;
  first_tells = λ a b len_a len_b s. refl;
  first_moves = λ a b len_a len_b s. refl;
  next_tells = λ a b len_a len_b s. refl;
  next_moves = λ a b len_a len_b s. refl;
}

-- Only the first attribute of the first driver is there.
abbrev two_infos : List DriverInfo
two_infos =
    record { description = 97 ∷ 98 ∷ []; attributes = (107 ∷ [], 118 ∷ []) ∷ [] }
    ∷ record { description = 99 ∷ []; attributes = [] }
    ∷ []

k_v : IsText lossless (107 ∷ 61 ∷ 118 ∷ []) (107 ∷ 61 ∷ 118 ∷ [])
k_v = ((refl, (refl, (refl, tt))), refl)

two_listed : AreListed lossless entries two_infos
two_listed = (
  ((refl, (refl, tt)), refl),
  IsFirst.first (107 ∷ 61 ∷ 118 ∷ []) (117 ∷ 61 ∷ 119 ∷ 0 ∷ []) (107 ∷ []) (118 ∷ []) k_v k_v.0
      (refl, tt) (refl, tt),
  (((refl, tt), refl), IsFirst.nothing refl, tt),
)

drivers_lem_example : outcome (drivers api lossless 3 1) ≡ ok (Result.done two_infos)
drivers_lem_example =
    drivers_lem api lossless walks 3 (omega arith) two_infos 1
      ((omega arith, omega arith, (omega arith, omega arith, tt))) two_listed

whole_attributes :
    attributes_iter (107 ∷ 61 ∷ 118 ∷ 0 ∷ 117 ∷ 61 ∷ 119 ∷ 0 ∷ [])
    ≡ ok ((107 ∷ [], 118 ∷ []) ∷ (117 ∷ [], 119 ∷ []) ∷ [])
unfolding attributes_iter
whole_attributes = refl
