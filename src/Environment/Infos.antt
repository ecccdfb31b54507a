-- ===== src/Environment/Infos.antt =====
-- What is made of the texts of an entry, as the driver manager wrote them.
use odbc_api.Common.{
  ℕ, suc, ◌≤◌, ◌<◌, ◌≡◌, refl, List, [], ◌∷◌, ◌++◌, Option, some, ok, ◌>>=◌, map_run, length, ◌==◌,
  if◌then◌else◌, Vec, overwrite, arith, Bool-cases, inl, inr, take_all,
}
use odbc_api.Common.Panics.{Run}
use odbc_api.Diagnostics.Text.{written}
use odbc_api.Environment.Texts.{Text, DriverInfo, from_slice_truncate, read_text, driver_info}
use odbc_api.Environment.Listings.{Entry, holding}

-- The part of a text in front of a zero in it
abbrev pub first_part : List ℕ → List ℕ
first_part [] = []
first_part (c ∷ text) = if c == 0 then [] else c ∷ first_part text

-- What is made of an entry
abbrev pub info_of : (List ℕ → Option Text) → Entry → Run DriverInfo
info_of decode entry =
    driver_info decode (first_part entry.0 ++ 0 ∷ []) (first_part entry.1 ++ 0 ∷ [])

pub from_slice_truncate_lem :
    (text buffer : List ℕ)
    → suc (length text) ≤ length buffer
    → from_slice_truncate (overwrite buffer 0 (text ++ 0 ∷ [])) ≡ some (first_part text)
unfolding from_slice_truncate
from_slice_truncate_lem [] [] h = absurd (omega arith)
from_slice_truncate_lem [] (x ∷ buffer) h = refl
from_slice_truncate_lem (c ∷ text) [] h = absurd (omega arith)
from_slice_truncate_lem (c ∷ text) (x ∷ buffer) h = elim (Bool-cases (c == 0)) [
  | inl e ↦ rw e
  | inr e ↦ rw (e, from_slice_truncate_lem text buffer (omega (arith, h)))
]

first_part_lem :
    (text : List ℕ) → from_slice_truncate (first_part text ++ 0 ∷ []) ≡ some (first_part text)
unfolding from_slice_truncate
first_part_lem [] = refl
first_part_lem (c ∷ text) = elim (Bool-cases (c == 0)) [
  | inl e ↦ rw e
  | inr e ↦ rw (e, first_part_lem text, e)
]

truncate-written :
    (text buffer : List ℕ)
    → length text < length buffer
    → from_slice_truncate (written (length buffer) text buffer) ≡ some (first_part text)
truncate-written text [] h = absurd (omega arith)
truncate-written text (x ∷ buffer) h =
    rw (take_all (length buffer) text (omega arith)) (from_slice_truncate_lem text (x ∷ buffer) h)

pub info_lem :
    (decode : List ℕ → Option Text) (entry : Entry) (a b : Vec)
    → length entry.0 < length a.elements
    → length entry.1 < length b.elements
    → driver_info decode (holding entry.0 a).elements (holding entry.1 b).elements
      ≡ info_of decode entry
unfolding driver_info read_text
info_lem decode entry a b ha hb = rw (
  truncate-written entry.0 a.elements ha,
  truncate-written entry.1 b.elements hb,
  first_part_lem entry.0,
  first_part_lem entry.1,
)

-- An entry in front of the others
abbrev pub info_before : Run DriverInfo → Run (List DriverInfo) → Run (List DriverInfo)
info_before info rest = info >>= λ i. map_run (λ is. i ∷ is) rest

-- What is made of each entry, in order
abbrev pub infos : (List ℕ → Option Text) → List Entry → Run (List DriverInfo)
infos decode [] = ok []
infos decode (entry ∷ entries) = info_before (info_of decode entry) (infos decode entries)
