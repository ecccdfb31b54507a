-- ===== src/Environment/Texts.antt =====
-- The texts that environment.rs reads from the buffers.
use odbc_api.Common.{ℕ, List, [], ◌∷◌, Option, none, some, ok, ◌>>=◌, unwrap, if◌then◌else◌, ◌==◌}
use odbc_api.Common.Panics.{Run}
use odbc_api.Environment.Attributes.{Pair, attributes_iter}

-- A text that has been decoded from UTF-16
abbrev pub Text : Type 0
Text = List ℕ

pub record DriverInfo : Type 0 where
  pub description : Text
  pub attributes : List Pair

pub record DataSourceInfo : Type 0 where
  pub server_name : Text
  pub driver : Text

-- `U16CStr::from_slice_truncate`: the characters before the first zero, if there is one
unfoldable pub from_slice_truncate : List ℕ → Option (List ℕ)
from_slice_truncate [] = none
from_slice_truncate (c ∷ buffer) =
    let rest = from_slice_truncate buffer in
    if c == 0 then some [] else elim rest [ none ↦ none | some text ↦ some (c ∷ text) ]

-- A zero-terminated buffer as a text: `U16CStr::from_slice_truncate(…).unwrap().to_string().unwrap()`,
-- where the conversion is that of `widestring`
unfoldable pub read_text : (List ℕ → Option Text) → List ℕ → Run Text
unfolding from_slice_truncate
read_text decode buffer = do text ← unwrap (from_slice_truncate buffer); unwrap (decode text)

unfoldable pub driver_info : (List ℕ → Option Text) → List ℕ → List ℕ → Run DriverInfo
unfolding read_text
driver_info decode desc_buf attr_buf = do
  description ← read_text decode desc_buf
  attributes ← read_text decode attr_buf
  parsed ← attributes_iter attributes
  ok (record { description = description; attributes = parsed })

unfoldable pub data_source_info : (List ℕ → Option Text) → List ℕ → List ℕ → Run DataSourceInfo
unfolding read_text
data_source_info decode server_name_buf driver_buf = do
  server_name ← read_text decode server_name_buf
  driver ← read_text decode driver_buf
  ok (record { server_name = server_name; driver = driver })
