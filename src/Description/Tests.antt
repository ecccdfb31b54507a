-- ===== src/Description/Tests.antt =====
-- The choice of a buffer at concrete types: the theorems at inputs that meet their hypotheses.
use odbc_api.Common.{◌^◌, ◌≤◌, ◌≡◌, ◌≢◌, ◌↔◌, inr, refl, pos, none, ok, panic}
use odbc_api.DataType.{DataType}
use odbc_api.Description.{BufferKind, from_data_type}
use odbc_api.Description.Fits.{HasNoBuffer, from_data_type_total, numeric_fits}

numeric_fits_example : 10 ^ 9 ≤ 2 ^ 31
unfolding from_data_type
numeric_fits_example =
    numeric_fits 9 BufferKind.i32 (2 ^ 31) (DataType.decimal 9 (pos 0)) (inr refl) refl refl

from_data_type_total_example :
    (from_data_type (DataType.float 60) ≢ panic)
    × ((from_data_type (DataType.float 60) ≡ ok none) ↔ HasNoBuffer (DataType.float 60))
from_data_type_total_example = from_data_type_total (DataType.float 60)
