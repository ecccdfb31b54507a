-- ===== src/Common.antt =====
-- The names that the other modules share: the libraries', passed on, and those of the children.
-- The children model what the Rust standard library gives this code: lists for slices and `Vec`s,
-- signed integers, and the panics of indexing, conversion and allocation.
pub mod Tests
pub mod Lists
pub mod Int
pub mod Panics
pub mod Segments
pub mod Slices
pub mod Vecs
unfoldable pub use Tests.*
pub use Lists.*
pub use Int.*
unfoldable pub use Panics.*
pub use Segments.*
pub use Slices.*
pub use Vecs.*
pub use Prim.Native.Nat.{ℕ, zero, suc, ◌+◌, ◌-◌, ◌*◌, ◌/◌, ◌%◌, ◌^◌, ◌≤◌, ◌<◌, min, max}
pub use mathlib.Core.Path.{◌≡◌, refl, sym, ap, ◌∙◌}
pub use mathlib.Core.Logic.{◌≢◌, ◌↔◌, ◌⊎◌, inl, inr}
pub use mathlib.Core.Bool.{Bool, true, false, not, ◌&&◌, ◌||◌}
pub use mathlib.Core.Option.{Option, none, some}
pub use mathlib.Core.List.{List, [], ◌∷◌, ◌++◌, map}
pub use native.Mathlib.Omega.{arith}
