-- ===== src/Common/Vecs.antt =====
-- A `Vec` whose capacity the code reads. How far one grows is up to the allocator.
use Prim.Native.Nat.{ℕ, ◌≤◌}
use mathlib.Core.List.{List, []}
use odbc_api.Common.Tests.{leb, if◌then◌else◌}
use odbc_api.Common.Panics.{resize}

-- The capacity of a `Vec` that has grown to a number of elements
pub record Reserve : Type 0 where
  pub capacity_for : ℕ → ℕ
  pub le_capacity_for : (n : ℕ) → n ≤ capacity_for n

pub record Vec : Type 0 where
  pub capacity : ℕ
  pub elements : List ℕ

-- `Vec::default()`
abbrev pub empty_vec : Vec
empty_vec = record { capacity = 0; elements = [] }

-- `v.resize(n, 0)`. Here `n` is the capacity, or below 2 ^ 16, so that there is memory.
abbrev pub resize_zeroed : ⦃r : Reserve⦄ → Vec → ℕ → Vec
resize_zeroed ⦃r⦄ v n = record {
  capacity = if leb n v.capacity then v.capacity else r.capacity_for n;
  elements = resize v.elements n 0;
}
