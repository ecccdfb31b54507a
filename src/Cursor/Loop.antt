-- ===== src/Cursor/Loop.antt =====
-- The steps of the retrieving loops: how the buffer grows, and how it shrinks to the value.
use odbc_api.Common.{
  ℕ, suc, ◌-◌, ◌≤◌, ◌<◌, ◌≡◌, pos, List, [], true, false, ok, length, take, replicate, resize,
  take-append_le, leb, le→leb, length-append, length-replicate, length-take, sub_usize_lem,
  isize_max, arith, Bool-cases, inl, inr, leb→le, lt→ltb, take-take,
}
use odbc_api.Indicator.{OdbcSys, null_data}
use odbc_api.Indicator.Laws.{from_isize-pos, from_isize-null}
use odbc_api.Sql.{Result}
use odbc_api.Statement.{Driver}
use odbc_api.Cursor.{resize_vec, shrink, text_loop}

pub length-resize : (v : List ℕ) (n : ℕ) → length (resize v n 0) ≡ n
length-resize v n = elim (Bool-cases (leb n (length v))) [
  | inl e ↦ rw e (omega (arith, length-take n v, leb→le n (length v) e))
  | inr e ↦
      let lt : length v < n = ground arith in
      rw e (
        omega (
          arith,
          length-append v (replicate {A = ℕ} (n - length v) 0),
          length-replicate {A = ℕ} (n - length v) 0,
        ))
]

pub resize_shorter : (v : List ℕ) (n : ℕ) → n ≤ length v → resize v n 0 ≡ take n v
resize_shorter v n h = rw (le→leb n (length v) h)

pub take-resize :
    (k : ℕ) (v : List ℕ) (n : ℕ) → k ≤ length v → k ≤ n → take k (resize v n 0) ≡ take k v
take-resize k v n hv hn = elim (Bool-cases (leb n (length v))) [
  | inl e ↦ rw e (take-take k n v hn)
  | inr e ↦ rw e (take-append_le k v (replicate (n - length v) 0) hv)
]

pub resize_vec_ok : (v : List ℕ) (n : ℕ) → n ≤ isize_max → resize_vec v n ≡ ok (resize v n 0)
resize_vec_ok v n h = rw (le→leb n isize_max h)

module _ {S : Type 0} (d : Driver S) ⦃sys : OdbcSys⦄ (col : ℕ) (buf : List ℕ)
    (small : length buf ≤ isize_max) (s : S) where
  pub shrink_lem :
      (n fetch_size : ℕ)
      → n ≤ fetch_size
      → fetch_size ≤ length buf
      → shrink d col n buf fetch_size s
        ≡ ok (Result.done (true, take (length buf - (fetch_size - n)) buf), s)
  unfolding shrink
  shrink_lem n fetch_size h k = rw (
    sub_usize_lem fetch_size n (omega (arith, small)) h,
    sub_usize_lem (length buf) (fetch_size - n) (omega (arith, small)) (omega arith),
    resize_vec_ok buf (length buf - (fetch_size - n)) (omega (arith, small)),
    resize_shorter buf (length buf - (fetch_size - n)) (omega arith),
  )

  pub text_loop_done :
      (fuel n fetch_size : ℕ)
      → n < fetch_size
      → fetch_size ≤ length buf
      → text_loop d col (suc fuel) buf fetch_size (pos n) s
        ≡ ok (Result.done (true, take (length buf - (fetch_size - n)) buf), s)
  unfolding text_loop
  text_loop_done fuel n fetch_size h k =
      rw (from_isize-pos n, lt→ltb n fetch_size h) (shrink_lem n fetch_size (omega (arith, h)) k)

  pub text_loop_null :
      (fuel fetch_size : ℕ)
      → text_loop d col (suc fuel) buf fetch_size null_data s ≡ ok (Result.done (false, []), s)
  unfolding text_loop
  text_loop_null fuel fetch_size = rw from_isize-null
