-- ===== src/Environment/Enumerators.antt =====
-- handles/environment.rs: the functions that list the drivers or the data sources, and how their
-- lengths are asked for and their texts fetched.
use Prim.Native.String.{String}
use odbc_api.Common.{
  ℕ, List, [], Option, none, some, ok, ◌>>=◌, length, Vec, Reserve, resize_zeroed,
}
use odbc_api.Common.Panics.{Run}
use odbc_api.Sql.{SqlReturn, SqlResult, map_result, into_opt_sql_result}
use odbc_api.Metadata.{to_i16}

pub data FetchOrientation : Type 0 where
  next first first_user first_system : FetchOrientation

-- What `SQLDriversW` and `SQLDataSourcesW` return and write: two buffers, which come back, and the
-- lengths of the two texts in characters, without the terminating zeros.
pub record Listing : Type 0 where
  pub ret : SqlReturn
  pub buffers : List ℕ × List ℕ
  pub lengths : ℕ × ℕ

-- Such a function is given each buffer with its length.
abbrev pub Enumerator : Type 0 → Type 0
Enumerator S = FetchOrientation → List ℕ → ℕ → List ℕ → ℕ → S → Listing × S

-- `.map(|res| res.on_success(|| lengths))`
abbrev pub with_lengths : ℕ × ℕ → Option (SqlResult (Unit {0})) → Option (SqlResult (ℕ × ℕ))
with_lengths lengths none = none
with_lengths lengths (some res) = some (map_result (λ _. lengths) res)

module _ {S : Type 0} where
  -- What becomes of the answer to a call for the lengths
  unfoldable pub told_lengths : String → Listing × S → Run (Option (SqlResult (ℕ × ℕ)) × S)
  told_lengths function answer = do
    res ← into_opt_sql_result answer.0.ret function
    ok (with_lengths answer.0.lengths res, answer.1)

  -- `drivers_buffer_len` and `data_source_buffer_len`: no buffers, only the lengths
  unfoldable pub buffer_len :
      Enumerator S → String → FetchOrientation → S → Run (Option (SqlResult (ℕ × ℕ)) × S)
  unfolding told_lengths
  buffer_len call function direction s = told_lengths function (call direction [] 0 [] 0 s)

  -- What becomes of the answer to a call that fills the buffers
  unfoldable pub told_texts :
      String → Vec → Vec → Listing × S → Run ((Option (SqlResult (Unit {0})) × Vec × Vec) × S)
  told_texts function a b answer = do
    res ← into_opt_sql_result answer.0.ret function
    ok (
      (res, record a { elements = answer.0.buffers.0 }, record b { elements = answer.0.buffers.1 }),
      answer.1,
    )

  unfoldable pub fill_buffers :
      Enumerator S
      → String
      → FetchOrientation
      → Vec
      → Vec
      → S
      → Run ((Option (SqlResult (Unit {0})) × Vec × Vec) × S)
  unfolding told_texts
  fill_buffers call function direction a b s = do
    len_a ← to_i16 (length a.elements)
    len_b ← to_i16 (length b.elements)
    told_texts function a b (call direction a.elements len_a b.elements len_b s)

  -- `drivers_buffer_fill` and `data_source_buffer_fill`: the whole capacity is given.
  unfoldable pub buffer_fill :
      ⦃r : Reserve⦄
      → Enumerator S
      → String
      → FetchOrientation
      → Vec
      → Vec
      → S
      → Run ((Option (SqlResult (Unit {0})) × Vec × Vec) × S)
  unfolding fill_buffers
  buffer_fill call function direction a b s =
      fill_buffers call function direction (resize_zeroed a a.capacity) (resize_zeroed b b.capacity)
        s
