-- ===== src/Metadata/Names.antt =====
-- `ColumnNamesIt` of result_set_metadata.rs, and the names it yields.
use odbc_api.Common.{
  ℕ, zero, suc, ◌+◌, ◌≤◌, ◌<◌, ◌≡◌, refl, ap, List, [], ◌∷◌, map, false, Option, none, some, ok,
  panic, ◌>>=◌, pos, to_usize, map_run, length, leb, le→leb, if◌then◌else◌, Vec, Reserve, arith,
}
use odbc_api.Common.Panics.{Run}
use odbc_api.Sql.{SqlReturn, into_sql_result, map_result, SqlResult, Result, is_err, into_result}
use odbc_api.Statement.{Driver, Call, pure}
use odbc_api.Statement
use odbc_api.Metadata.{MetadataApi}
use odbc_api.Metadata
use odbc_api.Metadata.ColName.{HasName, IsFrugal, named}
use odbc_api.Metadata.ResultSet

pub record ColumnNamesIt : Type 0 where
  pub buffer : Vec
  pub column : ℕ
  pub num_cols : ℕ

-- `ExactSizeIterator`: the number does not change while the iterator is advanced.
abbrev pub size_hint : ColumnNamesIt → ℕ
size_hint it = it.num_cols

-- The conversion of UTF-16 to a `String`, which is that of `widestring`.
module _ {S : Type 0} ⦃r : Reserve⦄ (d : Driver S) (api : MetadataApi S) (Text : Type 0)
    (decode : List ℕ → Text) where
  -- The buffer starts with a capacity of 128 at least.
  unfoldable pub new : Call S (Result ColumnNamesIt)
  new s = elim (ResultSet.num_result_cols d api s) [
    | panic ↦ panic
    | ok (Result.failed e, s') ↦ ok (Result.failed e, s')
    | ok (Result.done cols, s') ↦
        map_run
          (λ num_cols. (
            Result.done (record {
              buffer = record { capacity = r.capacity_for 128; elements = [] };
              column = 1;
              num_cols = num_cols;
            }),
            s',
          ))
          (to_usize cols)
  ]

  -- `.map(|()| …)` of the result of the call
  abbrev decoded : List ℕ → Result (Unit {0}) → Result Text
  decoded name (Result.done u) = Result.done (decode name)
  decoded name (Result.failed e) = Result.failed e

  unfoldable pub next : ColumnNamesIt → S → Run (Option (Result Text) × ColumnNamesIt)
  next it s =
      if leb it.column it.num_cols
      then (do
        answer ← Metadata.col_name api it.column it.buffer s
        let result = decoded (answer.1).elements (into_result (d.first_record s) answer.0)
        ok (some result, record it { buffer = answer.1; column = it.column + 1 }))
      else ok (none, it)

  -- A `for` loop over the iterator that collects what it yields. Running out of fuel is a panic.
  pub collect : ℕ → ColumnNamesIt → S → Run (List (Result Text))
  collect zero it s = panic
  collect (suc fuel) it s = do
    step ← next it s
    elim (step.0) [ none ↦ ok [] | some name ↦ do names ← collect fuel step.1 s; ok (name ∷ names) ]

  -- The columns behind `i` have these names, none of which is longer than 8191 characters.
  abbrev pub HaveNames : S → ℕ → List (List ℕ) → Type 0
  HaveNames s i [] = Unit
  HaveNames s i (text ∷ texts) =
      HasName api s (i + 1) text × (length text ≤ 8191) × HaveNames s (i + 1) texts

  success_lem :
      (s : S) (res : SqlResult (Unit {0}))
      → is_err res ≡ false
      → into_result (d.first_record s) res ≡ Result.done tt
  unfolding is_err into_result
  success_lem s (SqlResult.success u) e = refl
  success_lem s (SqlResult.success_with_info u) e = refl
  success_lem s (SqlResult.error function) e = cc

  next_name :
      (s : S) (i n : ℕ) (buf : Vec) (text : List ℕ)
      → HasName api s (i + 1) text
      → length text ≤ 8191
      → buf.capacity ≤ 16383
      → i < n
      → IsFrugal r
      → (buf' : Vec) × (next (record { buffer = buf; column = i + 1; num_cols = n }) s
          ≡ ok (
            some (Result.done (decode text)),
            record { buffer = buf'; column = i + 1 + 1; num_cols = n },
          ))
        × (buf'.capacity ≤ 16383)
  unfolding next
  next_name s i n buf text h short hc lt f =
      let (buf', (res, e, fine, same), small) = named api s (i + 1) h short buf hc in
      (buf', rw (le→leb (i + 1) n (omega (arith, lt)), e, success_lem s res fine, same), small f)

  collect_names :
      (s : S) (i n : ℕ) (texts : List (List ℕ)) (buf : Vec)
      → IsFrugal r
      → buf.capacity ≤ 16383
      → HaveNames s i texts
      → i + length texts ≡ n
      → collect (suc (length texts)) (record { buffer = buf; column = i + 1; num_cols = n }) s
        ≡ ok (map (λ text. Result.done (decode text)) texts)
  unfolding collect next
  collect_names s i n [] buf f hc h e =
      let at_end : leb (i + 1) n ≡ false = ground arith in rw (at_end, next)
  collect_names s i n (text ∷ texts) buf f hc (h, short, rest) e =
      let (buf', step, small) = next_name s i n buf text h short hc (omega arith) f in
      rw (step, collect_names s (i + 1) n texts buf' f small rest (omega (arith, e)))

  -- From a driver that tells the number of columns and the name of each, none longer than 8191
  -- characters, and with an allocator that is frugal, `column_names` gives an iterator that yields
  -- the name of every column, whole and in order, none of them an error, and then ends.
  pub column_names_lem :
      (s : S) (texts : List (List ℕ))
      → IsFrugal r
      → d.sql_num_result_cols s ≡ (SqlReturn.success, pos (length texts))
      → HaveNames s 0 texts
      → (it : ColumnNamesIt) × (new s ≡ ok (Result.done it, s))
        × (collect (suc (length texts)) it s ≡ ok (map (λ text. Result.done (decode text)) texts))
  unfolding new ResultSet.num_result_cols Statement.num_result_cols into_sql_result map_result
      into_result
  column_names_lem s texts f e h = (
    record {
      buffer = record { capacity = r.capacity_for 128; elements = [] };
      column = 1;
      num_cols = length texts;
    },
    rw (e, new, ap (λ p. p.1) e),
    collect_names s 0 (length texts) texts (record { capacity = r.capacity_for 128; elements = [] })
        f (f.frugal 128 (omega arith)) h (omega arith),
  )
