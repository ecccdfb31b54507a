-- ===== src/Environment.antt =====
-- environment.rs and handles/environment.rs: listing the drivers and the data sources.
-- The driver manager is a parameter: a state, which holds where its lists are, and its functions.
pub mod Attributes
pub mod Splits
pub mod Texts
pub mod Enumerators
pub mod Listings
pub mod Infos
pub mod Described
pub mod Longest
pub mod Drivers
pub mod Connect
mod Tests
use Prim.Native.String.{String}
use odbc_api.Common.{
  ℕ, zero, suc, ◌+◌, max, List, [], ◌∷◌, Option, none, some, ok, panic, map_run, unwrap, replicate,
  length, leb, if◌then◌else◌, ◌==◌, Vec, Reserve, resize_zeroed,
}
use odbc_api.Common.Panics.{Run}
use odbc_api.Sql.{
  SqlReturn, SqlResult, Record, Result, map_result, into_opt_sql_result, into_result,
}
use odbc_api.Statement.{Call, pure, ◌>>=◌}
use odbc_api.Cursor.{lift}
use odbc_api.Environment.Enumerators.{FetchOrientation, Enumerator, buffer_len, buffer_fill}
use odbc_api.Environment.Texts.{Text, DriverInfo, DataSourceInfo, driver_info, data_source_info}

pub record EnvironmentApi (S : Type 0) : Type 0 where
  pub sql_drivers : Enumerator S
  pub sql_data_sources : Enumerator S
  pub first_record : S → Option Record

-- `vec![0; n]`
abbrev pub zeros : ℕ → Vec
zeros n = record { capacity = n; elements = replicate n 0 }

-- `Result::map`
abbrev map_done : {A B : Type 0} → (A → B) → Result A → Result B
map_done f (Result.done a) = Result.done (f a)
map_done f (Result.failed e) = Result.failed e

module _ {S : Type 0} ⦃r : Reserve⦄ (api : EnvironmentApi S) where
  -- `.map(|res| res.into_result(env)).transpose()?` of a call
  abbrev pub transposed : {A : Type 0} → Call S (Option (SqlResult A)) → Call S (Result (Option A))
  transposed call s = elim (call s) [
    | panic ↦ panic
    | ok (none, s') ↦ ok (Result.done none, s')
    | ok (some res, s') ↦ ok (map_done some (into_result (api.first_record s') res), s')
  ]

  -- The same of a call that fills two buffers: whether it has
  abbrev pub filled :
      Call S (Option (SqlResult (Unit {0})) × Vec × Vec) → Call S (Result (Option (Vec × Vec)))
  filled call s = elim (call s) [
    | panic ↦ panic
    | ok ((none, a, b), s') ↦ ok (Result.done none, s')
    | ok ((some res, a, b), s') ↦
        ok (map_done (λ _. some (a, b)) (into_result (api.first_record s') res), s')
  ]

  abbrev pub drivers_buffer_len : FetchOrientation → Call S (Option (SqlResult (ℕ × ℕ)))
  drivers_buffer_len = buffer_len api.sql_drivers "SQLDriversW"

  abbrev drivers_buffer_fill :
      FetchOrientation → Vec → Vec → Call S (Option (SqlResult (Unit {0})) × Vec × Vec)
  drivers_buffer_fill = buffer_fill api.sql_drivers "SQLDriversW"

  abbrev data_source_buffer_len : FetchOrientation → Call S (Option (SqlResult (ℕ × ℕ)))
  data_source_buffer_len = buffer_len api.sql_data_sources "SQLDataSourceW"

  abbrev data_source_buffer_fill :
      FetchOrientation → Vec → Vec → Call S (Option (SqlResult (Unit {0})) × Vec × Vec)
  data_source_buffer_fill = buffer_fill api.sql_data_sources "SQLDataSourceW"

  -- The loop that finds the longest texts, over `drivers_buffer_len` in both listings. Each loop is
  -- on fuel; one that takes longer is a panic here.
  unfoldable pub longest : ℕ → ℕ × ℕ → Call S (Result (ℕ × ℕ))
  longest zero lengths s = panic
  longest (suc fuel) lengths s =
      (transposed (drivers_buffer_len FetchOrientation.next) >>= λ candidate. elim candidate [
        | none ↦ pure lengths
        | some (first_len, second_len) ↦
            longest fuel (max first_len lengths.0, max second_len lengths.1)
      ])
        s

  -- The loop that reads the listing: `read` makes an entry of the two buffers, which `fill` then
  -- fills again.
  unfoldable pub read_entry :
      {A : Type 0}
      → (Option (Vec × Vec) → Call S (Result (List A)))
      → (Vec → Vec → Call S (Result (Option (Vec × Vec))))
      → (List ℕ → List ℕ → Run A)
      → Vec × Vec
      → Call S (Result (List A))
  read_entry again fill read buffers =
      lift (read buffers.0.elements buffers.1.elements) >>= λ entry.
      fill buffers.0 buffers.1 >>= λ rest. again rest >>= λ entries. pure (entry ∷ entries)

  unfoldable pub read_all :
      {A : Type 0}
      → (Vec → Vec → Call S (Result (Option (Vec × Vec))))
      → (List ℕ → List ℕ → Run A)
      → ℕ
      → Option (Vec × Vec)
      → Call S (Result (List A))
  read_all fill read fuel none s = ok (Result.done [], s)
  read_all fill read zero (some buffers) s = panic
  read_all fill read (suc fuel) (some buffers) s =
      read_entry (read_all fill read fuel) fill read buffers s

  abbrev pub next_driver : Vec → Vec → Call S (Result (Option (Vec × Vec)))
  next_driver desc_buf attr_buf =
      filled (drivers_buffer_fill FetchOrientation.next desc_buf attr_buf)

  module _ (decode : List ℕ → Option Text) where
    -- One character more than the longest text, for the terminating zero
    unfoldable pub drivers : ℕ → Call S (Result (List DriverInfo))
    drivers fuel = transposed (drivers_buffer_len FetchOrientation.first) >>= λ present.
        elim present [
          | none ↦ pure []
          | some lengths ↦ longest fuel lengths >>= λ longest_lengths.
              next_driver (zeros (longest_lengths.0 + 1)) (zeros (longest_lengths.1 + 1))
              >>= λ filled_buffers. read_all next_driver (driver_info decode) fuel filled_buffers
        ]

    -- The direction says which data sources; the lengths of those behind the first one are
    -- not asked for.
    unfoldable pub data_sources_impl : ℕ → FetchOrientation → Call S (Result (List DataSourceInfo))
    data_sources_impl fuel direction = transposed (data_source_buffer_len direction) >>= λ present.
        elim present [
          | none ↦ pure []
          | some lengths ↦ longest fuel lengths >>= λ longest_lengths.
              filled (
                data_source_buffer_fill direction (zeros (longest_lengths.0 + 1))
                  (zeros (longest_lengths.1 + 1)))
              >>= λ filled_buffers.
                  read_all
                    (λ server_name_buf driver_buf.
                      filled
                        (data_source_buffer_fill FetchOrientation.next server_name_buf driver_buf))
                    (data_source_info decode) fuel filled_buffers
        ]

    unfoldable pub data_sources : ℕ → Call S (Result (List DataSourceInfo))
    unfolding data_sources_impl
    data_sources fuel = data_sources_impl fuel FetchOrientation.first

    unfoldable pub system_data_sources : ℕ → Call S (Result (List DataSourceInfo))
    unfolding data_sources_impl
    system_data_sources fuel = data_sources_impl fuel FetchOrientation.first_system

    unfoldable pub user_data_sources : ℕ → Call S (Result (List DataSourceInfo))
    unfolding data_sources_impl
    user_data_sources fuel = data_sources_impl fuel FetchOrientation.first_user
