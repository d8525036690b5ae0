-- ===== src/Environment/Sources.antt =====
-- `ListDataSources` of src/Environment.cpp.
pub mod Listed
pub mod Loops
use exodbc.Prelude.{
  ℕ, zero, suc, not, Option, none, some, List, [], ◌∷◌, ltb, if◌then◌else◌, is_some,
}
use exodbc.Prelude.Texts.{Text}
use exodbc.Odbc.{
  succeeded, is_no_data, Driver, sql_result_without_handle, Action, ◌>>=◌, ◌>>◌, pure, throw, get,
  ex_assert, when, branch, invoke, throw_ifn_succeeded, Direction, Reply, fetch_first,
  fetch_first_system, fetch_first_user, fetch_next, sql_data_sources,
}
use exodbc.Handle.{}
use exodbc.Environment.{Environment}

pub data ListMode : Type 0 where
  all_sources system_sources user_sources : ListMode

-- `SDataSource`
pub record DataSource : Type 0 where
  pub dsn : Text
  pub description : Text

abbrev pub first_direction : ListMode → Direction
first_direction all_sources = fetch_first
first_direction system_sources = fetch_first_system
first_direction user_sources = fetch_first_user

-- `maxDescLength` after a length was written, or none.
abbrev pub longer : Option ℕ → ℕ → ℕ
longer none n = n
longer (some m) n = if ltb n m then m else n

abbrev pub source_of : Reply → DataSource
source_of r = record { dsn = r.text; description = r.description }

abbrev pub put_source : DataSource → Option (List DataSource) → Option (List DataSource)
put_source s none = none
put_source s (some r) = some (s ∷ r)

module _ (d : Driver) (h : Option ℕ) where
  -- `THROW_IFN_NO_DATA`
  abbrev pub expect_no_data : Reply → Action Environment (Unit {0})
  expect_no_data r = when (not (is_no_data r.ret)) (throw (sql_result_without_handle r.ret))

  -- The first loop, on fuel: `none` stands for a loop that has not ended. The size of the buffer for
  -- the description is 0 where the source hands over NULL.
  unfoldable pub measure : ℕ → ℕ → Reply → Action Environment (Option ℕ)
  measure zero longest r = pure none
  measure (suc fuel) longest r = do
    n ← invoke d (sql_data_sources h fetch_next 0)
    branch (succeeded n.ret) (measure fuel (longer r.out longest) n)
        (expect_no_data n >> pure (some (longer r.out longest)))

  -- The second loop.
  unfoldable pub collect : ℕ → ℕ → Reply → Action Environment (Option (List DataSource))
  collect size zero r = pure none
  collect size (suc fuel) r = do
    n ← invoke d (sql_data_sources h fetch_next size)
    branch (succeeded n.ret) (do rest ← collect size fuel n; pure (put_source (source_of r) rest))
        (expect_no_data n >> pure (some (source_of r ∷ [])))

  -- The second pass, with room for the longest description and a 0.
  unfoldable pub describe : Direction → ℕ → Option ℕ → Action Environment (Option (List DataSource))
  unfolding collect
  describe direction fuel none = pure none
  describe direction fuel (some longest) = do
    r ← invoke d (sql_data_sources h direction (suc longest))
    when (is_no_data r.ret) (throw (sql_result_without_handle r.ret))
    collect (suc longest) fuel r

module _ (d : Driver) where
  unfoldable pub list_data_sources : ℕ → ListMode → Action Environment (Option (List DataSource))
  unfolding measure describe
  list_data_sources fuel mode = do
    s ← get
    ex_assert (is_some s.h_env.handle)
    r ← invoke d (sql_data_sources s.h_env.handle (first_direction mode) 0)
    branch (is_no_data r.ret) (pure (some [])) (do
      throw_ifn_succeeded r
      m ← measure d s.h_env.handle fuel 0 r
      describe d s.h_env.handle (first_direction mode) fuel m)
