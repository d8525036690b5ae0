-- ===== src/Tests/Databases.antt =====
-- Databases, catalogs, properties, the log and the environment at concrete inputs.
use exodbc.Prelude.{◌≡◌, refl, Bool, true, none, some, List, [], ◌∷◌, map, arith, length}
use exodbc.Prelude.Texts.{txt}
use exodbc.Odbc.{
  World, sql_tables, sql_close, rollback, sql_free_stmt, sql_disconnect, sql_end_tran,
  sql_get_type_info, called, ok,
}
use exodbc.SqlTypes.{v_3_8}
use exodbc.Buffer.{}
use exodbc.Handle.{}
use exodbc.Catalog.{new_database_catalog, pattern_or_ordinary, plain}
use exodbc.Catalog.Search.{
  read_result_set, search_tables, read_columns, read_primary_keys, read_sql_type_info,
}
use exodbc.Catalog.Escape.{escape_with, tokens, escape_with-tokens, literal}
use exodbc.Catalog.Ending.{}
use exodbc.Catalog.Ending.Searches.{ended, readings_end}
use exodbc.Catalog.Closing.{newest, read_result_set-closed}
use exodbc.Props.{no_props}
use exodbc.Props.Version.{}
use exodbc.Props.Init.{init_props}
use exodbc.Props.Laws.{GettersOutcome, init_props_getters}
use exodbc.Database.{new_database, init_database, Database, auto_commit}
use exodbc.Database.Life.{
  ◌⟶*◌, here, after, init_step, open_string_step, close_step, IsSound, reached-IsSound,
}
use exodbc.Database.Laws.{
  SetModeOutcome, set_commit_mode_outcome, freed, closed, close_database_lem,
}
use exodbc.Database.Close.{close_database}
use exodbc.Database.Transactions.{set_commit_mode}
use exodbc.Database.Open.{open_with_string, open_with_dsn}
use exodbc.Database.Opened.Laws.{OpenOutcome, open_outcome}
use exodbc.Logging.{register_handler, new_log_manager}
use exodbc.Logging.Handler.{new_base, new_std_log_handler, null_log_handler}
use exodbc.Logging.Laws.{
  key, same_key, serve_all, serve_all_set, Tells, serve_all-Tells, Key, Request, register, remove,
}
use exodbc.Environment.{new_environment, set_odbc_version, Environment}
use exodbc.Environment.Laws.{VersionOutcome, set_odbc_version_outcome}
use exodbc.Catalog.Find.{find_one_table}
use exodbc.Catalog.Find.Laws.{given, pattern, the_table, find_one_table_lem}
use exodbc.Catalog.Rows.{table_columns, table_info}
use exodbc.Tests.Answering.{
  answering_driver, answering_driver-DriverLaws, answering_driver-EndsWithin,
  answering_driver-LetsGo, answering_driver-RemembersVersion, plain_library,
  plain_library-ReplaceLaws, plain_printing, open_catalog, open_database, sample_names, sample_env,
  new_database-IsSound,
}

init_props_getters_example :
    GettersOutcome plain_library (
      init_props answering_driver 2 plain_library (some 3) (record { self = no_props; trace = [] }))
init_props_getters_example = init_props_getters plain_library answering_driver 2 (some 3) []

readings_end_example :
    (ended
        (search_tables answering_driver 3 sample_names
          (txt "TABLE")
          pattern_or_ordinary
          open_catalog).0
      ≡ true)
    × (ended (read_columns answering_driver 3 none sample_names pattern_or_ordinary open_catalog).0
        ≡ true)
    × (ended (read_primary_keys answering_driver 3 sample_names pattern_or_ordinary open_catalog).0
        ≡ true)
    × (ended (read_sql_type_info answering_driver 3 open_catalog).0 ≡ true)
readings_end_example =
    readings_end answering_driver 2 3 answering_driver-EndsWithin (omega arith) sample_names
      (txt "TABLE") none pattern_or_ordinary open_catalog

read_result_set-closed_example :
    newest
      (read_result_set answering_driver 3 sql_get_type_info
        (plain 1 ∷ [])
        length
        open_catalog).1.trace
    ≡ some (called (sql_free_stmt (some 5) sql_close))
read_result_set-closed_example =
    read_result_set-closed answering_driver 5 3 sql_get_type_info (plain 1 ∷ []) length open_catalog
      refl

open_catalog_mode : open_catalog.self.stmt_mode ≡ pattern_or_ordinary
unfolding new_database_catalog
open_catalog_mode = refl

find_one_table_lem_example :
    find_one_table answering_driver 3 plain_library (txt "PERSON") (txt "HR") [] [] open_catalog ≡ (
      let dbms = open_catalog.self.props.dbms in
      let r =
        read_result_set answering_driver 3
          (λ x.
            sql_tables x
              (pattern dbms (given []))
              (pattern dbms (given (txt "HR")))
              (some (txt "PERSON"))
              (given []))
          table_columns
          (table_info dbms)
          open_catalog in
      (the_table r.0, r.1))
find_one_table_lem_example =
    find_one_table_lem answering_driver 3 plain_library (txt "PERSON") (txt "HR") [] [] 5
      open_catalog refl open_catalog_mode

escape_with-tokens_example :
    tokens b'!' (escape_with plain_library (b'!' ∷ []) (txt "A_B%")) ≡ map literal (txt "A_B%")
escape_with-tokens_example =
    escape_with-tokens plain_library b'!' (txt "A_B%") plain_library-ReplaceLaws refl refl refl

set_commit_mode_outcome_example :
    SetModeOutcome answering_driver auto_commit open_database
      (set_commit_mode answering_driver auto_commit open_database)
set_commit_mode_outcome_example =
    set_commit_mode_outcome answering_driver auto_commit 3 open_database refl

close_database_lem_example : close_database answering_driver open_database ≡ (
  ok tt,
  record {
    self = closed open_database.self;
    trace =
        called (sql_disconnect (some 3))
        ∷ freed 5 (freed 4 (called (sql_end_tran (some 3) rollback) ∷ []));
  },
)
close_database_lem_example =
    close_database_lem answering_driver answering_driver-LetsGo open_database open_catalog.self 4 5
      refl refl refl refl refl

abbrev connected_database : World Database
connected_database =
    (init_database answering_driver sample_env (record { self = new_database; trace = [] })).1

open_outcome_example :
    OpenOutcome
      (open_with_string answering_driver 2 3 plain_library (txt "DSN=A") connected_database)
    × OpenOutcome (
        open_with_dsn answering_driver 2 3 plain_library
          (txt "A")
          (txt "U")
          (txt "P")
          connected_database)
unfolding init_database new_database
open_outcome_example =
    open_outcome answering_driver answering_driver-DriverLaws 2 3 plain_library (txt "DSN=A")
      (txt "A") (txt "U") (txt "P") connected_database refl

first_calls :
    ◌⟶*◌ answering_driver 2 3 plain_library
      (record { self = new_database; trace = [] })
      (close_database answering_driver
        (open_with_string answering_driver 2 3 plain_library (txt "DSN=A") connected_database).1).1
first_calls =
    after (after (after here (init_step _ sample_env)) (open_string_step _ (txt "DSN=A")))
      (close_step _)

reached-IsSound_example :
    IsSound
      (close_database answering_driver
        (open_with_string answering_driver 2 3 plain_library
          (txt "DSN=A")
          connected_database).1).1.self
reached-IsSound_example =
    reached-IsSound answering_driver answering_driver-DriverLaws 2 3 plain_library first_calls
      new_database-IsSound

std_keys : Key → Bool
std_keys k = same_key (key new_std_log_handler) k

new_log_manager-Tells : Tells std_keys (new_log_manager true)
unfolding std_keys new_log_manager register_handler
new_log_manager-Tells k = ground arith

requests : List Request
requests =
    register new_std_log_handler
    ∷ register (null_log_handler new_base)
    ∷ remove new_std_log_handler
    ∷ []

serve_all-Tells_example :
    Tells
      (serve_all_set requests std_keys)
      (serve_all plain_printing requests (new_log_manager true))
serve_all-Tells_example =
    serve_all-Tells plain_printing requests std_keys (new_log_manager true) new_log_manager-Tells

sample_environment : World Environment
sample_environment = record {
  self = record (new_environment) { h_env = record { handle = some 1; parent = none } };
  trace = [];
}

set_odbc_version_outcome_example :
    VersionOutcome v_3_8 sample_environment
      (set_odbc_version answering_driver v_3_8 sample_environment)
set_odbc_version_outcome_example =
    set_odbc_version_outcome answering_driver v_3_8 sample_environment
      answering_driver-RemembersVersion
