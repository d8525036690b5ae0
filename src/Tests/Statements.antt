-- ===== src/Tests/Statements.antt =====
-- Handles and statements at concrete inputs.
use exodbc.Prelude.{◌≡◌, refl, true, false, some, [], ◌∷◌}
use exodbc.Prelude.Texts.{txt}
use exodbc.Odbc.{
  Action, ◌>>◌, World, success, stmt, prev, sql_alloc_handle, sql_get_cursor_scrollable,
  sql_exec_direct, sql_execute, called, assertion, raised,
}
use exodbc.Handle.{new_handle, allocate_with_parent, free, destroy}
use exodbc.Handle.Laws.{FreeOutcome, free_outcome}
use exodbc.Statement.{new_statement, release_handle, reset, Statement}
use exodbc.Statement.Cursor.{
  read_and_set_cursor, set_cursor_options, make_handle, init, select_fetch_scroll,
}
use exodbc.Statement.Execute.{execute_direct, prepare, execute_prepared}
use exodbc.Statement.Laws.{ExecuteOutcome, execute_outcome}
use exodbc.Statement.Lifetime.{
  InitOutcome, init_outcome, select_fetch_scroll_refused, used, ResetOutcome, reset_outcome,
}
use exodbc.Tests.Fixtures.{
  good_driver, good_driver-DriverLaws, sample_db, prepared_statement, at_start,
}

free_outcome_example :
    FreeOutcome
      (at_start (record { handle = some 5; parent = some (some 3) }))
      stmt
      5
      success
      (free good_driver stmt (at_start (record { handle = some 5; parent = some (some 3) })))
free_outcome_example =
    free_outcome good_driver stmt 5 (at_start (record { handle = some 5; parent = some (some 3) }))
      refl

init_outcome_example :
    InitOutcome good_driver sample_db true []
      (init good_driver (some sample_db) true (at_start new_statement))
init_outcome_example = init_outcome good_driver sample_db true [] good_driver-DriverLaws

-- What `Init` makes of a new statement, on a handle whose cursor is scrollable already.
abbrev initialized : World Statement
initialized = record {
  self = record {
    h_stmt = some (record { handle = some 0; parent = some (some 3) });
    db = some sample_db;
    is_prepared = false;
    scrollable_cursor = false;
    bound_columns = false;
    bound_params = false;
  };
  trace =
      called (sql_get_cursor_scrollable (some 0)) ∷ called (sql_alloc_handle stmt (some 3)) ∷ [];
}

select_fetch_scroll_refused_example :
    select_fetch_scroll good_driver prev initialized ≡ (raised assertion, initialized)
unfolding init make_handle allocate_with_parent new_handle new_statement set_cursor_options
    read_and_set_cursor
select_fetch_scroll_refused_example =
    select_fetch_scroll_refused good_driver sample_db prev [] initialized good_driver-DriverLaws
      refl refl

reset_outcome_example :
    ResetOutcome
      (record { handle = some 5; parent = some (some 3) })
      sample_db
      true
      false
      (reset good_driver (
        used
          (record { handle = some 5; parent = some (some 3) })
          sample_db
          true
          false
          true
          true
          []))
reset_outcome_example =
    reset_outcome good_driver (record { handle = some 5; parent = some (some 3) }) sample_db true
      false true true []

execute_outcome_example :
    ExecuteOutcome
      (at_start prepared_statement)
      5
      (sql_exec_direct (some 5) (txt "SELECT 1"))
      true
      (execute_direct good_driver (txt "SELECT 1") (at_start prepared_statement))
    × ExecuteOutcome
        (at_start prepared_statement)
        5
        (sql_execute (some 5))
        true
        (execute_prepared good_driver (at_start prepared_statement))
execute_outcome_example =
    execute_outcome good_driver 5 (txt "SELECT 1") (at_start prepared_statement) refl

-- A statement that is initialized, given a text and reset keeps the flag that it is prepared.
prepared_and_reset : Action Statement (Unit {0})
prepared_and_reset = do
  init good_driver (some sample_db) false
  prepare good_driver (txt "SELECT 1")
  reset good_driver

reset_keeps_prepared : (prepared_and_reset (at_start new_statement)).1.self.is_prepared ≡ true
unfolding prepared_and_reset init make_handle allocate_with_parent new_handle new_statement
    set_cursor_options read_and_set_cursor prepare reset release_handle destroy
reset_keeps_prepared = refl
