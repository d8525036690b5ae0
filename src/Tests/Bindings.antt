-- ===== src/Tests/Bindings.antt =====
-- Buffers bound to statements, at concrete inputs.
use exodbc.Prelude.{◌≡◌, refl, true, some, [], length}
use exodbc.Odbc.{Driver, World, success}
use exodbc.SqlTypes.{sql_integer}
use exodbc.Bindable.{
  on_released, free_stmt, new_store, allocate_stmt, bind_impl, destroy_bindable, Store, columns,
}
use exodbc.Bindable.Held.{is_held}

-- Every call succeeds, and every handle is new.
abbrev lending_driver : Driver
lending_driver events c = record {
  ret = success;
  out = some (length events);
  text = [];
  description = [];
  sql_type = sql_integer;
  diag = [];
}

abbrev allocated : World Store
allocated = (allocate_stmt lending_driver 1 (some 7) (record { self = new_store; trace = [] })).1

abbrev bound_store : World Store
bound_store = (bind_impl lending_driver columns 1 true 5 1 allocated).1

-- Every call succeeds, and every handle is 0.
abbrev reusing_driver : Driver
reusing_driver events c = record {
  ret = success;
  out = some 0;
  text = [];
  description = [];
  sql_type = sql_integer;
  diag = [];
}

-- A buffer is bound to a statement, which is freed, and then to another with the same SQLHSTMT.
abbrev bound_again : World Store
bound_again =
    let u = (allocate_stmt reusing_driver 1 (some 7) (record { self = new_store; trace = [] })).1 in
    let v = (free_stmt reusing_driver 1 (bind_impl reusing_driver columns 1 true 5 1 u).1).1 in
    (bind_impl reusing_driver columns 1 true 5 2 (allocate_stmt reusing_driver 2 (some 7) v).1).1

-- The destructor of the buffer leaves it bound to the second statement.
bound_again_held :
    is_held reusing_driver columns 0 5 (destroy_bindable reusing_driver 5 bound_again).1.trace
    ≡ true
unfolding is_held new_store allocate_stmt free_stmt bind_impl destroy_bindable on_released
bound_again_held = refl
