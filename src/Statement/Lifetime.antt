-- ===== src/Statement/Lifetime.antt =====
-- A statement from `Init` to `Reset` (src/ExecutableStatement.cpp).
use exodbc.Prelude.{◌≡◌, ◌⊎◌, Bool, true, false, ◌&&◌, some, List, ◌∷◌, arith}
use exodbc.Odbc.{
  sql_scrollable, Driver, Orientation, Reply, Event, DriverLaws, Result, World, stmt,
  sql_alloc_handle, sql_get_cursor_scrollable, called, assertion, ok, raised,
}
use exodbc.Handle.Laws.{unbind_columns_frame, reset_params_frame}
use exodbc.Handle.{is_allocated, unbind_columns, Handle}
use exodbc.Statement.{new_statement, stmt_is_allocated, reset, Db, Statement}
use exodbc.Statement.Cursor.{differs, set_cursor_options, make_handle, init, select_fetch_scroll}

-- The reply of the driver when the cursor's mode is read, after a handle has been allocated.
abbrev pub cursor_reply : Driver → Db → List Event → Reply
cursor_reply d b events =
    let alloc = sql_alloc_handle stmt b.h_dbc in
    d (called alloc ∷ events) (sql_get_cursor_scrollable (d events alloc).out)

-- A new statement that has got its database, and one that has got its handle too.
abbrev chosen : Db → List Event → World Statement
chosen b events = record { self = record new_statement { db = some b }; trace = events }

abbrev fresh : Handle → Db → Bool → List Event → World Statement
fresh h b scrollable events = record {
  self = record {
    h_stmt = some h;
    db = some b;
    is_prepared = false;
    scrollable_cursor = scrollable;
    bound_columns = false;
    bound_params = false;
  };
  trace = events;
}

-- What `SetCursorOptions` makes of such a statement.
abbrev CursorOutcome :
    Driver → Handle → Db → Bool → List Event → Result (Unit {0}) × World Statement → Type 0
CursorOutcome d h b scrollable events (ok _, w') =
    w'.self
    ≡ (fresh h b
        (scrollable && differs (d events (sql_get_cursor_scrollable h.handle)).out sql_scrollable)
        events).self
CursorOutcome d h b scrollable events (raised e, w') = w' ≡ fresh h b false w'.trace

cursor_outcome :
    (d : Driver) (h : Handle) (b : Db) (scrollable : Bool) (events : List Event)
    → CursorOutcome d h b scrollable events
        (set_cursor_options d scrollable (fresh h b false events))
unfolding set_cursor_options
cursor_outcome d h b true events = ground arith
cursor_outcome d h b false events = ground arith

-- `Reset` of such a statement always returns, and makes it new.
reset-fresh :
    (d : Driver) (h : Handle) (b : Db) (events : List Event)
    → ((reset d (fresh h b false events)).0 ≡ ok tt)
      × ((reset d (fresh h b false events)).1.self ≡ new_statement)
unfolding reset new_statement
reset-fresh d h b events = (ground arith, ground arith)

-- What becomes of the statement when its handle is made.
abbrev MakeOutcome : Driver → Db → List Event → Result (Unit {0}) × World Statement → Type 0
MakeOutcome d b events (ok _, w') =
    let alloc = sql_alloc_handle stmt b.h_dbc in
    let h : Handle = record { handle = (d events alloc).out; parent = some b.h_dbc } in
    (is_allocated h ≡ true) × (w' ≡ fresh h b false (called alloc ∷ events))
MakeOutcome d b events (raised e, w') = w'.self ≡ (chosen b events).self

make_outcome :
    (d : Driver) (b : Db) (events : List Event)
    → DriverLaws d
    → MakeOutcome d b events (make_handle d b.h_dbc (chosen b events))
unfolding make_handle new_statement
make_outcome d b events laws = grind (arith, laws.alloc_out)

-- What `Init` of a new statement may leave behind.
abbrev pub InitOutcome :
    Driver → Db → Bool → List Event → Result (Unit {0}) × World Statement → Type 0
InitOutcome d b scrollable events (ok _, w') =
    (stmt_is_allocated w'.self.h_stmt ≡ true)
    × (w'.self.db ≡ some b)
    × (w'.self.is_prepared ≡ false)
    × (w'.self.bound_columns ≡ false)
    × (w'.self.bound_params ≡ false)
    × (w'.self.scrollable_cursor
        ≡ (scrollable && differs (cursor_reply d b events).out sql_scrollable))
InitOutcome d b scrollable events (raised e, w') =
    (w'.self ≡ new_statement) ⊎ (w'.self ≡ record new_statement { db = some b })

-- `Init` of a new statement with a database. If it returns, the statement has an allocated handle
-- and the database, nothing is prepared or bound, and its cursor counts as scrollable exactly if
-- that was asked for and the driver did not report the handle's cursor to be scrollable already. If
-- it throws, the statement is as new, or is as new but for keeping the database.
pub init_outcome :
    (d : Driver) (b : Db) (scrollable : Bool) (events : List Event)
    → DriverLaws d
    → InitOutcome d b scrollable events
        (init d (some b) scrollable (record { self = new_statement; trace = events }))
unfolding init new_statement
init_outcome d b scrollable events laws =
    let alloc = sql_alloc_handle stmt b.h_dbc in
    let h : Handle = record { handle = (d events alloc).out; parent = some b.h_dbc } in
    let w = fresh h b false (called alloc ∷ events) in
    ground (
      arith,
      make_outcome d b events laws,
      cursor_outcome d h b scrollable (called alloc ∷ events),
      reset-fresh d h b (set_cursor_options d scrollable w).1.trace,
    )

-- A statement that is initialized with scrollable cursors on a handle whose cursor the driver
-- reports to be scrollable already cannot scroll: every fetch with an orientation fails an
-- assertion, before any call of the driver.
pub select_fetch_scroll_refused :
    (d : Driver) (b : Db) (o : Orientation) (events : List Event) (w : World Statement)
    → DriverLaws d
    → (cursor_reply d b events).out ≡ some sql_scrollable
    → init d (some b) true (record { self = new_statement; trace = events }) ≡ (ok tt, w)
    → select_fetch_scroll d o w ≡ (raised assertion, w)
unfolding select_fetch_scroll
select_fetch_scroll_refused d b o events w laws e r =
    ground (arith, init_outcome d b true events laws)

-- A statement with an allocated handle, in any state of preparing and binding.
abbrev pub used : Handle → Db → Bool → Bool → Bool → Bool → List Event → World Statement
used h b prepared scrollable columns params events = record {
  self = record {
    h_stmt = some h;
    db = some b;
    is_prepared = prepared;
    scrollable_cursor = scrollable;
    bound_columns = columns;
    bound_params = params;
  };
  trace = events;
}

-- What `Reset` may leave behind: `prepared` and `scrollable` are the flags before.
abbrev pub ResetOutcome : Handle → Db → Bool → Bool → Result (Unit {0}) × World Statement → Type 0
ResetOutcome h b prepared scrollable (ok _, w') =
    w'.self ≡ record new_statement { is_prepared = prepared; scrollable_cursor = scrollable }
ResetOutcome h b prepared scrollable (raised e, w') =
    (w'.self.h_stmt ≡ some h) × (w'.self.db ≡ some b)

-- `Reset` of a statement with a handle and a database. If it returns, the statement is as new but
-- for the flags that say that it is prepared and that its cursor scrolls, which stay as they were;
-- if it throws, the statement still has its handle and its database.
pub reset_outcome :
    (d : Driver) (h : Handle) (b : Db) (prepared scrollable columns params : Bool)
    (events : List Event)
    → ResetOutcome h b prepared scrollable
        (reset d (used h b prepared scrollable columns params events))
unfolding reset new_statement
reset_outcome d h b prepared scrollable true true events =
    let unbound = unbind_columns d stmt (record { self = h; trace = events }) in
    ground (
      arith,
      unbind_columns_frame d stmt (record { self = h; trace = events }),
      reset_params_frame d stmt (record { self = h; trace = unbound.1.trace }),
    )
reset_outcome d h b prepared scrollable true false events =
    ground (arith, unbind_columns_frame d stmt (record { self = h; trace = events }))
reset_outcome d h b prepared scrollable false true events =
    ground (arith, reset_params_frame d stmt (record { self = h; trace = events }))
reset_outcome d h b prepared scrollable false false events = ground arith
