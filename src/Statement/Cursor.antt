-- ===== src/Statement/Cursor.antt =====
-- `Init`, `SetCursorOptions` and the fetches of src/ExecutableStatement.cpp.
use exodbc.Prelude.{ℕ, Bool, true, false, not, Option, none, some, is_some, ◌==◌, ◌&&◌, ◌||◌}
use exodbc.Odbc.{
  succeeded, is_no_data, sql_nonscrollable, sql_scrollable, Driver, has_hyc00, Action, ◌>>=◌, ◌>>◌,
  pure, throw, get, modify, ex_assert, when, branch, catch, invoke, throw_ifn_succeeded,
  Orientation, Reply, Exn, stmt, sql_get_cursor_scrollable, sql_set_cursor_scrollable, sql_fetch,
  sql_fetch_scroll, assertion, sql_result, ok, raised,
}
use exodbc.Handle.{new_handle, allocate_with_parent}
use exodbc.Statement.{db_is_open, stmt_handle, assert_handle, reset, Db, Statement}

-- `currentValue != value`, for what the driver has written to `currentValue`.
abbrev pub differs : Option ℕ → ℕ → Bool
differs none value = true
differs (some n) value = not (n == value)

module _ (d : Driver) where
  -- The body of the `try` of `SetCursorOptions`. A cursor that is as it should be is not touched,
  -- and nor is `m_scrollableCursor`.
  unfoldable pub read_and_set_cursor : Bool → Action Statement (Unit {0})
  read_and_set_cursor scrollable = do
    s ← get
    r ← invoke d (sql_get_cursor_scrollable (stmt_handle s.h_stmt))
    throw_ifn_succeeded r
    branch (not scrollable && differs r.out sql_nonscrollable)
        (do
          q ← invoke d (sql_set_cursor_scrollable (stmt_handle s.h_stmt) false)
          throw_ifn_succeeded q
          modify (λ s. record s { scrollable_cursor = false }))
        (when (scrollable && differs r.out sql_scrollable) (do
          q ← invoke d (sql_set_cursor_scrollable (stmt_handle s.h_stmt) true)
          throw_ifn_succeeded q
          modify (λ s. record s { scrollable_cursor = true })))

  -- The `catch` of `SetCursorOptions`: only SqlResultException is caught.
  abbrev pub cursor_failed : Bool → Exn → Action Statement (Unit {0})
  cursor_failed scrollable (sql_result ret diag) =
      branch (has_hyc00 diag && not scrollable)
        (modify (λ s. record s { scrollable_cursor = false })) (throw (sql_result ret diag))
  cursor_failed scrollable e = throw e

  unfoldable pub set_cursor_options : Bool → Action Statement (Unit {0})
  unfolding read_and_set_cursor
  set_cursor_options scrollable = do
    assert_handle
    s ← get
    ex_assert (is_some s.db)
    ex_assert (db_is_open s.db)
    catch (read_and_set_cursor scrollable) (cursor_failed scrollable)

  -- `std::make_shared<SqlStmtHandle>(pHDbc)`: if the constructor throws there is no object.
  unfoldable pub make_handle : Option ℕ → Action Statement (Unit {0})
  unfolding allocate_with_parent new_handle
  make_handle h_dbc w =
      let (r, w') =
        allocate_with_parent d stmt (some h_dbc) (record { self = new_handle; trace = w.trace }) in
      elim r [
        | ok _ ↦
            (ok tt, record { self = record (w.self) { h_stmt = some w'.self }; trace = w'.trace })
        | raised e ↦ (raised e, record { self = w.self; trace = w'.trace })
      ]

  -- `Init`
  unfoldable pub init : Option Db → Bool → Action Statement (Unit {0})
  init none scrollable = do s ← get; ex_assert (not (is_some s.db)); throw assertion
  init (some b) scrollable = do
    s ← get
    ex_assert (not (is_some s.db))
    ex_assert b.is_open
    modify (λ s. record s { db = some b })
    make_handle b.h_dbc
    catch (set_cursor_options scrollable) (λ e. reset d >> throw e)

  -- What `SelectNext` and `SelectFetchScroll` make of the driver's answer.
  unfoldable pub fetched : Reply → Action Statement Bool
  fetched r = do
    when (not (succeeded r.ret || is_no_data r.ret)) (throw (sql_result r.ret r.diag))
    pure (succeeded r.ret)

  unfoldable pub select_next : Action Statement Bool
  unfolding fetched
  select_next = do
    assert_handle
    s ← get
    r ← invoke d (sql_fetch (stmt_handle s.h_stmt))
    fetched r

  -- `SelectPrev`, `SelectFirst`, `SelectLast`, `SelectAbsolute` and `SelectRelative` are this at
  -- their orientation.
  unfoldable pub select_fetch_scroll : Orientation → Action Statement Bool
  unfolding fetched
  select_fetch_scroll o = do
    s ← get
    ex_assert s.scrollable_cursor
    assert_handle
    r ← invoke d (sql_fetch_scroll (stmt_handle s.h_stmt) o)
    fetched r
