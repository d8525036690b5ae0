-- ===== src/Statement/Execute.antt =====
-- Preparing and executing SQL: src/ExecutableStatement.cpp, and `CloseStmtHandle` of
-- src/SqlStatementCloser.cpp.
use exodbc.Prelude.{true, not, is_empty}
use exodbc.Prelude.Texts.{Text}
use exodbc.Odbc.{
  Driver, Action, ◌>>=◌, ◌>>◌, get, modify, ex_assert, invoke, throw_ifn_succeeded, sql_close,
  sql_free_stmt, sql_close_cursor, sql_exec_direct, sql_prepare, sql_execute,
}
use exodbc.Statement.{stmt_handle, assert_handle, Statement}

-- `StatementCloser::Mode`
pub data CloseMode : Type 0 where
  ignore_not_open error_not_open : CloseMode

module _ (d : Driver) where
  -- `CloseStmtHandle(m_pHStmt, mode)`
  unfoldable pub close_stmt_handle : CloseMode → Action Statement (Unit {0})
  close_stmt_handle ignore_not_open = do
    assert_handle
    s ← get
    r ← invoke d (sql_free_stmt (stmt_handle s.h_stmt) sql_close)
    throw_ifn_succeeded r
  close_stmt_handle error_not_open = do
    assert_handle
    s ← get
    r ← invoke d (sql_close_cursor (stmt_handle s.h_stmt))
    throw_ifn_succeeded r

  unfoldable pub select_close : Action Statement (Unit {0})
  unfolding close_stmt_handle
  select_close = close_stmt_handle ignore_not_open

  unfoldable pub execute_direct : Text → Action Statement (Unit {0})
  unfolding select_close
  execute_direct sql = do
    assert_handle
    ex_assert (not (is_empty sql))
    select_close
    s ← get
    r ← invoke d (sql_exec_direct (stmt_handle s.h_stmt) sql)
    throw_ifn_succeeded r

  unfoldable pub prepare : Text → Action Statement (Unit {0})
  prepare sql = do
    assert_handle
    ex_assert (not (is_empty sql))
    s ← get
    r ← invoke d (sql_prepare (stmt_handle s.h_stmt) sql)
    throw_ifn_succeeded r
    modify (λ s. record s { is_prepared = true })

  unfoldable pub execute_prepared : Action Statement (Unit {0})
  unfolding select_close
  execute_prepared = do
    s ← get
    ex_assert s.is_prepared
    select_close
    s ← get
    r ← invoke d (sql_execute (stmt_handle s.h_stmt))
    throw_ifn_succeeded r
