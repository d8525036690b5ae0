-- ===== src/Database.antt =====
-- src/Database.cpp: a connection with its commit mode, its properties and its catalog. Opening is in
-- Database/Open, what is done on an open database here.
pub mod Close
pub mod Frame
pub mod Laws
pub mod Life
pub mod Open
pub mod Opened
pub mod Transactions
use exodbc.Prelude.{
  ℕ, Bool, true, false, not, ◌&&◌, ◌||◌, Option, none, some, List, [], ◌∷◌, is_some,
}
use exodbc.Prelude.Texts.{Text}
use exodbc.Odbc.{
  succeeded, is_no_data, Driver, Action, ◌>>=◌, ◌>>◌, pure, throw, get, modify, ex_assert, when,
  catch, invoke, throw_ifn_succeeded, zoom, Reply, env, dbc, stmt, sql_close, sql_free_stmt,
  sql_set_cursor_scrollable, sql_exec_direct, assertion, sql_result,
}
use exodbc.SqlTypes.{same_type, SqlType, OdbcVersion}
use exodbc.TypeMap.{TypeMap}
use exodbc.Handle.{new_handle, allocate_with_parent, destroy, Handle}
use exodbc.Props.{no_props, Props}
use exodbc.Catalog.{DatabaseCatalog}
use exodbc.Catalog.Rows.{SqlTypeInfo}

-- `Database::CommitMode` and `Database::TransactionIsolationMode`
pub data CommitMode : Type 0 where
  auto_commit manual_commit unknown_commit : CommitMode

pub data TransactionIsolationMode : Type 0 where
  read_uncommitted read_committed repeatable_read serializable : TransactionIsolationMode
  unknown_isolation : TransactionIsolationMode

abbrev pub is_auto : CommitMode → Bool
is_auto auto_commit = true
is_auto _ = false

abbrev pub is_manual : CommitMode → Bool
is_manual manual_commit = true
is_manual _ = false

-- What a database asks of its environment, whose version is known.
pub record Env : Type 0 where
  pub h_env : Option ℕ
  pub odbc_version : OdbcVersion

-- Neither the log nor the tracing of values is kept.
pub record Database : Type 0 where
  pub env : Option Env
  pub sql2_buffer_type_map : Option TypeMap
  pub h_dbc : Handle
  pub h_stmt_exec_sql : Handle
  pub db_is_open : Bool
  pub opened_with_connection_string : Bool
  pub commit_mode : CommitMode
  pub props : Props
  pub db_catalog : Option DatabaseCatalog
  pub datatypes : List SqlTypeInfo
  pub dsn : Text
  pub uid : Text
  pub auth_str : Text
  pub in_connection_str : Text
  pub out_connection_str : Text

-- `Database()`
unfoldable pub new_database : Database
unfolding new_handle
new_database = record {
  env = none;
  sql2_buffer_type_map = none;
  h_dbc = new_handle;
  h_stmt_exec_sql = new_handle;
  db_is_open = false;
  opened_with_connection_string = false;
  commit_mode = unknown_commit;
  props = no_props;
  db_catalog = none;
  datatypes = [];
  dsn = [];
  uid = [];
  auth_str = [];
  in_connection_str = [];
  out_connection_str = [];
}

abbrev pub on_dbc : {A : Type 0} → Action Handle A → Action Database A
on_dbc m = zoom (λ s. s.h_dbc) (λ h s. record s { h_dbc = h }) m

abbrev pub on_exec : {A : Type 0} → Action Handle A → Action Database A
on_exec m = zoom (λ s. s.h_stmt_exec_sql) (λ h s. record s { h_stmt_exec_sql = h }) m

abbrev pub on_db_props : {A : Type 0} → Action Props A → Action Database A
on_db_props m = zoom (λ s. s.props) (λ p s. record s { props = p }) m

-- `exASSERT(m_pHDbc); exASSERT(m_pHDbc->IsAllocated());` on a pointer that is never null.
abbrev pub assert_dbc : Action Database (Unit {0})
assert_dbc = do s ← get; ex_assert (is_some s.h_dbc.handle)

-- `IsSqlTypeSupported`
abbrev pub supports : SqlType → List SqlTypeInfo → Bool
supports t [] = false
supports t (i ∷ r) = same_type i.sql_data_type t || same_type i.sql_type t || supports t r

unfoldable pub is_sql_type_supported : SqlType → Action Database Bool
is_sql_type_supported t = do s ← get; ex_assert s.db_is_open; pure (supports t s.datatypes)

-- `GetTypeInfos` and `GetDbCatalog`
unfoldable pub get_type_infos : Action Database (List SqlTypeInfo)
get_type_infos = do s ← get; ex_assert s.db_is_open; pure s.datatypes

unfoldable pub get_db_catalog : Action Database (Option DatabaseCatalog)
get_db_catalog = do s ← get; ex_assert s.db_is_open; pure s.db_catalog

-- `SetSql2BufferTypeMap` and `GetSql2BufferTypeMap` of `Database`
unfoldable pub set_type_map : Option TypeMap → Action Database (Unit {0})
set_type_map m = modify (λ s. record s { sql2_buffer_type_map = m })

unfoldable pub get_type_map : Action Database TypeMap
get_type_map = do s ← get; elim s.sql2_buffer_type_map [ none ↦ throw assertion | some m ↦ pure m ]

-- `ExecFailMode`
pub data ExecFailMode : Type 0 where
  fail_on_no_data not_fail_on_no_data : ExecFailMode

abbrev not_fail : ExecFailMode → Bool
not_fail fail_on_no_data = false
not_fail not_fail_on_no_data = true

module _ (d : Driver) where
  -- `Init(pEnv)`
  unfoldable pub init_database : Option Env → Action Database (Unit {0})
  unfolding allocate_with_parent
  init_database none = throw assertion
  init_database (some e) = do
    ex_assert (is_some e.h_env)
    s ← get
    ex_assert (not (is_some s.env))
    on_dbc (allocate_with_parent d dbc (some e.h_env))
    modify (λ s. record s { env = some e })

  -- `StatementCloser::CloseStmtHandle(m_pHStmtExecSql, IgnoreNotOpen)`
  unfoldable pub close_exec_stmt : Action Database (Unit {0})
  close_exec_stmt = do
    s ← get
    ex_assert (is_some s.h_stmt_exec_sql.handle)
    r ← invoke d (sql_free_stmt s.h_stmt_exec_sql.handle sql_close)
    throw_ifn_succeeded r

  unfoldable pub exec_sql : Text → ExecFailMode → Action Database (Unit {0})
  unfolding close_exec_stmt
  exec_sql sql mode = do
    s ← get
    ex_assert s.db_is_open
    close_exec_stmt
    r ← invoke d (sql_exec_direct s.h_stmt_exec_sql.handle sql)
    when (not (succeeded r.ret) && not (not_fail mode && is_no_data r.ret))
        (throw (sql_result r.ret r.diag))

  -- `TestScrollableCursorSupport` on a handle of its own, which is destroyed at the end.
  abbrev cursor_supported : Reply → Action Handle Bool
  cursor_supported r = catch (throw_ifn_succeeded r >> pure true) (λ e. pure false)

  test_on_handle : Option ℕ → Action Handle Bool
  unfolding allocate_with_parent
  test_on_handle h = do
    allocate_with_parent d stmt (some h)
    s ← get
    r ← invoke d (sql_set_cursor_scrollable s.handle true)
    b ← cursor_supported r
    destroy d stmt
    pure b

  unfoldable pub test_scrollable_cursor_support : Action Database Bool
  unfolding test_on_handle new_handle
  test_scrollable_cursor_support = do
    assert_dbc
    s ← get
    zoom (λ s. new_handle) (λ h s. s) (test_on_handle s.h_dbc.handle)
