-- ===== src/Database/Open.antt =====
-- `OpenImpl` and `Open` of src/Database.cpp. `char_size` is that of
-- Props.antt; `fuel` is for the loop over the SQL types, and `none` says that it ran out.
use exodbc.Prelude.{ℕ, true, not, ◌&&◌, Option, none, some, List, [], is_some, is_empty}
use exodbc.Prelude.Texts.{Text}
use exodbc.Odbc.{
  Driver, Action, ◌>>=◌, ◌>>◌, pure, throw, get, modify, ex_assert, when, catch_exception, invoke,
  throw_ifn_succeeded, zoom, Exn, Result, World, stmt, attr_trace, sql_driver_connect, sql_connect,
  sql_disconnect, sql_set_connect_attr, null_dereference, ok, raised,
}
use exodbc.SqlTypes.{OdbcVersion, unknown_version}
use exodbc.TypeMap.{TypeMap}
use exodbc.TypeMap.Defaults.{default_sql2_buffer_map}
use exodbc.Handle.{allocate_with_parent, free, destroy}
use exodbc.Props.{reset_props}
use exodbc.Props.Version.{TextLibrary}
use exodbc.Props.Init.{driver_version, init_props}
use exodbc.Props.Getters.{get_supports_transactions, get_driver_odbc_version}
use exodbc.Catalog.{new_database_catalog, on_stmt, init_catalog, DatabaseCatalog}
use exodbc.Catalog.Rows.{SqlTypeInfo}
use exodbc.Catalog.Search.{read_sql_type_info}
use exodbc.Database.{is_manual, on_exec, on_db_props, assert_dbc, Env, Database, manual_commit}
use exodbc.Database.Close.{drop_catalog}
use exodbc.Database.Transactions.{read_commit_mode, set_commit_mode}

abbrev pub env_version : Option Env → OdbcVersion
env_version none = unknown_version
env_version (some e) = e.odbc_version

abbrev pub or_default_map : OdbcVersion → Option TypeMap → TypeMap
or_default_map v none = default_sql2_buffer_map v
or_default_map v (some m) = m

-- The types that were read, if the fuel was enough.
abbrev pub types_read : Option (List SqlTypeInfo) → Action Database (Option (Unit {0}))
types_read none = pure none
types_read (some ts) = modify (λ s. record s { datatypes = ts }) >> pure (some tt)

abbrev pub mark_open : Option (Unit {0}) → Action Database (Option (Unit {0}))
mark_open none = pure none
mark_open (some a) = modify (λ s. record s { db_is_open = true }) >> pure (some a)

module _ (d : Driver) (char_size fuel : ℕ) (t : TextLibrary) where
  -- `SetConnectionAttributes`, where SQL_OPT_TRACE_OFF is 0.
  unfoldable pub set_connection_attributes : Action Database (Unit {0})
  set_connection_attributes = do
    assert_dbc
    s ← get
    r ← invoke d (sql_set_connect_attr s.h_dbc.handle attr_trace 0)
    throw_ifn_succeeded r

  -- `std::make_shared<DatabaseCatalog>(m_pHDbc, m_props)`: if its `Init` throws, its handle is
  -- destroyed and there is no catalog.
  abbrev pub catalog_made : Result (Unit {0}) → World DatabaseCatalog → Action Database (Unit {0})
  catalog_made (ok a) c w =
      (ok tt, record { self = record (w.self) { db_catalog = some c.self }; trace = c.trace })
  catalog_made (raised e) c w =
      let (q, x) = on_stmt (destroy d stmt) c in
      (raised e, record { self = w.self; trace = x.trace })

  unfoldable pub make_catalog : Action Database (Unit {0})
  unfolding init_catalog new_database_catalog destroy
  make_catalog w =
      let start : World DatabaseCatalog = record { self = new_database_catalog; trace = w.trace } in
      let (r, c) = init_catalog d char_size w.self.h_dbc.handle w.self.props start in
      catalog_made r c w

  -- A call through `m_pDbCatalog`.
  abbrev pub read_from : Option DatabaseCatalog → Action Database (Option (List SqlTypeInfo))
  read_from none w = (raised null_dereference, w)
  read_from (some c) w =
      zoom (λ s. c) (λ c' s. record s { db_catalog = some c' }) (read_sql_type_info d fuel) w

  unfoldable pub read_datatypes : Action Database (Option (Unit {0}))
  unfolding read_sql_type_info
  read_datatypes = do s ← get; o ← read_from s.db_catalog; types_read o

  -- The `try` of `OpenImpl`
  unfoldable pub open_steps : Action Database (Option (Unit {0}))
  unfolding allocate_with_parent init_props get_driver_odbc_version set_connection_attributes
      make_catalog read_commit_mode get_supports_transactions set_commit_mode read_datatypes
  open_steps = do
    s ← get
    on_exec (allocate_with_parent d stmt (some s.h_dbc.handle))
    on_db_props (init_props d char_size t s.h_dbc.handle)
    driver_version ← on_db_props (get_driver_odbc_version t)
    modify (λ s. record s {
      sql2_buffer_type_map = some (or_default_map (env_version s.env) s.sql2_buffer_type_map);
    })
    make_catalog
    set_connection_attributes
    mode ← read_commit_mode d
    modify (λ s. record s { commit_mode = mode })
    able ← on_db_props get_supports_transactions
    s ← get
    when (able && not (is_manual s.commit_mode)) (set_commit_mode d manual_commit)
    read_datatypes

  -- The `catch` of `OpenImpl`
  unfoldable pub open_undone : Action Database (Unit {0})
  unfolding free reset_props drop_catalog
  open_undone = do
    drop_catalog d
    on_db_props reset_props
    s ← get
    when (is_some s.h_stmt_exec_sql.handle) (on_exec (free d stmt))

  unfoldable pub open_impl : Action Database (Option (Unit {0}))
  unfolding open_steps open_undone
  open_impl = do
    assert_dbc
    s ← get
    ex_assert (not (is_some s.h_stmt_exec_sql.handle))
    catch_exception open_steps (λ e. open_undone >> throw e)

  -- What both forms of `Open` do once they are connected. That a disconnection fails is only logged.
  unfoldable pub open_failed : Exn → Action Database (Option (Unit {0}))
  open_failed e = do s ← get; r ← invoke d (sql_disconnect s.h_dbc.handle); throw e

  unfoldable pub finish_open : Action Database (Option (Unit {0}))
  unfolding open_impl open_failed
  finish_open = do o ← catch_exception open_impl open_failed; mark_open o

  -- `Open(inConnectStr, parentWnd)`, whose result is `out_connection_str`.
  unfoldable pub open_with_string : Text → Action Database (Option (Unit {0}))
  unfolding finish_open
  open_with_string connection = do
    assert_dbc
    s ← get
    ex_assert (not s.db_is_open)
    ex_assert (not (is_empty connection))
    modify (λ s. record s { dsn = []; uid = []; auth_str = []; in_connection_str = connection })
    r ← invoke d (sql_driver_connect s.h_dbc.handle connection)
    throw_ifn_succeeded r
    modify (λ s. record s { out_connection_str = r.text; opened_with_connection_string = true })
    finish_open

  -- `Open(dsn, uid, authStr)`
  unfoldable pub open_with_dsn : Text → Text → Text → Action Database (Option (Unit {0}))
  unfolding finish_open
  open_with_dsn name user auth = do
    s ← get
    ex_assert (not s.db_is_open)
    ex_assert (not (is_empty name))
    ex_assert (is_some s.h_dbc.handle)
    modify (λ s. record s {
      dsn = name;
      uid = user;
      auth_str = auth;
      in_connection_str = [];
      out_connection_str = [];
    })
    r ← invoke d (sql_connect s.h_dbc.handle name user auth)
    throw_ifn_succeeded r
    finish_open
