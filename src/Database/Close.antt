-- ===== src/Database/Close.antt =====
-- `Close`, the destructor and the end of the catalog in src/Database.cpp.
use exodbc.Prelude.{false, Option, none, some}
use exodbc.Prelude.Texts.{}
use exodbc.Odbc.{
  Driver, Action, ◌>>=◌, ◌>>◌, pure, get, modify, when, catch_exception, invoke,
  throw_ifn_succeeded, Result, stmt, rollback, sql_disconnect, terminated, ok, raised,
}
use exodbc.Handle.{free}
use exodbc.Props.{reset_props}
use exodbc.Catalog.{reset_catalog, DatabaseCatalog}
use exodbc.Database.{is_manual, on_exec, on_db_props, Database}
use exodbc.Database.Transactions.{end_trans}

module _ (d : Driver) where
  -- `m_pDbCatalog.reset()`, by the last owner: the destructor of the catalog calls its `Reset`, and
  -- an exception from there ends the program. A caller of `GetDbCatalog` that still has the pointer
  -- keeps the catalog; this is not modelled.
  abbrev pub drop_option : Option DatabaseCatalog → Action Database (Unit {0})
  drop_option none w = (ok tt, w)
  drop_option (some c) w =
      let (r, x) = reset_catalog d (record { self = c; trace = w.trace }) in
      let q : Result (Unit {0}) = elim r [ ok a ↦ ok tt | raised e ↦ raised terminated ] in
      (q, record { self = record (w.self) { db_catalog = none }; trace = x.trace })

  unfoldable pub drop_catalog : Action Database (Unit {0})
  unfolding reset_catalog
  drop_catalog w = drop_option w.self.db_catalog w

  unfoldable pub close_steps : Action Database (Unit {0})
  unfolding end_trans free reset_props drop_catalog
  close_steps = do
    s ← get
    when (is_manual s.commit_mode) (end_trans d rollback)
    on_exec (free d stmt)
    on_db_props reset_props
    drop_catalog
    s ← get
    r ← invoke d (sql_disconnect s.h_dbc.handle)
    throw_ifn_succeeded r
    modify (λ s. record s { db_is_open = false })

  -- `Close`
  unfoldable pub close_database : Action Database (Unit {0})
  unfolding close_steps
  close_database = do s ← get; when s.db_is_open close_steps

  -- The body of `~Database`
  unfoldable pub destroy_database : Action Database (Unit {0})
  unfolding close_database
  destroy_database = do s ← get; when s.db_is_open (catch_exception close_database (λ e. pure tt))
