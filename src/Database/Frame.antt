-- ===== src/Database/Frame.antt =====
-- What the methods of src/Database.cpp leave alone: the connection's handle and the environment.
use exodbc.Prelude.{ℕ, ◌≡◌, true, Option, none, some, List, is_some}
use exodbc.Prelude.Texts.{Text}
use exodbc.Odbc.{Driver, Action, Completion, Exn, Result, World, ok, raised}
use exodbc.Odbc.Keeps.{Keeps-pure, Keeps-modify, Keeps-bind, Keeps, keeps_rules}
use exodbc.Handle.{Handle}
use exodbc.Props.{Props}
use exodbc.Props.Version.{TextLibrary}
use exodbc.Catalog.{DatabaseCatalog}
use exodbc.Catalog.Rows.{SqlTypeInfo}
use exodbc.Database.{
  on_exec, on_db_props, close_exec_stmt, exec_sql, CommitMode, TransactionIsolationMode, Database,
  ExecFailMode,
}
use exodbc.Database.Close.{drop_option, drop_catalog, close_steps, close_database}
use exodbc.Database.Open.{
  types_read, mark_open, set_connection_attributes, catalog_made, make_catalog, read_from,
  read_datatypes, open_steps, open_undone, open_impl, open_failed, finish_open, open_with_string,
  open_with_dsn,
}
use exodbc.Database.Transactions.{
  end_trans, read_commit_mode, set_commit_mode, set_transaction_isolation_mode,
}

-- The connection's handle is allocated and the environment is known.
abbrev pub IsConnectable : Database → Type 0
IsConnectable s = (is_some s.env ≡ true) × (is_some s.h_dbc.handle ≡ true)

module _ {A : Type 0} where
  on_exec-Keeps : (m : Action Handle A) → Keeps IsConnectable (on_exec m)
  on_exec-Keeps m = record { at = λ w h. h }

  on_db_props-Keeps : (m : Action Props A) → Keeps IsConnectable (on_db_props m)
  on_db_props-Keeps m = record { at = λ w h. h }

types_read-Keeps : (o : Option (List SqlTypeInfo)) → Keeps IsConnectable (types_read o)
types_read-Keeps none = Keeps-pure none
types_read-Keeps (some ts) = Keeps-bind _ _ (Keeps-modify _ (λ s h. h)) (λ x. Keeps-pure (some tt))

mark_open-Keeps : (o : Option (Unit {0})) → Keeps IsConnectable (mark_open o)
mark_open-Keeps none = Keeps-pure none
mark_open-Keeps (some a) = Keeps-bind _ _ (Keeps-modify _ (λ s h. h)) (λ x. Keeps-pure (some a))

module _ (d : Driver) where
  drop_option-Keeps : (o : Option DatabaseCatalog) → Keeps IsConnectable (drop_option d o)
  drop_option-Keeps none = record { at = λ w h. h }
  drop_option-Keeps (some c) = record { at = λ w h. h }

  drop_catalog-Keeps : Keeps IsConnectable (drop_catalog d)
  unfolding drop_catalog
  drop_catalog-Keeps = record { at = λ w h. (drop_option-Keeps w.self.db_catalog).at w h }

  pub end_trans-Keeps : (c : Completion) → Keeps IsConnectable (end_trans d c)
  unfolding end_trans
  end_trans-Keeps c = search keeps_rules depth 20 fits 5000

  pub read_commit_mode-Keeps : Keeps IsConnectable (read_commit_mode d)
  unfolding read_commit_mode
  read_commit_mode-Keeps = search keeps_rules depth 20 fits 5000

  pub set_commit_mode-Keeps : (m : CommitMode) → Keeps IsConnectable (set_commit_mode d m)
  unfolding set_commit_mode
  set_commit_mode-Keeps m = search (keeps_rules, end_trans-Keeps) depth 20 fits 5000

  pub close_exec_stmt-Keeps : Keeps IsConnectable (close_exec_stmt d)
  unfolding close_exec_stmt
  close_exec_stmt-Keeps = search keeps_rules depth 20 fits 5000

  pub exec_sql-Keeps :
      (sql : Text) (mode : ExecFailMode) → Keeps IsConnectable (exec_sql d sql mode)
  unfolding exec_sql
  exec_sql-Keeps sql mode = search (keeps_rules, close_exec_stmt-Keeps) depth 20 fits 5000

  pub set_isolation-Keeps :
      (m : TransactionIsolationMode) → Keeps IsConnectable (set_transaction_isolation_mode d m)
  unfolding set_transaction_isolation_mode
  set_isolation-Keeps m =
      search (keeps_rules, close_exec_stmt-Keeps, end_trans-Keeps) depth 20 fits 5000

  pub close_database-Keeps : Keeps IsConnectable (close_database d)
  unfolding close_database close_steps
  close_database-Keeps =
      search (keeps_rules, end_trans-Keeps, on_exec-Keeps, on_db_props-Keeps, drop_catalog-Keeps)
        depth 20 fits 5000

  module _ (char_size fuel : ℕ) (t : TextLibrary) where
    set_connection_attributes-Keeps :
        Keeps IsConnectable (set_connection_attributes d char_size fuel t)
    unfolding set_connection_attributes
    set_connection_attributes-Keeps = search keeps_rules depth 20 fits 5000

    catalog_made-Keeps :
        (r : Result (Unit {0})) (c : World DatabaseCatalog)
        → Keeps IsConnectable (catalog_made d char_size fuel t r c)
    catalog_made-Keeps (ok a) c = record { at = λ w h. h }
    catalog_made-Keeps (raised e) c = record { at = λ w h. h }

    make_catalog-Keeps : Keeps IsConnectable (make_catalog d char_size fuel t)
    unfolding make_catalog
    make_catalog-Keeps = record { at = λ w h. (catalog_made-Keeps _ _).at w h }

    read_from-Keeps :
        (o : Option DatabaseCatalog) → Keeps IsConnectable (read_from d char_size fuel t o)
    read_from-Keeps none = record { at = λ w h. h }
    read_from-Keeps (some c) = record { at = λ w h. h }

    read_datatypes-Keeps : Keeps IsConnectable (read_datatypes d char_size fuel t)
    unfolding read_datatypes
    read_datatypes-Keeps =
        search (keeps_rules, read_from-Keeps, types_read-Keeps) depth 20 fits 5000

    open_steps-Keeps : Keeps IsConnectable (open_steps d char_size fuel t)
    unfolding open_steps
    open_steps-Keeps =
        search
          (
            keeps_rules, on_exec-Keeps, on_db_props-Keeps, make_catalog-Keeps,
            set_connection_attributes-Keeps, read_commit_mode-Keeps, set_commit_mode-Keeps,
            read_datatypes-Keeps,
          )
          depth 30 fits 9000

    open_undone-Keeps : Keeps IsConnectable (open_undone d char_size fuel t)
    unfolding open_undone
    open_undone-Keeps =
        search (keeps_rules, drop_catalog-Keeps, on_exec-Keeps, on_db_props-Keeps) depth 20 fits
          5000

    open_impl-Keeps : Keeps IsConnectable (open_impl d char_size fuel t)
    unfolding open_impl
    open_impl-Keeps = search (keeps_rules, open_steps-Keeps, open_undone-Keeps) depth 20 fits 5000

    open_failed-Keeps : (e : Exn) → Keeps IsConnectable (open_failed d char_size fuel t e)
    unfolding open_failed
    open_failed-Keeps e = search keeps_rules depth 20 fits 5000

    finish_open-Keeps : Keeps IsConnectable (finish_open d char_size fuel t)
    unfolding finish_open
    finish_open-Keeps =
        search (keeps_rules, open_impl-Keeps, open_failed-Keeps, mark_open-Keeps) depth 20 fits 5000

    pub open_with_string-Keeps :
        (s : Text) → Keeps IsConnectable (open_with_string d char_size fuel t s)
    unfolding open_with_string
    open_with_string-Keeps s = search (keeps_rules, finish_open-Keeps) depth 20 fits 5000

    pub open_with_dsn-Keeps :
        (n u a : Text) → Keeps IsConnectable (open_with_dsn d char_size fuel t n u a)
    unfolding open_with_dsn
    open_with_dsn-Keeps n u a = search (keeps_rules, finish_open-Keeps) depth 20 fits 5000
