-- ===== src/Database/Opened/Steps.antt =====
-- What the steps of `Open` of src/Database.cpp establish.
use exodbc.Prelude.{ℕ, refl, Bool, true, false, not, ◌&&◌, Option, none, some, is_some}
use exodbc.Odbc.{
  Driver, is_uncaught, Action, ◌>>=◌, ◌>>◌, throw, get, modify, ex_assert, when, branch,
  catch_exception, invoke, DriverLaws, Exn, Result, World, stmt, sql_disconnect, ok, raised,
}
use exodbc.Odbc.Keeps.{Keeps, keeps_rules}
use exodbc.Odbc.Triple.{
  Ended, Triple-Keeps, Triple-throw, Triple-catch, Triple-bind, Triple-get, Triple-weaken,
  Triple-then, Triple-known, Triple,
}
use exodbc.Handle.{allocate_with_parent, Handle}
use exodbc.Handle.Laws.{AllocateOutcome, allocate_with_parent_outcome}
use exodbc.Props.Version.{TextLibrary}
use exodbc.Props.Init.{driver_version, init_props}
use exodbc.Props.Getters.{get_supports_transactions, get_driver_odbc_version}
use exodbc.Catalog.{DatabaseCatalog}
use exodbc.Database.{is_manual, on_exec, on_db_props, assert_dbc, Database, manual_commit}
use exodbc.Database.Close.{drop_option, drop_catalog}
use exodbc.Database.Open.{
  env_version, or_default_map, set_connection_attributes, catalog_made, make_catalog,
  read_datatypes, open_steps, open_undone, open_impl, open_failed,
}
use exodbc.Database.Opened.{
  on_db_props-Keeps, map-Keeps, read_commit_mode-Keeps, set_commit_mode-Keeps,
  set_connection_attributes-Keeps, read_datatypes-Keeps, IsReady, HasStmt, IsClosed,
  HasStmt-Indifferent, IsClosed-Indifferent, IsReady-Indifferent,
}
use exodbc.Database.Transactions.{read_commit_mode, set_commit_mode}

abbrev pub Any : Database → Type 0
Any s = Unit

module _ (d : Driver) where
  on_exec-IsClosed : (m : Action Handle (Unit {0})) → Keeps IsClosed (on_exec m)
  on_exec-IsClosed m = record { at = λ w h. h }

  drop_option-IsClosed : (o : Option DatabaseCatalog) → Keeps IsClosed (drop_option d o)
  drop_option-IsClosed none = record { at = λ w h. h }
  drop_option-IsClosed (some c) = record { at = λ w h. h }

  drop_catalog-IsClosed : Keeps IsClosed (drop_catalog d)
  unfolding drop_catalog
  drop_catalog-IsClosed = record { at = λ w h. (drop_option-IsClosed w.self.db_catalog).at w h }

  module _ (char_size fuel : ℕ) (t : TextLibrary) where
    made-IsClosed :
        (r : Result (Unit {0})) (c : World DatabaseCatalog)
        → Keeps IsClosed (catalog_made d char_size fuel t r c)
    made-IsClosed (ok a) c = record { at = λ w h. h }
    made-IsClosed (raised e) c = record { at = λ w h. h }

    make_catalog-IsClosed : Keeps IsClosed (make_catalog d char_size fuel t)
    unfolding make_catalog
    make_catalog-IsClosed = record { at = λ w h. (made-IsClosed _ _).at w h }

    open_steps-IsClosed : Keeps IsClosed (open_steps d char_size fuel t)
    unfolding open_steps
    open_steps-IsClosed =
        search
          (
            keeps_rules,
            on_exec-IsClosed,
            make_catalog-IsClosed,
            on_db_props-Keeps IsClosed-Indifferent,
            set_connection_attributes-Keeps IsClosed-Indifferent,
            read_commit_mode-Keeps IsClosed-Indifferent,
            set_commit_mode-Keeps IsClosed-Indifferent,
            read_datatypes-Keeps IsClosed-Indifferent,
          )
          depth 30 fits 9000

    open_impl-IsClosed : Keeps IsClosed (open_impl d char_size fuel t)
    unfolding open_impl open_undone
    open_impl-IsClosed =
        search
          (
            keeps_rules,
            open_steps-IsClosed,
            drop_catalog-IsClosed,
            on_exec-IsClosed,
            on_db_props-Keeps IsClosed-Indifferent,
          )
          depth 30 fits 9000

    -- The handle is allocated if allocating it returns.
    allocated-HasStmt :
        (h : Option ℕ) (w : World Database) (r : Result (Unit {0}) × World Handle)
        → AllocateOutcome (record { self = w.self.h_stmt_exec_sql; trace = w.trace }) (some h) r
        → Ended HasStmt Any (
          r.0,
          record { self = record (w.self) { h_stmt_exec_sql = r.1.self }; trace = r.1.trace },
        )
    allocated-HasStmt h w (ok a, w') (k, l, m) = l
    allocated-HasStmt h w (raised e, w') k = tt

    on_exec-HasStmt :
        (h : Option ℕ)
        → DriverLaws d
        → Triple Any HasStmt Any (on_exec (allocate_with_parent d stmt (some h)))
    on_exec-HasStmt h l = record {
      ends = λ w k. allocated-HasStmt h w _ (
          allocate_with_parent_outcome d stmt (some h)
            (record { self = w.self.h_stmt_exec_sql; trace = w.trace }) l);
    }

    made-IsReady :
        (r : Result (Unit {0})) (c : World DatabaseCatalog)
        → Triple HasStmt IsReady Any (catalog_made d char_size fuel t r c)
    made-IsReady (ok a) c = record { ends = λ w h. (h, refl) }
    made-IsReady (raised e) c = record { ends = λ w h. tt }

    make_catalog-IsReady : Triple HasStmt IsReady Any (make_catalog d char_size fuel t)
    unfolding make_catalog
    make_catalog-IsReady = record { ends = λ w h. (made-IsReady _ _).ends w h }

    -- What `OpenImpl` does once it has the catalog.
    abbrev after_catalog : Action Database (Option (Unit {0}))
    after_catalog = do
      set_connection_attributes d char_size fuel t
      mode ← read_commit_mode d
      modify (λ s. record s { commit_mode = mode })
      able ← on_db_props get_supports_transactions
      s ← get
      when (able && not (is_manual s.commit_mode)) (set_commit_mode d manual_commit)
      read_datatypes d char_size fuel t

    after_catalog-Keeps : Keeps IsReady after_catalog
    after_catalog-Keeps =
        search
          (
            keeps_rules,
            on_db_props-Keeps IsReady-Indifferent,
            set_connection_attributes-Keeps IsReady-Indifferent,
            read_commit_mode-Keeps IsReady-Indifferent,
            set_commit_mode-Keeps IsReady-Indifferent,
            read_datatypes-Keeps IsReady-Indifferent,
          )
          depth 30 fits 9000

    rest-IsReady : Triple IsReady IsReady Any after_catalog
    rest-IsReady =
        Triple-weaken after_catalog (λ s h. h) (λ s h. tt)
          (Triple-Keeps after_catalog after_catalog-Keeps)

    -- A step that leaves the statement alone, before one that makes the database ready.
    stmt-then :
        {A : Type 0} (m : Action Database A) (f : A → Action Database (Option (Unit {0})))
        → Keeps HasStmt m
        → ((a : A) → Triple HasStmt IsReady Any (f a))
        → Triple HasStmt IsReady Any (m >>= f)
    stmt-then m f k l = Triple-then m f k (λ s h. tt) l

    catalog-IsReady : Triple HasStmt IsReady Any (make_catalog d char_size fuel t >> after_catalog)
    catalog-IsReady = Triple-bind _ _ make_catalog-IsReady (λ _. rest-IsReady)

    abbrev after_stmt : Option ℕ → Action Database (Option (Unit {0}))
    after_stmt h = do
      on_db_props (init_props d char_size t h)
      driver_version ← on_db_props (get_driver_odbc_version t)
      modify (λ s. record s {
        sql2_buffer_type_map = some (or_default_map (env_version s.env) s.sql2_buffer_type_map);
      })
      make_catalog d char_size fuel t
      after_catalog

    after_stmt-IsReady : (h : Option ℕ) → Triple HasStmt IsReady Any (after_stmt h)
    after_stmt-IsReady h =
        search
          (
            stmt-then,
            catalog-IsReady,
            on_db_props-Keeps HasStmt-Indifferent,
            map-Keeps HasStmt-Indifferent,
          )
          depth 30 fits 9000

    open_steps-IsReady : DriverLaws d → Triple Any IsReady Any (open_steps d char_size fuel t)
    unfolding open_steps
    open_steps-IsReady l =
        Triple-get
          (λ s.
            on_exec (allocate_with_parent d stmt (some s.h_dbc.handle))
            >> after_stmt s.h_dbc.handle)
          (λ s k.
            Triple-bind _ (λ _. after_stmt s.h_dbc.handle) (on_exec-HasStmt s.h_dbc.handle l)
              (λ _. after_stmt-IsReady s.h_dbc.handle))

    throwing :
        {A : Type 0} {Q : Database → Type 0} (m : Action Database (Unit {0})) (e : Exn)
        → Triple Any Q Any (m >> throw {A = A} e)
    throwing m e = Triple-bind m _ (Triple-known m tt) (λ a. Triple-throw e (λ s h. tt))

    branch-IsReady :
        (b : Bool) (e : Exn)
        → Triple Any IsReady Any
            (branch b (throw {A = Option (Unit {0})} e) (open_undone d char_size fuel t >> throw e))
    branch-IsReady true e = Triple-throw e (λ s h. tt)
    branch-IsReady false e = throwing (open_undone d char_size fuel t) e

    undone-IsReady :
        (e : Exn)
        → Triple Any IsReady Any (
            branch
              (is_uncaught e)
              (throw {A = Option (Unit {0})} e)
              (open_undone d char_size fuel t >> throw e))
    undone-IsReady e = branch-IsReady (is_uncaught e) e

    open_impl-IsReady : DriverLaws d → Triple Any IsReady Any (open_impl d char_size fuel t)
    unfolding open_impl
    open_impl-IsReady l = Triple-bind _ _ (Triple-known assert_dbc tt) (λ _. Triple-get _ (λ s k.
        Triple-bind _ _ (Triple-known (ex_assert (not (is_some s.h_stmt_exec_sql.handle))) tt)
          (λ _. Triple-catch _ _ (open_steps-IsReady l) undone-IsReady)))

    failed_at :
        (b : Bool) (e : Exn)
        → Triple Any IsReady Any (branch b (throw e) (open_failed d char_size fuel t e))
    unfolding open_failed
    failed_at true e = Triple-throw e (λ s h. tt)
    failed_at false e =
        Triple-get
          (λ s. invoke d (sql_disconnect s.h_dbc.handle) >>= λ r. throw {A = Option (Unit {0})} e)
          (λ s k.
            Triple-bind (invoke d (sql_disconnect s.h_dbc.handle)) (λ r. throw e)
              (Triple-known (invoke d (sql_disconnect s.h_dbc.handle)) tt)
              (λ r. Triple-throw e (λ s h. tt)))

    failed-IsReady :
        (e : Exn)
        → Triple Any IsReady Any
            (branch (is_uncaught e) (throw e) (open_failed d char_size fuel t e))
    failed-IsReady e = failed_at (is_uncaught e) e

    open_failed-IsClosed : (e : Exn) → Keeps IsClosed (open_failed d char_size fuel t e)
    unfolding open_failed
    open_failed-IsClosed e = search keeps_rules depth 20 fits 5000

    abbrev pub tried_open : Action Database (Option (Unit {0}))
    tried_open = catch_exception (open_impl d char_size fuel t) (open_failed d char_size fuel t)

    pub tried_open-IsClosed : Keeps IsClosed tried_open
    tried_open-IsClosed =
        search (keeps_rules, open_impl-IsClosed, open_failed-IsClosed) depth 20 fits 5000

    pub tried_open-IsReady : DriverLaws d → Triple Any IsReady Any tried_open
    tried_open-IsReady l = Triple-catch _ _ (open_impl-IsReady l) failed-IsReady
