-- ===== src/Database/Laws.antt =====
-- The commit mode and the end of a connection in src/Database.cpp.
use exodbc.Prelude.{
  ℕ, ◌≡◌, ap, ◌∙◌, ◌⊎◌, Bool, ◌||◌, true, false, Option, none, some, List, [], ◌∷◌, arith,
  if◌then◌else◌, is_some,
}
use exodbc.Prelude.Texts.{}
use exodbc.Odbc.{
  succeeded, Driver, Action, ◌>>=◌, ◌>>◌, get, modify, when, invoke, throw_ifn_succeeded,
  HandleType, Event, Result, World, success, stmt, rollback, attr_autocommit, sql_free_handle,
  sql_disconnect, sql_end_tran, sql_set_connect_attr, called, fired_free, fired_reset_params,
  fired_unbind_columns, ok, raised,
}
use exodbc.Handle.{new_handle, free, Handle}
use exodbc.Props.{reset_props}
use exodbc.Catalog.{reset_catalog, DatabaseCatalog}
use exodbc.Database.{is_auto, is_manual, on_exec, on_db_props, CommitMode, Database}
use exodbc.Database.Close.{drop_catalog, close_steps, close_database}
use exodbc.Database.Transactions.{autocommit_value, end_trans, set_commit_mode}

-- The calls that `SetCommitMode` makes before it sets the attribute: a rollback, unless the mode is
-- known to be AUTO.
abbrev pub rolled_back : CommitMode → Option ℕ → List Event → List Event
rolled_back m h tr = if is_auto m then tr else called (sql_end_tran h rollback) ∷ tr

abbrev attribute_set : CommitMode → Option ℕ → List Event → List Event
attribute_set m h tr = called (sql_set_connect_attr h attr_autocommit (autocommit_value m)) ∷ tr

-- Does the rollback work, if there has to be one, and can the attribute be set after it?
abbrev rollback_works : Driver → World Database → Bool
rollback_works d w =
    is_auto w.self.commit_mode
    || succeeded (d w.trace (sql_end_tran w.self.h_dbc.handle rollback)).ret

abbrev attribute_works : Driver → CommitMode → World Database → Bool
attribute_works d m w =
    succeeded
      (d (rolled_back w.self.commit_mode w.self.h_dbc.handle w.trace)
        (sql_set_connect_attr w.self.h_dbc.handle attr_autocommit (autocommit_value m))).ret

-- The mode is remembered, and nothing else has changed, after both calls have worked. Otherwise the
-- database is as it was, and either the rollback failed and was the only call, or the rollback worked
-- and the attribute could not be set.
abbrev pub SetModeOutcome :
    Driver → CommitMode → World Database → Result (Unit {0}) × World Database → Type 0
SetModeOutcome d m w (ok a, w') =
    (rollback_works d w ≡ true)
    × (attribute_works d m w ≡ true)
    × (w'.self ≡ record (w.self) { commit_mode = m })
    × (w'.trace
        ≡ attribute_set m w.self.h_dbc.handle
            (rolled_back w.self.commit_mode w.self.h_dbc.handle w.trace))
SetModeOutcome d m w (raised e, w') =
    (w'.self ≡ w.self)
    × (((rollback_works d w ≡ false)
          × (w'.trace ≡ rolled_back w.self.commit_mode w.self.h_dbc.handle w.trace))
        ⊎ ((rollback_works d w ≡ true)
            × (attribute_works d m w ≡ false)
            × (w'.trace
                ≡ attribute_set m w.self.h_dbc.handle
                    (rolled_back w.self.commit_mode w.self.h_dbc.handle w.trace))))

-- SetCommitMode on an allocated connection: if it returns, the rollback, which is made unless the mode
-- is known to be AUTO, and the setting of the attribute have both succeeded, in this order and with no
-- other call, and the database remembers the mode and is otherwise as it was. If it throws, one of
-- the two has failed, after which nothing more was called, and the database is as it was.
pub set_commit_mode_outcome :
    (d : Driver) (m : CommitMode) (h : ℕ) (w : World Database)
    → w.self.h_dbc.handle ≡ some h
    → SetModeOutcome d m w (set_commit_mode d m w)
unfolding set_commit_mode end_trans
set_commit_mode_outcome d m h w e = ground (arith, e)

-- A driver that can end transactions, free handles and disconnect.
pub record LetsGo (d : Driver) : Type 0 where
  pub ends :
      (tr : List Event) (h : Option ℕ) → succeeded (d tr (sql_end_tran h rollback)).ret ≡ true
  pub frees :
      (tr : List Event) (t : HandleType) (h : ℕ) → (d tr (sql_free_handle t h)).ret ≡ success
  pub disconnects :
      (tr : List Event) (h : Option ℕ) → succeeded (d tr (sql_disconnect h)).ret ≡ true

-- What happens when a statement's handle is freed.
abbrev pub freed : ℕ → List Event → List Event
freed h tr =
    fired_unbind_columns none
    ∷ fired_reset_params none
    ∷ called (sql_free_handle stmt h)
    ∷ fired_free (some h)
    ∷ tr

abbrev rolled_back_if_manual : CommitMode → Option ℕ → List Event → List Event
rolled_back_if_manual m h tr = if is_manual m then called (sql_end_tran h rollback) ∷ tr else tr

free_allocated_stmt :
    (d : Driver) (h : Handle) (n : ℕ) (tr : List Event)
    → LetsGo d
    → h.handle ≡ some n
    → free d stmt (record { self = h; trace = tr })
      ≡ (ok tt, record { self = new_handle; trace = freed n tr })
unfolding free new_handle
free_allocated_stmt d h n tr l e = ground (arith, e, l.frees (fired_free (some n) ∷ tr) stmt n)

-- What follows an action that returned.
module _ {S A B : Type 0} where
  returned :
      (m : Action S A) (f : A → Action S B) (w w' : World S) (a : A)
      → m w ≡ (ok a, w')
      → (m >>= f) w ≡ f a w'
  returned m f w w' a e =
      ap
        (λ r. elim r.0 as (λ z. Result B × World S) [ ok b ↦ f b r.1 | raised x ↦ (raised x, r.1) ])
        e

-- What Close leaves.
abbrev pub closed : Database → Database
closed s = record s {
  db_is_open = false;
  h_stmt_exec_sql = new_handle;
  props = record (s.props) { props = [] };
  db_catalog = none;
}

module _ (d : Driver) (l : LetsGo d) where
  rollback-runs :
      (m : CommitMode) (w : World Database)
      → is_some w.self.h_dbc.handle ≡ true
      → when (is_manual m) (end_trans d rollback) w ≡ (
        ok tt,
        record { self = w.self; trace = rolled_back_if_manual m w.self.h_dbc.handle w.trace },
      )
  unfolding end_trans
  rollback-runs m w h = ground (arith, h, l.ends w.trace w.self.h_dbc.handle)

  exec-freed :
      (x : ℕ) (w : World Database)
      → w.self.h_stmt_exec_sql.handle ≡ some x
      → on_exec (free d stmt) w ≡ (
        ok tt,
        record { self = record (w.self) { h_stmt_exec_sql = new_handle }; trace = freed x w.trace },
      )
  exec-freed x w e =
      ap
        (λ r. (
          r.0,
          record { self = record (w.self) { h_stmt_exec_sql = r.1.self }; trace = r.1.trace },
        ))
        (free_allocated_stmt d w.self.h_stmt_exec_sql x w.trace l e)

  catalog-dropped :
      (c : DatabaseCatalog) (k : ℕ) (w : World Database)
      → w.self.db_catalog ≡ some c
      → c.h_stmt.handle ≡ some k
      → drop_catalog d w
        ≡ (ok tt, record { self = record (w.self) { db_catalog = none }; trace = freed k w.trace })
  unfolding drop_catalog reset_catalog
  catalog-dropped c k w e f = ground (arith, e, f, free_allocated_stmt d c.h_stmt k w.trace l f)

  abbrev finish_closing : Action Database (Unit {0})
  finish_closing = do
    s ← get
    r ← invoke d (sql_disconnect s.h_dbc.handle)
    throw_ifn_succeeded r
    modify (λ s. record s { db_is_open = false })

  disconnected :
      (w : World Database)
      → finish_closing w ≡ (
        ok tt,
        record {
          self = record (w.self) { db_is_open = false };
          trace = called (sql_disconnect w.self.h_dbc.handle) ∷ w.trace;
        },
      )
  disconnected w = ground (arith, l.disconnects w.trace w.self.h_dbc.handle)

  -- An open database is closed by Close, if the driver lets it: after a rollback in manual mode the
  -- handles of its two statements are freed, its own and then its catalog's, before it disconnects.
  -- Its properties and its catalog are gone, and nothing else has changed.
  pub close_database_lem :
      (w : World Database) (c : DatabaseCatalog) (x k : ℕ)
      → w.self.db_is_open ≡ true
      → is_some w.self.h_dbc.handle ≡ true
      → w.self.h_stmt_exec_sql.handle ≡ some x
      → w.self.db_catalog ≡ some c
      → c.h_stmt.handle ≡ some k
      → close_database d w ≡ (
        ok tt,
        record {
          self = closed w.self;
          trace =
              called (sql_disconnect w.self.h_dbc.handle)
              ∷ freed k
                  (freed x (rolled_back_if_manual w.self.commit_mode w.self.h_dbc.handle w.trace));
        },
      )
  unfolding close_database close_steps reset_props
  close_database_lem w c x k o h e f g =
      let w1 : World Database = record {
        self = w.self;
        trace = rolled_back_if_manual w.self.commit_mode w.self.h_dbc.handle w.trace;
      } in
      let w2 : World Database = record {
        self = record (w.self) { h_stmt_exec_sql = new_handle };
        trace = freed x w1.trace;
      } in
      let w3 : World Database = record {
        self = record (w2.self) { props = record (w.self.props) { props = [] } };
        trace = w2.trace;
      } in
      let drop = drop_catalog d >> finish_closing in
      let forget = on_db_props reset_props >> drop in
      ap (λ b. when b (close_steps d) w) o
      ∙ returned (when (is_manual w.self.commit_mode) (end_trans d rollback))
          (λ _. on_exec (free d stmt) >> forget) w w1 tt (rollback-runs w.self.commit_mode w h)
      ∙ returned (on_exec (free d stmt)) (λ _. forget) w1 w2 tt (exec-freed x w1 e)
      ∙ returned (drop_catalog d) (λ _. finish_closing) w3
          (record { self = record (w3.self) { db_catalog = none }; trace = freed k w3.trace }) tt
          (catalog-dropped c k w3 f g)
      ∙ disconnected
          (record { self = record (w3.self) { db_catalog = none }; trace = freed k w3.trace })
