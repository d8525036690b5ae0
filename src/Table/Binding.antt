-- ===== src/Table/Binding.antt =====
-- Preparing the statements of a table and binding its buffers: the `Bind...Parameters` methods of
-- src/Table.cpp and the binding loop of `Open`.
pub mod Laws
use exodbc.Prelude.{ℕ, suc, true, false, not, List, [], ◌∷◌, is_some, is_empty}
use exodbc.Prelude.Texts.{Text, Boost}
use exodbc.Odbc.{Driver, Action, ◌>>=◌, ◌>>◌, pure, get, ex_assert}
use exodbc.Flags.{test, cf_select, af_select_pk, af_update_pk, af_insert, af_delete_pk}
use exodbc.Buffer.{ColumnBuffer}
use exodbc.Statement.{Statement}
use exodbc.Statement.Bind.{bind_column, bind_parameter}
use exodbc.Statement.Execute.{prepare}
use exodbc.Table.{
  Columns, has_access, lift, on_select, on_insert, on_update_pk, on_delete_pk, Table,
}
use exodbc.Table.Sql.{delete_pk_sql, update_pk_sql, insert_sql, select_pk_sql}

-- `exASSERT(!m_columns.empty()); exASSERT(TestAccessFlag(af)); exASSERT(stmt.IsInitialized());`
abbrev assert_ready : ℕ → (Table → Statement) → Action Table (Unit {0})
assert_ready af stmt_of = do
  t ← get
  ex_assert (not (is_empty t.columns))
  ex_assert (has_access af t)
  ex_assert (is_some (stmt_of t).db)

module _ (d : Driver) where
  -- The loops that bind parameters, from a number on.
  unfoldable pub bind_parameters : List ColumnBuffer → ℕ → Action Statement (Unit {0})
  bind_parameters [] nr = pure tt
  bind_parameters (c ∷ cs) nr = do bind_parameter d c nr false; bind_parameters cs (suc nr)

  -- The loop of `Open` that binds the columns with CF_SELECT, from a number on.
  unfoldable pub bind_columns : Columns → ℕ → Action Statement (Unit {0})
  bind_columns [] nr = pure tt
  bind_columns ((i, c) ∷ cs) nr = elim (test c.flags cf_select) [
    | false ↦ bind_columns cs nr
    | true ↦ bind_column d c nr >> bind_columns cs (suc nr)
  ]

  -- `Prepare`, and then the parameters from 1 on.
  unfoldable pub prepare_and_bind : Text × List ColumnBuffer → Action Statement (Unit {0})
  prepare_and_bind sql = do prepare d sql.0; bind_parameters sql.1 1

  module _ (b : Boost) where
    unfoldable pub bind_delete_pk_parameters : Action Table (Unit {0})
    bind_delete_pk_parameters = do
      assert_ready af_delete_pk (λ t. t.exec_stmt_delete_pk)
      t ← get
      sql ← lift (delete_pk_sql b t.table_info t.columns)
      on_delete_pk (prepare_and_bind sql)

    unfoldable pub bind_update_pk_parameters : Action Table (Unit {0})
    bind_update_pk_parameters = do
      assert_ready af_update_pk (λ t. t.exec_stmt_update_pk)
      t ← get
      sql ← lift (update_pk_sql b t.table_info t.columns)
      on_update_pk (prepare_and_bind sql)

    unfoldable pub bind_insert_parameters : Action Table (Unit {0})
    bind_insert_parameters = do
      assert_ready af_insert (λ t. t.exec_stmt_insert)
      t ← get
      sql ← lift (insert_sql b t.table_info t.columns)
      on_insert (prepare_and_bind sql)

    unfoldable pub bind_select_pk_parameters : Action Table (Unit {0})
    bind_select_pk_parameters = do
      assert_ready af_select_pk (λ t. t.exec_stmt_select)
      t ← get
      sql ← lift (select_pk_sql b t.table_info t.columns)
      on_select (prepare_and_bind sql)
