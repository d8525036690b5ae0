-- ===== src/Table/Access.antt =====
-- Selecting, counting and changing rows: the methods of src/Table.cpp that execute statements.
pub mod Laws
use exodbc.Prelude.{ℕ, ◌*◌, Bool, false, not, ◌&&◌, ◌||◌, [], ◌∷◌, if◌then◌else◌, is_some, is_empty}
use exodbc.Prelude.Texts.{Text, txt, Boost}
use exodbc.Odbc.{
  is_no_data, Driver, Action, ◌>>=◌, ◌>>◌, pure, throw, get, ex_assert, catch, Orientation, Exn,
  Result, sql_result, ok,
}
use exodbc.Flags.{
  af_select_pk, af_select_where, af_update_pk, af_update_where, af_insert, af_delete_pk,
  af_delete_where, af_count_where,
}
use exodbc.Buffer.{}
use exodbc.Statement.{new_statement, destroy_statement, Statement}
use exodbc.Statement.Cursor.{init, select_next, select_fetch_scroll}
use exodbc.Statement.Bind.{}
use exodbc.Statement.Execute.{select_close, execute_direct, execute_prepared}
use exodbc.Table.{
  has_access, lift, on_select, on_count_where, on_insert, on_update_pk, on_delete_pk, Table,
}
use exodbc.Table.Info.{TableInfo}
use exodbc.Table.Sql.{named, update_sql, select_sql}
use exodbc.Table.Binding.{prepare_and_bind}

abbrev assert_open : Action Table (Unit {0})
assert_open = do t ← get; ex_assert t.is_open

abbrev assert_access : ℕ → Action Table (Unit {0})
assert_access af = do t ← get; ex_assert (has_access af t)

-- `catch (const SqlResultException& ex)` of the deletes: no rows are no failure unless asked for.
unfoldable pub forgive_no_data : {S : Type 0} → Bool → Exn → Action S (Unit {0})
forgive_no_data fail_on_no_data (sql_result ret diag) =
    if not fail_on_no_data && is_no_data ret then pure tt else throw (sql_result ret diag)
forgive_no_data fail_on_no_data e = throw e

-- A statement that lives in a method: `~ExecutableStatement` runs however the method ends.
unfoldable pub with_local : Driver → Action Statement (Unit {0}) → Action Table (Unit {0})
with_local d m w =
    let (r, s) = m (record { self = new_statement; trace = w.trace }) in
    let (q, end) = destroy_statement d s in (r, record w { trace = end.trace })

-- `IsQueryOnly`
unfoldable pub is_query_only : Table → Bool
is_query_only t =
    (has_access af_select_pk t || has_access af_select_where t)
    && ((not (has_access af_update_pk t) && not (has_access af_update_where t))
        && ((not (has_access af_delete_pk t) && not (has_access af_delete_where t))
            && not (has_access af_insert t)))

module _ (d : Driver) where
  -- `SelectBySqlStmt`
  unfoldable pub select_by_sql_stmt : Text → Action Table (Unit {0})
  select_by_sql_stmt sql = do
    assert_open
    assert_access af_select_where
    ex_assert (not (is_empty sql))
    on_select (execute_direct d sql)

  unfoldable pub select_by_pk_values : Action Table (Unit {0})
  select_by_pk_values = do assert_open; on_select (execute_prepared d)

  unfoldable pub table_select_next : Action Table Bool
  table_select_next = on_select (select_next d)

  -- `SelectPrev`, `SelectFirst`, `SelectLast`, `SelectAbsolute` and `SelectRelative`
  unfoldable pub table_select_scroll : Orientation → Action Table Bool
  table_select_scroll o = on_select (select_fetch_scroll d o)

  unfoldable pub table_select_close : Action Table (Unit {0})
  table_select_close = on_select (select_close d)

  unfoldable pub insert_row : Action Table (Unit {0})
  insert_row = do assert_open; assert_access af_insert; on_insert (execute_prepared d)

  unfoldable pub delete_by_pk_values : Bool → Action Table (Unit {0})
  delete_by_pk_values fail_on_no_data = do
    assert_open
    assert_access af_delete_pk
    catch (on_delete_pk (execute_prepared d)) (forgive_no_data fail_on_no_data)

  unfoldable pub update_by_pk_values : Action Table (Unit {0})
  update_by_pk_values = do
    assert_open
    assert_access af_update_pk
    on_update_pk (execute_prepared d)

  module _ (b : Boost) where
    -- The text of `Count`.
    unfoldable pub count_sql : TableInfo → Text → Result Text
    count_sql i condition = named i (λ name. ok (
        if is_empty condition
        then b.format (txt "SELECT COUNT(*) FROM %s") (name ∷ [])
        else b.format (txt "SELECT COUNT(*) FROM %s WHERE %s") (name ∷ condition ∷ [])))

    -- `Count`, up to the value that it reads from the buffer.
    unfoldable pub count : Text → Action Table (Unit {0})
    count condition = do
      assert_open
      assert_access af_count_where
      t ← get
      ex_assert (is_some t.select_count_result_buffer)
      sql ← lift (count_sql t.table_info condition)
      on_count_where (execute_direct d sql)
      found ← on_count_where (select_next d)
      ex_assert found
      on_count_where (select_close d)

    unfoldable pub select : Text → Text → Action Table (Unit {0})
    select condition order = do
      assert_open
      t ← get
      sql ← lift (select_sql b t.table_info t.columns condition order)
      select_by_sql_stmt sql

    -- `Delete`: the table need not be open.
    unfoldable pub delete_where : Text → Bool → Action Table (Unit {0})
    delete_where condition fail_on_no_data = do
      t ← get
      ex_assert (not (is_empty t.columns))
      assert_access af_delete_where
      ex_assert (not (is_empty condition))
      with_local d (do
        init d t.db false
        sql ← lift (
            named t.table_info
              (λ name. ok (b.format (txt "DELETE FROM %s WHERE %s") (name ∷ condition ∷ []))))
        catch (execute_direct d sql) (forgive_no_data fail_on_no_data))

    -- `Update`: the table need not be open.
    unfoldable pub update_where : Text → Action Table (Unit {0})
    update_where condition = do
      t ← get
      ex_assert (not (is_empty t.columns))
      assert_access af_update_where
      ex_assert (not (is_empty condition))
      with_local d (do
        init d t.db false
        sql ← lift (update_sql b t.table_info t.columns condition)
        prepare_and_bind d sql
        execute_prepared d)
