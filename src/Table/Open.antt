-- ===== src/Table/Open.antt =====
-- Opening and closing a table: `AllocateStatements`, `FreeStatements`, `Open` and `Close` of
-- src/Table.cpp.
pub mod Frame
pub mod Settled
pub mod Laws
use exodbc.Prelude.{
  ℕ, Bool, true, false, not, ◌&&◌, ◌||◌, none, some, List, [], ◌∷◌, ◌==◌, if◌then◌else◌, is_some,
  is_empty,
}
use exodbc.Prelude.Texts.{Boost}
use exodbc.Odbc.{
  Driver, Action, ◌>>=◌, ◌>>◌, pure, throw, get, modify, ex_assert, when, catch, Exn, Result,
  assertion, plain_exception, illegal_argument, null_dereference, ok, raised,
}
use exodbc.Flags.{
  Flags, set, cf_select, cf_primary_key, af_none, af_select_pk, af_select_where, af_update_pk,
  af_insert, af_delete_pk, af_count_where, tof_check_existance, tof_skip_unsupported_columns,
  tof_do_not_query_primary_keys, tof_check_db_type_infos, tof_scrollable_cursors,
}
use exodbc.SqlTypes.{is_excel, is_access, sql_unknown_type}
use exodbc.Buffer.{new_column_buffer, ℤ, ColumnBuffer, ubigint_buffer}
use exodbc.Statement.{db_is_open, reset, Db}
use exodbc.Statement.Cursor.{init}
use exodbc.Statement.Bind.{bind_column}
use exodbc.Table.{
  Columns, has_access, has_open_flag, ask, lift, on_select, on_count_where, on_insert, on_update_pk,
  on_delete_pk, Table, Catalog,
}
use exodbc.Table.Info.{table_query_name}
use exodbc.Table.Columns.{find_column, update_column, get_primary_key_column_buffers, or_raise}
use exodbc.Table.Columns.Auto.{read_table_info, create_auto_column_buffer_ptrs}
use exodbc.Table.Columns.Checks.{
  check_column_flags, check_sql_types, query_primary_keys_and_update_columns,
}
use exodbc.Table.Binding.{
  bind_columns, bind_delete_pk_parameters, bind_update_pk_parameters, bind_insert_parameters,
  bind_select_pk_parameters,
}

-- `UBigIntColumnBuffer::Create("", SQL_UNKNOWN_TYPE, ColumnFlag::CF_SELECT)`
unfoldable pub count_buffer : ColumnBuffer
count_buffer = record (new_column_buffer ubigint_buffer [] sql_unknown_type) { flags = cf_select }

abbrev pub needs_select : Table → Bool
needs_select t = has_access af_select_where t || has_access af_select_pk t

abbrev pub needs_keys : Table → Bool
needs_keys t = has_access af_update_pk t || (has_access af_delete_pk t || has_access af_select_pk t)

-- No access, or only counting: there is no need for columns.
abbrev pub needs_no_columns : Table → Bool
needs_no_columns t = (t.table_access_flags == af_none) || (t.table_access_flags == af_count_where)

-- The database of a table, or a null pointer that is followed.
abbrev database : Action Table Db
database = do t ← get; lift (or_raise null_dereference t.db)

-- The loop of `Open` over the indexes of the primary key that the caller has set.
unfoldable pub mark_indexes : List ℕ → Columns → Result (Unit {0}) × Columns
mark_indexes [] cs = (ok tt, cs)
mark_indexes (i ∷ is) cs = elim (find_column i cs) [
  | none ↦ (raised illegal_argument, cs)
  | some c ↦
      mark_indexes is (update_column i (λ c. record c { flags = set c.flags cf_primary_key }) cs)
]

-- Columns that a step has changed, also if it throws.
unfoldable pub keep_columns : Result (Unit {0}) × Columns → Action Table (Unit {0})
keep_columns (r, cs) = do modify (λ t. record t { columns = cs }); lift r

module _ (d : Driver) where
  -- `FreeStatements`, and the cleaning up of `AllocateStatements`
  unfoldable pub free_statements : Action Table (Unit {0})
  free_statements = do
    modify (λ t. record t { select_count_result_buffer = none })
    on_count_where (reset d)
    on_select (reset d)
    on_insert (reset d)
    on_update_pk (reset d)
    on_delete_pk (reset d)

  -- The body of the `try` of `AllocateStatements`.
  unfoldable pub allocate_all : Bool → Action Table (Unit {0})
  allocate_all scrollable = do
    t ← get
    when (needs_select t) (on_select (init d t.db scrollable))
    when (has_access af_count_where t) (do
      on_count_where (init d t.db false)
      modify (λ t. record t { select_count_result_buffer = some count_buffer }))
    when (has_access af_delete_pk t) (on_delete_pk (init d t.db false))
    when (has_access af_update_pk t) (on_update_pk (init d t.db false))
    when (has_access af_insert t) (on_insert (init d t.db false))

  unfoldable pub allocate_statements : Bool → Action Table (Unit {0})
  allocate_statements scrollable = do
    t ← get
    ex_assert (not t.is_open)
    database
    ex_assert (db_is_open t.db)
    catch (allocate_all scrollable) (λ e. free_statements >> throw e)

  unfoldable pub close_table : Action Table (Unit {0})
  close_table = do
    t ← get
    ex_assert t.is_open
    when t.auto_created_columns (modify (λ t. record t { columns = [] }))
    free_statements
    modify (λ t. record t { is_open = false })

  -- `Open`, where the count, the select and the other statements get their buffers.
  module _ (b : Boost) where
    unfoldable pub bind_count : Action Table (Unit {0})
    bind_count = do
      t ← get
      ex_assert (is_some t.select_count_result_buffer)
      c ← lift (or_raise assertion t.select_count_result_buffer)
      on_count_where (bind_column d c 1)

    -- With its own exception if there is no key: its text holds the table's name.
    unfoldable pub bind_keys : Action Table (Unit {0})
    bind_keys = do
      t ← get
      when (is_empty (get_primary_key_column_buffers t.columns))
          (lift (table_query_name t.table_info) >> throw plain_exception)
      when (has_access af_update_pk t) (bind_update_pk_parameters d b)
      when (has_access af_delete_pk t) (bind_delete_pk_parameters d b)
      when (has_access af_select_pk t) (bind_select_pk_parameters d b)

    unfoldable pub bind_all : Action Table (Unit {0})
    bind_all = do
      t ← get
      when (has_access af_count_where t) bind_count
      when (needs_select t) (on_select (bind_columns d t.columns 1))
      when (needs_keys t) bind_keys
      when (has_access af_insert t) (bind_insert_parameters d b)

    module _ (sql_no_total : ℤ) (catalog : Catalog) where
      -- What `Open` learns of the table: that it exists, and its columns.
      unfoldable pub search_table : Action Table (Unit {0})
      search_table = do
        t ← get
        when (not t.have_table_info) (read_table_info catalog >> pure tt)
        base ← database
        when (has_open_flag tof_check_existance t && t.have_table_info) (do
          ask (
              catalog.find_one_table t.table_info.table_name t.table_info.schema_name
                (if is_excel base.dbms then [] else t.table_info.catalog_name)
                (if is_excel base.dbms then [] else t.table_info.table_type))
          pure tt)
        when (is_empty t.columns && not (needs_no_columns t)) (do
          create_auto_column_buffer_ptrs b sql_no_total catalog
              (has_open_flag tof_skip_unsupported_columns t) true false
          pure tt)

      -- The keys, by the indexes that the caller has set or by a question to the catalog.
      unfoldable pub find_keys : Action Table (Unit {0})
      find_keys = do
        t ← get
        when (not (is_empty t.primary_key_column_indexes)) (do
          modify (λ t. record t { open_flags = set t.open_flags tof_do_not_query_primary_keys })
          keep_columns (mark_indexes t.primary_key_column_indexes t.columns))
        t ← get
        when (needs_keys t && not (has_open_flag tof_do_not_query_primary_keys t))
            (query_primary_keys_and_update_columns b catalog t.columns >>= keep_columns)

      unfoldable pub check_columns : Action Table (Unit {0})
      check_columns = do
        t ← get
        lift (check_column_flags t.table_info t.table_access_flags t.columns)
        when (not t.auto_created_columns && has_open_flag tof_check_db_type_infos t) (
            keep_columns (
              check_sql_types catalog.is_sql_type_supported
                (has_open_flag tof_skip_unsupported_columns t) t.columns))

      -- The body of the `try` of `Open`.
      unfoldable pub open_body : Action Table (Unit {0})
      open_body = do
        search_table
        find_keys
        check_columns
        bind_all
        modify (λ t. record t { is_open = true })

      -- Its `catch`.
      unfoldable pub open_failed : Exn → Action Table (Unit {0})
      open_failed e = do
        free_statements
        t ← get
        when t.auto_created_columns (modify (λ t. record t { columns = [] }))
        throw e

      unfoldable pub open_table : Flags → Action Table (Unit {0})
      open_table flags = do
        t ← get
        ex_assert (is_some t.db)
        ex_assert (db_is_open t.db)
        ex_assert (not t.is_open)
        modify (λ t. record t { open_flags = flags })
        base ← database
        when (is_access base.dbms || is_excel base.dbms)
            (modify (λ t. record t { open_flags = set t.open_flags tof_do_not_query_primary_keys }))
        t ← get
        allocate_statements (has_open_flag tof_scrollable_cursors t)
        catch open_body open_failed
