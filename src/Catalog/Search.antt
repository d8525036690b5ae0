-- ===== src/Catalog/Search.antt =====
-- `SearchTables`, `ReadColumnInfo`, `ReadPrimaryKeyInfo` and `ReadSqlTypeInfo` of
-- src/DatabaseCatalog.cpp, on fuel for the loop over the rows: `none` if it runs out.
use exodbc.Prelude.{ℕ, Option, none, some, List, [], ◌∷◌, if◌then◌else◌, is_some}
use exodbc.Prelude.Texts.{Text, txt}
use exodbc.Odbc.{
  Driver, Action, ◌>>=◌, ◌>>◌, get, ex_assert, when, branch, invoke, throw_ifn_succeeded, Call,
  sql_tables, sql_columns, sql_primary_keys, sql_get_type_info,
}
use exodbc.SqlTypes.{is_postgresql}
use exodbc.Buffer.{ColumnInfo}
use exodbc.Table.Info.{has_catalog, has_schema, TableInfo}
use exodbc.Props.{}
use exodbc.Props.Getters.{}
use exodbc.Props.Version.{}
use exodbc.Catalog.{
  is_identifier, assert_stmt, fetch_rows, with_closer, ensure_mode, MetadataMode, DatabaseCatalog,
  Datum, Column, pattern_or_ordinary,
}
use exodbc.Catalog.Rows.{
  table_columns, table_info, info_columns, column_info, key_columns, primary_key_info, type_columns,
  sql_type_info, PrimaryKeyInfo, SqlTypeInfo,
}

-- The arguments of the overloads that take pointers; `none` is the null pointer.
pub record Names : Type 0 where
  pub table : Option Text
  pub schema : Option Text
  pub catalog : Option Text

-- `DatabaseCatalog::m_pAllPattern` for the null pointer.
abbrev pub or_all : Option Text → Option Text
or_all none = some (txt "%")
or_all (some s) = some s

unfoldable pub all_patterns : Names → Names
all_patterns n = record {
  table = or_all n.table;
  schema = or_all n.schema;
  catalog = or_all n.catalog;
}

-- `tableType.empty() ? NULL : tableType`
abbrev pub unless_empty : Text → Option Text
unless_empty [] = none
unless_empty (c ∷ s) = some (c ∷ s)

module _ (d : Driver) (fuel : ℕ) where
  -- The call that opens a result set, and the loop.
  unfoldable pub open_and_fetch :
      {A : Type 0}
      → (Option ℕ → Call)
      → List Column
      → (List Datum → A)
      → Action DatabaseCatalog (Option (List A))
  unfolding fetch_rows
  open_and_fetch call cs f = do
    s ← get
    r ← invoke d (call s.h_stmt.handle)
    throw_ifn_succeeded r
    fetch_rows d cs f fuel

  -- The same in the scope of the closer.
  unfoldable pub read_result_set :
      {A : Type 0}
      → (Option ℕ → Call)
      → List Column
      → (List Datum → A)
      → Action DatabaseCatalog (Option (List A))
  unfolding open_and_fetch with_closer
  read_result_set call cs f = with_closer d (open_and_fetch call cs f)

  -- The last overload of `SearchTables`, once the pointers are as they are handed to SQLTables.
  unfoldable pub query_tables : Names → Text → Action DatabaseCatalog (Option (List TableInfo))
  unfolding read_result_set
  query_tables n table_type = do
    s ← get
    read_result_set (λ h. sql_tables h n.catalog n.schema n.table (unless_empty table_type))
        table_columns (table_info s.props.dbms)

  unfoldable pub search_tables :
      Names → Text → MetadataMode → Action DatabaseCatalog (Option (List TableInfo))
  unfolding ensure_mode query_tables all_patterns
  search_tables n table_type mode = do
    assert_stmt
    ensure_mode d mode
    s ← get
    branch (is_identifier mode)
        (do
          ex_assert (is_some n.table)
          ex_assert (is_some n.schema)
          ex_assert (is_some n.catalog)
          query_tables n table_type)
        (branch (is_postgresql s.props.dbms) (query_tables (all_patterns n) table_type)
          (query_tables n table_type))

  -- `ReadColumnInfo` with pointers, the column's name first.
  unfoldable pub read_columns :
      Option Text → Names → MetadataMode → Action DatabaseCatalog (Option (List ColumnInfo))
  unfolding ensure_mode read_result_set
  read_columns column n mode = do
    assert_stmt
    ensure_mode d mode
    when (is_identifier mode) (do
      ex_assert (is_some column)
      ex_assert (is_some n.table)
      ex_assert (is_some n.schema)
      ex_assert (is_some n.catalog))
    read_result_set (λ h. sql_columns h n.catalog n.schema n.table column) info_columns column_info

  -- `ReadPrimaryKeyInfo` with pointers
  unfoldable pub read_primary_keys :
      Names → MetadataMode → Action DatabaseCatalog (Option (List PrimaryKeyInfo))
  unfolding ensure_mode read_result_set
  read_primary_keys n mode = do
    assert_stmt
    ex_assert (is_some n.table)
    ensure_mode d mode
    read_result_set (λ h. sql_primary_keys h n.catalog n.schema n.table) key_columns
        primary_key_info

  unfoldable pub read_sql_type_info : Action DatabaseCatalog (Option (List SqlTypeInfo))
  unfolding read_result_set
  read_sql_type_info = do assert_stmt; read_result_set sql_get_type_info type_columns sql_type_info

  -- `ReadColumnInfo(tableInfo)` and `ReadPrimaryKeyInfo(tableInfo)`
  abbrev pub names_of : TableInfo → Names
  names_of i = record {
    table = some i.table_name;
    schema = if has_schema i then some i.schema_name else none;
    catalog = if has_catalog i then some i.catalog_name else none;
  }

  unfoldable pub read_column_info_of : TableInfo → Action DatabaseCatalog (Option (List ColumnInfo))
  unfolding read_columns
  read_column_info_of i = read_columns none (names_of i) pattern_or_ordinary

  unfoldable pub read_primary_key_info_of :
      TableInfo → Action DatabaseCatalog (Option (List PrimaryKeyInfo))
  unfolding read_primary_keys
  read_primary_key_info_of i = read_primary_keys (names_of i) pattern_or_ordinary
