-- ===== src/Table/Columns/Checks.antt =====
-- `CheckColumnFlags`, `CheckSqlTypes` and `QueryPrimaryKeysAndUpdateColumns` of src/Table.cpp.
use exodbc.Prelude.{
  Bool, true, false, not, ◌&&◌, ◌||◌, List, [], ◌∷◌, if◌then◌else◌, is_some, is_empty,
}
use exodbc.Prelude.Texts.{Text, Boost}
use exodbc.Odbc.{
  Action, ◌>>=◌, ◌>>◌, pure, get, ex_assert, Exn, Result, assertion, plain_exception, ok, raised,
}
use exodbc.Flags.{
  Flags, test, set, cf_select, cf_update, cf_insert, cf_primary_key, af_select_pk, af_select_where,
  af_update_pk, af_update_where, af_insert,
}
use exodbc.SqlTypes.{SqlType}
use exodbc.Buffer.{}
use exodbc.Table.{Columns, ask, Table, Catalog}
use exodbc.Table.Info.{table_query_name, TableInfo}
use exodbc.Table.Columns.{update_column, get_column_buffer_index}

-- The exception of `CheckColumnFlags`: its text holds the table's name.
abbrev refused : TableInfo → Exn
refused i = elim (table_query_name i) [ ok name ↦ plain_exception | raised e ↦ e ]

-- The flags of a column ask for what the flags of the table do not grant.
unfoldable pub exceeds : Flags → Flags → Bool
exceeds afs flags =
    (test flags cf_select && not (test afs af_select_pk || test afs af_select_where))
    || ((test flags cf_insert && not (test afs af_insert))
        || (test flags cf_update && not (test afs af_update_pk || test afs af_update_where)))

unfoldable pub check_column_flags : TableInfo → Flags → Columns → Result (Unit {0})
check_column_flags i afs [] = ok tt
check_column_flags i afs ((j, c) ∷ cs) =
    let rest = check_column_flags i afs cs in
    if is_empty c.query_name
    then raised assertion
    else if exceeds afs c.flags
    then raised (refused i)
    else rest

-- `CheckSqlTypes` with the columns that it leaves in the map.
unfoldable pub check_sql_types : (SqlType → Bool) → Bool → Columns → Result (Unit {0}) × Columns
check_sql_types supported remove [] = (ok tt, [])
check_sql_types supported remove ((j, c) ∷ cs) =
    let rest = check_sql_types supported remove cs in
    if is_empty c.query_name
    then (raised assertion, (j, c) ∷ cs)
    else if supported c.sql_type
    then (rest.0, (j, c) ∷ rest.1)
    else if remove
    then rest
    else (raised plain_exception, (j, c) ∷ cs)

-- The loop of `QueryPrimaryKeysAndUpdateColumns`, with the columns as it leaves them: a key that no
-- column has ends it, and the keys before it stay marked.
unfoldable pub mark_primary_keys : Boost → List Text → Columns → Result (Unit {0}) × Columns
mark_primary_keys b [] cs = (ok tt, cs)
mark_primary_keys b (k ∷ ks) cs = elim (is_empty k) [
  | true ↦ (raised assertion, cs)
  | false ↦ elim (get_column_buffer_index b k cs true) [
    | raised e ↦ (raised e, cs)
    | ok i ↦
        mark_primary_keys b ks
          (update_column i (λ c. record c { flags = set c.flags cf_primary_key }) cs)
  ]
]

unfoldable pub query_primary_keys_and_update_columns :
    Boost → Catalog → Columns → Action Table (Result (Unit {0}) × Columns)
query_primary_keys_and_update_columns b catalog cs = do
  t ← get
  ex_assert t.have_table_info
  ex_assert (is_some t.db)
  keys ← ask (catalog.read_primary_key_info t.table_info)
  pure (mark_primary_keys b keys cs)
