-- ===== src/Table/Columns/Auto.antt =====
-- `ReadTableInfo` and `CreateAutoColumnBufferPtrs` of src/Table.cpp.
pub mod Laws
use exodbc.Prelude.{
  ℕ, suc, ◌-◌, ◌^◌, Bool, true, false, not, ◌&&◌, ◌||◌, Option, none, some, List, [], ◌∷◌, leb,
  if◌then◌else◌, length, is_empty,
}
use exodbc.Prelude.Texts.{txt, Boost}
use exodbc.Odbc.{
  Action, ◌>>=◌, ◌>>◌, pure, throw, get, modify, ex_assert, when, branch, Exn, Result, assertion,
  plain_exception, not_supported, null_dereference, ok, raised,
}
use exodbc.Flags.{
  Flags, no_flags, test, set, cf_select, cf_update, cf_insert, cf_nullable, af_select_pk,
  af_select_where, af_update_pk, af_update_where, af_insert,
}
use exodbc.SqlTypes.{is_array_type}
use exodbc.TypeMap.{get_buffer_type, TypeMap}
use exodbc.Buffer.{ℤ, ColumnBuffer, ColumnInfo}
use exodbc.Buffer.Create.{create_column_buffer_ptr, create_column_array_buffer_ptr}
use exodbc.Statement.{db_is_open}
use exodbc.Table.{Columns, ask, lift, Table, Catalog}
use exodbc.Table.Info.{table_query_name, TableInfo}
use exodbc.Table.Columns.{}
use exodbc.Table.Columns.Checks.{query_primary_keys_and_update_columns}

unfoldable pub read_table_info : Catalog → Action Table TableInfo
read_table_info catalog = do
  t ← get
  when (not t.have_table_info) (do
    i ← ask (
        catalog.find_one_table t.initial_table_name t.initial_schema_name t.initial_catalog_name
          t.initial_type_name)
    modify (λ t. record t { table_info = i; have_table_info = true }))
  t ← get
  pure t.table_info

-- The column flags that follow from the access flags.
unfoldable pub flags_from_access : Flags → Flags
flags_from_access afs =
    let f = no_flags in
    let f = if test afs af_select_where || test afs af_select_pk then set f cf_select else f in
    let f = if test afs af_update_where || test afs af_update_pk then set f cf_update else f in
    if test afs af_insert then set f cf_insert else f

-- The buffer for a column, without its flags.
unfoldable pub create_for_info : ℤ → TypeMap → ColumnInfo → Result ColumnBuffer
create_for_info sql_no_total m i = elim (get_buffer_type i.sql_type m) [
  | raised e ↦ raised e
  | ok c ↦
      if is_empty i.column_name
      then raised assertion
      else if is_array_type c
      then create_column_array_buffer_ptr sql_no_total c i.column_name i
      else create_column_buffer_ptr c i.column_name
]

-- `ColumnFlags` so far, with CF_NULLABLE if the column is nullable: the flags outlive the column.
unfoldable pub with_nullable : Boost → ColumnInfo → Flags → Flags
with_nullable b i f =
    if not i.is_is_nullable_null && b.iequals i.is_nullable (txt "YES")
    then set f cf_nullable
    else f

-- What is set in a created buffer.
unfoldable pub describe_buffer : ColumnInfo → Flags → ColumnBuffer → ColumnBuffer
describe_buffer i f c = record c {
  flags = f;
  sql_type = i.sql_type;
  column_size = if i.is_column_size_null then c.column_size else i.column_size;
  decimal_digits = if i.is_decimal_digits_null then c.decimal_digits else i.decimal_digits;
}

abbrev is_not_supported : Exn → Bool
is_not_supported not_supported = true
is_not_supported _ = false

-- A column that is skipped is named in a warning.
abbrev skipped : Bool → ColumnInfo → Exn → Bool
skipped skip i e = skip && (is_not_supported e && not (is_empty i.column_name))

abbrev failure : Bool → ColumnInfo → Exn → Exn
failure skip i e = if skip && (is_not_supported e && is_empty i.column_name) then assertion else e

-- The loop over the columns, with the flags so far and the index of the next buffer.
unfoldable pub create_loop :
    Boost → ℤ → TypeMap → Bool → List ColumnInfo → Flags → ℕ → Result Columns
create_loop b sql_no_total m skip [] f n = ok []
create_loop b sql_no_total m skip (i ∷ is) f n = elim (create_for_info sql_no_total m i) [
  | ok c ↦
      let g = with_nullable b i f in
      elim (create_loop b sql_no_total m skip is g (suc n)) [
        | ok cs ↦ ok ((n, describe_buffer i g c) ∷ cs)
        | raised e ↦ raised e
      ]
  | raised e ↦ elim (skipped skip i e) [
    | true ↦ create_loop b sql_no_total m skip is f n
    | false ↦ raised (failure skip i e)
  ]
]

abbrev of_map : {A : Type 0} → Option TypeMap → (TypeMap → Result A) → Result A
of_map none k = raised null_dereference
of_map (some m) k = k m

-- SHRT_MAX
abbrev short_max : ℕ
short_max = 2 ^ 15 - 1

-- The exception when there is no column: its text holds the table's name.
abbrev no_columns : TableInfo → Exn
no_columns i = elim (table_query_name i) [ ok name ↦ plain_exception | raised e ↦ e ]

unfoldable pub create_auto_column_buffer_ptrs :
    Boost → ℤ → Catalog → Bool → Bool → Bool → Action Table Columns
create_auto_column_buffer_ptrs b sql_no_total catalog skip set_as_table_columns query_keys = do
  t ← get
  ex_assert (db_is_open t.db)
  info ← read_table_info catalog
  infos ← ask (catalog.read_column_info info)
  ex_assert (leb (length infos) short_max)
  when (is_empty infos) (throw (no_columns info))
  cs ← lift (
      of_map t.sql2_buffer_type_map
        (λ m. create_loop b sql_no_total m skip infos (flags_from_access t.table_access_flags) 0))
  marked ← branch query_keys (query_primary_keys_and_update_columns b catalog cs) (pure (ok tt, cs))
  lift marked.0
  when set_as_table_columns
      (modify (λ t. record t { columns = marked.1; auto_created_columns = true }))
  pure marked.1
