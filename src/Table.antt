-- ===== src/Table.antt =====
-- include/exodbc/Table.h and src/Table.cpp: a table with its columns and its five statements.
pub mod Info
pub mod Sql
pub mod Binding
pub mod Columns
pub mod Access
pub mod Setup
pub mod Open
use exodbc.Prelude.{ℕ, Bool, Option, List}
use exodbc.Prelude.Texts.{Text}
use exodbc.Odbc.{Action, zoom, Event, Result}
use exodbc.Flags.{Flags, test}
use exodbc.SqlTypes.{SqlType}
use exodbc.TypeMap.{TypeMap}
use exodbc.Buffer.{ColumnBuffer, ColumnInfo}
use exodbc.Statement.{Db, Statement}
use Info.{TableInfo}

-- `ColumnBufferPtrVariantMap`: the buffers by index, in the order of the indexes. An entry stands
-- for the buffer that the pointer points to.
abbrev pub Columns : Type 0
Columns = List (ℕ × ColumnBuffer)

pub record Table : Type 0 where
  pub db : Option Db
  pub sql2_buffer_type_map : Option TypeMap
  pub initial_table_name : Text
  pub initial_schema_name : Text
  pub initial_catalog_name : Text
  pub initial_type_name : Text
  pub have_table_info : Bool
  pub table_info : TableInfo
  pub columns : Columns
  pub primary_key_column_indexes : List ℕ
  pub auto_created_columns : Bool
  pub is_open : Bool
  pub table_access_flags : Flags
  pub open_flags : Flags
  pub exec_stmt_select : Statement
  pub exec_stmt_count_where : Statement
  pub exec_stmt_insert : Statement
  pub exec_stmt_update_pk : Statement
  pub exec_stmt_delete_pk : Statement
  pub select_count_result_buffer : Option ColumnBuffer

-- What a table asks of src/DatabaseCatalog.cpp and src/Database.cpp: each operation answers from what
-- has happened so far, and may add calls of the driver.
pub record Catalog : Type 0 where
  pub find_one_table : Text → Text → Text → Text → List Event → Result TableInfo × List Event
  pub read_column_info : TableInfo → List Event → Result (List ColumnInfo) × List Event
  pub read_primary_key_info : TableInfo → List Event → Result (List Text) × List Event
  pub is_sql_type_supported : SqlType → Bool

-- `TestAccessFlag`
abbrev pub has_access : ℕ → Table → Bool
has_access f t = test t.table_access_flags f

-- `TestOpenFlag`
abbrev pub has_open_flag : ℕ → Table → Bool
has_open_flag f t = test t.open_flags f

-- A step outside the object, such as one of the catalog.
abbrev pub ask : {A : Type 0} → (List Event → Result A × List Event) → Action Table A
ask f w = let (r, events) = f w.trace in (r, record w { trace = events })

-- A computed result, as a step.
abbrev pub lift : {S A : Type 0} → Result A → Action S A
lift r w = (r, w)

-- Calls of the methods of the five statements.
abbrev pub on_select : {A : Type 0} → Action Statement A → Action Table A
on_select = zoom (λ t. t.exec_stmt_select) (λ s t. record t { exec_stmt_select = s })

abbrev pub on_count_where : {A : Type 0} → Action Statement A → Action Table A
on_count_where = zoom (λ t. t.exec_stmt_count_where) (λ s t. record t { exec_stmt_count_where = s })

abbrev pub on_insert : {A : Type 0} → Action Statement A → Action Table A
on_insert = zoom (λ t. t.exec_stmt_insert) (λ s t. record t { exec_stmt_insert = s })

abbrev pub on_update_pk : {A : Type 0} → Action Statement A → Action Table A
on_update_pk = zoom (λ t. t.exec_stmt_update_pk) (λ s t. record t { exec_stmt_update_pk = s })

abbrev pub on_delete_pk : {A : Type 0} → Action Statement A → Action Table A
on_delete_pk = zoom (λ t. t.exec_stmt_delete_pk) (λ s t. record t { exec_stmt_delete_pk = s })
