-- ===== src/Table/Info.antt =====
-- include/exodbc/TableInfo.h and src/TableInfo.cpp: how a table is named.
use exodbc.Prelude.{Bool, not, ◌&&◌, [], ◌++◌, is_empty, if◌then◌else◌}
use exodbc.Prelude.Texts.{Text, txt}
use exodbc.Odbc.{Result, ok, raised, assertion}
use exodbc.SqlTypes.{DatabaseProduct, access, excel}

pub record TableInfo : Type 0 where
  pub table_name : Text
  pub table_type : Text
  pub catalog_name : Text
  pub schema_name : Text
  pub dbms : DatabaseProduct
  pub is_catalog_null : Bool
  pub is_schema_null : Bool

-- `HasCatalog` and `HasSchema`
abbrev pub has_catalog : TableInfo → Bool
has_catalog i = not i.is_catalog_null && not (is_empty i.catalog_name)

abbrev pub has_schema : TableInfo → Bool
has_schema i = not i.is_schema_null && not (is_empty i.schema_name)

-- The name behind its catalog and its schema, those that there are.
abbrev qualified : TableInfo → Text
qualified i =
    (if has_catalog i then i.catalog_name ++ txt "." else [])
    ++ ((if has_schema i then i.schema_name ++ txt "." else []) ++ i.table_name)

-- `TableInfo::GetQueryName`
unfoldable pub table_query_name : TableInfo → Result Text
table_query_name i = if is_empty i.table_name then raised assertion else elim i.dbms [
  | access ↦ ok i.table_name
  | excel ↦ ok (txt "[" ++ (i.table_name ++ txt "]"))
  | _ ↦ ok (qualified i)
]
