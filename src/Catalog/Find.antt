-- ===== src/Catalog/Find.antt =====
-- The overloads of `SearchTables` that take texts, `FindOneTable`, and the lists of catalogs, schemas
-- and types of src/DatabaseCatalog.cpp.
pub mod Laws
use exodbc.Prelude.{
  ℕ, Bool, false, not, ◌&&◌, ◌||◌, Option, none, some, List, [], ◌∷◌, map, if◌then◌else◌, is_empty,
}
use exodbc.Prelude.Texts.{Text, txt}
use exodbc.Odbc.{
  Driver, Action, ◌>>=◌, ◌>>◌, pure, throw, ex_assert, when, branch, not_found, not_allowed,
}
use exodbc.SqlTypes.{}
use exodbc.Table.Info.{TableInfo}
use exodbc.Props.{}
use exodbc.Props.Getters.{get_text, props_support_catalogs}
use exodbc.Props.Version.{TextLibrary}
use exodbc.Catalog.{on_props, DatabaseCatalog, pattern_or_ordinary}
use exodbc.Catalog.Rows.{}
use exodbc.Catalog.Search.{search_tables, Names}

-- `SchemaOrCatalogType`
pub data SchemaOrCatalogType : Type 0 where
  schema_type catalog_type : SchemaOrCatalogType

module _ (d : Driver) (fuel : ℕ) (t : TextLibrary) where
  unfoldable pub get_supports_catalogs : Action DatabaseCatalog Bool
  unfolding props_support_catalogs get_text
  get_supports_catalogs = do
    b ← on_props (props_support_catalogs t)
    branch b (do s ← on_props (get_text t (txt "SQL_CATALOG_TERM")); pure (not (is_empty s)))
        (pure false)

  unfoldable pub get_supports_schemas : Action DatabaseCatalog Bool
  unfolding get_text
  get_supports_schemas = do
    s ← on_props (get_text t (txt "SQL_SCHEMA_TERM"))
    pure (not (is_empty s))

  -- `name.empty() && !supports() ? nullptr : name`
  abbrev pub unless_unsupported :
      Text → Action DatabaseCatalog Bool → Action DatabaseCatalog (Option Text)
  unless_unsupported [] supports = do b ← supports; pure (if b then some [] else none)
  unless_unsupported (c ∷ s) supports = pure (some (c ∷ s))

  -- The overload with a schema's and a catalog's name. The two tests are arguments of one call, whose
  -- order the language leaves open; here the schema comes first.
  unfoldable pub search_qualified :
      Text → Text → Text → Text → Action DatabaseCatalog (Option (List TableInfo))
  unfolding get_supports_catalogs get_supports_schemas search_tables
  search_qualified table schema catalog table_type = do
    s ← unless_unsupported schema get_supports_schemas
    c ← unless_unsupported catalog get_supports_catalogs
    search_tables d fuel (record { table = some table; schema = s; catalog = c }) table_type
        pattern_or_ordinary

  -- The overload with a name and its kind.
  abbrev pub names_with : Text → Text → SchemaOrCatalogType → Names
  names_with table name schema_type = record {
    table = some table;
    schema = some name;
    catalog = none;
  }
  names_with table name catalog_type = record {
    table = some table;
    schema = none;
    catalog = some name;
  }

  unfoldable pub search_with :
      Text → Text → SchemaOrCatalogType → Text → Action DatabaseCatalog (Option (List TableInfo))
  unfolding search_tables
  search_with table name kind table_type =
      search_tables d fuel (names_with table name kind) table_type pattern_or_ordinary

  -- The overload with a name of which the database decides the kind.
  unfoldable pub search_undecided :
      Text → Text → Text → Action DatabaseCatalog (Option (List TableInfo))
  unfolding get_supports_catalogs get_supports_schemas search_tables
  search_undecided table name table_type = do
    catalogs ← get_supports_catalogs
    schemas ← get_supports_schemas
    when (catalogs && schemas) (throw not_allowed)
    when (not (catalogs || schemas)) (throw not_allowed)
    search_tables d fuel
        (record {
          table = some table;
          schema = if schemas then some name else none;
          catalog = if catalogs then some name else none;
        })
        table_type pattern_or_ordinary

  -- The overload with the name of a table alone.
  unfoldable pub search_named : Text → Text → Action DatabaseCatalog (Option (List TableInfo))
  unfolding search_tables
  search_named table table_type =
      search_tables d fuel (record { table = some table; schema = none; catalog = none }) table_type
        pattern_or_ordinary

  -- The choice of the search in `FindOneTable`.
  unfoldable pub search_given :
      Text → Text → Text → Text → Action DatabaseCatalog (Option (List TableInfo))
  unfolding search_qualified search_with search_named
  search_given table schema catalog table_type =
      branch (not (is_empty schema) && not (is_empty catalog))
        (search_qualified table schema catalog table_type)
        (branch (not (is_empty schema)) (search_with table schema schema_type table_type) (
          branch (not (is_empty catalog)) (search_with table catalog catalog_type table_type)
            (search_named table table_type)))

  -- `matchingTables.front()` of one table, NotFoundException for none and for more.
  abbrev pub only : Option (List TableInfo) → Action DatabaseCatalog (Option TableInfo)
  only none = pure none
  only (some []) = throw not_found
  only (some (i ∷ [])) = pure (some i)
  only (some (i ∷ j ∷ r)) = throw not_found

  unfoldable pub find_one_table :
      Text → Text → Text → Text → Action DatabaseCatalog (Option TableInfo)
  unfolding search_given
  find_one_table table schema catalog table_type = do
    ex_assert (not (is_empty table))
    tables ← search_given table schema catalog table_type
    only tables

  -- `ListCatalogs`, `ListSchemas` and `ListTableTypes`: SQL_ALL_CATALOGS and the like are "%".
  abbrev map_rows : (TableInfo → Text) → Option (List TableInfo) → Option (List Text)
  map_rows f none = none
  map_rows f (some xs) = some (map f xs)

  abbrev list_by : Names → Text → (TableInfo → Text) → Action DatabaseCatalog (Option (List Text))
  list_by n table_type f = do
    tables ← search_tables d fuel n table_type pattern_or_ordinary
    pure (map_rows f tables)

  unfoldable pub list_catalogs : Action DatabaseCatalog (Option (List Text))
  unfolding search_tables
  list_catalogs =
      list_by (record { table = some []; schema = some []; catalog = some (txt "%") }) []
        (λ i. i.catalog_name)

  unfoldable pub list_schemas : Action DatabaseCatalog (Option (List Text))
  unfolding search_tables
  list_schemas =
      list_by (record { table = some []; schema = some (txt "%"); catalog = some [] }) []
        (λ i. i.schema_name)

  unfoldable pub list_table_types : Action DatabaseCatalog (Option (List Text))
  unfolding search_tables
  list_table_types =
      list_by (record { table = some []; schema = some []; catalog = some [] }) (txt "%")
        (λ i. i.table_type)
