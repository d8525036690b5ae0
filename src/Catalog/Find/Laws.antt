-- ===== src/Catalog/Find/Laws.antt =====
-- Which tables `FindOneTable` of src/DatabaseCatalog.cpp asks for, whichever overload of
-- `SearchTables` it takes, and what it makes of the answer.
use exodbc.Prelude.{
  ℕ, ap, ◌∙◌, true, Bool, false, ◌≡◌, refl, Option, none, some, List, [], ◌∷◌, arith, if◌then◌else◌,
  is_empty,
}
use exodbc.Prelude.Texts.{Text, txt}
use exodbc.Odbc.{branch, sql_tables, Driver, Result, World, assertion, not_found, ok, raised}
use exodbc.Props.{}
use exodbc.Props.Getters.{}
use exodbc.Props.Version.{TextLibrary}
use exodbc.Table.Info.{TableInfo}
use exodbc.Catalog.{ensure_mode, DatabaseCatalog, pattern_or_ordinary}
use exodbc.SqlTypes.{is_postgresql, DatabaseProduct}
use exodbc.Catalog.Rows.{table_columns, table_info}
use exodbc.Catalog.Search.{
  search_tables, Names, query_tables, all_patterns, read_result_set, or_all, unless_empty,
}
use exodbc.Catalog.Find.{
  search_qualified, search_with, search_named, search_given, find_one_table, only,
}

-- A name that is given, and the null pointer for one that is empty.
abbrev pub given : Text → Option Text
given n = if is_empty n then none else some n

abbrev names_given : Text → Text → Text → Names
names_given table schema catalog = record {
  table = some table;
  schema = given schema;
  catalog = given catalog;
}

-- What is handed to SQLTables for a pointer: PostgreSQL gets "%" for the null pointer.
abbrev pub pattern : DatabaseProduct → Option Text → Option Text
pattern dbms (some n) = some n
pattern dbms none = if is_postgresql dbms then some (txt "%") else none

all_lem :
    (dbms : DatabaseProduct) (x : Option Text)
    → is_postgresql dbms ≡ true
    → or_all x ≡ pattern dbms x
all_lem dbms none e = ground (arith, e)
all_lem dbms (some n) e = refl

as_given :
    (dbms : DatabaseProduct) (x : Option Text) → is_postgresql dbms ≡ false → x ≡ pattern dbms x
as_given dbms none e = ground (arith, e)
as_given dbms (some n) e = refl

type_given : (ty : Text) → unless_empty ty ≡ given ty
type_given [] = refl
type_given (x ∷ ty) = refl

-- The one table of a list, which there must be; `none` if the search has run out of fuel.
abbrev pub the_table : Result (Option (List TableInfo)) → Result (Option TableInfo)
the_table (ok none) = ok none
the_table (ok (some (i ∷ []))) = ok (some i)
the_table (ok (some _)) = raised not_found
the_table (raised e) = raised e

module _ (d : Driver) (fuel : ℕ) (t : TextLibrary) where
  search_given_lem :
      (table s c ty : Text) (w : World DatabaseCatalog)
      → search_given d fuel t table s c ty w
        ≡ search_tables d fuel (names_given table s c) ty pattern_or_ordinary w
  unfolding search_given search_qualified search_with search_named
  search_given_lem table [] [] ty w = refl
  search_given_lem table [] (x ∷ c) ty w = refl
  search_given_lem table (x ∷ s) [] ty w = refl
  search_given_lem table (x ∷ s) (y ∷ c) ty w = refl

  chosen :
      (r : Result (Option (List TableInfo))) (w : World DatabaseCatalog)
      → (elim r as (λ z. Result (Option TableInfo) × World DatabaseCatalog) [
        | ok tables ↦ only d fuel t tables w
        | raised e ↦ (raised e, w)
      ])
        ≡ (the_table r, w)
  chosen (ok none) w = refl
  chosen (ok (some [])) w = refl
  chosen (ok (some (i ∷ []))) w = refl
  chosen (ok (some (i ∷ j ∷ r))) w = refl
  chosen (raised e) w = refl

  asked :
      Option Text
      → Option Text
      → Option Text
      → Option Text
      → World DatabaseCatalog
      → Result (Option (List TableInfo)) × World DatabaseCatalog
  asked c s n ty w =
      read_result_set d fuel (λ x. sql_tables x c s n ty) table_columns
        (table_info w.self.props.dbms) w

  asked_same :
      (c s n ty c' s' n' ty' : Option Text) (w : World DatabaseCatalog)
      → c ≡ c'
      → s ≡ s'
      → n ≡ n'
      → ty ≡ ty'
      → asked c s n ty w ≡ asked c' s' n' ty' w
  asked_same c s n ty c' s' n' ty' w e f g h = cc

  queried :
      (p : Bool) (n : Names) (ty : Text) (w : World DatabaseCatalog)
      → is_postgresql w.self.props.dbms ≡ p
      → branch p (query_tables d fuel (all_patterns n) ty) (query_tables d fuel n ty) w
        ≡ asked
            (pattern w.self.props.dbms n.catalog)
            (pattern w.self.props.dbms n.schema)
            (pattern w.self.props.dbms n.table)
            (given ty)
            w
  unfolding query_tables all_patterns asked
  queried true n ty w e =
      let b = w.self.props.dbms in
      asked_same (or_all n.catalog) (or_all n.schema) (or_all n.table) (unless_empty ty)
        (pattern b n.catalog) (pattern b n.schema) (pattern b n.table) (given ty) w
        (all_lem b n.catalog e) (all_lem b n.schema e) (all_lem b n.table e) (type_given ty)
  queried false n ty w e =
      let b = w.self.props.dbms in
      asked_same n.catalog n.schema n.table (unless_empty ty) (pattern b n.catalog)
        (pattern b n.schema) (pattern b n.table) (given ty) w (as_given b n.catalog e)
        (as_given b n.schema e) (as_given b n.table e) (type_given ty)

  searched :
      (n : Names) (ty : Text) (h : ℕ) (w : World DatabaseCatalog)
      → w.self.h_stmt.handle ≡ some h
      → w.self.stmt_mode ≡ pattern_or_ordinary
      → search_tables d fuel n ty pattern_or_ordinary w
        ≡ branch
            (is_postgresql w.self.props.dbms)
            (query_tables d fuel (all_patterns n) ty)
            (query_tables d fuel n ty)
            w
  unfolding search_tables ensure_mode
  searched n ty h w e m = ground (arith, e, m)

  search_tables_lem :
      (n : Names) (ty : Text) (h : ℕ) (w : World DatabaseCatalog)
      → w.self.h_stmt.handle ≡ some h
      → w.self.stmt_mode ≡ pattern_or_ordinary
      → search_tables d fuel n ty pattern_or_ordinary w
        ≡ asked
            (pattern w.self.props.dbms n.catalog)
            (pattern w.self.props.dbms n.schema)
            (pattern w.self.props.dbms n.table)
            (given ty)
            w
  search_tables_lem n ty h w e m =
      searched n ty h w e m ∙ queried (is_postgresql w.self.props.dbms) n ty w refl

  found :
      (table s c ty : Text) (w : World DatabaseCatalog)
      → is_empty table ≡ false
      → find_one_table d fuel t table s c ty w ≡ (
          let r = search_tables d fuel (names_given table s c) ty pattern_or_ordinary w in
          (the_table r.0, r.1))
  unfolding find_one_table
  found [] s c ty w n = absurd (ground (arith, n))
  found (x ∷ l) s c ty w n =
      ap
        (λ r. elim r.0 as (λ z. Result (Option TableInfo) × World DatabaseCatalog) [
          | ok tables ↦ only d fuel t tables r.1
          | raised e ↦ (raised e, r.1)
        ])
        (search_given_lem (x ∷ l) s c ty w)
      ∙ (let r = search_tables d fuel (names_given (x ∷ l) s c) ty pattern_or_ordinary w in
          chosen r.0 r.1)

  -- `FindOneTable` without a name of a table fails an assertion with no call. With one, and the
  -- statement of the catalog allocated and not in the mode of identifiers, it reads the result set of
  -- one call of SQLTables: for this name, the schema and the catalog each as given, with the null
  -- pointer, or the pattern for all if the database is PostgreSQL, for one that is empty, and the
  -- type, or the null pointer. It gives the table if there is just one row, throws NotFoundException
  -- for none and for more, and throws what the reading throws; the reading is all that it does.
  pub find_one_table_lem :
      (table s c ty : Text) (h : ℕ) (w : World DatabaseCatalog)
      → w.self.h_stmt.handle ≡ some h
      → w.self.stmt_mode ≡ pattern_or_ordinary
      → find_one_table d fuel t table s c ty w ≡ (
          if is_empty table
          then (raised assertion, w)
          else (let dbms = w.self.props.dbms in
              let r =
                read_result_set d fuel
                  (λ x.
                    sql_tables x
                      (pattern dbms (given c))
                      (pattern dbms (given s))
                      (some table)
                      (given ty))
                  table_columns
                  (table_info dbms)
                  w in
              (the_table r.0, r.1)))
  unfolding find_one_table asked
  find_one_table_lem [] s c ty h w e m = refl
  find_one_table_lem (x ∷ l) s c ty h w e m =
      found (x ∷ l) s c ty w refl
      ∙ ap (λ r. (the_table r.0, r.1)) (search_tables_lem (names_given (x ∷ l) s c) ty h w e m)
