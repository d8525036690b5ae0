-- ===== src/Catalog/Special.antt =====
-- `ReadSpecialColumnInfo` of src/DatabaseCatalog.cpp with src/SpecialColumnInfo.cpp.
use exodbc.Prelude.{
  ℕ, zero, suc, Bool, true, false, not, Option, none, some, List, [], ◌∷◌, ◌==◌, if◌then◌else◌,
  is_some,
}
use exodbc.Prelude.Texts.{Text, txt}
use exodbc.Odbc.{
  is_success, is_no_data, Driver, sql_result_without_handle, Action, ◌>>=◌, ◌>>◌, pure, throw, get,
  ex_assert, when, branch, invoke, throw_ifn_succeeded, Result, World, sql_fetch,
  sql_special_columns, assertion, ok, raised,
}
use exodbc.SqlTypes.{SqlType}
use exodbc.Buffer.{ℤ}
use exodbc.Handle.{}
use exodbc.Table.Info.{TableInfo}
use exodbc.Props.{}
use exodbc.Catalog.{
  assert_stmt, is_null, put_row, get_columns, with_closer, ensure_mode, MetadataMode,
  DatabaseCatalog, Datum, Column, pattern_or_ordinary, plain, limited,
}
use exodbc.Catalog.Rows.{datum, signed}
use exodbc.Catalog.Search.{names_of, Names}

pub data IdentifierType : Type 0 where
  unique_row row_version : IdentifierType

-- SQL_BEST_ROWID and SQL_ROWVER
abbrev pub identifier_value : IdentifierType → ℕ
identifier_value unique_row = 1
identifier_value row_version = 2

pub data RowIdScope : Type 0 where
  cursor_scope transaction_scope session_scope : RowIdScope

-- SQL_SCOPE_CURROW, SQL_SCOPE_TRANSACTION and SQL_SCOPE_SESSION
abbrev pub scope_value : RowIdScope → ℕ
scope_value cursor_scope = 0
scope_value transaction_scope = 1
scope_value session_scope = 2

-- The scope is not set if it is NULL.
pub record SpecialColumnInfo : Type 0 where
  pub ident_type : IdentifierType
  pub scope : Option RowIdScope
  pub column_name : Text
  pub sql_type : SqlType
  pub column_size : ℤ
  pub decimal_digits : ℤ

abbrev pub special_columns : List Column
special_columns =
    plain 1
    ∷ limited (txt "SQL_MAX_COLUMN_NAME_LEN") 2
    ∷ plain 3
    ∷ plain 4
    ∷ plain 5
    ∷ plain 6
    ∷ plain 7
    ∷ plain 8
    ∷ []

-- The `switch` on the scope; a variable that has not been written to is taken to be 0.
unfoldable pub scope_of : Bool → ℕ → Result (Option RowIdScope)
scope_of true n = ok none
scope_of false n =
    if n == 0
    then ok (some cursor_scope)
    else (if n == 1
        then ok (some transaction_scope)
        else (if n == 2 then ok (some session_scope) else raised assertion))

abbrev number_of : Option ℕ → ℕ
number_of none = 0
number_of (some n) = n

-- The constructor of `SpecialColumnInfo`, after the columns have been read.
unfoldable pub special_column_info :
    IdentifierType → List Datum → Action DatabaseCatalog SpecialColumnInfo
unfolding scope_of
special_column_info t xs w =
    elim (scope_of (is_null (datum 0 xs)) (number_of (datum 0 xs).number))
      as (λ x. Result SpecialColumnInfo × World DatabaseCatalog) [
        | ok s ↦ (
          ok (record {
            ident_type = t;
            scope = s;
            column_name = (datum 1 xs).text;
            sql_type = (datum 2 xs).sql_type;
            column_size = signed 32 (datum 4 xs).number;
            decimal_digits = signed 16 (datum 6 xs).number;
          }),
          w,
        )
        | raised e ↦ (raised e, w)
      ]

module _ (d : Driver) where
  -- The loop, in which a row may fail an assertion.
  unfoldable pub fetch_special :
      IdentifierType → ℕ → Action DatabaseCatalog (Option (List SpecialColumnInfo))
  unfolding special_column_info
  fetch_special t zero = pure none
  fetch_special t (suc fuel) = do
    s ← get
    r ← invoke d (sql_fetch s.h_stmt.handle)
    branch (is_success r.ret)
        (do
          x ← get_columns d special_columns
          i ← special_column_info t x
          rest ← fetch_special t fuel
          pure (put_row i rest))
        (do when (not (is_no_data r.ret)) (throw (sql_result_without_handle r.ret)); pure (some []))

  unfoldable pub query_special :
      IdentifierType
      → Names
      → RowIdScope
      → Bool
      → ℕ
      → Action DatabaseCatalog (Option (List SpecialColumnInfo))
  unfolding fetch_special
  query_special t n scope include_nullable fuel = do
    s ← get
    r ← invoke d (
        sql_special_columns s.h_stmt.handle (identifier_value t) n.catalog n.schema n.table
          (scope_value scope) include_nullable)
    throw_ifn_succeeded r
    fetch_special t fuel

  -- `ReadSpecialColumnInfo` with pointers, and of a table
  unfoldable pub read_special_columns :
      IdentifierType
      → Names
      → RowIdScope
      → Bool
      → MetadataMode
      → ℕ
      → Action DatabaseCatalog (Option (List SpecialColumnInfo))
  unfolding ensure_mode with_closer query_special
  read_special_columns t n scope include_nullable mode fuel = do
    assert_stmt
    ex_assert (is_some n.table)
    ensure_mode d mode
    with_closer d (query_special t n scope include_nullable fuel)

  unfoldable pub read_special_column_info_of :
      TableInfo
      → IdentifierType
      → RowIdScope
      → Bool
      → ℕ
      → Action DatabaseCatalog (Option (List SpecialColumnInfo))
  unfolding read_special_columns
  read_special_column_info_of i t scope include_nullable fuel =
      read_special_columns t (names_of d fuel i) scope include_nullable pattern_or_ordinary fuel
