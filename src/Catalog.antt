-- ===== src/Catalog.antt =====
-- src/DatabaseCatalog.cpp: the catalog of a database, src/GetDataWrapper.cpp, and the loops that fetch
-- the rows of a result set. Reading the catalog changes nothing in the driver but the statement.
pub mod Closing
pub mod Ending
pub mod Escape
pub mod Find
pub mod Frame
pub mod Rows
pub mod Search
pub mod Special
use exodbc.Prelude.{
  ℕ, zero, suc, Bool, true, false, not, ◌&&◌, ◌||◌, Option, none, some, List, [], ◌∷◌, ◌==◌,
  if◌then◌else◌, is_some,
}
use exodbc.Prelude.Texts.{Text, txt}
use exodbc.Odbc.{
  succeeded, is_success, is_no_data, Driver, has_hyc00, sql_result_without_handle, Action, ◌>>=◌,
  ◌>>◌, pure, throw, get, modify, ex_assert, when, branch, catch, invoke, throw_ifn_succeeded, zoom,
  Reply, stmt, sql_close, sql_free_stmt, sql_fetch, sql_get_metadata_id, sql_set_metadata_id,
  sql_get_data, sql_result,
}
use exodbc.Handle.{new_handle, allocate_with_parent, free, Handle}
use exodbc.SqlTypes.{SqlType}
use exodbc.Props.{no_props, is_property_registered, get_property, ensure_property_read, Props}
use exodbc.Props.Getters.{get_max_name_len}

-- `DatabaseCatalog::MetadataMode`
pub data MetadataMode : Type 0 where
  identifier pattern_or_ordinary : MetadataMode

abbrev pub is_identifier : MetadataMode → Bool
is_identifier identifier = true
is_identifier pattern_or_ordinary = false

-- `h_dbc` is `m_pHdbc`: the null pointer, or the connection with its handle.
pub record DatabaseCatalog : Type 0 where
  pub h_dbc : Option (Option ℕ)
  pub h_stmt : Handle
  pub props : Props
  pub stmt_mode : MetadataMode

-- `DatabaseCatalog()`
unfoldable pub new_database_catalog : DatabaseCatalog
unfolding new_handle
new_database_catalog = record {
  h_dbc = none;
  h_stmt = new_handle;
  props = no_props;
  stmt_mode = pattern_or_ordinary;
}

abbrev pub on_stmt : {A : Type 0} → Action Handle A → Action DatabaseCatalog A
on_stmt m = zoom (λ s. s.h_stmt) (λ h s. record s { h_stmt = h }) m

abbrev pub on_props : {A : Type 0} → Action Props A → Action DatabaseCatalog A
on_props m = zoom (λ s. s.props) (λ p s. record s { props = p }) m

-- `exASSERT(m_pHStmt); exASSERT(m_pHStmt->IsAllocated());` on a pointer that is never null.
abbrev pub assert_stmt : Action DatabaseCatalog (Unit {0})
assert_stmt = do s ← get; ex_assert (is_some s.h_stmt.handle)

-- What a SQLGetData writes. Its length is `none` for SQL_NULL_DATA; a number is read from `number`.
pub record Datum : Type 0 where
  pub number : Option ℕ
  pub text : Text
  pub sql_type : SqlType

abbrev pub is_null : Datum → Bool
is_null x = not (is_some x.number)

-- A column of a result set; where a name is given, the limit of a name is asked for before.
pub data Column : Type 0 where
  plain : ℕ → Column
  limited : Text → ℕ → Column

-- What a value is after its declaration and a SQLGetData that finds NULL.
abbrev text_unless_null : Reply → Text
text_unless_null r = if is_some r.out then r.text else []

abbrev pub put_row : {A : Type 0} → A → Option (List A) → Option (List A)
put_row x none = none
put_row x (some xs) = some (x ∷ xs)

-- `GetMetadataAttribute`, where SQL_FALSE is 0 and SQL_TRUE is 1. The variable is SQL_FALSE before
-- the driver writes to it.
abbrev mode_of : Option ℕ → Action DatabaseCatalog MetadataMode
mode_of none = pure pattern_or_ordinary
mode_of (some v) = do
  ex_assert (v == 0 || v == 1)
  pure (if v == 0 then pattern_or_ordinary else identifier)

module _ (d : Driver) where
  -- `GetDataWrapper::GetData`
  unfoldable pub get_data : ℕ → Action DatabaseCatalog Datum
  get_data n = do
    assert_stmt
    s ← get
    r ← invoke d (sql_get_data s.h_stmt.handle n)
    throw_ifn_succeeded r
    pure (record { number = r.out; text = text_unless_null r; sql_type = r.sql_type })

  unfoldable pub get_column : Column → Action DatabaseCatalog Datum
  unfolding get_data
  get_column (plain n) = get_data n
  get_column (limited name n) = on_props (get_max_name_len name) >> get_data n

  unfoldable pub get_columns : List Column → Action DatabaseCatalog (List Datum)
  get_columns [] = pure []
  get_columns (c ∷ r) = do x ← get_column c; xs ← get_columns r; pure (x ∷ xs)

  -- `while ((ret = SQLFetch(...)) == SQL_SUCCESS) { ... } THROW_IFN_NO_DATA(SQLFetch, ret);` on fuel:
  -- `none` if the fuel runs out. A row is made of what its columns give.
  unfoldable pub fetch_rows :
      {A : Type 0} → List Column → (List Datum → A) → ℕ → Action DatabaseCatalog (Option (List A))
  fetch_rows cs f zero = pure none
  fetch_rows cs f (suc fuel) = do
    s ← get
    r ← invoke d (sql_fetch s.h_stmt.handle)
    branch (is_success r.ret)
        (do x ← get_columns cs; rest ← fetch_rows cs f fuel; pure (put_row (f x) rest))
        (do when (not (is_no_data r.ret)) (throw (sql_result_without_handle r.ret)); pure (some []))

  -- `StatementCloser::CloseStmtHandle(m_pHStmt, IgnoreNotOpen)`
  unfoldable pub close_catalog_stmt : Action DatabaseCatalog (Unit {0})
  close_catalog_stmt = do
    assert_stmt
    s ← get
    r ← invoke d (sql_free_stmt s.h_stmt.handle sql_close)
    throw_ifn_succeeded r

  -- `~StatementCloser`, on every way out of `m`; it throws nothing.
  unfoldable pub then_close : {A : Type 0} → Action DatabaseCatalog A → Action DatabaseCatalog A
  unfolding close_catalog_stmt
  then_close m w =
      let (r, w') = m w in let (q, w'') = catch close_catalog_stmt (λ e. pure tt) w' in (r, w'')

  -- The scope of `StatementCloser stmtCloser(m_pHStmt, true, true)`: its constructor closes, and so
  -- does its destructor.
  unfoldable pub with_closer : {A : Type 0} → Action DatabaseCatalog A → Action DatabaseCatalog A
  unfolding then_close
  with_closer m = close_catalog_stmt >> then_close m

  unfoldable pub get_metadata_attribute : Action DatabaseCatalog MetadataMode
  get_metadata_attribute = do
    assert_stmt
    s ← get
    r ← invoke d (sql_get_metadata_id s.h_stmt.handle)
    branch (succeeded r.ret) (mode_of r.out) (
        branch (has_hyc00 r.diag)
          (on_props (get_property (txt "SQL_DRIVER_NAME")) >> pure pattern_or_ordinary)
          (throw (sql_result r.ret r.diag)))

  -- `SetMetadataAttribute`. The call is handed the address of the new value.
  unfoldable pub set_metadata_attribute : MetadataMode → Action DatabaseCatalog (Unit {0})
  set_metadata_attribute mode = do
    assert_stmt
    s ← get
    r ← invoke d (sql_set_metadata_id s.h_stmt.handle (is_identifier mode))
    throw_ifn_succeeded r
    modify (λ s. record s { stmt_mode = mode })

  -- `if (m_stmtMode != mode) SetMetadataAttribute(mode);`
  unfoldable pub ensure_mode : MetadataMode → Action DatabaseCatalog (Unit {0})
  unfolding set_metadata_attribute
  ensure_mode mode = do
    s ← get
    when
        (is_identifier s.stmt_mode && not (is_identifier mode)
          || not (is_identifier s.stmt_mode) && is_identifier mode)
        (set_metadata_attribute mode)

  -- `Reset`
  unfoldable pub reset_catalog : Action DatabaseCatalog (Unit {0})
  unfolding free
  reset_catalog = do
    s ← get
    when (is_some s.h_stmt.handle) (on_stmt (free d stmt))
    modify (λ s. record s { h_dbc = none })

  -- `Init`; `char_size` is that of Props.antt.
  unfoldable pub init_catalog : ℕ → Option ℕ → Props → Action DatabaseCatalog (Unit {0})
  unfolding ensure_property_read allocate_with_parent get_metadata_attribute is_property_registered
  init_catalog char_size h_dbc props = do
    s ← get
    ex_assert (not (is_some s.h_dbc))
    ex_assert (is_property_registered (txt "SQL_SEARCH_PATTERN_ESCAPE") props)
    modify (λ s. record s { h_dbc = some h_dbc; props = props })
    on_props (ensure_property_read d char_size h_dbc (txt "SQL_SEARCH_PATTERN_ESCAPE") false)
    on_stmt (allocate_with_parent d stmt (some h_dbc))
    mode ← get_metadata_attribute
    modify (λ s. record s { stmt_mode = mode })
