-- ===== src/Statement/Bind.antt =====
-- Binding buffers to columns and parameters: `BindColumn` and `BindParameter` of
-- src/ExecutableStatement.cpp, include/exodbc/ColumnBuffer.h and ColumnBufferVisitors.h. The
-- connections from the handle's signals to the buffers are those of Bindable.
use exodbc.Prelude.{
  ℕ, Bool, true, false, not, ◌&&◌, ◌||◌, Option, none, some, List, [], ◌∷◌, is_some, ltb,
  if◌then◌else◌,
}
use exodbc.Odbc.{
  Driver, Action, ◌>>=◌, ◌>>◌, pure, get, modify, ex_assert, when, branch, invoke,
  throw_ifn_succeeded, throw_ifn_success, Descriptor, DescField, row, param, desc_type,
  desc_precision, desc_scale, desc_data_ptr, desc_indicator_ptr, desc_octet_length_ptr,
  sql_describe_param, sql_bind_col, sql_bind_parameter, sql_get_descriptor, sql_set_desc_field,
}
use exodbc.SqlTypes.{
  SqlType, sql_unknown_type, same_type, SqlCType, is_numeric, DatabaseProduct, is_access, is_excel,
  is_my_sql,
}
use exodbc.Buffer.{
  sql_c_pointer_buffer, ColumnBuffer, get_sql_c_type, has_memory, is_positive, is_non_negative,
}
use exodbc.Statement.{stmt_handle, assert_handle, Db, Statement}

-- `DatabaseSupportsDescribeParam`
unfoldable pub database_supports_describe_param : DatabaseProduct → SqlCType → Bool
database_supports_describe_param dbms c =
    if is_access dbms || is_excel dbms
    then false
    else if is_my_sql dbms && is_numeric c
    then false
    else true

-- `m_columnSize > 0` of a ColumnBuffer, `m_columnSize >= 0` of an SqlCPointerBuffer.
abbrev numeric_size_fits : ColumnBuffer → Bool
numeric_size_fits b = elim b.variant [
  | sql_c_pointer_buffer c given n ↦ is_non_negative b.column_size
  | _ ↦ is_positive b.column_size
]

-- `DatabaseSupportsDescribeParam` for the database of a statement.
abbrev database_supports : SqlCType → Option Db → Bool
database_supports c none = false
database_supports c (some b) = database_supports_describe_param b.dbms c

module _ (d : Driver) where
  -- `SetDescriptionField`, once for each field
  unfoldable pub set_fields : Option ℕ → ℕ → List DescField → Action Statement (Unit {0})
  set_fields h nr [] = pure tt
  set_fields h nr (f ∷ fs) = do
    r ← invoke d (sql_set_desc_field h nr f)
    throw_ifn_succeeded r
    set_fields h nr fs

  -- Sets fields of a descriptor of the statement handle.
  unfoldable pub describe_numeric : Descriptor → ℕ → List DescField → Action Statement (Unit {0})
  unfolding set_fields
  describe_numeric descriptor nr fields = do
    s ← get
    r ← invoke d (sql_get_descriptor (stmt_handle s.h_stmt) descriptor)
    throw_ifn_succeeded r
    set_fields r.out nr fields

  -- `BindColumn` of a buffer: of the types with SQL_C_NUMERIC, and `BindColumnImpl` for the others.
  unfoldable pub bind_numeric_column : ColumnBuffer → ℕ → Action Statement (Unit {0})
  unfolding describe_numeric
  bind_numeric_column b nr = do
    ex_assert (ltb 0 nr)
    assert_handle
    ex_assert (numeric_size_fits b)
    ex_assert (is_non_negative b.decimal_digits)
    describe_numeric row nr (
        desc_type ∷ desc_precision ∷ desc_scale ∷ desc_data_ptr ∷ desc_indicator_ptr
        ∷ desc_octet_length_ptr ∷ [])

  unfoldable pub bind_column_impl : ColumnBuffer → ℕ → Action Statement (Unit {0})
  bind_column_impl b nr = do
    ex_assert (ltb 0 nr)
    assert_handle
    ex_assert (has_memory b)
    s ← get
    r ← invoke d (sql_bind_col (stmt_handle s.h_stmt) nr b.query_name)
    throw_ifn_success r

  unfoldable pub bind_column : ColumnBuffer → ℕ → Action Statement (Unit {0})
  unfolding bind_numeric_column bind_column_impl
  bind_column b nr = do
    branch (is_numeric (get_sql_c_type b)) (bind_numeric_column b nr) (bind_column_impl b nr)
    modify (λ s. record s { bound_columns = true })

  -- The SQL type of the parameter's description, from SQLDescribeParam.
  unfoldable pub describe_parameter : ℕ → Action Statement SqlType
  describe_parameter nr = do
    assert_handle
    ex_assert (ltb 0 nr)
    s ← get
    r ← invoke d (sql_describe_param (stmt_handle s.h_stmt) nr)
    throw_ifn_success r
    pure r.sql_type

  unfoldable pub bind_param_impl : ColumnBuffer → ℕ → SqlType → Action Statement (Unit {0})
  bind_param_impl b nr t = do
    ex_assert (ltb 0 nr)
    assert_handle
    ex_assert (has_memory b)
    ex_assert (not (same_type t sql_unknown_type))
    s ← get
    r ← invoke d (sql_bind_parameter (stmt_handle s.h_stmt) nr b.query_name)
    throw_ifn_success r

  unfoldable pub bind_parameter : ColumnBuffer → ℕ → Bool → Action Statement (Unit {0})
  unfolding describe_parameter bind_param_impl describe_numeric
  bind_parameter b nr never_query = do
    s ← get
    ex_assert (is_some s.db)
    t ←
        branch (not never_query && (s.is_prepared && database_supports (get_sql_c_type b) s.db))
          (describe_parameter nr) (pure b.sql_type)
    bind_param_impl b nr t
    when (is_numeric (get_sql_c_type b))
        (describe_numeric param nr (desc_type ∷ desc_precision ∷ desc_scale ∷ desc_data_ptr ∷ []))
    modify (λ s. record s { bound_params = true })
