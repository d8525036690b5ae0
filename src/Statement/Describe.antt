-- ===== src/Statement/Describe.antt =====
-- `GetNrOfColumns`, `DescribeColumn`, `UnbindColumns` and `UnbindParams` of
-- src/ExecutableStatement.cpp, with src/ColumnDescription.cpp.
use exodbc.Prelude.{ℕ, suc, Option, none, some, ltb, is_some}
use exodbc.Prelude.Texts.{Text, txt}
use exodbc.Odbc.{
  Driver, Action, ◌>>=◌, ◌>>◌, pure, get, ex_assert, invoke, throw_ifn_succeeded, zoom, stmt,
  sql_num_result_cols, sql_describe_col,
}
use exodbc.SqlTypes.{SqlType}
use exodbc.Handle.{reset_params, unbind_columns}
use exodbc.Props.{Props}
use exodbc.Props.Getters.{get_max_name_len}
use exodbc.Statement.{stmt_handle, on_handle, assert_handle, Statement}

-- The name and the SQL type that SQLDescribeCol writes; its sizes and nullability are not kept.
pub record ColumnDescription : Type 0 where
  pub name : Text
  pub sql_type : SqlType

module _ (d : Driver) where
  -- The number is 0 before the driver writes it.
  abbrev number_or_zero : Option ℕ → ℕ
  number_or_zero none = 0
  number_or_zero (some n) = n

  unfoldable pub get_nr_of_columns : Action Statement ℕ
  get_nr_of_columns = do
    assert_handle
    s ← get
    r ← invoke d (sql_num_result_cols (stmt_handle s.h_stmt))
    throw_ifn_succeeded r
    pure (number_or_zero r.out)

  -- The properties are those of the statement's database; the buffer for the name has room for the
  -- longest name and a 0.
  unfoldable pub describe_column : Props → ℕ → Action Statement ColumnDescription
  unfolding get_max_name_len
  describe_column props nr = do
    assert_handle
    ex_assert (ltb 0 nr)
    s ← get
    ex_assert (is_some s.db)
    n ← zoom (λ s. props) (λ p s. s) (get_max_name_len (txt "SQL_MAX_COLUMN_NAME_LEN"))
    r ← invoke d (sql_describe_col (stmt_handle s.h_stmt) nr (suc n))
    throw_ifn_succeeded r
    pure (record { name = r.text; sql_type = r.sql_type })

  -- `m_boundColumns` and `m_boundParams` stay as they are.
  unfoldable pub stmt_unbind_columns : Action Statement (Unit {0})
  unfolding unbind_columns
  stmt_unbind_columns = do s ← get; ex_assert (is_some s.h_stmt); on_handle (unbind_columns d stmt)

  unfoldable pub stmt_unbind_params : Action Statement (Unit {0})
  unfolding reset_params
  stmt_unbind_params = do s ← get; ex_assert (is_some s.h_stmt); on_handle (reset_params d stmt)
