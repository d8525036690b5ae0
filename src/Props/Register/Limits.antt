-- ===== src/Props/Register/Limits.antt =====
-- The `Register...Properties` methods of src/SqlInfoProperty.cpp for the supported SQL, the limits, the
-- functions and the conversions.
use exodbc.Prelude.{[], ◌∷◌}
use exodbc.Prelude.Texts.{txt}
use exodbc.Odbc.{Action, ◌>>◌, when}
use exodbc.SqlTypes.{at_least_v_3, OdbcVersion}
use exodbc.Props.{
  Props, supported_sql, sql_limits, scalar_function, conversion, u_small_int, u_int, string_n_y,
  string_any,
}
use exodbc.Props.Register.{Registrations, register_each, mark_on_postgresql}

abbrev pub supported_sql_names : Registrations
supported_sql_names =
    (txt "SQL_ALTER_TABLE", u_int)
    ∷ (txt "SQL_CATALOG_LOCATION", u_small_int)
    ∷ (txt "SQL_CATALOG_NAME_SEPARATOR", string_any)
    ∷ (txt "SQL_CATALOG_USAGE", u_int)
    ∷ (txt "SQL_COLUMN_ALIAS", string_n_y)
    ∷ (txt "SQL_CORRELATION_NAME", u_small_int)
    ∷ (txt "SQL_EXPRESSIONS_IN_ORDERBY", string_n_y)
    ∷ (txt "SQL_GROUP_BY", u_small_int)
    ∷ (txt "SQL_IDENTIFIER_CASE", u_small_int)
    ∷ (txt "SQL_IDENTIFIER_QUOTE_CHAR", string_any)
    ∷ (txt "SQL_INDEX_KEYWORDS", u_int)
    ∷ (txt "SQL_INTEGRITY", string_n_y)
    ∷ (txt "SQL_KEYWORDS", string_any)
    ∷ (txt "SQL_LIKE_ESCAPE_CLAUSE", string_n_y)
    ∷ (txt "SQL_NON_NULLABLE_COLUMNS", u_small_int)
    ∷ (txt "SQL_SQL_CONFORMANCE", u_int)
    ∷ (txt "SQL_OJ_CAPABILITIES", u_int)
    ∷ (txt "SQL_ORDER_BY_COLUMNS_IN_SELECT", string_n_y)
    ∷ (txt "SQL_OUTER_JOINS", string_n_y)
    ∷ (txt "SQL_PROCEDURES", string_n_y)
    ∷ (txt "SQL_QUOTED_IDENTIFIER_CASE", u_small_int)
    ∷ (txt "SQL_SCHEMA_USAGE", u_int)
    ∷ (txt "SQL_SPECIAL_CHARACTERS", string_any)
    ∷ (txt "SQL_SUBQUERIES", u_int)
    ∷ (txt "SQL_UNION", u_int)
    ∷ []

abbrev pub supported_sql_names_v_3 : Registrations
supported_sql_names_v_3 =
    (txt "SQL_AGGREGATE_FUNCTIONS", u_int)
    ∷ (txt "SQL_ALTER_DOMAIN", u_int)
    ∷ (txt "SQL_CATALOG_NAME", string_n_y)
    ∷ (txt "SQL_CREATE_ASSERTION", u_int)
    ∷ (txt "SQL_CREATE_CHARACTER_SET", u_int)
    ∷ (txt "SQL_CREATE_COLLATION", u_int)
    ∷ (txt "SQL_CREATE_DOMAIN", u_int)
    ∷ (txt "SQL_CREATE_SCHEMA", u_int)
    ∷ (txt "SQL_CREATE_TABLE", u_int)
    ∷ (txt "SQL_CREATE_TRANSLATION", u_int)
    ∷ (txt "SQL_DDL_INDEX", u_int)
    ∷ (txt "SQL_DROP_ASSERTION", u_int)
    ∷ (txt "SQL_DROP_CHARACTER_SET", u_int)
    ∷ (txt "SQL_DROP_COLLATION", u_int)
    ∷ (txt "SQL_DROP_DOMAIN", u_int)
    ∷ (txt "SQL_DROP_SCHEMA", u_int)
    ∷ (txt "SQL_DROP_TABLE", u_int)
    ∷ (txt "SQL_DROP_TRANSLATION", u_int)
    ∷ (txt "SQL_DROP_VIEW", u_int)
    ∷ (txt "SQL_INSERT_STATEMENT", u_int)
    ∷ []

unfoldable pub register_supported_sql_properties : OdbcVersion → Action Props (Unit {0})
register_supported_sql_properties version = do
  register_each supported_sql supported_sql_names
  when (at_least_v_3 version) (register_each supported_sql supported_sql_names_v_3)

abbrev pub sql_limits_names : Registrations
sql_limits_names =
    (txt "SQL_MAX_BINARY_LITERAL_LEN", u_int)
    ∷ (txt "SQL_MAX_CATALOG_NAME_LEN", u_small_int)
    ∷ (txt "SQL_MAX_CHAR_LITERAL_LEN", u_int)
    ∷ (txt "SQL_MAX_COLUMN_NAME_LEN", u_small_int)
    ∷ (txt "SQL_MAX_COLUMNS_IN_GROUP_BY", u_small_int)
    ∷ (txt "SQL_MAX_COLUMNS_IN_INDEX", u_int)
    ∷ (txt "SQL_MAX_COLUMNS_IN_ORDER_BY", u_small_int)
    ∷ (txt "SQL_MAX_COLUMNS_IN_SELECT", u_small_int)
    ∷ (txt "SQL_MAX_COLUMNS_IN_TABLE", u_small_int)
    ∷ (txt "SQL_MAX_CURSOR_NAME_LEN", u_small_int)
    ∷ (txt "SQL_MAX_INDEX_SIZE", u_int)
    ∷ (txt "SQL_MAX_PROCEDURE_NAME_LEN", u_small_int)
    ∷ (txt "SQL_MAX_ROW_SIZE", u_int)
    ∷ (txt "SQL_MAX_ROW_SIZE_INCLUDES_LONG", string_n_y)
    ∷ (txt "SQL_MAX_SCHEMA_NAME_LEN", u_small_int)
    ∷ (txt "SQL_MAX_STATEMENT_LEN", u_int)
    ∷ (txt "SQL_MAX_TABLE_NAME_LEN", u_small_int)
    ∷ (txt "SQL_MAX_TABLES_IN_SELECT", u_small_int)
    ∷ (txt "SQL_MAX_USER_NAME_LEN", u_small_int)
    ∷ []

abbrev pub sql_limits_names_v_3 : Registrations
sql_limits_names_v_3 = (txt "SQL_MAX_IDENTIFIER_LEN", u_small_int) ∷ []

unfoldable pub register_sql_limits_properties : OdbcVersion → Action Props (Unit {0})
register_sql_limits_properties version = do
  register_each sql_limits sql_limits_names
  when (at_least_v_3 version) (register_each sql_limits sql_limits_names_v_3)

abbrev pub scaler_function_names : Registrations
scaler_function_names =
    (txt "SQL_CONVERT_FUNCTIONS", u_int)
    ∷ (txt "SQL_NUMERIC_FUNCTIONS", u_int)
    ∷ (txt "SQL_STRING_FUNCTIONS", u_int)
    ∷ (txt "SQL_SYSTEM_FUNCTIONS", u_int)
    ∷ (txt "SQL_TIMEDATE_ADD_INTERVALS", u_int)
    ∷ (txt "SQL_TIMEDATE_DIFF_INTERVALS", u_int)
    ∷ (txt "SQL_TIMEDATE_FUNCTIONS", u_int)
    ∷ []

unfoldable pub register_scaler_function_properties : OdbcVersion → Action Props (Unit {0})
register_scaler_function_properties version = register_each scalar_function scaler_function_names

abbrev pub conversion_names : Registrations
conversion_names =
    (txt "SQL_CONVERT_BIGINT", u_int)
    ∷ (txt "SQL_CONVERT_BINARY", u_int)
    ∷ (txt "SQL_CONVERT_BIT", u_int)
    ∷ (txt "SQL_CONVERT_CHAR", u_int)
    ∷ (txt "SQL_CONVERT_DATE", u_int)
    ∷ (txt "SQL_CONVERT_DECIMAL", u_int)
    ∷ (txt "SQL_CONVERT_DOUBLE", u_int)
    ∷ (txt "SQL_CONVERT_INTEGER", u_int)
    ∷ (txt "SQL_CONVERT_LONGVARBINARY", u_int)
    ∷ (txt "SQL_CONVERT_LONGVARCHAR", u_int)
    ∷ (txt "SQL_CONVERT_NUMERIC", u_int)
    ∷ (txt "SQL_CONVERT_REAL", u_int)
    ∷ (txt "SQL_CONVERT_SMALLINT", u_int)
    ∷ (txt "SQL_CONVERT_TIME", u_int)
    ∷ (txt "SQL_CONVERT_TIMESTAMP", u_int)
    ∷ (txt "SQL_CONVERT_TINYINT", u_int)
    ∷ (txt "SQL_CONVERT_VARBINARY", u_int)
    ∷ (txt "SQL_CONVERT_VARCHAR", u_int)
    ∷ []

abbrev pub conversion_names_v_3 : Registrations
conversion_names_v_3 =
    (txt "SQL_CONVERT_INTERVAL_YEAR_MONTH", u_int)
    ∷ (txt "SQL_CONVERT_INTERVAL_DAY_TIME", u_int)
    ∷ []

unfoldable pub register_conversion_properties : OdbcVersion → Action Props (Unit {0})
register_conversion_properties version = do
  register_each conversion conversion_names
  when (at_least_v_3 version) (do
    register_each conversion conversion_names_v_3
    mark_on_postgresql
        (txt "SQL_CONVERT_INTERVAL_YEAR_MONTH" ∷ txt "SQL_CONVERT_INTERVAL_DAY_TIME" ∷ []))
