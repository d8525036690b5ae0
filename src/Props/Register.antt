-- ===== src/Props/Register.antt =====
-- The `Register...Properties` methods of src/SqlInfoProperty.cpp. A method's calls of
-- `RegisterProperty` are lists, read from left to right: those that it always makes, and those for
-- newer versions.
pub mod Limits
use exodbc.Prelude.{List, [], ◌∷◌}
use exodbc.Prelude.Texts.{Text, txt}
use exodbc.Odbc.{Action, ◌>>=◌, ◌>>◌, pure, get, when}
use exodbc.SqlTypes.{at_least_v_3, is_v_3_8, is_postgresql, OdbcVersion}
use exodbc.Props.{
  register_property, mark_as_unsupported, InfoType, ValueType, Props, driver, dbms_info,
  data_source, u_small_int, u_int, string_n_y, string_any,
}

abbrev pub Registrations : Type 0
Registrations = List (Text × ValueType)

unfoldable pub register_each : InfoType → Registrations → Action Props (Unit {0})
register_each i [] = pure tt
register_each i ((n, v) ∷ r) = register_property i n v >> register_each i r

unfoldable pub mark_each : List Text → Action Props (Unit {0})
mark_each [] = pure tt
mark_each (n ∷ r) = mark_as_unsupported n >> mark_each r

-- `if (GetDbms() == DatabaseProduct::POSTGRESQL)`
unfoldable pub mark_on_postgresql : List Text → Action Props (Unit {0})
mark_on_postgresql names = do s ← get; when (is_postgresql s.dbms) (mark_each names)

abbrev pub driver_names : Registrations
driver_names =
    (txt "SQL_DATA_SOURCE_NAME", string_any)
    ∷ (txt "SQL_DRIVER_NAME", string_any)
    ∷ (txt "SQL_DRIVER_ODBC_VER", string_any)
    ∷ (txt "SQL_DRIVER_NAME", string_any)
    ∷ (txt "SQL_FILE_USAGE", u_int)
    ∷ (txt "SQL_GETDATA_EXTENSIONS", u_int)
    ∷ (txt "SQL_MAX_CONCURRENT_ACTIVITIES", u_small_int)
    ∷ (txt "SQL_MAX_DRIVER_CONNECTIONS", u_small_int)
    ∷ (txt "SQL_ODBC_INTERFACE_CONFORMANCE", u_int)
    ∷ (txt "SQL_ODBC_VER", string_any)
    ∷ (txt "SQL_ROW_UPDATES", string_n_y)
    ∷ (txt "SQL_SEARCH_PATTERN_ESCAPE", string_any)
    ∷ (txt "SQL_SERVER_NAME", string_any)
    ∷ []

abbrev pub driver_names_v_3 : Registrations
driver_names_v_3 =
    (txt "SQL_ACTIVE_ENVIRONMENTS", u_small_int)
    ∷ (txt "SQL_ASYNC_MODE", u_int)
    ∷ (txt "SQL_ASYNC_NOTIFICATION", u_int)
    ∷ (txt "SQL_BATCH_ROW_COUNT", u_int)
    ∷ (txt "SQL_BATCH_SUPPORT", u_int)
    ∷ (txt "SQL_DYNAMIC_CURSOR_ATTRIBUTES1", u_int)
    ∷ (txt "SQL_DYNAMIC_CURSOR_ATTRIBUTES2", u_int)
    ∷ (txt "SQL_FORWARD_ONLY_CURSOR_ATTRIBUTES1", u_int)
    ∷ (txt "SQL_FORWARD_ONLY_CURSOR_ATTRIBUTES2", u_int)
    ∷ (txt "SQL_INFO_SCHEMA_VIEWS", u_int)
    ∷ (txt "SQL_KEYSET_CURSOR_ATTRIBUTES1", u_int)
    ∷ (txt "SQL_KEYSET_CURSOR_ATTRIBUTES2", u_int)
    ∷ (txt "SQL_MAX_ASYNC_CONCURRENT_STATEMENTS", u_int)
    ∷ (txt "SQL_PARAM_ARRAY_ROW_COUNTS", u_int)
    ∷ (txt "SQL_PARAM_ARRAY_SELECTS", u_int)
    ∷ (txt "SQL_STATIC_CURSOR_ATTRIBUTES1", u_int)
    ∷ (txt "SQL_STATIC_CURSOR_ATTRIBUTES2", u_int)
    ∷ []

abbrev pub driver_names_v_3_8 : Registrations
driver_names_v_3_8 =
    (txt "SQL_ASYNC_DBC_FUNCTIONS", u_int) ∷ (txt "SQL_DRIVER_AWARE_POOLING_SUPPORTED", u_int) ∷ []

unfoldable pub register_driver_properties : OdbcVersion → Action Props (Unit {0})
register_driver_properties version = do
  register_each driver driver_names
  when (at_least_v_3 version) (do
    register_each driver driver_names_v_3
    mark_on_postgresql (txt "SQL_MAX_ASYNC_CONCURRENT_STATEMENTS" ∷ []))
  when (is_v_3_8 version) (register_each driver driver_names_v_3_8)

abbrev pub dbms_names : Registrations
dbms_names =
    (txt "SQL_DATABASE_NAME", string_any)
    ∷ (txt "SQL_DBMS_NAME", string_any)
    ∷ (txt "SQL_DBMS_VER", string_any)
    ∷ []

unfoldable pub register_dbms_properties : OdbcVersion → Action Props (Unit {0})
register_dbms_properties version = register_each dbms_info dbms_names

abbrev pub data_source_names : Registrations
data_source_names =
    (txt "SQL_ACCESSIBLE_PROCEDURES", string_n_y)
    ∷ (txt "SQL_ACCESSIBLE_TABLES", string_n_y)
    ∷ (txt "SQL_BOOKMARK_PERSISTENCE", u_int)
    ∷ (txt "SQL_CATALOG_TERM", string_any)
    ∷ (txt "SQL_CONCAT_NULL_BEHAVIOR", u_int)
    ∷ (txt "SQL_CURSOR_COMMIT_BEHAVIOR", u_int)
    ∷ (txt "SQL_CURSOR_ROLLBACK_BEHAVIOR", u_int)
    ∷ (txt "SQL_DATA_SOURCE_READ_ONLY", string_n_y)
    ∷ (txt "SQL_DEFAULT_TXN_ISOLATION", u_int)
    ∷ (txt "SQL_MULTIPLE_ACTIVE_TXN", string_n_y)
    ∷ (txt "SQL_NEED_LONG_DATA_LEN", string_n_y)
    ∷ (txt "SQL_NULL_COLLATION", u_small_int)
    ∷ (txt "SQL_PROCEDURE_TERM", string_any)
    ∷ (txt "SQL_SCHEMA_TERM", string_any)
    ∷ (txt "SQL_SCROLL_OPTIONS", u_int)
    ∷ (txt "SQL_TABLE_TERM", string_any)
    ∷ (txt "SQL_TXN_CAPABLE", u_small_int)
    ∷ (txt "SQL_TXN_ISOLATION_OPTION", u_int)
    ∷ (txt "SQL_USER_NAME", string_any)
    ∷ []

abbrev pub data_source_names_v_3 : Registrations
data_source_names_v_3 =
    (txt "SQL_COLLATION_SEQ", string_any)
    ∷ (txt "SQL_CURSOR_SENSITIVITY", u_int)
    ∷ (txt "SQL_DESCRIBE_PARAMETER", string_n_y)
    ∷ []

unfoldable pub register_data_source_properties : OdbcVersion → Action Props (Unit {0})
register_data_source_properties version = do
  register_each data_source data_source_names
  when (at_least_v_3 version) (do
    register_each data_source data_source_names_v_3
    mark_on_postgresql (txt "SQL_CURSOR_SENSITIVITY" ∷ []))
