-- ===== src/TypeMap/Defaults.antt =====
-- The ready-made maps of src/Sql2BufferTypeMap.cpp. A constructor's calls of `RegisterType` are a
-- list, read from left to right.
use exodbc.Prelude.{[], ◌∷◌, if◌then◌else◌}
use exodbc.SqlTypes.{
  OdbcVersion, at_least_v_3, sql_bigint, sql_binary, sql_c_binary, sql_c_char, sql_c_date,
  sql_c_double, sql_c_float, sql_c_numeric, sql_c_sbigint, sql_c_slong, sql_c_sshort, sql_c_time,
  sql_c_timestamp, sql_c_type_date, sql_c_type_time, sql_c_type_timestamp, sql_c_wchar, sql_char,
  sql_date, sql_decimal, sql_double, sql_float, sql_integer, sql_longvarbinary, sql_numeric,
  sql_real, sql_smallint, sql_time, sql_timestamp, sql_type_date, sql_type_time, sql_type_timestamp,
  sql_varbinary, sql_varchar, sql_wchar, sql_wvarchar,
}
use exodbc.TypeMap.{Entries, TypeMap, new_type_map, register_type, set_default}

-- A sequence of calls of `RegisterType`.
unfoldable pub register_types : Entries → TypeMap → TypeMap
unfolding register_type
register_types [] t = t
register_types ((k, v) ∷ r) t = register_types r (register_type k v t)

-- What the constructor registers before it looks at the version.
abbrev pub plain_types : Entries
plain_types =
    (sql_smallint, sql_c_sshort)
    ∷ (sql_integer, sql_c_slong)
    ∷ (sql_bigint, sql_c_sbigint)
    ∷ (sql_char, sql_c_char)
    ∷ (sql_varchar, sql_c_char)
    ∷ (sql_wchar, sql_c_wchar)
    ∷ (sql_wvarchar, sql_c_wchar)
    ∷ (sql_double, sql_c_double)
    ∷ (sql_float, sql_c_double)
    ∷ (sql_real, sql_c_float)
    ∷ []

abbrev pub datetime_types_v_3 : Entries
datetime_types_v_3 =
    (sql_type_date, sql_c_type_date)
    ∷ (sql_type_time, sql_c_type_time)
    ∷ (sql_type_timestamp, sql_c_type_timestamp)
    ∷ (sql_date, sql_c_type_date)
    ∷ (sql_time, sql_c_type_time)
    ∷ (sql_timestamp, sql_c_type_timestamp)
    ∷ []

abbrev pub datetime_types_v_2 : Entries
datetime_types_v_2 =
    (sql_date, sql_c_date) ∷ (sql_time, sql_c_time) ∷ (sql_timestamp, sql_c_timestamp) ∷ []

abbrev pub binary_and_numeric_types : Entries
binary_and_numeric_types =
    (sql_binary, sql_c_binary)
    ∷ (sql_varbinary, sql_c_binary)
    ∷ (sql_longvarbinary, sql_c_binary)
    ∷ (sql_numeric, sql_c_numeric)
    ∷ (sql_decimal, sql_c_numeric)
    ∷ []

unfoldable pub default_sql2_buffer_map : OdbcVersion → TypeMap
unfolding register_types new_type_map
default_sql2_buffer_map v = register_types binary_and_numeric_types (
    register_types (if at_least_v_3 v then datetime_types_v_3 else datetime_types_v_2)
      (register_types plain_types new_type_map))

unfoldable pub wchar_sql2_buffer_map : TypeMap
unfolding set_default new_type_map
wchar_sql2_buffer_map = set_default sql_c_wchar new_type_map

unfoldable pub char_sql2_buffer_map : TypeMap
unfolding set_default new_type_map
char_sql2_buffer_map = set_default sql_c_char new_type_map

unfoldable pub char_as_wchar_sql2_buffer_map : OdbcVersion → TypeMap
unfolding default_sql2_buffer_map register_type
char_as_wchar_sql2_buffer_map v =
    register_type sql_varchar sql_c_wchar
      (register_type sql_char sql_c_wchar (default_sql2_buffer_map v))

unfoldable pub wchar_as_char_sql2_buffer_map : OdbcVersion → TypeMap
unfolding default_sql2_buffer_map register_type
wchar_as_char_sql2_buffer_map v =
    register_type sql_wvarchar sql_c_char
      (register_type sql_wchar sql_c_char (default_sql2_buffer_map v))
