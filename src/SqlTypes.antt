-- ===== src/SqlTypes.antt =====
-- The SQL types, the SQL C types and the database products that the program names. The constants
-- stand in one `switch` of src/Sql2StringHelper.cpp each, so they are distinct numbers; a number
-- with no name in the program is `other_type n`.
use exodbc.Prelude.{ℕ, ◌+◌, Bool, true, false, ◌==◌}

pub data SqlType : Type 0 where
  sql_unknown_type sql_char sql_varchar sql_wchar sql_wvarchar : SqlType
  sql_decimal sql_numeric sql_smallint sql_integer sql_bigint sql_tinyint sql_bit : SqlType
  sql_real sql_float sql_double : SqlType
  sql_binary sql_varbinary sql_longvarbinary : SqlType
  sql_date sql_time sql_timestamp sql_type_date sql_type_time sql_type_timestamp : SqlType
  sql_guid : SqlType
  other_type : ℕ → SqlType

-- A number for each type, so that types can be compared.
abbrev type_key : SqlType → ℕ
type_key sql_unknown_type = 0
type_key sql_char = 1
type_key sql_varchar = 2
type_key sql_wchar = 3
type_key sql_wvarchar = 4
type_key sql_decimal = 5
type_key sql_numeric = 6
type_key sql_smallint = 7
type_key sql_integer = 8
type_key sql_bigint = 9
type_key sql_tinyint = 10
type_key sql_bit = 11
type_key sql_real = 12
type_key sql_float = 13
type_key sql_double = 14
type_key sql_binary = 15
type_key sql_varbinary = 16
type_key sql_longvarbinary = 17
type_key sql_date = 18
type_key sql_time = 19
type_key sql_timestamp = 20
type_key sql_type_date = 21
type_key sql_type_time = 22
type_key sql_type_timestamp = 23
type_key sql_guid = 24
type_key (other_type n) = 25 + n

abbrev pub same_type : SqlType → SqlType → Bool
same_type s t = type_key s == type_key t

pub data SqlCType : Type 0 where
  sql_c_ushort sql_c_sshort sql_c_ulong sql_c_slong sql_c_ubigint sql_c_sbigint : SqlCType
  sql_c_type_time sql_c_time sql_c_type_date sql_c_date : SqlCType
  sql_c_type_timestamp sql_c_timestamp : SqlCType
  sql_c_numeric sql_c_double sql_c_float : SqlCType
  sql_c_wchar sql_c_char sql_c_binary : SqlCType
  other_c_type : ℕ → SqlCType

abbrev pub is_numeric : SqlCType → Bool
is_numeric sql_c_numeric = true
is_numeric _ = false

-- `IsArrayType`
abbrev pub is_array_type : SqlCType → Bool
is_array_type sql_c_wchar = true
is_array_type sql_c_char = true
is_array_type sql_c_binary = true
is_array_type _ = false

pub data OdbcVersion : Type 0 where
  unknown_version v_2 v_3 v_3_8 : OdbcVersion

-- `odbcVersion >= OdbcVersion::V_3`
abbrev pub at_least_v_3 : OdbcVersion → Bool
at_least_v_3 v_3 = true
at_least_v_3 v_3_8 = true
at_least_v_3 _ = false

pub data DatabaseProduct : Type 0 where
  unknown_product ms_sql_server my_sql db2 excel access postgresql : DatabaseProduct

abbrev pub is_excel : DatabaseProduct → Bool
is_excel excel = true
is_excel _ = false

abbrev pub is_access : DatabaseProduct → Bool
is_access access = true
is_access _ = false

abbrev pub is_my_sql : DatabaseProduct → Bool
is_my_sql my_sql = true
is_my_sql _ = false

-- `odbcVersion >= OdbcVersion::V_3_8`
abbrev pub is_v_3_8 : OdbcVersion → Bool
is_v_3_8 v_3_8 = true
is_v_3_8 _ = false

abbrev pub is_postgresql : DatabaseProduct → Bool
is_postgresql postgresql = true
is_postgresql _ = false
