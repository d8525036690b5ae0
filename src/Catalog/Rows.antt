-- ===== src/Catalog/Rows.antt =====
-- What the rows of the catalog's result sets become: the constructors from a statement of
-- src/TableInfo.cpp, src/ColumnInfo.cpp, src/PrimaryKeyInfo.cpp and src/SqlTypeInfo.cpp.
use exodbc.Prelude.{ℕ, zero, suc, ◌-◌, ◌^◌, Option, none, some, List, [], ◌∷◌, ltb, if◌then◌else◌}
use exodbc.Prelude.Texts.{Text, txt}
use exodbc.Odbc.{}
use exodbc.SqlTypes.{SqlType, DatabaseProduct, sql_unknown_type}
use exodbc.Buffer.{ℤ, ColumnInfo, pos, negsuc}
use exodbc.Table.Info.{TableInfo}
use exodbc.Catalog.{is_null, Datum, Column, plain, limited}

-- The n-th of the data read.
abbrev missing : Datum
missing = record { number = none; text = []; sql_type = sql_unknown_type }

abbrev pub datum : ℕ → List Datum → Datum
datum n [] = missing
datum zero (x ∷ xs) = x
datum (suc n) (x ∷ xs) = datum n xs

-- A number of `w` bits with its sign in the highest; a variable that has not been written to is
-- taken to be 0.
abbrev pub signed : ℕ → Option ℕ → ℤ
signed w none = pos 0
signed w (some n) = if ltb n (2 ^ (w - 1)) then pos n else negsuc (2 ^ w - 1 - n)

abbrev max_catalog : ℕ → Column
max_catalog = limited (txt "SQL_MAX_CATALOG_NAME_LEN")

abbrev max_schema : ℕ → Column
max_schema = limited (txt "SQL_MAX_SCHEMA_NAME_LEN")

abbrev max_table : ℕ → Column
max_table = limited (txt "SQL_MAX_TABLE_NAME_LEN")

abbrev max_column : ℕ → Column
max_column = limited (txt "SQL_MAX_COLUMN_NAME_LEN")

abbrev pub table_columns : List Column
table_columns = max_catalog 1 ∷ max_schema 2 ∷ max_table 3 ∷ plain 4 ∷ plain 5 ∷ []

unfoldable pub table_info : DatabaseProduct → List Datum → TableInfo
table_info dbms xs = record {
  table_name = (datum 2 xs).text;
  table_type = (datum 3 xs).text;
  catalog_name = (datum 0 xs).text;
  schema_name = (datum 1 xs).text;
  dbms = dbms;
  is_catalog_null = is_null (datum 0 xs);
  is_schema_null = is_null (datum 1 xs);
}

-- The columns from the second number on, that many.
abbrev plain_from : ℕ → ℕ → List Column
plain_from zero n = []
plain_from (suc k) n = plain n ∷ plain_from k (suc n)

abbrev pub info_columns : List Column
info_columns = max_catalog 1 ∷ max_schema 2 ∷ max_table 3 ∷ max_column 4 ∷ plain_from 14 5

unfoldable pub column_info : List Datum → ColumnInfo
column_info xs = record {
  column_name = (datum 3 xs).text;
  sql_type = (datum 4 xs).sql_type;
  column_size = signed 32 (datum 6 xs).number;
  is_column_size_null = is_null (datum 6 xs);
  num_prec_radix = signed 16 (datum 9 xs).number;
  is_num_prec_radix_null = is_null (datum 9 xs);
  decimal_digits = signed 16 (datum 8 xs).number;
  is_decimal_digits_null = is_null (datum 8 xs);
  is_nullable = (datum 17 xs).text;
  is_is_nullable_null = is_null (datum 17 xs);
}

pub record PrimaryKeyInfo : Type 0 where
  pub column_name : Text
  pub key_sequence : ℤ

abbrev pub key_columns : List Column
key_columns = max_catalog 1 ∷ max_schema 2 ∷ max_table 3 ∷ max_column 4 ∷ plain 5 ∷ plain 6 ∷ []

unfoldable pub primary_key_info : List Datum → PrimaryKeyInfo
primary_key_info xs = record {
  column_name = (datum 3 xs).text;
  key_sequence = signed 16 (datum 4 xs).number;
}

pub record SqlTypeInfo : Type 0 where
  pub sql_type : SqlType
  pub sql_data_type : SqlType

abbrev pub type_columns : List Column
type_columns = plain_from 19 1

unfoldable pub sql_type_info : List Datum → SqlTypeInfo
sql_type_info xs = record {
  sql_type = (datum 1 xs).sql_type;
  sql_data_type = (datum 15 xs).sql_type;
}
