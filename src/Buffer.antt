-- ===== src/Buffer.antt =====
-- include/exodbc/ColumnBuffer.h and src/ColumnBuffer.cpp: the column buffers and the functions that
-- create them. A buffer is its description here; the elements of its memory are those of
-- Buffer/Values.
pub mod Writing
pub mod Size
pub mod Values
pub mod Written
pub mod Strings
pub mod Create
pub mod Laws
use exodbc.Prelude.{ℕ, zero, suc, ◌&&◌, Bool, true, false, ◌==◌, if◌then◌else◌}
use exodbc.Prelude.Texts.{Text}
use exodbc.Flags.{Flags, cf_nullable, test}
use exodbc.SqlTypes.{
  SqlType, SqlCType, sql_c_ushort, sql_c_sshort, sql_c_ulong, sql_c_slong, sql_c_ubigint,
  sql_c_sbigint, sql_c_type_time, sql_c_time, sql_c_type_date, sql_c_date, sql_c_type_timestamp,
  sql_c_timestamp, sql_c_numeric, sql_c_double, sql_c_float, sql_c_wchar, sql_c_char, sql_c_binary,
}

-- A signed integer of the program; `negsuc n` is -(n + 1).
pub data ℤ : Type 0 where
  pos : ℕ → ℤ
  negsuc : ℕ → ℤ

abbrev pub is_positive : ℤ → Bool
is_positive (pos zero) = false
is_positive (pos (suc n)) = true
is_positive (negsuc n) = false

abbrev pub is_non_negative : ℤ → Bool
is_non_negative (pos n) = true
is_non_negative (negsuc n) = false

abbrev pub eq_ℤ : ℤ → ℤ → Bool
eq_ℤ (pos m) (pos n) = m == n
eq_ℤ (negsuc m) (negsuc n) = m == n
eq_ℤ _ _ = false

-- The alternatives of `ColumnBufferPtrVariant`.
pub data Variant : Type 0 where
  ushort_buffer short_buffer ulong_buffer long_buffer ubigint_buffer bigint_buffer : Variant
  type_time_buffer time_buffer type_date_buffer date_buffer : Variant
  type_timestamp_buffer timestamp_buffer : Variant
  numeric_buffer double_buffer real_buffer : Variant
  wchar_buffer char_buffer binary_buffer : Variant
  -- with its C type, whether its pointer is not null, and its length
  sql_c_pointer_buffer : SqlCType → Bool → ℤ → Variant

-- `LengthIndicator`: SQL_NULL_DATA, SQL_NTS or a length.
pub data LengthIndicator : Type 0 where
  sql_null_data sql_nts : LengthIndicator
  sql_len : ℕ → LengthIndicator

abbrev pub is_null_data : LengthIndicator → Bool
is_null_data sql_null_data = true
is_null_data _ = false

-- The base classes `LengthIndicator`, `ColumnFlags` and `ColumnProperties` of a buffer.
pub record ColumnBuffer : Type 0 where
  pub variant : Variant
  pub cb : LengthIndicator
  pub flags : Flags
  pub column_size : ℤ
  pub decimal_digits : ℤ
  pub sql_type : SqlType
  pub query_name : Text
  pub nr_of_elements : ℤ

-- `GetSqlCType`: the second argument of the template.
unfoldable pub get_sql_c_type : ColumnBuffer → SqlCType
get_sql_c_type b = elim b.variant [
  | ushort_buffer ↦ sql_c_ushort
  | short_buffer ↦ sql_c_sshort
  | ulong_buffer ↦ sql_c_ulong
  | long_buffer ↦ sql_c_slong
  | ubigint_buffer ↦ sql_c_ubigint
  | bigint_buffer ↦ sql_c_sbigint
  | type_time_buffer ↦ sql_c_type_time
  | time_buffer ↦ sql_c_time
  | type_date_buffer ↦ sql_c_type_date
  | date_buffer ↦ sql_c_date
  | type_timestamp_buffer ↦ sql_c_type_timestamp
  | timestamp_buffer ↦ sql_c_timestamp
  | numeric_buffer ↦ sql_c_numeric
  | double_buffer ↦ sql_c_double
  | real_buffer ↦ sql_c_float
  | wchar_buffer ↦ sql_c_wchar
  | char_buffer ↦ sql_c_char
  | binary_buffer ↦ sql_c_binary
  | sql_c_pointer_buffer c given n ↦ c
]

-- `ColumnBuffer(queryName, sqlType)`
unfoldable pub new_column_buffer : Variant → Text → SqlType → ColumnBuffer
new_column_buffer v name t = record {
  variant = v;
  cb = sql_null_data;
  flags = 0;
  column_size = pos 0;
  decimal_digits = pos 0;
  sql_type = t;
  query_name = name;
  nr_of_elements = pos 1;
}

-- `SqlCPointerBuffer(queryName, sqlType, pBuffer, sqlCType, bufferLength, flags, columnSize,
-- decimalDigits)`, with one element
unfoldable pub new_sql_c_pointer_buffer :
    Text → SqlType → Bool → SqlCType → ℤ → Flags → ℤ → ℤ → ColumnBuffer
unfolding test
new_sql_c_pointer_buffer name t given c length flags size digits = record {
  variant = sql_c_pointer_buffer c given length;
  cb = if test flags cf_nullable then sql_null_data else sql_len 0;
  flags = flags;
  column_size = size;
  decimal_digits = digits;
  sql_type = t;
  query_name = name;
  nr_of_elements = pos 1;
}

-- `pBuffer != NULL` and `bufferLen > 0`, which binding asserts: a buffer of the class `ColumnBuffer`
-- has memory for its elements.
abbrev pub has_memory : ColumnBuffer → Bool
has_memory b = elim b.variant [
  | sql_c_pointer_buffer c given n ↦ given && is_positive n
  | _ ↦ is_positive b.nr_of_elements
]

-- What a row of `SQLColumns` says of a column (include/exodbc/ColumnInfo.h), as far as buffers are
-- made from it.
pub record ColumnInfo : Type 0 where
  pub column_name : Text
  pub sql_type : SqlType
  pub column_size : ℤ
  pub is_column_size_null : Bool
  pub num_prec_radix : ℤ
  pub is_num_prec_radix_null : Bool
  pub decimal_digits : ℤ
  pub is_decimal_digits_null : Bool
  pub is_nullable : Text
  pub is_is_nullable_null : Bool
