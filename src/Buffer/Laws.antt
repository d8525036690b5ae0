-- ===== src/Buffer/Laws.antt =====
-- What the created buffers are (src/ColumnBuffer.cpp).
use exodbc.Prelude.{◌-◌, ◌^◌, ◌<◌, ◌≡◌, Bool, true, false, arith, ◌⊎◌, inl, inr}
use exodbc.Prelude.Texts.{Text}
use exodbc.Odbc.{ok, raised, assertion}
use exodbc.SqlTypes.{
  SqlType, SqlCType, sql_unknown_type, sql_char, sql_varchar, sql_wchar, sql_wvarchar, sql_c_time,
  sql_c_timestamp, sql_c_wchar, sql_c_char,
}
use exodbc.Buffer.{
  is_positive, get_sql_c_type, ℤ, ColumnBuffer, ColumnInfo, pos, negsuc, sql_null_data,
}
use exodbc.Buffer.Size.{calculate_display_size}
use exodbc.Buffer.Create.{create_column_buffer_ptr, create_column_array_buffer_ptr}

-- The C type of the buffer that `CreateColumnBufferPtr` makes for a C type.
abbrev pub created_c_type : SqlCType → SqlCType
created_c_type sql_c_timestamp = sql_c_time
created_c_type c = c

-- Whenever `CreateColumnBufferPtr` returns a buffer, the buffer is not yet of an SQL type, is NULL,
-- has the given name and one element, and is of the C type that was asked for; but for
-- SQL_C_TIMESTAMP it is of the type SQL_C_TIME.
pub create_column_buffer_ptr_created :
    (c : SqlCType) (name : Text) (b : ColumnBuffer)
    → create_column_buffer_ptr c name ≡ ok b
    → (get_sql_c_type b ≡ created_c_type c)
      × (b.query_name ≡ name)
      × (b.cb ≡ sql_null_data)
      × (b.sql_type ≡ sql_unknown_type)
      × (b.nr_of_elements ≡ pos 1)
unfolding create_column_buffer_ptr get_sql_c_type
create_column_buffer_ptr_created c name b e = ground arith

-- The column sizes for which no sum of `CalculateDisplaySize` passes 2 ^ 31 - 1.
abbrev pub IsModest : ℤ → Type 0
IsModest (pos n) = n < 2 ^ 30 - 1
IsModest (negsuc n) = Unit {0}

module _ (sql_no_total : ℤ) where
  -- For a column size below 2 ^ 30 - 1, whatever `CalculateDisplaySize` returns is positive.
  calculate_display_size_positive :
      (t : SqlType) (size radix digits n : ℤ)
      → IsModest size
      → calculate_display_size sql_no_total t size radix digits ≡ ok n
      → is_positive n ≡ true
  unfolding calculate_display_size
  calculate_display_size_positive t (pos s) r d n m e = ground arith
  calculate_display_size_positive t (negsuc s) r d n m e = ground arith

-- The SQL types of character data.
abbrev pub is_character : SqlType → Bool
is_character sql_char = true
is_character sql_varchar = true
is_character sql_wchar = true
is_character sql_wvarchar = true
is_character _ = false

-- For a column of character data whose size is reported as 2 ^ 31 - 1, as for texts with no limit,
-- the sum for the terminating zero wraps around, and no array buffer can be created: neither of the
-- type SQL_C_CHAR nor of the type SQL_C_WCHAR. SQL_NO_TOTAL is -4.
pub create_column_array_buffer_ptr_unlimited :
    (sql_no_total : ℤ) (c : SqlCType) (name : Text) (i : ColumnInfo)
    → sql_no_total ≡ negsuc 3
    → (c ≡ sql_c_char) ⊎ (c ≡ sql_c_wchar)
    → is_character i.sql_type ≡ true
    → i.is_column_size_null ≡ false
    → i.column_size ≡ pos (2 ^ 31 - 1)
    → create_column_array_buffer_ptr sql_no_total c name i ≡ raised assertion
unfolding create_column_array_buffer_ptr
create_column_array_buffer_ptr_unlimited m c name i em (inl ec) h known size = ground arith
create_column_array_buffer_ptr_unlimited m c name i em (inr ec) h known size = ground arith
