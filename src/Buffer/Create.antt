-- ===== src/Buffer/Create.antt =====
-- `CreateColumnBufferPtr` and `CreateColumnArrayBufferPtr` of src/ColumnBuffer.cpp.
use exodbc.Prelude.{if◌then◌else◌}
use exodbc.Prelude.Texts.{Text}
use exodbc.Odbc.{Result, ok, raised, assertion, not_supported}
use exodbc.SqlTypes.{
  is_array_type, SqlType, SqlCType, sql_unknown_type, sql_c_ushort, sql_c_sshort, sql_c_ulong,
  sql_c_slong, sql_c_ubigint, sql_c_sbigint, sql_c_type_time, sql_c_time, sql_c_type_date,
  sql_c_date, sql_c_type_timestamp, sql_c_timestamp, sql_c_numeric, sql_c_double, sql_c_float,
  sql_c_wchar, sql_c_char, sql_c_binary,
}
use exodbc.Buffer.{
  is_positive, eq_ℤ, new_column_buffer, ℤ, Variant, ColumnBuffer, ColumnInfo, pos, ushort_buffer,
  short_buffer, ulong_buffer, long_buffer, ubigint_buffer, bigint_buffer, type_time_buffer,
  time_buffer, type_date_buffer, date_buffer, type_timestamp_buffer, numeric_buffer, double_buffer,
  real_buffer, wchar_buffer, char_buffer, binary_buffer,
}
use exodbc.Buffer.Size.{calculate_display_size, sql_no_total_buffer_length}

-- The buffer for one element of a C type. The case of SQL_C_TIMESTAMP is as the source has it.
unfoldable pub create_column_buffer_ptr : SqlCType → Text → Result ColumnBuffer
unfolding new_column_buffer
create_column_buffer_ptr c name = elim c [
  | sql_c_ushort ↦ ok (new_column_buffer ushort_buffer name sql_unknown_type)
  | sql_c_sshort ↦ ok (new_column_buffer short_buffer name sql_unknown_type)
  | sql_c_ulong ↦ ok (new_column_buffer ulong_buffer name sql_unknown_type)
  | sql_c_slong ↦ ok (new_column_buffer long_buffer name sql_unknown_type)
  | sql_c_ubigint ↦ ok (new_column_buffer ubigint_buffer name sql_unknown_type)
  | sql_c_sbigint ↦ ok (new_column_buffer bigint_buffer name sql_unknown_type)
  | sql_c_type_time ↦ ok (new_column_buffer type_time_buffer name sql_unknown_type)
  | sql_c_time ↦ ok (new_column_buffer time_buffer name sql_unknown_type)
  | sql_c_type_date ↦ ok (new_column_buffer type_date_buffer name sql_unknown_type)
  | sql_c_date ↦ ok (new_column_buffer date_buffer name sql_unknown_type)
  | sql_c_type_timestamp ↦ ok (new_column_buffer type_timestamp_buffer name sql_unknown_type)
  | sql_c_timestamp ↦ ok (new_column_buffer time_buffer name sql_unknown_type)
  | sql_c_numeric ↦ ok (new_column_buffer numeric_buffer name sql_unknown_type)
  | sql_c_double ↦ ok (new_column_buffer double_buffer name sql_unknown_type)
  | sql_c_float ↦ ok (new_column_buffer real_buffer name sql_unknown_type)
  | _ ↦ raised not_supported
]

module _ (sql_no_total : ℤ) where
  -- `ColumnBuffer(nrOfElements, queryName, sqlType)`
  unfoldable pub new_array_buffer : Variant → ℤ → Text → SqlType → Result ColumnBuffer
  unfolding new_column_buffer
  new_array_buffer v n name t =
      let elements = if eq_ℤ n sql_no_total then pos sql_no_total_buffer_length else n in
      if is_positive elements
      then ok (record (new_column_buffer v name t) { nr_of_elements = elements })
      else raised assertion

  -- The sizes that are null count as 0.
  unfoldable pub array_size : ColumnInfo → Result ℤ
  unfolding calculate_display_size
  array_size i =
      calculate_display_size sql_no_total i.sql_type
        (if i.is_column_size_null then pos 0 else i.column_size)
        (if i.is_num_prec_radix_null then pos 0 else i.num_prec_radix)
        (if i.is_decimal_digits_null then pos 0 else i.decimal_digits)

  abbrev pub sized : Variant → Result ℤ → Text → Result ColumnBuffer
  sized v (ok n) name = new_array_buffer v n name sql_unknown_type
  sized v (raised e) name = raised e

  unfoldable pub create_column_array_buffer_ptr : SqlCType → Text → ColumnInfo → Result ColumnBuffer
  unfolding new_array_buffer array_size
  create_column_array_buffer_ptr c name i =
      if is_array_type c
      then elim c [
        | sql_c_char ↦ sized char_buffer (array_size i) name
        | sql_c_wchar ↦ sized wchar_buffer (array_size i) name
        | sql_c_binary ↦
            if i.is_column_size_null
            then raised assertion
            else new_array_buffer binary_buffer i.column_size name sql_unknown_type
        | _ ↦ raised not_supported
      ]
      else raised assertion
