-- ===== src/Tests/Types.antt =====
-- Types, buffers and flags at concrete inputs.
use exodbc.Prelude.{not, ◌&&◌, ◌-◌, ◌^◌, ◌≡◌, refl, inl, true, false, if◌then◌else◌}
use exodbc.Prelude.Texts.{txt}
use exodbc.Odbc.{assertion, not_supported, ok, raised}
use exodbc.SqlTypes.{
  same_type, sql_unknown_type, sql_char, sql_varchar, sql_bit, sql_c_slong, sql_c_wchar, sql_c_char,
  v_3,
}
use exodbc.TypeMap.{
  contains_type, new_type_map, register_type, clear_type, get_buffer_type, TypeMap,
}
use exodbc.TypeMap.Laws.{
  get_buffer_type-register_type, get_buffer_type-clear_type, new_type_map-IsMap, operations-IsMap,
  IsMap,
}
use exodbc.TypeMap.Cover.{Created, created, default_buffer_v_3}
use exodbc.TypeMap.Defaults.{default_sql2_buffer_map}
use exodbc.Buffer.{
  get_sql_c_type, new_column_buffer, ColumnInfo, pos, negsuc, long_buffer, sql_null_data,
}
use exodbc.Buffer.Size.{calculate_display_size}
use exodbc.Buffer.Create.{create_column_buffer_ptr, array_size, create_column_array_buffer_ptr}
use exodbc.Buffer.Laws.{create_column_buffer_ptr_created, create_column_array_buffer_ptr_unlimited}

get_buffer_type-register_type_example :
    get_buffer_type sql_char (register_type sql_char sql_c_wchar new_type_map) ≡ (
      if same_type sql_char sql_char then ok sql_c_wchar else get_buffer_type sql_char new_type_map)
get_buffer_type-register_type_example =
    get_buffer_type-register_type sql_char sql_char sql_c_wchar new_type_map

one_type : TypeMap
one_type = register_type sql_char sql_c_wchar new_type_map

one_type-IsMap : IsMap one_type
unfolding one_type
one_type-IsMap = (operations-IsMap sql_char sql_c_wchar new_type_map new_type_map-IsMap).0

get_buffer_type-clear_type_example :
    (contains_type sql_char (clear_type sql_bit one_type)
      ≡ (not (same_type sql_bit sql_char) && contains_type sql_char one_type))
    × (get_buffer_type sql_char (clear_type sql_bit one_type) ≡ (
        if same_type sql_bit sql_char
        then if one_type.has_default then ok one_type.default_buffer_type else raised not_supported
        else get_buffer_type sql_char one_type))
get_buffer_type-clear_type_example =
    get_buffer_type-clear_type sql_bit sql_char one_type one_type-IsMap

-- A text column with no limit.
abbrev named_column : ColumnInfo
named_column = record {
  column_name = txt "NAME";
  sql_type = sql_varchar;
  column_size = pos 20;
  is_column_size_null = false;
  num_prec_radix = pos 0;
  is_num_prec_radix_null = true;
  decimal_digits = pos 0;
  is_decimal_digits_null = true;
  is_nullable = txt "NO";
  is_is_nullable_null = false;
}

default_buffer_v_3_example :
    Created sql_c_char (created (negsuc 3) sql_c_char (txt "NAME") named_column)
unfolding get_buffer_type default_sql2_buffer_map array_size calculate_display_size
default_buffer_v_3_example =
    default_buffer_v_3 (negsuc 3) (pos 21) v_3 sql_varchar sql_c_char (txt "NAME") named_column refl
      refl refl refl refl refl

create_column_buffer_ptr_created_example :
    (get_sql_c_type (new_column_buffer long_buffer (txt "ID") sql_unknown_type) ≡ sql_c_slong)
    × (txt "ID" ≡ txt "ID")
    × (sql_null_data ≡ sql_null_data)
    × (sql_unknown_type ≡ sql_unknown_type)
    × (pos 1 ≡ pos 1)
unfolding create_column_buffer_ptr new_column_buffer
create_column_buffer_ptr_created_example =
    create_column_buffer_ptr_created sql_c_slong (txt "ID")
      (new_column_buffer long_buffer (txt "ID") sql_unknown_type) refl

abbrev unlimited : ColumnInfo
unlimited = record {
  column_name = txt "NOTE";
  sql_type = sql_varchar;
  column_size = pos (2 ^ 31 - 1);
  is_column_size_null = false;
  num_prec_radix = pos 10;
  is_num_prec_radix_null = true;
  decimal_digits = pos 0;
  is_decimal_digits_null = true;
  is_nullable = txt "YES";
  is_is_nullable_null = false;
}

create_column_array_buffer_ptr_unlimited_example :
    create_column_array_buffer_ptr (negsuc 3) sql_c_char (txt "NOTE") unlimited ≡ raised assertion
create_column_array_buffer_ptr_unlimited_example =
    create_column_array_buffer_ptr_unlimited (negsuc 3) sql_c_char (txt "NOTE") unlimited refl
      (inl refl) refl refl refl
