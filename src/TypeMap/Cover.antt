-- ===== src/TypeMap/Cover.antt =====
-- The default map of src/Sql2BufferTypeMap.cpp and the buffers of src/ColumnBuffer.cpp together.
use exodbc.Prelude.{◌≡◌, refl, sym, ap, Bool, true, false, arith, if◌then◌else◌}
use exodbc.Prelude.Texts.{Text}
use exodbc.Odbc.{Result, assertion, ok, raised}
use exodbc.SqlTypes.{
  is_array_type, at_least_v_3, SqlType, SqlCType, OdbcVersion, sql_unknown_type, sql_c_ushort,
  sql_c_sshort, sql_c_ulong, sql_c_slong, sql_c_ubigint, sql_c_sbigint, sql_c_type_time, sql_c_time,
  sql_c_type_date, sql_c_date, sql_c_type_timestamp, sql_c_timestamp, sql_c_numeric, sql_c_double,
  sql_c_float, sql_c_wchar, sql_c_char, sql_c_binary, other_c_type, unknown_version, v_2, v_3,
  v_3_8,
}
use mathlib.Core.Path.{subst}
use exodbc.Buffer.Size.{sql_no_total_buffer_length}
use exodbc.Buffer.{
  is_positive, eq_ℤ, get_sql_c_type, new_column_buffer, ℤ, Variant, ColumnBuffer, ColumnInfo, pos,
  wchar_buffer, char_buffer, binary_buffer,
}
use exodbc.Buffer.Create.{
  create_column_buffer_ptr, new_array_buffer, array_size, sized, create_column_array_buffer_ptr,
}
use exodbc.TypeMap.{get_buffer_type}
use exodbc.TypeMap.Defaults.{default_sql2_buffer_map}

-- The C types with a buffer of their own.
abbrev has_buffer : SqlCType → Bool
has_buffer sql_c_timestamp = false
has_buffer (other_c_type n) = false
has_buffer _ = true

-- A buffer of this type has been created.
abbrev pub Created : SqlCType → Result ColumnBuffer → Type 0
Created c (ok b) = get_sql_c_type b ≡ c
Created c (raised e) = ⊥

-- As the source creates a buffer for a column: an array for the types of texts and bytes.
abbrev pub created : ℤ → SqlCType → Text → ColumnInfo → Result ColumnBuffer
created sql_no_total c name i =
    if is_array_type c
    then create_column_array_buffer_ptr sql_no_total c name i
    else create_column_buffer_ptr c name

array-Created :
    (nt n : ℤ) (v : Variant) (name : Text) (c : SqlCType)
    → get_sql_c_type (new_column_buffer v name sql_unknown_type) ≡ c
    → is_positive n ≡ true
    → Created c (new_array_buffer nt v n name sql_unknown_type)
unfolding new_array_buffer get_sql_c_type new_column_buffer
array-Created nt n v name c e k =
    let fits : is_positive (if eq_ℤ n nt then pos sql_no_total_buffer_length else n) ≡ true =
      ground (arith, k) in
    let b = record (new_column_buffer v name sql_unknown_type) {
      nr_of_elements = if eq_ℤ n nt then pos sql_no_total_buffer_length else n;
    } in
    subst (Created c) (sym (ap (λ t. if t then ok b else raised assertion) fits)) e

has_buffer-created :
    (nt n : ℤ) (c : SqlCType) (name : Text) (i : ColumnInfo)
    → has_buffer c ≡ true
    → array_size nt i ≡ ok n
    → is_positive n ≡ true
    → i.is_column_size_null ≡ false
    → is_positive i.column_size ≡ true
    → Created c (created nt c name i)
unfolding create_column_buffer_ptr create_column_array_buffer_ptr get_sql_c_type new_column_buffer
has_buffer-created nt n sql_c_ushort name i h a k z p = refl
has_buffer-created nt n sql_c_sshort name i h a k z p = refl
has_buffer-created nt n sql_c_ulong name i h a k z p = refl
has_buffer-created nt n sql_c_slong name i h a k z p = refl
has_buffer-created nt n sql_c_ubigint name i h a k z p = refl
has_buffer-created nt n sql_c_sbigint name i h a k z p = refl
has_buffer-created nt n sql_c_type_time name i h a k z p = refl
has_buffer-created nt n sql_c_time name i h a k z p = refl
has_buffer-created nt n sql_c_type_date name i h a k z p = refl
has_buffer-created nt n sql_c_date name i h a k z p = refl
has_buffer-created nt n sql_c_type_timestamp name i h a k z p = refl
has_buffer-created nt n sql_c_numeric name i h a k z p = refl
has_buffer-created nt n sql_c_double name i h a k z p = refl
has_buffer-created nt n sql_c_float name i h a k z p = refl
has_buffer-created nt n sql_c_timestamp name i h a k z p = absurd (ground (arith, h))
has_buffer-created nt n (other_c_type x) name i h a k z p = absurd (ground (arith, h))
has_buffer-created nt n sql_c_char name i h a k z p =
    subst (λ r. Created sql_c_char (sized nt char_buffer r name)) (sym a)
      (array-Created nt n char_buffer name sql_c_char refl k)
has_buffer-created nt n sql_c_wchar name i h a k z p =
    subst (λ r. Created sql_c_wchar (sized nt wchar_buffer r name)) (sym a)
      (array-Created nt n wchar_buffer name sql_c_wchar refl k)
has_buffer-created nt n sql_c_binary name i h a k z p =
    subst
      (λ t. Created sql_c_binary (
        if t
        then raised assertion
        else new_array_buffer nt binary_buffer i.column_size name sql_unknown_type))
      (sym z) (array-Created nt i.column_size binary_buffer name sql_c_binary refl p)

default_has_buffer :
    (v : OdbcVersion) (t : SqlType) (c : SqlCType)
    → at_least_v_3 v ≡ true
    → get_buffer_type t (default_sql2_buffer_map v) ≡ ok c
    → has_buffer c ≡ true
unfolding get_buffer_type default_sql2_buffer_map
default_has_buffer unknown_version t c h e = cc
default_has_buffer v_2 t c h e = cc
default_has_buffer v_3 t c h e = ground arith
default_has_buffer v_3_8 t c h e = ground arith

-- For an environment of ODBC 3 or later, and a column with a positive size for which a positive
-- display size can be calculated: when the default map has a C type for an SQL type, a buffer is
-- created of just that type, an array of it for texts and bytes.
pub default_buffer_v_3 :
    (sql_no_total n : ℤ) (v : OdbcVersion) (t : SqlType) (c : SqlCType) (name : Text)
    (i : ColumnInfo)
    → at_least_v_3 v ≡ true
    → get_buffer_type t (default_sql2_buffer_map v) ≡ ok c
    → array_size sql_no_total i ≡ ok n
    → is_positive n ≡ true
    → i.is_column_size_null ≡ false
    → is_positive i.column_size ≡ true
    → Created c (created sql_no_total c name i)
default_buffer_v_3 nt n v t c name i h e a k z p =
    has_buffer-created nt n c name i (default_has_buffer v t c h e) a k z p
