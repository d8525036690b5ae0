-- ===== src/Buffer/Size.antt =====
-- `CalculateDisplaySize` of src/ColumnBuffer.cpp. The sums are of 32-bit integers: what passes
-- 2 ^ 31 - 1 is taken to wrap around, as the compilers do.
use exodbc.Prelude.{ℕ, suc, ◌+◌, ◌-◌, ◌*◌, ◌^◌, Bool, not, ◌&&◌, ltb, if◌then◌else◌}
use exodbc.Odbc.{Result, ok, raised, assertion, not_supported}
use exodbc.SqlTypes.{
  SqlType, sql_char, sql_varchar, sql_wchar, sql_wvarchar, sql_decimal, sql_numeric, sql_smallint,
  sql_integer, sql_bigint, sql_tinyint, sql_bit, sql_real, sql_float, sql_double, sql_binary,
  sql_varbinary, sql_longvarbinary, sql_date, sql_time, sql_timestamp, sql_type_date, sql_type_time,
  sql_type_timestamp, sql_guid,
}
use exodbc.Buffer.{is_positive, is_non_negative, eq_ℤ, ℤ, pos, negsuc}

-- The value of a 32-bit signed integer with these bits.
abbrev pub int32 : ℕ → ℤ
int32 n = if ltb n (2 ^ 31) then pos n else negsuc (2 ^ 32 - n - 1)

abbrev magnitude : ℤ → ℕ
magnitude (pos n) = n
magnitude (negsuc n) = suc n

-- `SQL_NO_TOTAL_BUFFER_LENGTH`
abbrev pub sql_no_total_buffer_length : ℕ
sql_no_total_buffer_length = 65536

abbrev assert : Bool → ℤ → Result ℤ
assert b z = if b then ok z else raised assertion

-- With the decimal digits of a time or a timestamp.
abbrev fraction : ℕ → ℤ → Result ℤ
fraction n d =
    assert (is_non_negative d)
      (if eq_ℤ d (pos 0) then pos (n + 1) else pos (n + 1 + magnitude d + 1))

-- `sql_no_total` is the constant of sqlext.h.
module _ (sql_no_total : ℤ) where
  abbrev character_size : ℤ → Result ℤ
  character_size size =
      assert (not (eq_ℤ size sql_no_total) && is_positive size) (int32 (magnitude size + 1))

  abbrev binary_size : ℤ → Result ℤ
  binary_size size =
      let s = if eq_ℤ size sql_no_total then pos sql_no_total_buffer_length else size in
      assert (is_positive s) (int32 (magnitude s * 2 + 1))

  abbrev decimal_size : ℤ → ℤ → Result ℤ
  decimal_size size radix =
      assert (eq_ℤ radix (pos 10) && is_positive size) (int32 (magnitude size + 2 + 1))

  unfoldable pub calculate_display_size : SqlType → ℤ → ℤ → ℤ → Result ℤ
  calculate_display_size t size radix digits = elim t [
    | sql_char ↦ character_size size
    | sql_wchar ↦ character_size size
    | sql_varchar ↦ character_size size
    | sql_wvarchar ↦ character_size size
    | sql_numeric ↦ decimal_size size radix
    | sql_decimal ↦ decimal_size size radix
    | sql_bit ↦ ok (pos (1 + 1))
    | sql_tinyint ↦ ok (pos (4 + 1))
    | sql_smallint ↦ ok (pos (6 + 1))
    | sql_integer ↦ ok (pos (11 + 1))
    | sql_bigint ↦ ok (pos (20 + 1))
    | sql_real ↦ ok (pos (14 + 1))
    | sql_float ↦ ok (pos (24 + 1))
    | sql_double ↦ ok (pos (24 + 1))
    | sql_binary ↦ binary_size size
    | sql_varbinary ↦ binary_size size
    | sql_longvarbinary ↦ binary_size size
    | sql_type_date ↦ ok (pos (11 + 1))
    | sql_date ↦ ok (pos (11 + 1))
    | sql_type_time ↦ fraction 8 digits
    | sql_time ↦ fraction 8 digits
    | sql_type_timestamp ↦ fraction 19 digits
    | sql_timestamp ↦ fraction 19 digits
    | sql_guid ↦ ok (pos (36 + 1))
    | _ ↦ raised not_supported
  ]
