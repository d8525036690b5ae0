-- ===== src/Structs.antt =====
-- The structures for dates and times of src/SqlStructHelper.cpp.
pub mod Equal
use exodbc.Prelude.{ℕ, zero, suc, ◌+◌, Bool, ◌&&◌, List, [], ◌∷◌, ◌++◌, ◌==◌, if◌then◌else◌}
use exodbc.Prelude.Texts.{Text, txt}
use exodbc.Buffer.{eq_ℤ, ℤ, pos}

-- SQL_TIME_STRUCT, SQL_DATE_STRUCT and SQL_TIMESTAMP_STRUCT
pub record TimeStruct : Type 0 where
  pub hour : ℕ
  pub minute : ℕ
  pub second : ℕ

pub record DateStruct : Type 0 where
  pub day : ℕ
  pub month : ℕ
  pub year : ℤ

pub record TimestampStruct : Type 0 where
  pub hour : ℕ
  pub minute : ℕ
  pub second : ℕ
  pub fraction : ℕ
  pub day : ℕ
  pub month : ℕ
  pub year : ℤ

abbrev pub init_time : ℕ → ℕ → ℕ → TimeStruct
init_time hour minute second = record { hour = hour; minute = minute; second = second }

abbrev pub init_date : ℕ → ℕ → ℤ → DateStruct
init_date day month year = record { day = day; month = month; year = year }

abbrev pub init_timestamp : ℕ → ℕ → ℕ → ℕ → ℕ → ℕ → ℤ → TimestampStruct
init_timestamp hour minute second fraction day month year = record {
  hour = hour;
  minute = minute;
  second = second;
  fraction = fraction;
  day = day;
  month = month;
  year = year;
}

-- What gmtime gives: `tm`, with the months from 0 and the years from 1900.
pub record Tm : Type 0 where
  pub tm_sec : ℕ
  pub tm_min : ℕ
  pub tm_hour : ℕ
  pub tm_mday : ℕ
  pub tm_mon : ℕ
  pub tm_year : ℕ

unfoldable pub init_utc_timestamp : Tm → TimestampStruct
init_utc_timestamp t = record {
  hour = t.tm_hour;
  minute = t.tm_min;
  second = t.tm_sec;
  fraction = 0;
  day = t.tm_mday;
  month = t.tm_mon;
  year = pos (1900 + t.tm_year);
}

-- SQL_NUMERIC_STRUCT, with its SQL_MAX_NUMERIC_LEN bytes.
pub record NumericStruct : Type 0 where
  pub precision : ℕ
  pub scale : ℤ
  pub sign : ℕ
  pub val : List ℕ

abbrev pub init_numeric : ℕ → ℤ → ℕ → List ℕ → NumericStruct
init_numeric precision scale sign val = record {
  precision = precision;
  scale = scale;
  sign = sign;
  val = val;
}

abbrev zero_bytes : ℕ → List ℕ
zero_bytes zero = []
zero_bytes (suc n) = 0 ∷ zero_bytes n

abbrev pub init_null_numeric : NumericStruct
init_null_numeric = record { precision = 0; scale = pos 0; sign = 0; val = zero_bytes 16 }

unfoldable pub is_time_equal : TimeStruct → TimeStruct → Bool
is_time_equal s t = s.hour == t.hour && s.minute == t.minute && s.second == t.second

unfoldable pub is_date_equal : DateStruct → DateStruct → Bool
is_date_equal s t = s.day == t.day && s.month == t.month && eq_ℤ s.year t.year

unfoldable pub is_timestamp_equal : TimestampStruct → TimestampStruct → Bool
is_timestamp_equal s t =
    s.hour == t.hour
    && s.minute == t.minute
    && s.second == t.second
    && s.fraction == t.fraction
    && s.day == t.day
    && s.month == t.month
    && eq_ℤ s.year t.year

-- boost::format with `%02d` and `%04d`, and with `%f` for a number of billionths.
pub record Formats : Type 0 where
  pub two_digits : ℕ → Text
  pub four_digits : ℤ → Text
  pub billionths : ℕ → Text

unfoldable pub timestamp_to_sql_string : Formats → TimestampStruct → Bool → Text
timestamp_to_sql_string f t include_fraction =
    let s =
      f.four_digits t.year
      ++ (txt "-"
          ++ (f.two_digits t.month
              ++ (txt "-"
                  ++ (f.two_digits t.day
                      ++ (txt " "
                          ++ (f.two_digits t.hour
                              ++ (txt ":"
                                  ++ (f.two_digits t.minute
                                      ++ (txt ":" ++ f.two_digits t.second))))))))) in
    if include_fraction then s ++ (txt "." ++ f.billionths t.fraction) else s
