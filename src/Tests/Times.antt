-- ===== src/Tests/Times.antt =====
-- Timestamps and their texts at concrete inputs.
use exodbc.Prelude.{
  ℕ, zero, suc, ◌+◌, ◌/◌, ◌%◌, ◌<◌, ◌≡◌, refl, ap, false, ◌&&◌, [], ◌∷◌, arith, ◌==◌,
}
use exodbc.Prelude.Texts.{Text, text_eq}
use exodbc.Buffer.{ℤ, pos, negsuc}
use exodbc.Structs.{
  init_timestamp, is_timestamp_equal, timestamp_to_sql_string, TimestampStruct, Formats,
}
use exodbc.Structs.Equal.{is_timestamp_equal_lem, FormatLaws}

abbrev digit : ℕ → ℕ
digit n = n % 10 + 48

abbrev two_places : ℕ → Text
two_places n = digit (n / 10) ∷ digit n ∷ []

abbrev four_places : ℤ → Text
four_places (pos n) = digit (n / 1000) ∷ digit (n / 100) ∷ two_places n
four_places (negsuc n) = b'-' ∷ digit (suc n / 100) ∷ two_places (suc n)

abbrev digits : Formats
digits = record { two_digits = two_places; four_digits = four_places; billionths = λ n. n ∷ [] }

abbrev byte_at : ℕ → Text → ℕ
byte_at n [] = 0
byte_at zero (c ∷ s) = c
byte_at (suc n) (c ∷ s) = byte_at n s

byte : (i : ℕ) {s t : Text} → s ≡ t → byte_at i s ≡ byte_at i t
byte i e = ap (byte_at i) e

two_digits_same :
    (m n : ℕ) → digit (m / 10) ≡ digit (n / 10) → digit m ≡ digit n → m < 100 → n < 100 → m ≡ n
two_digits_same m n a b j k = omega (arith, a, b, j, k)

four_digits_same :
    (m n : ℕ)
    → digit (m / 1000) ≡ digit (n / 1000)
    → digit (m / 100) ≡ digit (n / 100)
    → digit (m / 10) ≡ digit (n / 10)
    → digit m ≡ digit n
    → m < 10000
    → n < 10000
    → m ≡ n
four_digits_same m n a b c e j k = omega (arith, a, b, c, e, j, k)

digits-FormatLaws : FormatLaws digits
digits-FormatLaws = record {
  two_width = λ n k. refl;
  four_width = λ n k. refl;
  two_same = λ m n j k e. two_digits_same m n (byte 0 e) (byte 1 e) j k;
  four_same = λ m n j k e. four_digits_same m n (byte 0 e) (byte 1 e) (byte 2 e) (byte 3 e) j k;
}

abbrev november_26 : TimestampStruct
november_26 = init_timestamp 12 30 15 500 26 11 (pos 2014)

abbrev november_27 : TimestampStruct
november_27 = init_timestamp 12 30 15 500 27 11 (pos 2014)

is_timestamp_equal_lem_example : is_timestamp_equal november_26 november_27 ≡ (
    text_eq
      (timestamp_to_sql_string digits november_26 false)
      (timestamp_to_sql_string digits november_27 false)
    && 500 == 500)
is_timestamp_equal_lem_example =
    is_timestamp_equal_lem digits digits-FormatLaws november_26 november_27
      (ground arith, ground arith, ground arith, ground arith, ground arith, ground arith)
      (ground arith, ground arith, ground arith, ground arith, ground arith, ground arith)
