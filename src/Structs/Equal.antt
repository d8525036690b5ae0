-- ===== src/Structs/Equal.antt =====
-- When timestamps of src/SqlStructHelper.cpp are equal.
use exodbc.Prelude.{
  ℕ, ◌<◌, ◌≡◌, refl, sym, ap, ◌∙◌, inl, inr, true, false, ◌&&◌, [], ◌∷◌, ◌++◌, arith, ◌==◌,
  Bool-cases, and_true, length,
}
use exodbc.Prelude.Texts.{Text, text_eq, text_eq_sound, text_eq_refl}
use mathlib.Core.Path.{subst}
use exodbc.Buffer.{eq_ℤ, ℤ, pos, negsuc}
use exodbc.Structs.{is_timestamp_equal, timestamp_to_sql_string, TimestampStruct, Formats}

-- What the documents of printf say of these formats.
pub record FormatLaws (f : Formats) : Type 0 where
  pub two_width : (n : ℕ) → n < 100 → length (f.two_digits n) ≡ 2
  pub four_width : (n : ℕ) → n < 10000 → length (f.four_digits (pos n)) ≡ 4
  pub two_same : (m n : ℕ) → m < 100 → n < 100 → f.two_digits m ≡ f.two_digits n → m ≡ n
  pub four_same :
      (m n : ℕ) → m < 10000 → n < 10000 → f.four_digits (pos m) ≡ f.four_digits (pos n) → m ≡ n

-- The fields have at most two digits, and the year has at most four and no sign.
abbrev YearFits : ℤ → Type 0
YearFits (pos n) = n < 10000
YearFits (negsuc n) = ⊥

abbrev pub FieldsFit : TimestampStruct → Type 0
FieldsFit t =
    (t.hour < 100)
    × (t.minute < 100)
    × (t.second < 100)
    × (t.day < 100)
    × (t.month < 100)
    × YearFits t.year

-- Texts that are equal, with beginnings of the same length.
same_parts : (s t x y : Text) → length s ≡ length t → s ++ x ≡ t ++ y → (s ≡ t) × (x ≡ y)
same_parts [] [] x y l e = (refl, e)
same_parts [] (c ∷ t) x y l e = absurd (ground (arith, l))
same_parts (c ∷ s) [] x y l e = absurd (ground (arith, l))
same_parts (c ∷ s) (b ∷ t) x y l e =
    let heads : c ≡ b = ground (arith, e) in
    let tails : s ++ x ≡ t ++ y = ground (arith, e) in
    let (p, q) = same_parts s t x y (ground (arith, l)) tails in (ground (arith, heads, p), q)

eq_ℤ-sound : (m n : ℤ) → eq_ℤ m n ≡ true → m ≡ n
eq_ℤ-sound (pos m) (pos n) e = ap pos (ground (arith, e))
eq_ℤ-sound (negsuc m) (negsuc n) e = ap negsuc (ground (arith, e))
eq_ℤ-sound (pos m) (negsuc n) e = absurd (ground (arith, e))
eq_ℤ-sound (negsuc m) (pos n) e = absurd (ground (arith, e))

eq_ℤ-refl : (m : ℤ) → eq_ℤ m m ≡ true
eq_ℤ-refl (pos m) = ground arith
eq_ℤ-refl (negsuc m) = ground arith

equal_sound : (s t : TimestampStruct) → is_timestamp_equal s t ≡ true → s ≡ t
unfolding is_timestamp_equal
equal_sound s t e =
    let hours : s.hour ≡ t.hour = ground (arith, e) in
    let minutes : s.minute ≡ t.minute = ground (arith, e) in
    let seconds : s.second ≡ t.second = ground (arith, e) in
    let fractions : s.fraction ≡ t.fraction = ground (arith, e) in
    let days : s.day ≡ t.day = ground (arith, e) in
    let months : s.month ≡ t.month = ground (arith, e) in
    let years : eq_ℤ s.year t.year ≡ true = ground (arith, e) in
    λ i. record {
      hour = hours i;
      minute = minutes i;
      second = seconds i;
      fraction = fractions i;
      day = days i;
      month = months i;
      year = eq_ℤ-sound s.year t.year years i;
    }

equal_refl : (s : TimestampStruct) → is_timestamp_equal s s ≡ true
unfolding is_timestamp_equal
equal_refl s = ground (arith, eq_ℤ-refl s.year)

module _ (f : Formats) (l : FormatLaws f) where
  -- A field of two digits, a mark of one byte, and what follows.
  same_field :
      (m n b : ℕ) (x y : Text)
      → m < 100
      → n < 100
      → f.two_digits m ++ (b ∷ x) ≡ f.two_digits n ++ (b ∷ y)
      → (m ≡ n) × (x ≡ y)
  same_field m n b x y j k e =
      let (p, q) =
        same_parts (f.two_digits m) (f.two_digits n) (b ∷ x) (b ∷ y)
          (l.two_width m j ∙ sym (l.two_width n k)) e in
      (l.two_same m n j k p, ground (arith, q))

  same_year :
      (m n : ℤ) (b : ℕ) (x y : Text)
      → YearFits m
      → YearFits n
      → f.four_digits m ++ (b ∷ x) ≡ f.four_digits n ++ (b ∷ y)
      → (m ≡ n) × (x ≡ y)
  same_year (pos m) (pos n) b x y j k e =
      let (p, q) =
        same_parts (f.four_digits (pos m)) (f.four_digits (pos n)) (b ∷ x) (b ∷ y)
          (l.four_width m j ∙ sym (l.four_width n k)) e in
      (ap pos (l.four_same m n j k p), ground (arith, q))
  same_year (negsuc m) n b x y j k e = absurd j
  same_year (pos m) (negsuc n) b x y j k e = absurd k

  -- Timestamps with the same text.
  same_texts :
      (s t : TimestampStruct)
      → FieldsFit s
      → FieldsFit t
      → timestamp_to_sql_string f s false ≡ timestamp_to_sql_string f t false
      → s.fraction ≡ t.fraction
      → s ≡ t
  unfolding timestamp_to_sql_string
  same_texts s t (h, mi, se, d, mo, y) (h', mi', se', d', mo', y') e fr =
      let (year, r1) = same_year s.year t.year _ _ _ y y' e in
      let (month, r2) = same_field s.month t.month _ _ _ mo mo' r1 in
      let (day, r3) = same_field s.day t.day _ _ _ d d' r2 in
      let (hour, r4) = same_field s.hour t.hour _ _ _ h h' r3 in
      let (minute, r5) = same_field s.minute t.minute _ _ _ mi mi' r4 in
      let second = l.two_same s.second t.second se se' r5 in
      λ i. record {
        hour = hour i;
        minute = minute i;
        second = second i;
        fraction = fr i;
        day = day i;
        month = month i;
        year = year i;
      }

  same_fractions :
      (s t : TimestampStruct)
      → FieldsFit s
      → FieldsFit t
      → (text_eq (timestamp_to_sql_string f s false) (timestamp_to_sql_string f t false)
          && s.fraction == t.fraction)
        ≡ true
      → s ≡ t
  same_fractions s t a b e =
      let (texts, fractions) =
        and_true (text_eq (timestamp_to_sql_string f s false) (timestamp_to_sql_string f t false))
          (s.fraction == t.fraction) e in
      same_texts s t a b
        (text_eq_sound (timestamp_to_sql_string f s false) (timestamp_to_sql_string f t false)
          texts)
        (ground (arith, fractions))

  -- For timestamps whose fields have two digits at most, and the year four and no sign,
  -- `IsTimestampEqual` is true exactly if the texts of `TimestampToSqlString` without the fraction are the
  -- same and the fractions are equal.
  pub is_timestamp_equal_lem :
      (s t : TimestampStruct)
      → FieldsFit s
      → FieldsFit t
      → is_timestamp_equal s t ≡ (
          text_eq (timestamp_to_sql_string f s false) (timestamp_to_sql_string f t false)
          && s.fraction == t.fraction)
  is_timestamp_equal_lem s t a b = elim (Bool-cases (is_timestamp_equal s t)) [
    | inl e ↦
        e
        ∙ sym (
            subst
              (λ x.
                (text_eq (timestamp_to_sql_string f s false) (timestamp_to_sql_string f x false)
                  && s.fraction == x.fraction)
                ≡ true)
              (equal_sound s t e)
              (ground (arith, text_eq_refl (timestamp_to_sql_string f s false))))
    | inr n ↦
        n
        ∙ sym
            (elim (Bool-cases (
              text_eq (timestamp_to_sql_string f s false) (timestamp_to_sql_string f t false)
              && s.fraction == t.fraction)) [
                | inr other ↦ other
                | inl same ↦ absurd (
                    ground (
                      arith,
                      n,
                      ap (is_timestamp_equal s) (same_fractions s t a b same),
                      equal_refl s,
                    ))
              ])
  ]
