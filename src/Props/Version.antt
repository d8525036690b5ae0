-- ===== src/Props/Version.antt =====
-- `ParseOdbcVersion`, `DetectDbms` and `GetStringValue` of src/SqlInfoProperty.cpp, and
-- `operator<<` and `operator>>` of `OdbcVersion` in src/exOdbc.cpp.
use exodbc.Prelude.{
  ℕ, Bool, false, ◌&&◌, ◌||◌, Option, some, List, [], ◌∷◌, ◌++◌, leb, if◌then◌else◌,
}
use exodbc.Prelude.Texts.{Text, txt}
use exodbc.Odbc.{}
use exodbc.SqlTypes.{
  OdbcVersion, DatabaseProduct, unknown_version, v_2, v_3, v_3_8, unknown_product, ms_sql_server,
  my_sql, db2, excel, access, postgresql,
}
use exodbc.Buffer.{ℤ, pos, negsuc}
use exodbc.Props.{Value, small_value, int_value, text_value}

-- What the source asks of boost and of the streams for texts: `split` at the dots, `lexical_cast` to
-- short, `contains`, `replace_all` (the text, what to replace, the replacement), and the digits of a
-- number to base ten and sixteen.
pub record TextLibrary : Type 0 where
  pub split : Text → List Text
  pub lexical_cast : Text → Option ℤ
  pub contains : Text → Text → Bool
  pub replace_all : Text → Text → Text → Text
  pub decimal : ℕ → Text
  pub hex : ℕ → Text

-- The comparison of a short with a number that is not negative.
abbrev pub at_least : ℤ → ℕ → Bool
at_least (pos n) m = leb m n
at_least (negsuc n) m = false

unfoldable pub version_of : ℤ → ℤ → OdbcVersion
version_of major minor =
    if at_least major 3 && at_least minor 80
    then v_3_8
    else (if at_least major 3 then v_3 else (if at_least major 2 then v_2 else unknown_version))

module _ (t : TextLibrary) where
  -- What the `try` of `ParseOdbcVersion` makes of two parts; a bad cast leaves the version unknown.
  abbrev version_of_parts : Option ℤ → Option ℤ → OdbcVersion
  version_of_parts (some major) (some minor) = version_of major minor
  version_of_parts _ _ = unknown_version

  abbrev version_of_list : List Text → OdbcVersion
  version_of_list (a ∷ b ∷ []) = version_of_parts (t.lexical_cast a) (t.lexical_cast b)
  version_of_list _ = unknown_version

  unfoldable pub parse_odbc_version : Text → OdbcVersion
  unfolding version_of
  parse_odbc_version s = version_of_list (t.split s)

  -- The visitor of `GetStringValue`
  unfoldable pub get_string_value : Value → Text
  get_string_value (small_value n) = t.decimal n ++ (txt " (0x" ++ (t.hex n ++ txt ")"))
  get_string_value (int_value n) = t.decimal n ++ (txt " (0x" ++ (t.hex n ++ txt ")"))
  get_string_value (text_value s) = s

  -- The chain of tests of `DetectDbms` on the name.
  unfoldable pub product_of_name : Text → DatabaseProduct
  product_of_name n =
      if t.contains n (txt "Microsoft SQL Server")
      then ms_sql_server
      else (if t.contains n (txt "MySQL")
          then my_sql
          else (if t.contains n (txt "DB2")
              then db2
              else (if t.contains n (txt "EXCEL")
                  then excel
                  else (if t.contains n (txt "ACCESS") || t.contains n (txt "MDBTOOLS")
                      then access
                      else (if t.contains n (txt "PostgreSQL")
                          then postgresql
                          else unknown_product)))))
