-- ===== src/Props/Getters.antt =====
-- The getters of `SqlInfoProperties` in src/SqlInfoProperty.cpp.
use exodbc.Prelude.{ℕ, Bool, false, not, ltb, ◌==◌, if◌then◌else◌}
use exodbc.Prelude.Texts.{Text, txt, text_eq}
use exodbc.Odbc.{Action, ◌>>=◌, pure, throw, get, branch, bad_get}
use exodbc.SqlTypes.{OdbcVersion}
use exodbc.Props.{is_property_registered, get_property, Value, Props, small_value, int_value}
use exodbc.Props.Version.{parse_odbc_version, get_string_value, TextLibrary}

-- `boost::get<SQLUSMALLINT>` and `boost::get<SQLUINTEGER>`
abbrev pub as_small : Value → Action Props ℕ
as_small (small_value n) = pure n
as_small _ = throw bad_get

abbrev pub as_int : Value → Action Props ℕ
as_int (int_value n) = pure n
as_int _ = throw bad_get

-- SQL_TC_NONE is 0.
unfoldable pub get_supports_transactions : Action Props Bool
unfolding get_property
get_supports_transactions = do
  p ← get_property (txt "SQL_TXN_CAPABLE")
  v ← as_small p.value
  pure (not (v == 0))

-- `DB_MAX_CATALOG_NAME_LEN_DEFAULT` and its three companions.
abbrev pub max_name_len_default : ℕ
max_name_len_default = 128

-- `GetMaxCatalogNameLen` for SQL_MAX_CATALOG_NAME_LEN, and so for the other three.
unfoldable pub get_max_name_len : Text → Action Props ℕ
unfolding get_property
get_max_name_len n = do
  p ← get_property n
  v ← as_small p.value
  pure (if ltb 0 v then v else max_name_len_default)

module _ (t : TextLibrary) where
  -- `GetSchemaTerm`, `GetCatalogTerm`, `GetSearchPatternEscape`, `GetDbmsName` and `GetDriverName`,
  -- each for its property.
  unfoldable pub get_text : Text → Action Props Text
  get_text n = do p ← get_property n; pure (get_string_value t p.value)

  unfoldable pub props_support_catalogs : Action Props Bool
  props_support_catalogs = do
    s ← get
    branch (not (is_property_registered (txt "SQL_CATALOG_NAME") s)) (pure false)
        (do v ← get_text (txt "SQL_CATALOG_NAME"); pure (text_eq v (txt "Y")))

  unfoldable pub get_driver_odbc_version : Action Props OdbcVersion
  get_driver_odbc_version = do
    v ← get_text (txt "SQL_DRIVER_ODBC_VER")
    pure (parse_odbc_version t v)
