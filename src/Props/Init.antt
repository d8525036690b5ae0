-- ===== src/Props/Init.antt =====
-- `Init` and `DetectDbms` of src/SqlInfoProperty.cpp.
use exodbc.Prelude.{ℕ, Bool, true, false, not, Option, is_some}
use exodbc.Prelude.Texts.{txt}
use exodbc.Odbc.{
  Driver, Action, ◌>>=◌, ◌>>◌, pure, throw, modify, ex_assert, catch, Exn, sql_result,
}
use exodbc.SqlTypes.{OdbcVersion, DatabaseProduct, unknown_version, v_2}
use exodbc.Props.{
  new_property, get_property, read_property, ensure_property_read, read_all_properties, Props,
  driver, string_any,
}
use exodbc.Props.Register.Limits.{
  register_supported_sql_properties, register_sql_limits_properties,
  register_scaler_function_properties, register_conversion_properties,
}
use exodbc.Props.Register.{
  register_driver_properties, register_dbms_properties, register_data_source_properties,
}
use exodbc.Props.Version.{parse_odbc_version, get_string_value, product_of_name, TextLibrary}

abbrev pub is_unknown_version : OdbcVersion → Bool
is_unknown_version unknown_version = true
is_unknown_version _ = false

-- The `catch` of `Init(pHdbc)`
abbrev pub version_failed : Exn → Action Props OdbcVersion
version_failed (sql_result ret diag) = pure v_2
version_failed e = throw e

module _ (d : Driver) (char_size : ℕ) (t : TextLibrary) where
  unfoldable pub detect_dbms : Option ℕ → Action Props DatabaseProduct
  detect_dbms h = do
    ensure_property_read d char_size h (txt "SQL_DBMS_NAME") false
    p ← get_property (txt "SQL_DBMS_NAME")
    pure (product_of_name t (get_string_value t p.value))

  -- `Init(pHdbc, odbcVersion)`
  unfoldable pub init_for_version : Option ℕ → OdbcVersion → Action Props (Unit {0})
  init_for_version h version = do
    ex_assert (is_some h)
    register_dbms_properties version
    ensure_property_read d char_size h (txt "SQL_DBMS_NAME") false
    product ← detect_dbms h
    modify (λ s. record s { dbms = product })
    register_data_source_properties version
    register_driver_properties version
    register_supported_sql_properties version
    register_sql_limits_properties version
    register_scaler_function_properties version
    register_conversion_properties version
    read_all_properties d char_size h

  -- The `try` of `Init(pHdbc)`: a property of its own is read.
  unfoldable pub driver_version : Option ℕ → Action Props OdbcVersion
  driver_version h = do
    p ← read_property d char_size h (new_property (txt "SQL_DRIVER_ODBC_VER") driver string_any)
    pure (parse_odbc_version t (get_string_value t p.value))

  -- `Init(pHdbc)`
  unfoldable pub init_props : Option ℕ → Action Props (Unit {0})
  init_props h = do
    ex_assert (is_some h)
    version ← catch (driver_version h) version_failed
    ex_assert (not (is_unknown_version version))
    init_for_version h version
