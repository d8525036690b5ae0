-- ===== src/Props/Typed/Init.antt =====
-- `IsTyped` through `Init` of src/SqlInfoProperty.cpp, and what the getters then give.
use exodbc.Prelude.{ℕ, ◌≡◌, true, false, Option, List, [], ◌∷◌, and_true}
use exodbc.Prelude.Texts.{Text, txt, text_eq}
use exodbc.Odbc.{Driver, pure, catch, Exn, sql_result}
use exodbc.Odbc.Keeps.{
  Keeps-pure, Keeps-throw, Keeps-catch, Keeps-get, Keeps-ex_assert, Keeps-when, Keeps-modify,
  Keeps-bind, Keeps, keeps_rules,
}
use exodbc.SqlTypes.{OdbcVersion, v_2}
use exodbc.Props.{new_property, store, register_property, mark_as_unsupported, InfoType, ValueType}
use exodbc.Props.Register.Limits.{
  register_supported_sql_properties, register_sql_limits_properties,
  register_scaler_function_properties, register_conversion_properties,
}
use exodbc.Props.Register.{
  Registrations, register_each, mark_each, mark_on_postgresql, register_driver_properties,
  register_dbms_properties, register_data_source_properties,
}
use exodbc.Props.Version.{get_string_value, product_of_name, TextLibrary}
use exodbc.Props.Init.{version_failed, detect_dbms, init_for_version, driver_version, init_props}
use exodbc.Props.Getters.{}
use exodbc.Props.Typed.{
  fits_name, IsTyped, all_fit, insert_property-Fits, initial_value-Fits, get_property-IsTyped,
  store-IsTyped, read_property-IsTyped, ensure_property_read-IsTyped, read_all_properties-IsTyped,
}

register_property-IsTyped :
    (i : InfoType) (n : Text) (v : ValueType)
    → fits_name n v ≡ true
    → Keeps IsTyped (register_property i n v)
unfolding register_property new_property
register_property-IsTyped i n v e =
    Keeps-modify _ (λ s t. insert_property-Fits _ s.props (initial_value-Fits v, e) t)

register_each-IsTyped :
    (i : InfoType) (r : Registrations) → all_fit r ≡ true → Keeps IsTyped (register_each i r)
unfolding register_each
register_each-IsTyped i [] e = Keeps-pure tt
register_each-IsTyped i ((n, v) ∷ r) e =
    let both = and_true (fits_name n v) (all_fit r) e in
    Keeps-bind _ _ (register_property-IsTyped i n v both.0) (λ x. register_each-IsTyped i r both.1)

mark_each-IsTyped : (names : List Text) → Keeps IsTyped (mark_each names)
unfolding mark_each mark_as_unsupported
mark_each-IsTyped [] = Keeps-pure tt
mark_each-IsTyped (n ∷ r) =
    Keeps-bind _ _
      (get_property-IsTyped n (λ p. store (record p { unsupported = true }))
        (λ p k. store-IsTyped (record p { unsupported = true }) k))
      (λ x. mark_each-IsTyped r)

mark_on_postgresql-IsTyped : (names : List Text) → Keeps IsTyped (mark_on_postgresql names)
unfolding mark_on_postgresql
mark_on_postgresql-IsTyped names =
    Keeps-bind _ _ Keeps-get (λ s. Keeps-when _ _ (λ e. mark_each-IsTyped names))

ruleset registration_rules = (register_each-IsTyped, mark_on_postgresql-IsTyped, keeps_rules)

registrations-IsTyped :
    (v : OdbcVersion)
    → Keeps IsTyped (register_dbms_properties v)
      × Keeps IsTyped (register_data_source_properties v)
      × Keeps IsTyped (register_driver_properties v)
      × Keeps IsTyped (register_supported_sql_properties v)
      × Keeps IsTyped (register_sql_limits_properties v)
      × Keeps IsTyped (register_scaler_function_properties v)
      × Keeps IsTyped (register_conversion_properties v)
unfolding register_dbms_properties register_data_source_properties register_driver_properties
    register_supported_sql_properties register_sql_limits_properties
    register_scaler_function_properties register_conversion_properties text_eq
registrations-IsTyped v = (
  search registration_rules depth 20 fits 5000,
  search registration_rules depth 20 fits 5000,
  search registration_rules depth 20 fits 5000,
  search registration_rules depth 20 fits 5000,
  search registration_rules depth 20 fits 5000,
  search registration_rules depth 20 fits 5000,
  search registration_rules depth 20 fits 5000,
)

version_failed-IsTyped : (e : Exn) → Keeps IsTyped (version_failed e)
version_failed-IsTyped (sql_result ret diag) = Keeps-pure v_2
version_failed-IsTyped _ = Keeps-throw _

module _ (d : Driver) (char_size : ℕ) (t : TextLibrary) where
  detect_dbms-IsTyped : (h : Option ℕ) → Keeps IsTyped (detect_dbms d char_size t h)
  unfolding detect_dbms
  detect_dbms-IsTyped h =
      Keeps-bind _ _ (ensure_property_read-IsTyped d char_size h (txt "SQL_DBMS_NAME") false) (λ x.
        get_property-IsTyped (txt "SQL_DBMS_NAME")
          (λ p. pure (product_of_name t (get_string_value t p.value))) (λ p k. Keeps-pure _))

  init_for_version-IsTyped :
      (h : Option ℕ) (v : OdbcVersion) → Keeps IsTyped (init_for_version d char_size t h v)
  unfolding init_for_version
  init_for_version-IsTyped h v =
      search
        (
          Keeps-ex_assert,
          Keeps-bind,
          registrations-IsTyped v,
          detect_dbms-IsTyped,
          ensure_property_read-IsTyped d char_size,
          read_all_properties-IsTyped d char_size,
        )
        depth 30 fits 9000

  driver_version-IsTyped :
      (h : Option ℕ) → Keeps IsTyped (catch (driver_version d char_size t h) version_failed)
  unfolding driver_version
  driver_version-IsTyped h =
      Keeps-catch _ _ (Keeps-bind _ _ (read_property-IsTyped d char_size h _) (λ p. Keeps-pure _))
        version_failed-IsTyped

  pub init_props-IsTyped : (h : Option ℕ) → Keeps IsTyped (init_props d char_size t h)
  unfolding init_props
  init_props-IsTyped h = Keeps-bind _ _ (Keeps-ex_assert _) (λ _.
      Keeps-bind _ _ (driver_version-IsTyped h)
        (λ v. Keeps-bind _ _ (Keeps-ex_assert _) (λ _. init_for_version-IsTyped h v)))
