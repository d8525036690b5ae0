-- ===== src/Props/Registered/Init.antt =====
-- Which properties are registered after `Init` of src/SqlInfoProperty.cpp.
use exodbc.Prelude.{
  ℕ, ◌≡◌, inl, inr, Bool, true, false, ◌||◌, Option, List, [], ◌∷◌, arith, Bool-cases,
}
use mathlib.Core.Path.{subst}
use exodbc.Prelude.Texts.{Text, txt, text_eq, text_eq_sound}
use exodbc.Odbc.{Driver, Action, ◌>>=◌, ◌>>◌, modify, catch, Exn, sql_result}
use exodbc.Odbc.Keeps.{
  Keeps-pure, Keeps-throw, Keeps-catch, Keeps-ex_assert, Keeps-modify, Keeps-bind, Keeps,
}
use exodbc.Odbc.Triple.{Triple-Keeps, Triple-modify, Triple-bind, Triple-weaken, Triple}
use exodbc.SqlTypes.{OdbcVersion, DatabaseProduct, v_2}
use exodbc.Props.{
  new_property, is_property_registered, insert_property, register_property, read_property, InfoType,
  ValueType, SqlInfoProperty, Props,
}
use exodbc.Props.Register.Limits.{
  register_supported_sql_properties, sql_limits_names, register_sql_limits_properties,
  register_scaler_function_properties, register_conversion_properties,
}
use exodbc.Props.Register.{
  Registrations, register_each, driver_names, register_driver_properties, register_dbms_properties,
  data_source_names, register_data_source_properties,
}
use exodbc.Props.Registered.{
  IsRegistered, has, insert_property-has, insert_property-adds, get_property-IsRegistered,
  read_value-Keeps, ensure_property_read-Keeps, read_all_properties-Keeps, registered_rules,
}
use exodbc.Props.Version.{TextLibrary}
use exodbc.Props.Init.{version_failed, detect_dbms, init_for_version, driver_version, init_props}
use exodbc.Props.Getters.{}
use exodbc.Props.Typed.{}
use exodbc.Props.Typed.Init.{}

abbrev pub lists : Text → Registrations → Bool
lists n [] = false
lists n ((m, v) ∷ r) = text_eq m n || lists n r

-- `n` is registered, if `b`.
unfoldable pub Known : Text → Bool → Props → Type 0
Known n b s = b ≡ true → IsRegistered n s

abbrev pub Any : Props → Type 0
Any s = Unit

insert_property-known :
    (n : Text) (b : Bool) (q : SqlInfoProperty) (ps : List SqlInfoProperty)
    → (b ≡ true → has n ps ≡ true)
    → (text_eq q.name n || b) ≡ true
    → has n (insert_property q ps) ≡ true
insert_property-known n b q ps h e = elim (Bool-cases (text_eq q.name n)) [
  | inl same ↦
      subst (λ m. has m (insert_property q ps) ≡ true) (text_eq_sound q.name n same)
        (insert_property-adds q ps)
  | inr other ↦ insert_property-has n q ps (h (ground arith))
]

register_property-adds :
    (n : Text) (b : Bool) (i : InfoType) (m : Text) (v : ValueType)
    → Triple (Known n b) (Known n (text_eq m n || b)) Any (register_property i m v)
unfolding Known register_property is_property_registered new_property
register_property-adds n b i m v =
    Triple-modify _ (λ s h e. insert_property-known n b (new_property m i v) s.props h e)

module _ (n : Text) where
  register_each-adds :
      (b : Bool) (i : InfoType) (r : Registrations)
      → Triple (Known n b) (Known n (lists n r || b)) Any (register_each i r)
  unfolding register_each Known
  register_each-adds b i [] = record { ends = λ w h. h }
  register_each-adds b i ((m, v) ∷ r) =
      Triple-weaken _ (λ s h e. h (ground arith)) (λ s h. h)
        (Triple-bind _ _ (register_property-adds n b i m v)
          (λ x. register_each-adds (text_eq m n || b) i r))

  Triple-after :
      {A B : Type 0} {P Q : Props → Type 0} (m : Action Props A) (k : A → Action Props B)
      → Triple P Q Any m
      → ((a : A) → Keeps Q (k a))
      → Triple P Q Any (m >>= k)
  Triple-after m k t l =
      Triple-bind m k t (λ a. Triple-weaken (k a) (λ s h. h) (λ s h. tt) (Triple-Keeps (k a) (l a)))

  Known-Keeps :
      {A : Type 0} (b : Bool) (m : Action Props A) → Keeps (IsRegistered n) m → Keeps (Known n b) m
  unfolding Known
  Known-Keeps b m k = record { at = λ w h e. k.at w (h e) }

  register_first :
      (b : Bool) (i : InfoType) (r : Registrations) (k : Action Props (Unit {0}))
      → Keeps (IsRegistered n) k
      → Triple (Known n b) (Known n (lists n r || b)) Any (register_each i r >> k)
  register_first b i r k h =
      Triple-after _ _ (register_each-adds b i r) (λ x. Known-Keeps (lists n r || b) k h)

  -- What the three methods always register is registered after them.
  data_source-adds :
      (b : Bool) (v : OdbcVersion)
      → Triple
          (Known n b)
          (Known n (lists n data_source_names || b))
          Any
          (register_data_source_properties v)
  unfolding register_data_source_properties
  data_source-adds b v = search (register_first, registered_rules) depth 20 fits 5000

  driver-adds :
      (b : Bool) (v : OdbcVersion)
      → Triple (Known n b) (Known n (lists n driver_names || b)) Any (register_driver_properties v)
  unfolding register_driver_properties
  driver-adds b v = search (register_first, registered_rules) depth 20 fits 5000

  sql_limits-adds :
      (b : Bool) (v : OdbcVersion)
      → Triple
          (Known n b)
          (Known n (lists n sql_limits_names || b))
          Any
          (register_sql_limits_properties v)
  unfolding register_sql_limits_properties
  sql_limits-adds b v = search (register_first, registered_rules) depth 20 fits 5000

-- Is it among the names that `Init` registers for every version and the getters ask for?
abbrev pub listed : Text → Bool
listed n =
    lists n sql_limits_names || (lists n driver_names || (lists n data_source_names || false))

module _ (n : Text) where
  version_failed-IsRegistered : (e : Exn) → Keeps (IsRegistered n) (version_failed e)
  version_failed-IsRegistered (sql_result ret diag) = Keeps-pure v_2
  version_failed-IsRegistered _ = Keeps-throw _

module _ (d : Driver) (char_size : ℕ) (t : TextLibrary) (n : Text) where
  dbms-IsRegistered :
      (product : DatabaseProduct)
      → Keeps (IsRegistered n) (modify (λ s. record s { dbms = product }))
  unfolding is_property_registered
  dbms-IsRegistered product = Keeps-modify _ (λ s e. e)

  skip :
      {A B : Type 0} {Q : Props → Type 0} (b : Bool) (m : Action Props A) (k : A → Action Props B)
      → Keeps (IsRegistered n) m
      → ((a : A) → Triple (Known n b) Q Any (k a))
      → Triple (Known n b) Q Any (m >>= k)
  skip b m k h l =
      Triple-bind m k
        (Triple-weaken m (λ s e. e) (λ s e. tt) (Triple-Keeps m (Known-Keeps n b m h))) l

  at_end :
      {A : Type 0} (b : Bool) (m : Action Props A)
      → Keeps (IsRegistered n) m
      → Triple (Known n b) (Known n b) Any m
  at_end b m h = Triple-weaken m (λ s e. e) (λ s e. tt) (Triple-Keeps m (Known-Keeps n b m h))

  detect_dbms-IsRegistered : (h : Option ℕ) → Keeps (IsRegistered n) (detect_dbms d char_size t h)
  unfolding detect_dbms
  detect_dbms-IsRegistered h =
      Keeps-bind _ _ (ensure_property_read-Keeps n d char_size h (txt "SQL_DBMS_NAME") false) (λ x.
        Keeps-bind _ _ (get_property-IsRegistered n (txt "SQL_DBMS_NAME")) (λ p. Keeps-pure _))

  other_methods-keep :
      (v : OdbcVersion)
      → Keeps (IsRegistered n) (register_dbms_properties v)
        × Keeps (IsRegistered n) (register_supported_sql_properties v)
        × Keeps (IsRegistered n) (register_scaler_function_properties v)
        × Keeps (IsRegistered n) (register_conversion_properties v)
  unfolding register_dbms_properties register_supported_sql_properties
      register_scaler_function_properties register_conversion_properties
  other_methods-keep v = (
    search registered_rules depth 20,
    search registered_rules depth 20,
    search registered_rules depth 20,
    search registered_rules depth 20,
  )

  init_for_version-registers :
      (h : Option ℕ) (v : OdbcVersion)
      → Triple (Known n false) (Known n (listed n)) Any (init_for_version d char_size t h v)
  unfolding init_for_version
  init_for_version-registers h v =
      let (k0, k1, k2, k3) = other_methods-keep v in
      skip _ _ _ (Keeps-ex_assert _) (λ _. skip _ _ _ k0 (λ _.
        skip _ _ _ (ensure_property_read-Keeps n d char_size h _ _) (λ _.
          skip _ _ _ (detect_dbms-IsRegistered h) (λ p. skip _ _ _ (dbms-IsRegistered p) (λ _.
            Triple-bind _ _ (data_source-adds n false v) (λ _.
              Triple-bind _ _ (driver-adds n _ v) (λ _. skip _ _ _ k1 (λ _.
                Triple-bind _ _ (sql_limits-adds n _ v) (λ _. skip _ _ _ k2 (λ _.
                  skip _ _ _ k3
                    (λ _. at_end _ _ (read_all_properties-Keeps n d char_size h))))))))))))

  driver_version-IsRegistered :
      (h : Option ℕ)
      → Keeps (IsRegistered n) (catch (driver_version d char_size t h) version_failed)
  unfolding driver_version read_property
  driver_version-IsRegistered h =
      Keeps-catch _ _
        (Keeps-bind _ _ (Keeps-bind _ _ (read_value-Keeps n d char_size h _ _) (λ v. Keeps-pure _))
          (λ p. Keeps-pure _))
        (version_failed-IsRegistered n)

  pub init_props-registers :
      (h : Option ℕ) → Triple (Known n false) (Known n (listed n)) Any (init_props d char_size t h)
  unfolding init_props
  init_props-registers h = skip _ _ _ (Keeps-ex_assert _) (λ _.
      skip _ _ _ (driver_version-IsRegistered h)
        (λ v. skip _ _ _ (Keeps-ex_assert _) (λ _. init_for_version-registers h v)))
