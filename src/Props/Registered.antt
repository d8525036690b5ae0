-- ===== src/Props/Registered.antt =====
-- Which properties `Init` of src/SqlInfoProperty.cpp registers: a registered property stays so.
pub mod Init
use exodbc.Prelude.{
  ℕ, ◌≡◌, Bool, true, ◌||◌, Option, none, some, List, [], ◌∷◌, ◌++◌, arith, is_some,
}
use exodbc.Prelude.Texts.{Text, text_eq, text_eq_sound, text_eq_refl}
use exodbc.Odbc.{Driver, Action, ◌>>=◌, pure, throw, Exn, sql_result, not_found}
use exodbc.Odbc.Keeps.{
  Keeps-pure, Keeps-throw, Keeps-catch, Keeps-get, Keeps-when, Keeps-modify, Keeps-bind, Keeps,
  keeps_rules,
}
use exodbc.Odbc.Triple.{}
use exodbc.SqlTypes.{}
use exodbc.Props.{
  find_property, is_property_registered, store_property, store, get_property, insert_property,
  register_property, mark_as_unsupported, read_failed, read_info_value, read_info_text, read_value,
  read_property, ensure_property_read, read_each, read_all_properties, InfoType, ValueType,
  SqlInfoProperty, Props, u_small_int, u_int, string_n_y, string_any,
}
use exodbc.Props.Register.{Registrations, register_each, mark_each, mark_on_postgresql}
use exodbc.Props.Version.{}
use exodbc.Props.Init.{}
use exodbc.Props.Typed.{}

abbrev pub IsRegistered : Text → Props → Type 0
IsRegistered n s = is_property_registered n s ≡ true

abbrev pub has : Text → List SqlInfoProperty → Bool
has n ps = is_some (find_property n ps)

find_property-append :
    (n : Text) (q : SqlInfoProperty) (ps : List SqlInfoProperty)
    → has n (ps ++ (q ∷ [])) ≡ (has n ps || text_eq q.name n)
unfolding find_property
find_property-append n q [] = ground arith
find_property-append n q (p ∷ r) = ground (arith, find_property-append n q r)

pub insert_property-has :
    (n : Text) (q : SqlInfoProperty) (ps : List SqlInfoProperty)
    → has n ps ≡ true
    → has n (insert_property q ps) ≡ true
unfolding insert_property
insert_property-has n q ps h = ground (arith, find_property-append n q ps)

pub insert_property-adds :
    (q : SqlInfoProperty) (ps : List SqlInfoProperty) → has q.name (insert_property q ps) ≡ true
unfolding insert_property
insert_property-adds q ps = ground (arith, find_property-append q.name q ps, text_eq_refl q.name)

store_property-has :
    (n : Text) (q : SqlInfoProperty) (ps : List SqlInfoProperty)
    → has n ps ≡ true
    → has n (store_property q ps) ≡ true
unfolding find_property store_property
store_property-has n q [] h = h
store_property-has n q (p ∷ r) h =
    ground (arith, store_property-has n q r, text_eq_sound p.name q.name)

module _ (n : Text) where
  store-IsRegistered : (q : SqlInfoProperty) → Keeps (IsRegistered n) (store q)
  unfolding is_property_registered
  store-IsRegistered q = Keeps-modify _ (λ s h. store_property-has n q s.props h)

  register_property-IsRegistered :
      (i : InfoType) (m : Text) (v : ValueType) → Keeps (IsRegistered n) (register_property i m v)
  unfolding is_property_registered register_property
  register_property-IsRegistered i m v = Keeps-modify _ (λ s h. insert_property-has n _ s.props h)

  or_not_found-IsRegistered :
      (o : Option SqlInfoProperty)
      → Keeps (IsRegistered n) (elim o as (λ x. Action Props SqlInfoProperty) [
        | none ↦ throw not_found
        | some p ↦ pure p
      ])
  or_not_found-IsRegistered none = Keeps-throw not_found
  or_not_found-IsRegistered (some p) = Keeps-pure p

  pub get_property-IsRegistered : (m : Text) → Keeps (IsRegistered n) (get_property m)
  unfolding get_property
  get_property-IsRegistered m =
      Keeps-bind _ _ Keeps-get (λ s. or_not_found-IsRegistered (find_property m s.props))

  pub register_each-Keeps :
      (i : InfoType) (r : Registrations) → Keeps (IsRegistered n) (register_each i r)
  unfolding register_each
  register_each-Keeps i [] = Keeps-pure tt
  register_each-Keeps i ((m, v) ∷ r) =
      Keeps-bind _ _ (register_property-IsRegistered i m v) (λ x. register_each-Keeps i r)

  mark_each-Keeps : (names : List Text) → Keeps (IsRegistered n) (mark_each names)
  unfolding mark_each mark_as_unsupported
  mark_each-Keeps [] = Keeps-pure tt
  mark_each-Keeps (m ∷ r) =
      Keeps-bind _ _ (Keeps-bind _ _ (get_property-IsRegistered m) (λ p. store-IsRegistered _))
        (λ x. mark_each-Keeps r)

  pub mark_on_postgresql-Keeps :
      (names : List Text) → Keeps (IsRegistered n) (mark_on_postgresql names)
  unfolding mark_on_postgresql
  mark_on_postgresql-Keeps names =
      Keeps-bind _ _ Keeps-get (λ s. Keeps-when _ _ (λ e. mark_each-Keeps names))

  read_failed-Keeps : (e : Exn) → Keeps (IsRegistered n) (read_failed e)
  read_failed-Keeps (sql_result ret diag) = Keeps-pure tt
  read_failed-Keeps _ = Keeps-throw _

  module _ (d : Driver) (char_size : ℕ) where
    pub read_value-Keeps :
        (h : Option ℕ) (m : Text) (v : ValueType)
        → Keeps (IsRegistered n) (read_value d char_size h m v)
    unfolding read_value read_info_value read_info_text
    read_value-Keeps h m u_small_int = search keeps_rules depth 20 fits 5000
    read_value-Keeps h m u_int = search keeps_rules depth 20 fits 5000
    read_value-Keeps h m string_n_y = search keeps_rules depth 20 fits 5000
    read_value-Keeps h m string_any = search keeps_rules depth 20 fits 5000

    read_and_store-Keeps :
        (h : Option ℕ) (p : SqlInfoProperty)
        → Keeps (IsRegistered n) (read_property d char_size h p >>= store)
    unfolding read_property
    read_and_store-Keeps h p =
        Keeps-bind _ _ (Keeps-bind _ _ (read_value-Keeps h p.name p.value_type) (λ v. Keeps-pure _))
          store-IsRegistered

    pub ensure_property_read-Keeps :
        (h : Option ℕ) (m : Text) (b : Bool)
        → Keeps (IsRegistered n) (ensure_property_read d char_size h m b)
    unfolding ensure_property_read
    ensure_property_read-Keeps h m b =
        Keeps-bind _ _ (get_property-IsRegistered m)
          (λ p. Keeps-when _ _ (λ e. read_and_store-Keeps h p))

    read_each-Keeps :
        (h : Option ℕ) (ps : List SqlInfoProperty)
        → Keeps (IsRegistered n) (read_each d char_size h ps)
    unfolding read_each
    read_each-Keeps h [] = Keeps-pure tt
    read_each-Keeps h (p ∷ r) =
        Keeps-bind _ _
          (Keeps-when _ _ (λ e. Keeps-catch _ _ (read_and_store-Keeps h p) read_failed-Keeps))
          (λ x. read_each-Keeps h r)

    pub read_all_properties-Keeps :
        (h : Option ℕ) → Keeps (IsRegistered n) (read_all_properties d char_size h)
    unfolding read_all_properties
    read_all_properties-Keeps h = Keeps-bind _ _ Keeps-get (λ s. read_each-Keeps h s.props)

pub ruleset registered_rules = (register_each-Keeps, mark_on_postgresql-Keeps, keeps_rules)
