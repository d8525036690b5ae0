-- ===== src/Props/Typed.antt =====
-- The types of the values in the properties of src/SqlInfoProperty.cpp.
pub mod Init
use exodbc.Prelude.{
  ℕ, ◌≡◌, refl, Bool, true, false, not, ◌&&◌, ◌||◌, Option, none, some, List, [], ◌∷◌, ◌++◌,
  is_some, if_both, All,
}
use exodbc.Prelude.Texts.{Text, txt, text_eq}
use exodbc.Odbc.{Driver, Action, ◌>>=◌, pure, throw, when, Exn, sql_result, not_found}
use exodbc.Odbc.Keeps.{
  Keeps-pure, Keeps-throw, Keeps-catch, Keeps-when, Keeps-modify, Keeps-bind, Keeps-get-known,
  Keeps-bind-Returns, Returns-bind, Returns-bind-Returns, Returns-pure, Keeps, Returns, keeps_rules,
}
use exodbc.SqlTypes.{}
use exodbc.Props.{
  initial_value, find_property, store_property, store, get_property, insert_property, read_failed,
  read_info_value, read_info_text, read_value, read_property, ensure_property_read, read_each,
  read_all_properties, ValueType, Value, SqlInfoProperty, Props, u_small_int, u_int, string_n_y,
  string_any, small_value, int_value, text_value,
}
use exodbc.Props.Register.{Registrations}
use exodbc.Props.Version.{}
use exodbc.Props.Init.{}

abbrev pub value_fits : ValueType → Value → Bool
value_fits u_small_int (small_value n) = true
value_fits u_int (int_value n) = true
value_fits string_n_y (text_value s) = true
value_fits string_any (text_value s) = true
value_fits _ _ = false

-- The properties that getters read as SQLUSMALLINT.
abbrev pub small_names : List Text
small_names =
    txt "SQL_TXN_CAPABLE"
    ∷ txt "SQL_MAX_CATALOG_NAME_LEN"
    ∷ txt "SQL_MAX_SCHEMA_NAME_LEN"
    ∷ txt "SQL_MAX_TABLE_NAME_LEN"
    ∷ txt "SQL_MAX_COLUMN_NAME_LEN"
    ∷ []

abbrev pub elem_text : Text → List Text → Bool
elem_text n [] = false
elem_text n (m ∷ r) = text_eq m n || elem_text n r

abbrev pub is_u_small_int : ValueType → Bool
is_u_small_int u_small_int = true
is_u_small_int _ = false

abbrev pub fits_name : Text → ValueType → Bool
fits_name n v = not (elem_text n small_names) || is_u_small_int v

-- The value is of the property's type, which is SQLUSMALLINT where a getter expects that.
abbrev pub Fits : SqlInfoProperty → Type 0
Fits p = (value_fits p.value_type p.value ≡ true) × (fits_name p.name p.value_type ≡ true)

abbrev pub IsTyped : Props → Type 0
IsTyped s = All Fits s.props

abbrev pub all_fit : Registrations → Bool
all_fit [] = true
all_fit ((n, v) ∷ r) = fits_name n v && all_fit r

All-append :
    {A : Type 0} (P : A → Type 0) (xs : List A) (y : A) → All P xs → P y → All P (xs ++ (y ∷ []))
All-append P [] y h k = (k, tt)
All-append P (x ∷ xs) y (h, t) k = (h, All-append P xs y t k)

pub insert_property-Fits :
    (q : SqlInfoProperty) (ps : List SqlInfoProperty)
    → Fits q
    → All Fits ps
    → All Fits (insert_property q ps)
unfolding insert_property
insert_property-Fits q ps k h =
    if_both (All Fits) (is_some (find_property q.name ps)) ps (ps ++ (q ∷ [])) h
      (All-append Fits ps q h k)

store_property-Fits :
    (q : SqlInfoProperty) (ps : List SqlInfoProperty)
    → Fits q
    → All Fits ps
    → All Fits (store_property q ps)
unfolding store_property
store_property-Fits q [] k h = tt
store_property-Fits q (p ∷ r) k (h, t) =
    if_both (All Fits) (text_eq p.name q.name) (q ∷ r) (p ∷ store_property q r) (k, t)
      (h, store_property-Fits q r k t)

pub initial_value-Fits : (v : ValueType) → value_fits v (initial_value v) ≡ true
unfolding initial_value
initial_value-Fits u_small_int = refl
initial_value-Fits u_int = refl
initial_value-Fits string_n_y = refl
initial_value-Fits string_any = refl

unfoldable pub Found : Option SqlInfoProperty → Type 0
Found none = Unit
Found (some p) = Fits p

pub find_property-Fits :
    (n : Text) (ps : List SqlInfoProperty) → All Fits ps → Found (find_property n ps)
unfolding find_property Found
find_property-Fits n [] h = tt
find_property-Fits n (p ∷ r) (h, t) =
    if_both Found (text_eq p.name n) (some p) (find_property n r) h (find_property-Fits n r t)

module _ {A : Type 0} (n : Text) (f : SqlInfoProperty → Action Props A) where
  get-Found :
      (o : Option SqlInfoProperty)
      → Found o
      → ((p : SqlInfoProperty) → Fits p → Keeps IsTyped (f p))
      → Keeps IsTyped (
          elim o as (λ x. Action Props SqlInfoProperty) [ none ↦ throw not_found | some p ↦ pure p ]
          >>= f)
  unfolding Found
  get-Found none h k = record { at = λ w t. t }
  get-Found (some p) h k = record { at = λ w t. (k p h).at w t }

  -- What is found in typed properties is of its type.
  pub get_property-IsTyped :
      ((p : SqlInfoProperty) → Fits p → Keeps IsTyped (f p)) → Keeps IsTyped (get_property n >>= f)
  unfolding get_property
  get_property-IsTyped k = record {
    at = λ w t.
        (get-Found (find_property n w.self.props) (find_property-Fits n w.self.props t) k).at w t;
  }

pub store-IsTyped : (q : SqlInfoProperty) → Fits q → Keeps IsTyped (store q)
store-IsTyped q h = Keeps-modify _ (λ s t. store_property-Fits q s.props h t)

read_failed-IsTyped : (e : Exn) → Keeps IsTyped (read_failed e)
read_failed-IsTyped (sql_result ret diag) = Keeps-pure tt
read_failed-IsTyped _ = Keeps-throw _

module _ (d : Driver) (char_size : ℕ) where
  read_value-Fits :
      (h : Option ℕ) (n : Text) (v : ValueType)
      → Returns (λ x. value_fits v x ≡ true) (read_value d char_size h n v)
  unfolding read_value
  read_value-Fits h n u_small_int = Returns-bind _ _ (λ a. Returns-pure _ refl)
  read_value-Fits h n u_int = Returns-bind _ _ (λ a. Returns-pure _ refl)
  read_value-Fits h n string_n_y = Returns-bind _ _ (λ a. Returns-pure _ refl)
  read_value-Fits h n string_any = Returns-bind _ _ (λ a. Returns-pure _ refl)

  read_value-IsTyped :
      (h : Option ℕ) (n : Text) (v : ValueType) → Keeps IsTyped (read_value d char_size h n v)
  unfolding read_value read_info_value read_info_text
  read_value-IsTyped h n u_small_int = search keeps_rules depth 20 fits 5000
  read_value-IsTyped h n u_int = search keeps_rules depth 20 fits 5000
  read_value-IsTyped h n string_n_y = search keeps_rules depth 20 fits 5000
  read_value-IsTyped h n string_any = search keeps_rules depth 20 fits 5000

  pub read_property-IsTyped :
      (h : Option ℕ) (p : SqlInfoProperty) → Keeps IsTyped (read_property d char_size h p)
  unfolding read_property
  read_property-IsTyped h p =
      Keeps-bind _ _ (read_value-IsTyped h p.name p.value_type) (λ v. Keeps-pure _)

  read_property-Fits :
      (h : Option ℕ) (p : SqlInfoProperty) → Fits p → Returns Fits (read_property d char_size h p)
  unfolding read_property
  read_property-Fits h p k =
      Returns-bind-Returns _ (λ v. pure (record p { value = v; value_read = true }))
        (read_value-Fits h p.name p.value_type)
        (λ v e. Returns-pure (record p { value = v; value_read = true }) (e, k.1))

  read_and_store-IsTyped :
      (h : Option ℕ) (p : SqlInfoProperty)
      → Fits p
      → Keeps IsTyped (read_property d char_size h p >>= store)
  read_and_store-IsTyped h p k =
      Keeps-bind-Returns _ store (read_property-IsTyped h p) (read_property-Fits h p k)
        store-IsTyped

  pub ensure_property_read-IsTyped :
      (h : Option ℕ) (n : Text) (b : Bool) → Keeps IsTyped (ensure_property_read d char_size h n b)
  unfolding ensure_property_read
  ensure_property_read-IsTyped h n b =
      get_property-IsTyped n
        (λ p. when (not p.value_read || b) (read_property d char_size h p >>= store))
        (λ p k. Keeps-when (not p.value_read || b) _ (λ e. read_and_store-IsTyped h p k))

  read_each-IsTyped :
      (h : Option ℕ) (ps : List SqlInfoProperty)
      → All Fits ps
      → Keeps IsTyped (read_each d char_size h ps)
  unfolding read_each
  read_each-IsTyped h [] t = Keeps-pure tt
  read_each-IsTyped h (p ∷ r) (k, t) =
      Keeps-bind _ _
        (Keeps-when _ _ (λ e. Keeps-catch _ _ (read_and_store-IsTyped h p k) read_failed-IsTyped))
        (λ x. read_each-IsTyped h r t)

  pub read_all_properties-IsTyped :
      (h : Option ℕ) → Keeps IsTyped (read_all_properties d char_size h)
  unfolding read_all_properties
  read_all_properties-IsTyped h = Keeps-get-known _ (λ s t. read_each-IsTyped h s.props t)
