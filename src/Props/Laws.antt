-- ===== src/Props/Laws.antt =====
-- What `Init` of src/SqlInfoProperty.cpp leaves for the getters.
use exodbc.Prelude.{
  ℕ, ◌≡◌, refl, sym, Bool, true, false, not, ◌&&◌, Option, none, some, List, [], ◌∷◌, arith, ltb,
  ◌==◌, if◌then◌else◌, is_some, and_true, All, All-all,
}
use exodbc.Prelude.Texts.{Text, txt, text_eq, text_eq_sound}
use exodbc.Odbc.{Driver, Action, ◌>>=◌, pure, throw, Event, Result, World, not_found, ok, raised}
use exodbc.Odbc.Keeps.{}
use exodbc.Odbc.Triple.{Ended}
use exodbc.SqlTypes.{}
use exodbc.Props.{
  no_props, find_property, is_property_registered, get_property, SqlInfoProperty, Props,
}
use exodbc.Props.Registered.{IsRegistered}
use exodbc.Props.Registered.Init.{Known, Any, listed, init_props-registers}
use exodbc.Props.Version.{parse_odbc_version, get_string_value, TextLibrary}
use exodbc.Props.Init.{init_props}
use exodbc.Props.Getters.{
  as_small, get_supports_transactions, max_name_len_default, get_max_name_len, get_text,
  get_driver_odbc_version,
}
use exodbc.Props.Typed.{small_names, elem_text, Fits, IsTyped, Found, find_property-Fits}
use exodbc.Props.Typed.Init.{init_props-IsTyped}
use mathlib.Core.Path.{subst}

abbrev is_ok : {A : Type 0} → Result A → Bool
is_ok (ok a) = true
is_ok (raised e) = false

abbrev Returned : {A : Type 0} → Result A × World Props → Type 0
Returned r = is_ok r.0 ≡ true

-- The names that `get_max_name_len` and `get_text` are called with.
abbrev max_names : List Text
max_names =
    txt "SQL_MAX_CATALOG_NAME_LEN"
    ∷ txt "SQL_MAX_SCHEMA_NAME_LEN"
    ∷ txt "SQL_MAX_TABLE_NAME_LEN"
    ∷ txt "SQL_MAX_COLUMN_NAME_LEN"
    ∷ []

abbrev text_names : List Text
text_names =
    txt "SQL_SCHEMA_TERM"
    ∷ txt "SQL_CATALOG_TERM"
    ∷ txt "SQL_SEARCH_PATTERN_ESCAPE"
    ∷ txt "SQL_DRIVER_NAME"
    ∷ txt "SQL_DRIVER_ODBC_VER"
    ∷ []

IsNamed : Text → Option SqlInfoProperty → Type 0
IsNamed n none = Unit
IsNamed n (some p) = p.name ≡ n

if_IsNamed :
    (n : Text) (b : Bool) (p : SqlInfoProperty) (o : Option SqlInfoProperty)
    → (b ≡ true → p.name ≡ n)
    → IsNamed n o
    → IsNamed n (if b then some p else o)
unfolding IsNamed
if_IsNamed n true p o h k = h refl
if_IsNamed n false p o h k = k

find_property-IsNamed : (n : Text) (ps : List SqlInfoProperty) → IsNamed n (find_property n ps)
unfolding find_property IsNamed
find_property-IsNamed n [] = tt
find_property-IsNamed n (p ∷ r) =
    if_IsNamed n (text_eq p.name n) p (find_property n r) (text_eq_sound p.name n)
      (find_property-IsNamed n r)

as_small-returns :
    (p : SqlInfoProperty) (w : World Props)
    → Fits p
    → elem_text p.name small_names ≡ true
    → Returned (as_small p.value w)
as_small-returns p w (k, l) e = ground arith

-- A getter finds a property of that name, which is typed.
Found-getter :
    {A : Type 0} (n : Text) (f : SqlInfoProperty → Action Props A) (o : Option SqlInfoProperty)
    (w : World Props)
    → is_some o ≡ true
    → IsNamed n o
    → Found o
    → ((p : SqlInfoProperty) → p.name ≡ n → Fits p → Returned (f p w))
    → Returned (
        (elim o as (λ x. Action Props SqlInfoProperty) [ none ↦ throw not_found | some p ↦ pure p ]
            >>= f)
          w)
unfolding IsNamed Found
Found-getter n f none w e m t k = ground arith
Found-getter n f (some p) w e m t k = k p m t

get_property-Returned :
    {A : Type 0} (n : Text) (f : SqlInfoProperty → Action Props A) (w : World Props)
    → IsTyped w.self
    → IsRegistered n w.self
    → ((p : SqlInfoProperty) → p.name ≡ n → Fits p → Returned (f p w))
    → Returned ((get_property n >>= f) w)
unfolding get_property is_property_registered
get_property-Returned n f w t e k =
    Found-getter n f (find_property n w.self.props) w e (find_property-IsNamed n w.self.props)
      (find_property-Fits n w.self.props t) k

abbrev limit : ℕ → Action Props ℕ
limit v = pure (if ltb 0 v then v else max_name_len_default)

abbrev capable : ℕ → Action Props Bool
capable v = pure (not (v == 0))

module _ {A : Type 0} where
  Returned-on :
      (r : Result ℕ) (k : ℕ → Action Props A) (w : World Props)
      → ((v : ℕ) (x : World Props) → Returned (k v x))
      → is_ok r ≡ true
      → Returned
          (elim r as (λ z. Result A × World Props) [ ok a ↦ k a w | raised e ↦ (raised e, w) ])
  Returned-on (ok v) k w h e = h v w
  Returned-on (raised x) k w h e = ground arith

  small-Returned :
      (k : ℕ → Action Props A)
      → ((v : ℕ) (x : World Props) → Returned (k v x))
      → (p : SqlInfoProperty) (w : World Props) → Fits p
      → elem_text p.name small_names ≡ true
      → Returned ((as_small p.value >>= k) w)
  small-Returned k h p w f e =
      Returned-on (as_small p.value w).0 k (as_small p.value w).1 h (as_small-returns p w f e)

module _ {A B : Type 0} (g : A → B) where
  pure_on :
      (r : Result A) (w : World Props)
      → is_ok r ≡ true
      → Returned (elim r as (λ z. Result B × World Props) [
        | ok a ↦ (ok (g a), w)
        | raised e ↦ (raised e, w)
      ])
  pure_on (ok a) w e = refl
  pure_on (raised x) w e = ground arith

  then_pure :
      (m : Action Props A) (w : World Props) → Returned (m w) → Returned ((m >>= λ a. pure (g a)) w)
  then_pure m w e = pure_on (m w).0 (m w).1 e

module _ (t : TextLibrary) where
  -- What the getters give: a value each, neither NotFoundException nor boost::bad_get.
  unfoldable pub GettersReturn : World Props → Type 0
  GettersReturn w =
      Returned (get_supports_transactions w)
      × All (λ n. Returned (get_max_name_len n w)) max_names
      × All (λ n. Returned (get_text t n w)) text_names
      × Returned (get_driver_odbc_version t w)

  unfoldable pub GettersOutcome : Result (Unit {0}) × World Props → Type 0
  GettersOutcome (ok a, w) = GettersReturn w
  GettersOutcome (raised e, w) = IsTyped w.self

  max_name_len-Returned :
      (n : Text) (w : World Props)
      → elem_text n small_names ≡ true
      → IsTyped w.self
      → IsRegistered n w.self
      → Returned (get_max_name_len n w)
  unfolding get_max_name_len
  max_name_len-Returned n w e k r =
      get_property-Returned n (λ p. as_small p.value >>= limit) w k r
        (λ p m f.
          small-Returned limit (λ v x. refl) p w f
            (subst (λ x. elem_text x small_names ≡ true) (sym m) e))

  supports_transactions-Returned :
      (w : World Props)
      → IsTyped w.self
      → IsRegistered (txt "SQL_TXN_CAPABLE") w.self
      → Returned (get_supports_transactions w)
  unfolding get_supports_transactions text_eq
  supports_transactions-Returned w k r =
      get_property-Returned (txt "SQL_TXN_CAPABLE") (λ p. as_small p.value >>= capable) w k r
        (λ p m f.
          small-Returned capable (λ v x. refl) p w f
            (subst (λ x. elem_text x small_names ≡ true) (sym m) refl))

  text-Returned :
      (n : Text) (w : World Props)
      → IsTyped w.self
      → IsRegistered n w.self
      → Returned (get_text t n w)
  unfolding get_text
  text-Returned n w k r =
      get_property-Returned n (λ p. pure (get_string_value t p.value)) w k r (λ p m f. refl)

  version-Returned :
      (w : World Props)
      → IsTyped w.self
      → IsRegistered (txt "SQL_DRIVER_ODBC_VER") w.self
      → Returned (get_driver_odbc_version t w)
  unfolding get_driver_odbc_version
  version-Returned w k r =
      then_pure (parse_odbc_version t) (get_text t (txt "SQL_DRIVER_ODBC_VER")) w
        (text-Returned (txt "SQL_DRIVER_ODBC_VER") w k r)

  getters-Return :
      (w : World Props)
      → IsTyped w.self
      → ((n : Text) → listed n ≡ true → IsRegistered n w.self)
      → GettersReturn w
  unfolding GettersReturn text_eq
  getters-Return w k r = (
    supports_transactions-Returned w k (r _ refl),
    All-all _ (λ n. elem_text n small_names && listed n) max_names
        (λ n e.
          let (l, m) = and_true (elem_text n small_names) (listed n) e in
          max_name_len-Returned n w l k (r n m))
        refl,
    All-all _ listed text_names (λ n e. text-Returned n w k (r n e)) refl,
    version-Returned w k (r _ refl),
  )

  GettersOutcome-Ended :
      (r : Result (Unit {0}) × World Props)
      → IsTyped r.1.self
      → ((n : Text) → Ended (Known n (listed n)) Any r)
      → GettersOutcome r
  unfolding GettersOutcome Known
  GettersOutcome-Ended (ok a, w) k r = getters-Return w k r
  GettersOutcome-Ended (raised e, w) k r = k

  -- For every driver, if Init of new properties returns, each getter that the program calls gives a
  -- value: its property is registered, and a number that is read as SQLUSMALLINT is one. If Init
  -- throws, the values that the properties have are still of their types.
  pub init_props_getters :
      (d : Driver) (char_size : ℕ) (h : Option ℕ) (tr : List Event)
      → GettersOutcome (init_props d char_size t h (record { self = no_props; trace = tr }))
  unfolding Known
  init_props_getters d char_size h tr =
      GettersOutcome-Ended (init_props d char_size t h (record { self = no_props; trace = tr }))
        ((init_props-IsTyped d char_size t h).at (record { self = no_props; trace = tr }) tt)
        (λ n.
          (init_props-registers d char_size t n h).ends (record { self = no_props; trace = tr })
            (λ e. ground arith))
