-- ===== src/Props.antt =====
-- src/SqlInfoProperty.cpp: the properties that SQLGetInfo reports. A property is known by its name,
-- which is that of the constant for its number in the ODBC headers. The map of the source is in the
-- order of the numbers, the list here in the order of registration; only the order of the calls of
-- SQLGetInfo depends on it.
pub mod Getters
pub mod Init
pub mod Laws
pub mod Register
pub mod Registered
pub mod Typed
pub mod Version
use exodbc.Prelude.{
  ℕ, ◌%◌, ◌^◌, Bool, true, false, not, ◌||◌, Option, none, some, List, [], ◌∷◌, ◌++◌, ◌==◌,
  if◌then◌else◌, is_some,
}
use exodbc.Prelude.Texts.{Text, txt, text_eq}
use exodbc.Odbc.{
  Driver, Action, ◌>>=◌, ◌>>◌, pure, throw, get, modify, ex_assert, when, catch, invoke,
  throw_ifn_succeeded, Exn, sql_get_info, sql_result, not_found,
}
use exodbc.SqlTypes.{DatabaseProduct, unknown_product}

-- `SqlInfoProperty::InfoType` and `SqlInfoProperty::ValueType`
pub data InfoType : Type 0 where
  driver dbms_info data_source supported_sql sql_limits scalar_function conversion : InfoType

pub data ValueType : Type 0 where
  u_small_int u_int string_n_y string_any : ValueType

-- `SqlInfoProperty::Value`, a boost::variant.
pub data Value : Type 0 where
  small_value : ℕ → Value
  int_value : ℕ → Value
  text_value : Text → Value

pub record SqlInfoProperty : Type 0 where
  pub name : Text
  pub info_type : InfoType
  pub value_type : ValueType
  pub value : Value
  pub value_read : Bool
  pub unsupported : Bool

-- `SqlInfoProperties`
pub record Props : Type 0 where
  pub props : List SqlInfoProperty
  pub dbms : DatabaseProduct

abbrev pub no_props : Props
no_props = record { props = []; dbms = unknown_product }

unfoldable pub initial_value : ValueType → Value
initial_value u_small_int = small_value 0
initial_value u_int = int_value 0
initial_value string_n_y = text_value (txt "N")
initial_value string_any = text_value []

-- `SqlInfoProperty(infoId, infoName, iType, vType)`
unfoldable pub new_property : Text → InfoType → ValueType → SqlInfoProperty
unfolding initial_value
new_property n i v = record {
  name = n;
  info_type = i;
  value_type = v;
  value = initial_value v;
  value_read = false;
  unsupported = false;
}

-- `m_props.find`
unfoldable pub find_property : Text → List SqlInfoProperty → Option SqlInfoProperty
find_property n [] = none
find_property n (p ∷ r) = if text_eq p.name n then some p else find_property n r

unfoldable pub is_property_registered : Text → Props → Bool
is_property_registered n s = is_some (find_property n s.props)

-- A change of the property that `m_props.find` finds.
unfoldable pub store_property : SqlInfoProperty → List SqlInfoProperty → List SqlInfoProperty
store_property q [] = []
store_property q (p ∷ r) =
    let rest = p ∷ store_property q r in if text_eq p.name q.name then q ∷ r else rest

abbrev pub store : SqlInfoProperty → Action Props (Unit {0})
store q = modify (λ s. record s { props = store_property q s.props })

-- `GetProperty`, and the check of `EnsurePropertyRead` and `MarkAsUnsupported`.
unfoldable pub get_property : Text → Action Props SqlInfoProperty
get_property n = do
  s ← get
  elim (find_property n s.props) [ none ↦ throw not_found | some p ↦ pure p ]

-- `m_props.insert`: a property that is registered already stays as it is.
unfoldable pub insert_property : SqlInfoProperty → List SqlInfoProperty → List SqlInfoProperty
insert_property q ps = if is_some (find_property q.name ps) then ps else ps ++ (q ∷ [])

unfoldable pub register_property : InfoType → Text → ValueType → Action Props (Unit {0})
register_property i n v =
    modify (λ s. record s { props = insert_property (new_property n i v) s.props })

unfoldable pub mark_as_unsupported : Text → Action Props (Unit {0})
mark_as_unsupported n = do p ← get_property n; store (record p { unsupported = true })

unfoldable pub reset_props : Action Props (Unit {0})
reset_props = modify (λ s. record s { props = [] })

-- What is in a number that the driver has not written is not known; here it is 0.
abbrev number : Option ℕ → ℕ
number none = 0
number (some n) = n

-- What `ReadAllProperties` does with an exception.
abbrev pub read_failed : Exn → Action Props (Unit {0})
read_failed (sql_result ret diag) = pure tt
read_failed e = throw e

-- `d` is the driver, `char_size` is sizeof(SQLAPICHARTYPE).
module _ (d : Driver) (char_size : ℕ) where
  -- `ReadInfoValue` for numbers
  unfoldable pub read_info_value : Option ℕ → Text → Action Props ℕ
  read_info_value h n = do
    ex_assert (is_some h)
    r ← invoke d (sql_get_info h n true)
    throw_ifn_succeeded r
    pure (number r.out)

  -- `ReadInfoValue` for texts: the first call asks for the length.
  unfoldable pub read_info_text : Option ℕ → Text → Action Props Text
  read_info_text h n = do
    ex_assert (is_some h)
    r ← invoke d (sql_get_info h n false)
    throw_ifn_succeeded r
    ex_assert (number r.out % char_size == 0)
    q ← invoke d (sql_get_info h n true)
    throw_ifn_succeeded q
    pure q.text

  unfoldable pub read_value : Option ℕ → Text → ValueType → Action Props Value
  read_value h n u_small_int = do v ← read_info_value h n; pure (small_value (v % 2 ^ 16))
  read_value h n u_int = do v ← read_info_value h n; pure (int_value (v % 2 ^ 32))
  read_value h n string_n_y = do v ← read_info_text h n; pure (text_value v)
  read_value h n string_any = do v ← read_info_text h n; pure (text_value v)

  -- `ReadProperty`: the property with the value read. When it throws, the property is as it was.
  unfoldable pub read_property : Option ℕ → SqlInfoProperty → Action Props SqlInfoProperty
  read_property h p = do
    v ← read_value h p.name p.value_type
    pure (record p { value = v; value_read = true })

  unfoldable pub ensure_property_read : Option ℕ → Text → Bool → Action Props (Unit {0})
  ensure_property_read h n force_update = do
    p ← get_property n
    when (not p.value_read || force_update) (read_property h p >>= store)

  -- The loop of `ReadAllProperties`.
  unfoldable pub read_each : Option ℕ → List SqlInfoProperty → Action Props (Unit {0})
  read_each h [] = pure tt
  read_each h (p ∷ r) = do
    when (not p.unsupported) (catch (read_property h p >>= store) read_failed)
    read_each h r

  unfoldable pub read_all_properties : Option ℕ → Action Props (Unit {0})
  read_all_properties h = do s ← get; read_each h s.props
