-- ===== src/Odbc.antt =====
-- The ODBC driver manager as the program sees it, and the exceptions of the program
-- (include/exodbc/Exception.h, SpecializedExceptions.h, AssertionException.h). The driver is not
-- code of the repository: it is a function from the calls made so far to the reply of the next.
pub mod Keeps
pub mod Triple
use exodbc.Prelude.{ℕ, ◌≡◌, is_some, Bool, true, false, ◌||◌, Option, List, [], ◌∷◌, if◌then◌else◌}
use exodbc.Prelude.Texts.{Text}
use exodbc.SqlTypes.{SqlType}

-- SQLRETURN
pub data Ret : Type 0 where
  success success_with_info no_data error invalid_handle need_data still_executing : Ret

-- `SQL_SUCCEEDED`
abbrev pub succeeded : Ret → Bool
succeeded success = true
succeeded success_with_info = true
succeeded _ = false

abbrev pub is_success : Ret → Bool
is_success success = true
is_success _ = false

abbrev pub is_no_data : Ret → Bool
is_no_data no_data = true
is_no_data _ = false

pub data HandleType : Type 0 where
  env dbc stmt desc : HandleType

abbrev pub is_env : HandleType → Bool
is_env env = true
is_env _ = false

abbrev pub is_stmt : HandleType → Bool
is_stmt stmt = true
is_stmt _ = false

-- The SQLSTATE values that the program tells apart; `HYC00` is
-- `SQLSTATE_OPTIONAL_FEATURE_NOT_IMPLEMENTED`.
pub data SqlState : Type 0 where
  hyc00 : SqlState
  other_state : ℕ → SqlState

abbrev pub is_hyc00 : SqlState → Bool
is_hyc00 hyc00 = true
is_hyc00 (other_state n) = false

pub data FreeOption : Type 0 where
  sql_close sql_unbind sql_reset_params : FreeOption

pub data Orientation : Type 0 where
  prev first last absolute relative : Orientation

-- `RowDescriptorType`, and the fields that the program sets in a descriptor.
pub data Descriptor : Type 0 where
  row param : Descriptor

pub data DescField : Type 0 where
  desc_type desc_precision desc_scale desc_data_ptr : DescField
  desc_indicator_ptr desc_octet_length_ptr : DescField

-- How SQLEndTran ends a transaction.
pub data Completion : Type 0 where
  commit rollback : Completion

-- Which data source SQLDataSources is asked for.
pub data Direction : Type 0 where
  fetch_first fetch_first_system fetch_first_user fetch_next : Direction

-- The attributes of a connection and of an environment that the program reads and sets.
pub data ConnectAttr : Type 0 where
  attr_autocommit attr_txn_isolation attr_trace attr_tracefile : ConnectAttr

pub data EnvAttr : Type 0 where
  attr_odbc_version attr_connection_pooling attr_cp_match : EnvAttr

-- The calls into the driver manager that the modelled code makes, with the handle first. A
-- buffer's address is named by the query name of its column.
pub data Call : Type 0 where
  sql_alloc_handle : HandleType → Option ℕ → Call
  sql_free_handle : HandleType → ℕ → Call
  sql_free_stmt : Option ℕ → FreeOption → Call
  sql_close_cursor : Option ℕ → Call
  sql_get_cursor_scrollable : Option ℕ → Call
  sql_set_cursor_scrollable : Option ℕ → Bool → Call
  sql_exec_direct : Option ℕ → Text → Call
  sql_prepare : Option ℕ → Text → Call
  sql_execute : Option ℕ → Call
  sql_num_result_cols : Option ℕ → Call
  sql_describe_param : Option ℕ → ℕ → Call
  sql_describe_col : Option ℕ → ℕ → ℕ → Call
  sql_bind_col : Option ℕ → ℕ → Text → Call
  sql_bind_parameter : Option ℕ → ℕ → Text → Call
  sql_get_descriptor : Option ℕ → Descriptor → Call
  sql_set_desc_field : Option ℕ → ℕ → DescField → Call
  sql_fetch : Option ℕ → Call
  sql_fetch_scroll : Option ℕ → Orientation → Call
  sql_get_info : Option ℕ → Text → Bool → Call
  sql_driver_connect : Option ℕ → Text → Call
  sql_connect : Option ℕ → Text → Text → Text → Call
  sql_disconnect : Option ℕ → Call
  sql_end_tran : Option ℕ → Completion → Call
  sql_get_connect_attr : Option ℕ → ConnectAttr → Call
  sql_set_connect_attr : Option ℕ → ConnectAttr → ℕ → Call
  sql_set_connect_text : Option ℕ → ConnectAttr → Text → Call
  sql_data_sources : Option ℕ → Direction → ℕ → Call
  sql_get_env_attr : Option ℕ → EnvAttr → Call
  sql_set_env_attr : Option ℕ → EnvAttr → ℕ → Call
  sql_get_metadata_id : Option ℕ → Call
  sql_set_metadata_id : Option ℕ → Bool → Call
  sql_tables : Option ℕ → Option Text → Option Text → Option Text → Option Text → Call
  sql_columns : Option ℕ → Option Text → Option Text → Option Text → Option Text → Call
  sql_primary_keys : Option ℕ → Option Text → Option Text → Option Text → Call
  sql_special_columns : Option ℕ → ℕ → Option Text → Option Text → Option Text → ℕ → Bool → Call
  sql_get_type_info : Option ℕ → Call
  sql_get_data : Option ℕ → ℕ → Call

-- The values of SQL_ATTR_CURSOR_SCROLLABLE in sqlext.h.
abbrev pub sql_nonscrollable : ℕ
sql_nonscrollable = 0

abbrev pub sql_scrollable : ℕ
sql_scrollable = 1

-- What a call gives back: the return code, the number or handle written to its output argument, the
-- text in its buffer and, for SQLDataSources, that in the buffer for the description, the SQL type that SQLDescribeParam writes, and the SQLSTATEs of the
-- diagnostic records that SQLGetDiagRec then lists.
pub record Reply : Type 0 where
  pub ret : Ret
  pub out : Option ℕ
  pub text : Text
  pub description : Text
  pub sql_type : SqlType
  pub diag : List SqlState

-- What happens, newest first: calls of the driver, and the signals of a handle.
pub data Event : Type 0 where
  called : Call → Event
  fired_free : Option ℕ → Event
  fired_reset_params : Option ℕ → Event
  fired_unbind_columns : Option ℕ → Event

abbrev pub Driver : Type 0
Driver = List Event → Call → Reply

-- What the ODBC documents say of SQLAllocHandle: it writes a handle exactly if it succeeds, and
-- SQL_NULL_HANDLE otherwise.
pub record DriverLaws (d : Driver) : Type 0 where
  pub alloc_out :
      (tr : List Event) (t : HandleType) (p : Option ℕ)
      → is_some (d tr (sql_alloc_handle t p)).out ≡ succeeded (d tr (sql_alloc_handle t p)).ret

-- The exceptions, without their texts. `null_dereference` stands for a call through a null pointer, and
-- `out_of_range` for a read or write outside a vector, of which the source does not say what happens. `bad_get` is boost::bad_get, which is no
-- `exodbc::Exception`, and `terminated` is std::terminate, after a destructor that throws.
pub data Exn : Type 0 where
  assertion : Exn
  sql_result : Ret → List SqlState → Exn
  plain_exception illegal_argument not_found not_supported null_value not_allowed : Exn
  null_dereference out_of_range bad_get terminated : Exn

abbrev pub is_uncaught : Exn → Bool
is_uncaught bad_get = true
is_uncaught terminated = true
is_uncaught _ = false

-- `SqlResultException::HasErrorInfo(SQLSTATE_OPTIONAL_FEATURE_NOT_IMPLEMENTED)`
pub has_hyc00 : List SqlState → Bool
has_hyc00 [] = false
has_hyc00 (s ∷ r) = is_hyc00 s || has_hyc00 r

-- `SqlResultException(sqlFunctionName, ret, msg)`: without a handle, `m_ret` is set to 0, which is
-- SQL_SUCCESS, whatever `ret` is.
abbrev pub sql_result_without_handle : Ret → Exn
sql_result_without_handle ret = sql_result success []

pub data Result (A : Type 0) : Type 0 where
  ok : A → Result A
  raised : Exn → Result A

-- An object with what has happened so far. A method gives both back, also when it throws.
pub record World (S : Type 0) : Type 0 where
  pub self : S
  pub trace : List Event

abbrev pub Action : Type 0 → Type 0 → Type 0
Action S A = World S → Result A × World S

infixl 5 ◌>>=◌ ◌>>◌
abbrev pub ◌>>=◌ : {S A B : Type 0} → Action S A → (A → Action S B) → Action S B
◌>>=◌ m f w = let (r, w') = m w in elim r [ ok a ↦ f a w' | raised e ↦ (raised e, w') ]

abbrev pub ◌>>◌ : {S A B : Type 0} → Action S A → Action S B → Action S B
m >> k = m >>= λ _. k

module _ {S : Type 0} where
  abbrev pub pure : {A : Type 0} → A → Action S A
  pure a w = (ok a, w)

  abbrev pub throw : {A : Type 0} → Exn → Action S A
  throw e w = (raised e, w)

  abbrev pub get : Action S S
  get w = (ok w.self, w)

  abbrev pub put : S → Action S (Unit {0})
  put s w = (ok tt, record w { self = s })

  abbrev pub modify : (S → S) → Action S (Unit {0})
  modify f w = (ok tt, record w { self = f w.self })

  -- `exASSERT`
  abbrev pub ex_assert : Bool → Action S (Unit {0})
  ex_assert b w = (if b then ok tt else raised assertion, w)

  abbrev pub when : Bool → Action S (Unit {0}) → Action S (Unit {0})
  when true m w = m w
  when false m w = (ok tt, w)

  abbrev pub branch : {A : Type 0} → Bool → Action S A → Action S A → Action S A
  branch true m k w = m w
  branch false m k w = k w

  -- `try { m } catch (const Exception& e) { handle e }`
  abbrev pub catch : {A : Type 0} → Action S A → (Exn → Action S A) → Action S A
  catch m handle w = let (r, w') = m w in elim r [ ok a ↦ (ok a, w') | raised e ↦ handle e w' ]

  -- The same for code that may throw boost::bad_get or end the program; neither is caught.
  abbrev pub catch_exception : {A : Type 0} → Action S A → (Exn → Action S A) → Action S A
  catch_exception m handle = catch m (λ e. branch (is_uncaught e) (throw e) (handle e))

  abbrev pub fire : Event → Action S (Unit {0})
  fire e w = (ok tt, record w { trace = e ∷ w.trace })

  abbrev pub invoke : Driver → Call → Action S Reply
  invoke d c w = (ok (d w.trace c), record w { trace = called c ∷ w.trace })

  -- `THROW_IFN_SUCCEEDED`, without the log of SQL_SUCCESS_WITH_INFO
  abbrev pub throw_ifn_succeeded : Reply → Action S (Unit {0})
  throw_ifn_succeeded r w = (if succeeded r.ret then ok tt else raised (sql_result r.ret r.diag), w)

  -- `THROW_IFN_SUCCESS`
  abbrev pub throw_ifn_success : Reply → Action S (Unit {0})
  throw_ifn_success r w = (if is_success r.ret then ok tt else raised (sql_result r.ret r.diag), w)

-- A method of a member of the object.
abbrev pub zoom : {S T A : Type 0} → (S → T) → (T → S → S) → Action T A → Action S A
zoom view update m w =
    let (r, w') = m (record { self = view w.self; trace = w.trace }) in
    (r, record { self = update w'.self w.self; trace = w'.trace })
