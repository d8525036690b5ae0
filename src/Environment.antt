-- ===== src/Environment.antt =====
-- src/Environment.cpp, and the streams of `OdbcVersion` in src/exOdbc.cpp.
pub mod Laws
pub mod Sources
use exodbc.Prelude.{
  ℕ, Bool, true, false, not, ◌&&◌, Option, none, some, ◌==◌, if◌then◌else◌, is_some,
}
use exodbc.Prelude.Texts.{Text, txt, text_eq}
use exodbc.Odbc.{
  succeeded, Driver, sql_result_without_handle, Action, ◌>>=◌, ◌>>◌, pure, throw, get, modify,
  ex_assert, when, invoke, throw_ifn_succeeded, zoom, Reply, env, attr_trace, attr_tracefile,
  attr_odbc_version, attr_connection_pooling, attr_cp_match, sql_get_connect_attr,
  sql_set_connect_attr, sql_set_connect_text, sql_get_env_attr, sql_set_env_attr, plain_exception,
  illegal_argument,
}
use exodbc.SqlTypes.{OdbcVersion, unknown_version, v_2, v_3, v_3_8}
use exodbc.Handle.{new_handle, allocate, Handle}

pub record Environment : Type 0 where
  pub h_env : Handle
  pub odbc_version : OdbcVersion

-- `Environment()`
unfoldable pub new_environment : Environment
unfolding new_handle
new_environment = record { h_env = new_handle; odbc_version = unknown_version }

-- `operator>>` on a token of the stream; `none` is a stream that has failed.
unfoldable pub read_version : Text → Option OdbcVersion
read_version token =
    if text_eq token (txt "2")
    then some v_2
    else (if text_eq token (txt "3")
        then some v_3
        else (if text_eq token (txt "3.8") then some v_3_8 else none))

-- `operator<<`
unfoldable pub write_version : OdbcVersion → Option Text
write_version v_2 = some (txt "2")
write_version v_3 = some (txt "3")
write_version v_3_8 = some (txt "3.8")
write_version unknown_version = none

-- SQL_OV_ODBC2, SQL_OV_ODBC3 and SQL_OV_ODBC3_80; other versions cannot be set.
unfoldable pub version_value : OdbcVersion → Option ℕ
version_value v_2 = some 2
version_value v_3 = some 3
version_value v_3_8 = some 380
version_value unknown_version = none

-- The `switch` of `ReadOdbcVersion`: an unknown value leaves `m_odbcVersion` as it is.
abbrev pub version_or : OdbcVersion → ℕ → OdbcVersion
version_or old v =
    if v == 2 then v_2 else (if v == 3 then v_3 else (if v == 380 then v_3_8 else old))

-- The value is 0 before the driver writes it.
abbrev pub version_read : OdbcVersion → Option ℕ → OdbcVersion
version_read old none = old
version_read old (some v) = version_or old v

abbrev on_env : {A : Type 0} → Action Handle A → Action Environment A
on_env m = zoom (λ s. s.h_env) (λ h s. record s { h_env = h }) m

abbrev pub is_unknown : OdbcVersion → Bool
is_unknown unknown_version = true
is_unknown _ = false

-- A static method's failure: `Exception`.
abbrev throw_plain : Reply → Action Environment (Unit {0})
throw_plain r = when (not (succeeded r.ret)) (throw plain_exception)

module _ (d : Driver) where
  unfoldable pub read_odbc_version : Action Environment OdbcVersion
  read_odbc_version = do
    s ← get
    ex_assert (is_some s.h_env.handle)
    r ← invoke d (sql_get_env_attr s.h_env.handle attr_odbc_version)
    throw_ifn_succeeded r
    modify (λ s. record s { odbc_version = version_read s.odbc_version r.out })
    s ← get
    pure s.odbc_version

  -- `SetOdbcVersion`
  set_version_value : Option ℕ → Action Environment (Unit {0})
  set_version_value none = throw illegal_argument
  set_version_value (some v) = do
    s ← get
    r ← invoke d (sql_set_env_attr s.h_env.handle attr_odbc_version v)
    throw_ifn_succeeded r

  unfoldable pub set_odbc_version : OdbcVersion → Action Environment (Unit {0})
  unfolding set_version_value read_odbc_version version_value
  set_odbc_version version = do
    s ← get
    ex_assert (is_some s.h_env.handle)
    set_version_value (version_value version)
    v ← read_odbc_version
    pure tt

  unfoldable pub get_odbc_version : Action Environment OdbcVersion
  unfolding read_odbc_version
  get_odbc_version = do
    s ← get
    when (is_unknown s.odbc_version && is_some s.h_env.handle) (read_odbc_version >> pure tt)
    s ← get
    pure s.odbc_version

  -- `Init`
  unfoldable pub init_environment : OdbcVersion → Action Environment (Unit {0})
  unfolding allocate set_odbc_version
  init_environment version = do
    ex_assert (not (is_unknown version))
    s ← get
    ex_assert (not (is_some s.h_env.handle))
    on_env (allocate d env)
    set_odbc_version version

  -- `SetTrace`, where SQL_OPT_TRACE_ON is 1.
  unfoldable pub set_trace : Bool → Action Environment (Unit {0})
  set_trace enable = do
    r ← invoke d (sql_set_connect_attr none attr_trace (if enable then 1 else 0))
    throw_plain r

  -- What `GetTrace` makes of the value, which is 0 before the driver writes it.
  abbrev is_on : Option ℕ → Bool
  is_on none = false
  is_on (some v) = v == 1

  unfoldable pub get_trace : Action Environment Bool
  get_trace = do
    r ← invoke d (sql_get_connect_attr none attr_trace)
    throw_plain r
    pure (is_on r.out)

  unfoldable pub get_tracefile : Action Environment Text
  get_tracefile = do
    r ← invoke d (sql_get_connect_attr none attr_tracefile)
    throw_plain r
    pure r.text

  unfoldable pub set_tracefile : Text → Action Environment (Unit {0})
  set_tracefile path = do
    r ← invoke d (sql_set_connect_text none attr_tracefile path)
    throw_plain r

  -- `EnableConnectionPooling` and `SetConnctionPoolingMatch` at the number of their argument.
  unfoldable pub enable_connection_pooling : ℕ → Action Environment (Unit {0})
  enable_connection_pooling mode = do
    r ← invoke d (sql_set_env_attr none attr_connection_pooling mode)
    when (not (succeeded r.ret)) (throw (sql_result_without_handle r.ret))

  unfoldable pub set_connction_pooling_match : ℕ → Action Environment (Unit {0})
  set_connction_pooling_match mode = do
    s ← get
    r ← invoke d (sql_set_env_attr s.h_env.handle attr_cp_match mode)
    throw_ifn_succeeded r

-- The copy constructor.
unfoldable pub copy_environment : Driver → OdbcVersion → Action Environment (Unit {0})
unfolding init_environment
copy_environment d other = when (not (is_unknown other)) (init_environment d other)
