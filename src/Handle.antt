-- ===== src/Handle.antt =====
-- include/exodbc/SqlHandle.h: the wrapper of an ODBC handle. The constant `t` of each operation is
-- the template's `tHandleType`.
pub mod Laws
use exodbc.Prelude.{ℕ, Bool, false, not, Option, none, some, is_some, if◌then◌else◌}
use exodbc.Odbc.{
  HandleType, Driver, Result, Action, ok, raised, error, invalid_handle, sql_result,
  sql_result_without_handle, succeeded, is_env, is_stmt, env, sql_reset_params, sql_unbind,
  sql_alloc_handle, sql_free_handle, sql_free_stmt, fired_free, fired_reset_params,
  fired_unbind_columns, ◌>>=◌, ◌>>◌, pure, throw, get, modify, ex_assert, when, catch, fire, invoke,
  throw_ifn_succeeded,
}

-- `handle` is `m_handle`, where `none` is SQL_NULL_HANDLE. `parent` is `m_pParentHandle`: the null
-- pointer, or the parent with its own handle.
pub record Handle : Type 0 where
  pub handle : Option ℕ
  pub parent : Option (Option ℕ)

-- `SqlHandle()`
unfoldable pub new_handle : Handle
new_handle = record { handle = none; parent = none }

abbrev pub is_allocated : Handle → Bool
is_allocated h = is_some h.handle

-- `pParentHandle != NULL && pParentHandle->IsAllocated()`
abbrev pub parent_is_allocated : Option (Option ℕ) → Bool
parent_is_allocated none = false
parent_is_allocated (some h) = is_some h

abbrev parent_handle : Option (Option ℕ) → Option ℕ
parent_handle none = none
parent_handle (some h) = h

module _ (d : Driver) (t : HandleType) where
  -- `Allocate`
  unfoldable pub allocate : Action Handle (Unit {0})
  allocate = do
    h ← get
    ex_assert (not (is_some h.handle))
    ex_assert (not (is_some h.parent))
    ex_assert (is_env t)
    r ← invoke d (sql_alloc_handle env none)
    modify (λ s. record s { handle = r.out })
    when (not (succeeded r.ret)) (throw (sql_result_without_handle r.ret))

  -- `AllocateWithParent`
  unfoldable pub allocate_with_parent : Option (Option ℕ) → Action Handle (Unit {0})
  allocate_with_parent p = do
    ex_assert (is_some p)
    ex_assert (parent_is_allocated p)
    h ← get
    ex_assert (not (is_some h.handle))
    ex_assert (not (is_some h.parent))
    ex_assert (not (is_env t))
    r ← invoke d (sql_alloc_handle t (parent_handle p))
    modify (λ s. record s { handle = r.out })
    throw_ifn_succeeded r
    modify (λ s. record s { parent = p })

  -- `Free`, once a handle is known to be there. The two signals at the end are fired when the handle
  -- is null already.
  free_allocated : ℕ → Action Handle (Unit {0})
  unfolding new_handle
  free_allocated h = do
    fire (fired_free (some h))
    r ← invoke d (sql_free_handle t h)
    elim r.ret [
      | error ↦ throw (sql_result error r.diag)
      | invalid_handle ↦ modify (λ s. new_handle) >> throw (sql_result_without_handle r.ret)
      | _ ↦ do
        modify (λ s. new_handle)
        fire (fired_reset_params none)
        fire (fired_unbind_columns none)
    ]

  unfoldable pub free : Action Handle (Unit {0})
  unfolding free_allocated
  free w = elim w.self.handle [
    | none ↦ ex_assert (is_some w.self.handle) w
    | some h ↦ free_allocated h w
  ]

  -- `~SqlHandle`
  unfoldable pub destroy : Action Handle (Unit {0})
  unfolding free
  destroy = do h ← get; when (is_allocated h) (catch free (λ e. pure tt))

  -- `ResetParams`
  unfoldable pub reset_params : Action Handle (Unit {0})
  reset_params = do
    h ← get
    ex_assert (is_some h.handle)
    ex_assert (is_stmt t)
    r ← invoke d (sql_free_stmt h.handle sql_reset_params)
    throw_ifn_succeeded r
    fire (fired_reset_params h.handle)

  -- `UnbindColumns`
  unfoldable pub unbind_columns : Action Handle (Unit {0})
  unbind_columns = do
    h ← get
    ex_assert (is_some h.handle)
    ex_assert (is_stmt t)
    r ← invoke d (sql_free_stmt h.handle sql_unbind)
    throw_ifn_succeeded r
    fire (fired_unbind_columns h.handle)
