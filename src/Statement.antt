-- ===== src/Statement.antt =====
-- src/ExecutableStatement.cpp, src/SqlStatementCloser.cpp and the calls of
-- include/exodbc/ColumnBuffer.h that bind a buffer to a statement handle.
pub mod Bind
pub mod Cursor
pub mod Describe
pub mod Execute
pub mod Laws
pub mod Lifetime
use exodbc.Prelude.{ℕ, Bool, true, false, not, Option, none, some, is_some, if◌then◌else◌, ◌&&◌}
use exodbc.Odbc.{
  Driver, Action, ◌>>=◌, ◌>>◌, pure, get, modify, ex_assert, when, catch, zoom, stmt,
  null_dereference, raised,
}
use exodbc.SqlTypes.{DatabaseProduct, SqlType}
use exodbc.Handle.{
  Handle, new_handle, is_allocated, allocate_with_parent, destroy, reset_params, unbind_columns,
}

-- What a statement and a table ask of their `Database`.
pub record Db : Type 0 where
  pub is_open : Bool
  pub h_dbc : Option ℕ
  pub dbms : DatabaseProduct

pub record Statement : Type 0 where
  pub h_stmt : Option Handle
  pub db : Option Db
  pub is_prepared : Bool
  pub scrollable_cursor : Bool
  pub bound_columns : Bool
  pub bound_params : Bool

-- `ExecutableStatement()`
unfoldable pub new_statement : Statement
new_statement = record {
  h_stmt = none;
  db = none;
  is_prepared = false;
  scrollable_cursor = false;
  bound_columns = false;
  bound_params = false;
}

abbrev pub db_is_open : Option Db → Bool
db_is_open none = false
db_is_open (some b) = b.is_open

abbrev pub stmt_is_allocated : Option Handle → Bool
stmt_is_allocated none = false
stmt_is_allocated (some h) = is_allocated h

-- `m_pHStmt->GetHandle()`
abbrev pub stmt_handle : Option Handle → Option ℕ
stmt_handle none = none
stmt_handle (some h) = h.handle

-- A call through `m_pHStmt`.
abbrev pub on_handle : Action Handle (Unit {0}) → Action Statement (Unit {0})
on_handle m w = elim w.self.h_stmt [
  | none ↦ (raised null_dereference, w)
  | some h ↦ zoom (λ s. h) (λ h' s. record s { h_stmt = some h' }) m w
]

-- `exASSERT(m_pHStmt); exASSERT(m_pHStmt->IsAllocated());`
abbrev pub assert_handle : Action Statement (Unit {0})
assert_handle = do s ← get; ex_assert (is_some s.h_stmt); ex_assert (stmt_is_allocated s.h_stmt)

module _ (d : Driver) where
  -- The last owner of the handle lets it go, and the handle is destroyed. That it is the last one is
  -- taken for granted: the buffers that were bound give up their pointers when they are unbound, but
  -- one keeps its pointer, and so the handle, if the unbinding throws.
  unfoldable pub release_handle : Action Statement (Unit {0})
  unfolding destroy
  release_handle = do
    s ← get
    when (is_some s.h_stmt) (on_handle (destroy d stmt))
    modify (λ s. record s { h_stmt = none })

  -- `Reset`
  unfoldable pub reset : Action Statement (Unit {0})
  unfolding release_handle
  reset = do
    s ← get
    when s.bound_columns
        (on_handle (unbind_columns d stmt) >> modify (λ s. record s { bound_columns = false }))
    s ← get
    when s.bound_params
        (on_handle (reset_params d stmt) >> modify (λ s. record s { bound_params = false }))
    release_handle
    modify (λ s. record s { db = none })

  -- `~ExecutableStatement`
  unfoldable pub destroy_statement : Action Statement (Unit {0})
  unfolding unbind_columns reset_params release_handle
  destroy_statement = do
    s ← get
    when s.bound_params (catch (on_handle (reset_params d stmt)) (λ e. pure tt))
    when s.bound_columns (catch (on_handle (unbind_columns d stmt)) (λ e. pure tt))
    release_handle
