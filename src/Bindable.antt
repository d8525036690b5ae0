-- ===== src/Bindable.antt =====
-- `ColumnBindable` of include/exodbc/ColumnBuffer.h with the signals of include/exodbc/SqlHandle.h:
-- which buffers listen to which statement handles, and which memory the driver may still write to.
-- What the class has once for columns and once for parameters is one function of a `Binding`.
pub mod Signals
pub mod Bind
pub mod Destroy
pub mod Free
pub mod Held
pub mod Laws
pub mod Life
pub mod Steps
use exodbc.Prelude.{
  ℕ, Bool, true, false, ◌&&◌, Option, none, some, List, [], ◌∷◌, ◌++◌, ltb, ◌==◌, if◌then◌else◌,
  is_some,
}
use exodbc.Odbc.{
  Driver, Action, ◌>>=◌, ◌>>◌, pure, get, modify, ex_assert, catch, invoke, throw_ifn_success, zoom,
  Call, stmt, sql_bind_col, sql_bind_parameter,
}
use exodbc.Handle.{new_handle, allocate_with_parent, free, reset_params, unbind_columns, Handle}

pub data Binding : Type 0 where
  columns params : Binding

abbrev pub same : Binding → Binding → Bool
same columns columns = true
same params params = true
same _ _ = false

-- The members of all objects. Buffers and handles are numbered, as by their addresses. A connection
-- is known by its buffer and the SQLHSTMT that it was made for: `slots k o` are those of one signal of
-- the handle `o`, and `connections k b` is one of the two maps of the buffer `b`, from an SQLHSTMT to
-- the handle of which it holds a pointer.
pub record Store : Type 0 where
  pub handles : ℕ → Handle
  pub slots : Binding → ℕ → List (ℕ × ℕ)
  pub connections : Binding → ℕ → List (ℕ × ℕ)

unfoldable pub new_store : Store
unfolding new_handle
new_store = record { handles = λ o. new_handle; slots = λ k o. []; connections = λ k b. [] }

abbrev pub set_handle : ℕ → Handle → Store → Store
set_handle o h s = record s { handles = λ x. if x == o then h else s.handles x }

abbrev pub set_slots : Binding → ℕ → List (ℕ × ℕ) → Store → Store
set_slots k o xs s = record s { slots = λ j x. if same j k && x == o then xs else s.slots j x }

abbrev pub set_connections : Binding → ℕ → List (ℕ × ℕ) → Store → Store
set_connections k b xs s = record s {
  connections = λ j x. if same j k && x == b then xs else s.connections j x;
}

abbrev pub on_handle : {A : Type 0} → ℕ → Action Handle A → Action Store A
on_handle o m = zoom (λ s. s.handles o) (set_handle o) m

-- `find` and `erase` of a map, in which no key occurs twice.
abbrev pub find : ℕ → List (ℕ × ℕ) → Option ℕ
find h [] = none
find h ((x, o) ∷ r) = if x == h then some o else find h r

abbrev pub erase_key : ℕ → List (ℕ × ℕ) → List (ℕ × ℕ)
erase_key h [] = []
erase_key h ((x, o) ∷ r) = let rest = erase_key h r in if x == h then rest else (x, o) ∷ rest

abbrev pub erase_slot : ℕ → ℕ → List (ℕ × ℕ) → List (ℕ × ℕ)
erase_slot b h [] = []
erase_slot b h ((x, y) ∷ r) =
    let rest = (x, y) ∷ erase_slot b h r in if x == b && y == h then r else rest

-- `connection::disconnect`
abbrev pub disconnect : Binding → ℕ → ℕ → ℕ → Store → Store
disconnect k b h o s = set_slots k o (erase_slot b h (s.slots k o)) s

-- `OnResetParams` and `OnUnbindColumns`. SQL_NULL_HANDLE is no key of the maps.
abbrev pub erase_connection : Binding → ℕ → ℕ → Option ℕ → Store → Store
erase_connection k b h none s = s
erase_connection k b h (some o) s =
    set_connections k b (erase_key h (s.connections k b)) (disconnect k b h o s)

unfoldable pub on_released : Binding → Option ℕ → ℕ → Store → Store
on_released k none b s = s
on_released k (some h) b s = erase_connection k b h (find h (s.connections k b)) s

-- A signal that is fired by a handle with this SQLHSTMT.
unfoldable pub notify : Binding → Option ℕ → List (ℕ × ℕ) → Store → Store
notify k h [] s = s
notify k h ((b, x) ∷ r) s = notify k h r (on_released k h b s)

unfoldable pub fire_signal : Binding → ℕ → Action Store (Unit {0})
unfolding notify
fire_signal k o = modify (λ s. notify k (s.handles o).handle (s.slots k o) s)

-- The buffer stands for its memory in the driver's call.
abbrev pub bind_call : Binding → Option ℕ → ℕ → ℕ → Call
bind_call columns h nr b = sql_bind_col h nr (b ∷ [])
bind_call params h nr b = sql_bind_parameter h nr (b ∷ [])

-- A new connection, unless there is one for this SQLHSTMT.
abbrev pub add_connection : Binding → ℕ → ℕ → ℕ → Option ℕ → Store → Store
add_connection k b o h (some x) s = s
add_connection k b o h none s =
    set_connections k b ((h, o) ∷ s.connections k b)
      (set_slots k o (s.slots k o ++ ((b, h) ∷ [])) s)

unfoldable pub connect : Binding → ℕ → ℕ → Option ℕ → Store → Store
connect k b o none s = s
connect k b o (some h) s = add_connection k b o h (find h (s.connections k b)) s

module _ (d : Driver) where
  abbrev pub release_bindings : Binding → Action Handle (Unit {0})
  release_bindings columns = unbind_columns d stmt
  release_bindings params = reset_params d stmt

  -- `ResetParams` and `UnbindColumns` of a handle with its signal
  unfoldable pub release : Binding → ℕ → Action Store (Unit {0})
  unfolding unbind_columns reset_params fire_signal
  release k o = on_handle o (release_bindings k) >> fire_signal k o

  unfoldable pub allocate_stmt : ℕ → Option ℕ → Action Store (Unit {0})
  unfolding allocate_with_parent
  allocate_stmt o p = on_handle o (allocate_with_parent d stmt (some p))

  -- `Free` with its signals
  unfoldable pub free_stmt : ℕ → Action Store (Unit {0})
  unfolding free fire_signal
  free_stmt o = on_handle o (free d stmt) >> (fire_signal params o >> fire_signal columns o)

  -- `BindColumnImpl` and `BindParamImpl`; `fits` says whether the assertions on the buffer's memory
  -- and on the parameter's type hold.
  unfoldable pub bind_impl : Binding → ℕ → Bool → ℕ → ℕ → Action Store (Unit {0})
  unfolding connect
  bind_impl k nr fits b o = do
    ex_assert (ltb 0 nr)
    s ← get
    ex_assert (is_some (s.handles o).handle)
    ex_assert fits
    r ← invoke d (bind_call k (s.handles o).handle nr b)
    throw_ifn_success r
    modify (connect k b o (s.handles o).handle)

  -- One loop of the destructor, over the entries of a map.
  unfoldable pub release_each : Binding → ℕ → List (ℕ × ℕ) → Action Store (Unit {0})
  unfolding release
  release_each k b [] = pure tt
  release_each k b ((h, o) ∷ r) = do
    modify (disconnect k b h o)
    catch (release k o) (λ e. pure tt)
    release_each k b r

  -- `~ColumnBindable`, after which the maps are gone.
  unfoldable pub destroy_bindable : ℕ → Action Store (Unit {0})
  unfolding release_each
  destroy_bindable b = do
    s ← get
    release_each params b (s.connections params b)
    s ← get
    release_each columns b (s.connections columns b)
    modify (λ s. set_connections params b [] (set_connections columns b [] s))
