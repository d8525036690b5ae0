-- ===== src/Bindable/Life.antt =====
-- All sequences of calls of the methods of include/exodbc/SqlHandle.h and `ColumnBindable`.

use exodbc.Prelude.{ℕ, Bool, Option}
use exodbc.Odbc.{Driver, World}
use exodbc.Bindable.{release, allocate_stmt, free_stmt, bind_impl, destroy_bindable, Binding, Store}

module _ (d : Driver) where
  -- A call of a method of a handle or a buffer.
  infix 40 ◌⟶◌ ◌⟶*◌
  pub data ◌⟶◌ : World Store → World Store → Type 0 where
    allocate_step : (w : World Store) (o : ℕ) (p : Option ℕ) → w ⟶ (allocate_stmt d o p w).1
    bind_step :
        (w : World Store) (k : Binding) (nr b o : ℕ) (fits : Bool)
        → w ⟶ (bind_impl d k nr fits b o w).1
    release_step : (w : World Store) (k : Binding) (o : ℕ) → w ⟶ (release d k o w).1
    free_step : (w : World Store) (o : ℕ) → w ⟶ (free_stmt d o w).1
    destroy_step : (w : World Store) (b : ℕ) → w ⟶ (destroy_bindable d b w).1

  pub data ◌⟶*◌ : World Store → World Store → Type 0 where
    here : {w : World Store} → w ⟶* w
    after : {u v w : World Store} → u ⟶* v → v ⟶ w → u ⟶* w
