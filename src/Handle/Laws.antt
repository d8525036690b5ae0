-- ===== src/Handle/Laws.antt =====
-- The outcomes of the operations of include/exodbc/SqlHandle.h.
use exodbc.Prelude.{ℕ, ◌≡◌, ◌≢◌, Bool, true, false, Option, none, some, ◌∷◌, arith}
use exodbc.Odbc.{
  Driver, Ret, HandleType, DriverLaws, Result, World, error, invalid_handle, sql_free_handle,
  called, fired_free, fired_reset_params, fired_unbind_columns, ok, raised,
}
use exodbc.Handle.{
  new_handle, is_allocated, allocate_with_parent, free, destroy, reset_params, unbind_columns,
  Handle,
}

-- What `AllocateWithParent` may leave behind.
abbrev pub AllocateOutcome :
    World Handle → Option (Option ℕ) → Result (Unit {0}) × World Handle → Type 0
AllocateOutcome w p (ok _, w') =
    (is_allocated w.self ≡ false) × (is_allocated w'.self ≡ true) × (w'.self.parent ≡ p)
AllocateOutcome w p (raised e, w') = w'.self ≡ w.self

-- With a driver that writes a handle exactly if it succeeds, `AllocateWithParent` either succeeds,
-- and then there was no handle before, there is one now and the parent is remembered; or it throws,
-- and then the object is as before.
pub allocate_with_parent_outcome :
    (d : Driver) (t : HandleType) (p : Option (Option ℕ)) (w : World Handle)
    → DriverLaws d
    → AllocateOutcome w p (allocate_with_parent d t p w)
unfolding allocate_with_parent
allocate_with_parent_outcome d t p w laws = grind (arith, laws.alloc_out)

-- What `Free` may leave behind, for a handle `h` that the driver answers with the code `ret`.
abbrev pub FreeOutcome :
    World Handle → HandleType → ℕ → Ret → Result (Unit {0}) × World Handle → Type 0
FreeOutcome w t h error (r, w') =
    (w'.self ≡ w.self)
    × (w'.trace ≡ called (sql_free_handle t h) ∷ fired_free (some h) ∷ w.trace)
    × (r ≢ ok tt)
FreeOutcome w t h invalid_handle (r, w') =
    (w'.self ≡ new_handle)
    × (w'.trace ≡ called (sql_free_handle t h) ∷ fired_free (some h) ∷ w.trace)
    × (r ≢ ok tt)
FreeOutcome w t h _ (r, w') =
    (w'.self ≡ new_handle)
    × (w'.trace
        ≡ fired_unbind_columns none
          ∷ fired_reset_params none
          ∷ called (sql_free_handle t h)
          ∷ fired_free (some h)
          ∷ w.trace)
    × (r ≡ ok tt)

-- `Free` of an allocated handle announces it and calls the driver once. If the driver answers
-- SQL_ERROR it throws and keeps handle and parent; if SQL_INVALID_HANDLE it throws and forgets
-- both; otherwise it succeeds, forgets both and fires the signals for parameters and columns, which
-- then carry the null handle.
pub free_outcome :
    (d : Driver) (t : HandleType) (h : ℕ) (w : World Handle)
    → w.self.handle ≡ some h
    → FreeOutcome w t h (d (fired_free (some h) ∷ w.trace) (sql_free_handle t h)).ret (free d t w)
unfolding free
free_outcome d t h w e = ground arith

abbrev pub is_error : Ret → Bool
is_error error = true
is_error _ = false

-- What the destructor may leave behind: nothing is done if there is no handle.
abbrev pub DestroyOutcome :
    Driver → HandleType → World Handle → Option ℕ → Result (Unit {0}) × World Handle → Type 0
DestroyOutcome d t w none r = r ≡ (ok tt, w)
DestroyOutcome d t w (some h) r =
    (r.0 ≡ ok tt)
    × (is_allocated r.1.self
        ≡ is_error (d (fired_free (some h) ∷ w.trace) (sql_free_handle t h)).ret)

-- The destructor of a handle throws nothing. Without a handle it does nothing; with one, a handle is
-- left exactly if the driver answers the freeing with SQL_ERROR.
destroy_outcome :
    (d : Driver) (t : HandleType) (w : World Handle)
    → DestroyOutcome d t w w.self.handle (destroy d t w)
unfolding destroy new_handle
destroy_outcome d t w = ground arith

-- `ResetParams` and `UnbindColumns` leave the handle as it is.
pub unbind_columns_frame :
    (d : Driver) (t : HandleType) (w : World Handle) → (unbind_columns d t w).1.self ≡ w.self
unfolding unbind_columns
unbind_columns_frame d t w = ground arith

pub reset_params_frame :
    (d : Driver) (t : HandleType) (w : World Handle) → (reset_params d t w).1.self ≡ w.self
unfolding reset_params
reset_params_frame d t w = ground arith
