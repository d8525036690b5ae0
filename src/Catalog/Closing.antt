-- ===== src/Catalog/Closing.antt =====
-- The statement of the catalog in src/DatabaseCatalog.cpp is closed after every result set.
use exodbc.Prelude.{ℕ, ◌≡◌, refl, ap, ◌∙◌, Option, none, some, List, [], ◌∷◌, arith}
use exodbc.Prelude.Texts.{}
use exodbc.Odbc.{
  Driver, Action, pure, catch, Call, Event, Result, World, sql_close, sql_free_stmt, called, ok,
  raised,
}
use exodbc.Odbc.Keeps.{Keeps, keeps_rules}
use exodbc.Handle.{Handle}
use exodbc.Props.{}
use exodbc.Props.Getters.{}
use exodbc.Catalog.{close_catalog_stmt, then_close, with_closer, DatabaseCatalog, Datum, Column}
use exodbc.Catalog.Rows.{}
use exodbc.Catalog.Frame.{Keeps-open_and_fetch}
use exodbc.Catalog.Search.{open_and_fetch, read_result_set}

abbrev Has : Handle → DatabaseCatalog → Type 0
Has h s = s.h_stmt ≡ h

abbrev pub newest : List Event → Option Event
newest [] = none
newest (e ∷ tr) = some e

module _ (d : Driver) (h : ℕ) where
  close_is_newest :
      (w : World DatabaseCatalog)
      → w.self.h_stmt.handle ≡ some h
      → newest (close_catalog_stmt d w).1.trace ≡ some (called (sql_free_stmt (some h) sql_close))
  unfolding close_catalog_stmt
  close_is_newest w e = ground (arith, e)

  caught_newest :
      (w : World DatabaseCatalog)
      → w.self.h_stmt.handle ≡ some h
      → newest (catch (close_catalog_stmt d) (λ e. pure tt) w).1.trace
        ≡ some (called (sql_free_stmt (some h) sql_close))
  unfolding close_catalog_stmt
  caught_newest w e = ground (arith, e)

  closed_after :
      {A : Type 0} (m : Action DatabaseCatalog A) (w : World DatabaseCatalog)
      → Keeps (λ s. s.h_stmt ≡ w.self.h_stmt) m
      → w.self.h_stmt.handle ≡ some h
      → newest (then_close d m w).1.trace ≡ some (called (sql_free_stmt (some h) sql_close))
  unfolding then_close
  closed_after m w k e = caught_newest (m w).1 (ap (λ x. x.handle) (k.at w refl) ∙ e)

  then_closed :
      {A : Type 0} (m : Action DatabaseCatalog A) (r : Result (Unit {0}))
      (w w' : World DatabaseCatalog)
      → newest w'.trace ≡ some (called (sql_free_stmt (some h) sql_close))
      → newest (then_close d m w').1.trace ≡ some (called (sql_free_stmt (some h) sql_close))
      → newest
          (elim r as (λ z. Result A × World DatabaseCatalog) [
            | ok a ↦ then_close d m w'
            | raised e ↦ (raised e, w')
          ]).1.trace
        ≡ some (called (sql_free_stmt (some h) sql_close))
  then_closed m (ok a) w w' k l = l
  then_closed m (raised e) w w' k l = k

  close-Keeps : (s : Handle) → Keeps (Has s) (close_catalog_stmt d)
  unfolding close_catalog_stmt
  close-Keeps s = search keeps_rules depth 20 fits 5000

  -- However the reading of a result set ends, by a row that cannot be read, by an error while rows are
  -- fetched or regularly, the last thing that happens is that the cursor of the catalog's statement is
  -- closed.
  pub read_result_set-closed :
      {A : Type 0} (fuel : ℕ) (call : Option ℕ → Call) (cs : List Column) (f : List Datum → A)
      (w : World DatabaseCatalog)
      → w.self.h_stmt.handle ≡ some h
      → newest (read_result_set d fuel call cs f w).1.trace
        ≡ some (called (sql_free_stmt (some h) sql_close))
  unfolding read_result_set with_closer
  read_result_set-closed fuel call cs f w e =
      let still = (close-Keeps w.self.h_stmt).at w refl in
      then_closed (open_and_fetch d fuel call cs f) (close_catalog_stmt d w).0 w
        (close_catalog_stmt d w).1 (close_is_newest w e)
        (closed_after (open_and_fetch d fuel call cs f) (close_catalog_stmt d w).1
          (Keeps-open_and_fetch (Has (close_catalog_stmt d w).1.self.h_stmt)
            (λ n. record { at = λ v x. x }) d fuel call cs f)
          (ap (λ x. x.handle) still ∙ e))
