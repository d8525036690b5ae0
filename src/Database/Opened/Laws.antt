-- ===== src/Database/Opened/Laws.antt =====
-- The outcome of `Open` of src/Database.cpp.
use exodbc.Prelude.{ℕ, ◌≡◌, refl, true, false, Option, none, some}
use exodbc.Prelude.Texts.{Text}
use exodbc.Odbc.{Driver, Action, ◌>>=◌, DriverLaws, Result, World, ok, raised}
use exodbc.Odbc.Keeps.{Keeps, keeps_rules}
use exodbc.Odbc.Triple.{Ended}
use exodbc.SqlTypes.{}
use exodbc.Handle.{}
use exodbc.Props.{}
use exodbc.Props.Version.{TextLibrary}
use exodbc.Catalog.{}
use exodbc.Database.{Database}
use exodbc.Database.Open.{mark_open, finish_open, open_with_string, open_with_dsn}
use exodbc.Database.Opened.{IsReady, IsClosed}
use exodbc.Database.Opened.Steps.{Any, tried_open, tried_open-IsClosed, tried_open-IsReady}

-- How `Open` may end.
abbrev pub OpenOutcome : Result (Option (Unit {0})) × World Database → Type 0
OpenOutcome (ok (some a), w) = (w.self.db_is_open ≡ true) × IsReady w.self
OpenOutcome (ok none, w) = w.self.db_is_open ≡ false
OpenOutcome (raised e, w) = w.self.db_is_open ≡ false

marked-OpenOutcome :
    (r : Result (Option (Unit {0}))) (w : World Database)
    → IsClosed w.self
    → Ended IsReady Any (r, w)
    → OpenOutcome (elim r as (λ z. Result (Option (Unit {0})) × World Database) [
      | ok o ↦ mark_open o w
      | raised e ↦ (raised e, w)
    ])
marked-OpenOutcome (ok none) w c h = c
marked-OpenOutcome (ok (some a)) w c h = (refl, h)
marked-OpenOutcome (raised e) w c h = c

record Opens (m : Action Database (Option (Unit {0}))) : Type 0 where
  outcome : (w : World Database) → IsClosed w.self → OpenOutcome (m w)

module _ {A : Type 0} where
  Opens-on :
      (r : Result A) (w : World Database) (f : A → Action Database (Option (Unit {0})))
      → IsClosed w.self
      → ((a : A) → Opens (f a))
      → OpenOutcome (elim r as (λ z. Result (Option (Unit {0})) × World Database) [
        | ok a ↦ f a w
        | raised e ↦ (raised e, w)
      ])
  Opens-on (ok a) w f c k = (k a).outcome w c
  Opens-on (raised e) w f c k = c

  Opens-bind :
      (m : Action Database A) (f : A → Action Database (Option (Unit {0})))
      → Keeps IsClosed m
      → ((a : A) → Opens (f a))
      → Opens (m >>= f)
  Opens-bind m f k l = record { outcome = λ w c. Opens-on (m w).0 (m w).1 f (k.at w c) l }

module _ (d : Driver) (l : DriverLaws d) (char_size fuel : ℕ) (t : TextLibrary) where
  finish_open-Opens : Opens (finish_open d char_size fuel t)
  unfolding finish_open
  finish_open-Opens = record {
    outcome = λ w c.
        marked-OpenOutcome (tried_open d char_size fuel t w).0 (tried_open d char_size fuel t w).1
          ((tried_open-IsClosed d char_size fuel t).at w c)
          ((tried_open-IsReady d char_size fuel t l).ends w tt);
  }

  open_with_string-Opens : (s : Text) → Opens (open_with_string d char_size fuel t s)
  unfolding open_with_string
  open_with_string-Opens s = search (keeps_rules, Opens-bind, finish_open-Opens) depth 30 fits 9000

  open_with_dsn-Opens : (n u a : Text) → Opens (open_with_dsn d char_size fuel t n u a)
  unfolding open_with_dsn
  open_with_dsn-Opens n u a = search (keeps_rules, Opens-bind, finish_open-Opens) depth 30 fits 9000

  -- Both forms of Open, on a database that is not open: if one returns, and the fuel was enough, the
  -- database is open, with a statement of its own and a catalog; in every other case, an exception of
  -- any kind included, it is not open.
  pub open_outcome :
      (s n u a : Text) (w : World Database)
      → w.self.db_is_open ≡ false
      → OpenOutcome (open_with_string d char_size fuel t s w)
        × OpenOutcome (open_with_dsn d char_size fuel t n u a w)
  open_outcome s n u a w c =
      ((open_with_string-Opens s).outcome w c, (open_with_dsn-Opens n u a).outcome w c)
