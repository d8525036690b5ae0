-- ===== src/Database/Life.antt =====
-- What can be done with a `Database` of src/Database.cpp, and what holds through its life.
use exodbc.Prelude.{
  ℕ, ◌≡◌, sym, ap, ◌∙◌, inl, inr, Bool, true, false, not, ◌||◌, Option, none, some, arith, is_some,
  Option-cases,
}
use mathlib.Core.Path.{subst}
use exodbc.Prelude.Texts.{Text}
use exodbc.Odbc.{
  Driver, Action, ◌>>=◌, ◌>>◌, get, modify, ex_assert, Completion, DriverLaws, Result, World, dbc,
  ok, raised,
}
use exodbc.Odbc.Keeps.{Keeps}
use exodbc.TypeMap.{TypeMap}
use exodbc.Handle.{allocate_with_parent, Handle}
use exodbc.Handle.Laws.{AllocateOutcome, allocate_with_parent_outcome}
use exodbc.Props.Version.{TextLibrary}
use exodbc.Database.{
  on_dbc, set_type_map, init_database, exec_sql, CommitMode, TransactionIsolationMode, Env,
  Database, ExecFailMode,
}
use exodbc.Database.Close.{close_database}
use exodbc.Database.Open.{open_with_string, open_with_dsn}
use exodbc.Database.Transactions.{end_trans, set_commit_mode, set_transaction_isolation_mode}
use exodbc.Database.Frame.{
  IsConnectable, end_trans-Keeps, set_commit_mode-Keeps, exec_sql-Keeps, set_isolation-Keeps,
  close_database-Keeps, open_with_string-Keeps, open_with_dsn-Keeps,
}

module _ (d : Driver) (char_size fuel : ℕ) (t : TextLibrary) where
  -- A call of a method, which may return or throw.
  infix 40 ◌⟶◌ ◌⟶*◌
  pub data ◌⟶◌ : World Database → World Database → Type 0 where
    init_step : (w : World Database) (e : Option Env) → w ⟶ (init_database d e w).1
    open_string_step :
        (w : World Database) (s : Text) → w ⟶ (open_with_string d char_size fuel t s w).1
    open_dsn_step :
        (w : World Database) (n u a : Text) → w ⟶ (open_with_dsn d char_size fuel t n u a w).1
    close_step : (w : World Database) → w ⟶ (close_database d w).1
    end_step : (w : World Database) (c : Completion) → w ⟶ (end_trans d c w).1
    commit_mode_step : (w : World Database) (m : CommitMode) → w ⟶ (set_commit_mode d m w).1
    isolation_step :
        (w : World Database) (m : TransactionIsolationMode)
        → w ⟶ (set_transaction_isolation_mode d m w).1
    exec_step : (w : World Database) (s : Text) (m : ExecFailMode) → w ⟶ (exec_sql d s m w).1
    type_map_step : (w : World Database) (m : Option TypeMap) → w ⟶ (set_type_map m w).1

  pub data ◌⟶*◌ : World Database → World Database → Type 0 where
    here : {w : World Database} → w ⟶* w
    after : {u v w : World Database} → u ⟶* v → v ⟶ w → u ⟶* w

-- The environment is known exactly if the connection's handle is allocated, and only then can the
-- database be open.
unfoldable pub IsSound : Database → Type 0
IsSound s =
    (is_some s.env ≡ is_some s.h_dbc.handle) × ((not s.db_is_open || is_some s.h_dbc.handle) ≡ true)

IsConnectable-IsSound : (s : Database) → IsConnectable s → IsSound s
unfolding IsSound
IsConnectable-IsSound s (k, l) = ground (arith, k, l)

-- A method that keeps a connectable database so, and changes no other.
IsSound-after :
    {A : Type 0} (m : Action Database A) (w : World Database)
    → Keeps IsConnectable m
    → (w.self.h_dbc.handle ≡ none → w.self.db_is_open ≡ false → (m w).1.self ≡ w.self)
    → IsSound w.self
    → IsSound (m w).1.self
unfolding IsSound
IsSound-after m w k l (e, o) = elim (Option-cases w.self.h_dbc.handle) [
  | inl n ↦ subst IsSound (sym (l n (ground (arith, n, o)))) (e, o)
  | inr (h, s) ↦ IsConnectable-IsSound (m w).1.self (k.at w (e ∙ ap is_some s, ap is_some s))
]

after_assert :
    {A : Type 0} (b : Bool) (m : Action Database A) (w : World Database)
    → IsSound w.self
    → IsSound (m w).1.self
    → IsSound ((ex_assert b >> m) w).1.self
after_assert true m w k l = l
after_assert false m w k l = k

type_map-IsSound :
    (m : Option TypeMap) (w : World Database) → IsSound w.self → IsSound (set_type_map m w).1.self
unfolding IsSound set_type_map
type_map-IsSound m w k = k

-- `Init`, for what allocating the handle comes to.
allocated :
    (e : Env) (w : World Database) (r : Result (Unit {0}) × World Handle)
    → AllocateOutcome (record { self = w.self.h_dbc; trace = w.trace }) (some e.h_env) r
    → IsSound w.self
    → IsSound
        (((λ x. (r.0, record { self = record (x.self) { h_dbc = r.1.self }; trace = r.1.trace }))
            >>= λ a. modify (λ s. record s { env = some e }))
          w).1.self
unfolding IsSound
allocated e w (ok a, w') (k, l, m) (n, o) = ground (arith, l)
allocated e w (raised x, w') k (n, o) = ground (arith, k, n, o)

init-IsSound :
    (d : Driver) (e : Option Env) (w : World Database)
    → DriverLaws d
    → IsSound w.self
    → IsSound (init_database d e w).1.self
unfolding init_database
init-IsSound d none w l k = k
init-IsSound d (some e) w l k =
    let rest =
      on_dbc (allocate_with_parent d dbc (some e.h_env))
      >> modify (λ s. record s { env = some e }) in
    after_assert (is_some e.h_env) (get >>= λ s. ex_assert (not (is_some s.env)) >> rest) w k (
      after_assert (not (is_some w.self.env)) rest w k (
        allocated e w
          (allocate_with_parent d dbc (some e.h_env)
            (record { self = w.self.h_dbc; trace = w.trace }))
          (allocate_with_parent_outcome d dbc (some e.h_env)
            (record { self = w.self.h_dbc; trace = w.trace }) l)
          k))

-- A method that looks at the connection's handle, or whether the database is open, before all else.
module _ (d : Driver) (w : World Database) (h : w.self.h_dbc.handle ≡ none)
    (o : w.self.db_is_open ≡ false) where
  end_trans-idle : (c : Completion) → (end_trans d c w).1.self ≡ w.self
  unfolding end_trans
  end_trans-idle c = ground (arith, h)

  set_commit_mode-idle : (m : CommitMode) → (set_commit_mode d m w).1.self ≡ w.self
  unfolding set_commit_mode
  set_commit_mode-idle m = ground (arith, h)

  set_isolation-idle :
      (m : TransactionIsolationMode) → (set_transaction_isolation_mode d m w).1.self ≡ w.self
  unfolding set_transaction_isolation_mode
  set_isolation-idle m = ground (arith, h)

  close_database-idle : (close_database d w).1.self ≡ w.self
  unfolding close_database
  close_database-idle = ground (arith, o)

  exec_sql-idle : (s : Text) (m : ExecFailMode) → (exec_sql d s m w).1.self ≡ w.self
  unfolding exec_sql
  exec_sql-idle s m = ground (arith, o)

  module _ (char_size fuel : ℕ) (t : TextLibrary) where
    open_with_string-idle : (s : Text) → (open_with_string d char_size fuel t s w).1.self ≡ w.self
    unfolding open_with_string
    open_with_string-idle s = ground (arith, h)

    open_with_dsn-idle : (n u a : Text) → (open_with_dsn d char_size fuel t n u a w).1.self ≡ w.self
    unfolding open_with_dsn
    open_with_dsn-idle n u a = ground (arith, h, o)

module _ (d : Driver) (l : DriverLaws d) (char_size fuel : ℕ) (t : TextLibrary) where
  step-IsSound :
      {v w : World Database} → ◌⟶◌ d char_size fuel t v w → IsSound v.self → IsSound w.self
  step-IsSound (init_step w e) k = init-IsSound d e w l k
  step-IsSound (open_string_step w s) k =
      IsSound-after _ w (open_with_string-Keeps d char_size fuel t s)
        (λ h o. open_with_string-idle d w h o char_size fuel t s) k
  step-IsSound (open_dsn_step w n u a) k =
      IsSound-after _ w (open_with_dsn-Keeps d char_size fuel t n u a)
        (λ h o. open_with_dsn-idle d w h o char_size fuel t n u a) k
  step-IsSound (close_step w) k =
      IsSound-after _ w (close_database-Keeps d) (close_database-idle d w) k
  step-IsSound (end_step w c) k =
      IsSound-after _ w (end_trans-Keeps d c) (λ h o. end_trans-idle d w h o c) k
  step-IsSound (commit_mode_step w m) k =
      IsSound-after _ w (set_commit_mode-Keeps d m) (λ h o. set_commit_mode-idle d w h o m) k
  step-IsSound (isolation_step w m) k =
      IsSound-after _ w (set_isolation-Keeps d m) (λ h o. set_isolation-idle d w h o m) k
  step-IsSound (exec_step w s m) k =
      IsSound-after _ w (exec_sql-Keeps d s m) (λ h o. exec_sql-idle d w h o s m) k
  step-IsSound (type_map_step w m) k = type_map-IsSound m w k

  -- From any sound database, in particular a new one, every sequence of calls leads to a sound one,
  -- whichever of the calls throw: the environment is known exactly if the connection's handle is
  -- allocated, and the database is open only then.
  pub reached-IsSound :
      {v w : World Database} → ◌⟶*◌ d char_size fuel t v w → IsSound v.self → IsSound w.self
  reached-IsSound here k = k
  reached-IsSound (after r s) k = step-IsSound s (reached-IsSound r k)
